-- ===== src/Bands/Ledger.antt =====
-- system/services/oom_priority/src/oom_priority/ledger.py, and the hook bin/claude_shed_notice_hook.py:
-- which processes were shed, and who was told. The ledger is the list of its records, as `read_records`
-- gives them; what `json.dumps` writes is read back.
use plain_text_gtd.Prelude.{
  ℕ, Bool, true, false, not, ◌&&◌, List, [], ◌∷◌, ◌++◌, Option, none, some, if◌then◌else◌, key_le,
  textual,
}
use plain_text_gtd.Text.{Text, lit, is_empty}
use plain_text_gtd.Text.Decimal.{decimal_text}
use plain_text_gtd.Text.Json.{JsonDict, JsonValue, json_text, json_other, str_of, has_text}

abbrev pub record_type_process_shed : Text
record_type_process_shed = lit "process_shed"

abbrev pub record_type_notice_delivered : Text
record_type_notice_delivered = lit "notice_delivered"

abbrev name_or_none : Option Text → JsonValue
name_or_none none = json_other (lit "None")
name_or_none (some name) = json_text name

abbrev bool_or_none : Option Bool → JsonValue
bool_or_none none = json_other (lit "None")
bool_or_none (some true) = json_other (lit "True")
bool_or_none (some false) = json_other (lit "False")

-- The record of `append_shed_record`
unfoldable pub shed_record : Text → ℕ → Text → Option Text → Option Bool → JsonDict
unfolding decimal_text
shed_record timestamp pid comm agent_name is_worker =
    (lit "timestamp", json_text timestamp)
    ∷ (lit "type", json_text record_type_process_shed)
    ∷ (lit "pid", json_other (decimal_text pid))
    ∷ (lit "comm", json_text comm)
    ∷ (lit "agent_name", name_or_none agent_name)
    ∷ (lit "is_worker", bool_or_none is_worker)
    ∷ []

-- The record of `append_notice_delivered`
unfoldable pub notice_record : Text → Text → Text → JsonDict
notice_record timestamp agent_name up_to_timestamp =
    (lit "timestamp", json_text timestamp)
    ∷ (lit "type", json_text record_type_notice_delivered)
    ∷ (lit "agent_name", json_text agent_name)
    ∷ (lit "up_to_timestamp", json_text up_to_timestamp)
    ∷ []

-- `a <= b` for texts
unfoldable pub at_most : Text → Text → Bool
unfolding key_le
at_most = key_le (textual (λ t. t) ∷ [])

-- `max` of a list, with the best so far
unfoldable pub max_from : Text → List Text → Text
unfolding at_most
max_from best [] = best
max_from best (t ∷ ts) = if at_most t best then max_from best ts else max_from t ts

abbrev pub max_or_blank : List Text → Text
max_or_blank [] = []
max_or_blank (t ∷ ts) = max_from t ts

-- `record.get("type") == kind and record.get("agent_name") == agent_name`
unfoldable pub is_record_of : Text → Text → JsonDict → Bool
unfolding has_text
is_record_of kind agent_name record_read =
    has_text (lit "type") kind record_read && has_text (lit "agent_name") agent_name record_read

-- The list that `latest_delivered_timestamp` makes
unfoldable pub delivered : List JsonDict → Text → List Text
unfolding is_record_of str_of
delivered [] agent_name = []
delivered (r ∷ records) agent_name =
    let rest = delivered records agent_name in
    if is_record_of record_type_notice_delivered agent_name r
    then str_of (lit "up_to_timestamp") r ∷ rest
    else rest

-- `latest_delivered_timestamp`
unfoldable pub latest_delivered_timestamp : List JsonDict → Text → Text
unfolding delivered max_from
latest_delivered_timestamp records agent_name = max_or_blank (delivered records agent_name)

-- The loop of `pending_shed_timestamps`
unfoldable pub pending_after : Text → List JsonDict → Text → List Text
unfolding is_record_of str_of at_most
pending_after after [] agent_name = []
pending_after after (r ∷ records) agent_name =
    let rest = pending_after after records agent_name in
    let timestamp = str_of (lit "timestamp") r in
    if is_record_of record_type_process_shed agent_name r
    then (if not (is_empty timestamp) && not (at_most timestamp after)
        then timestamp ∷ rest
        else rest)
    else rest

-- `pending_shed_timestamps`
unfoldable pub pending_shed_timestamps : List JsonDict → Text → List Text
unfolding latest_delivered_timestamp pending_after
pending_shed_timestamps records agent_name =
    pending_after (latest_delivered_timestamp records agent_name) records agent_name

-- `has_pending_shed`
unfoldable pub has_pending_shed : List JsonDict → Text → Bool
unfolding pending_shed_timestamps
has_pending_shed records agent_name = elim (pending_shed_timestamps records agent_name) [
  | [] ↦ false
  | t ∷ ts ↦ true
]

abbrev pub noticed : Text → Text → List Text → List JsonDict → Bool × List JsonDict
noticed now agent_name [] records = (false, records)
noticed now agent_name (t ∷ ts) records =
    (true, records ++ (notice_record now agent_name (max_or_blank (t ∷ ts)) ∷ []))

-- The hook: whether it prints its note, and the ledger after it.
unfoldable pub shed_notice_hook : Text → Text → List JsonDict → Bool × List JsonDict
unfolding pending_shed_timestamps notice_record max_from
shed_notice_hook now agent_name records =
    if is_empty agent_name
    then (false, records)
    else noticed now agent_name (pending_shed_timestamps records agent_name) records
