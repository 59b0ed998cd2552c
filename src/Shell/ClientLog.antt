-- ===== src/Shell/ClientLog.antt =====
-- client_activity.py: what the log of the clients says of each client. An event is what `json.loads`
-- makes of a line: a dict, of whose values the code reads texts, and others by `str` alone.
use plain_text_gtd.Prelude.{
  ℕ, Bool, true, false, ◌&&◌, ◌||◌, List, [], ◌∷◌, ◌++◌, map, length, take, leb, Option, none, some,
  Assoc, lookup, assign, text_eq, option_eq, if◌then◌else◌, latest, sort, key_le, textual,
}
use mathlib.Core.List.{reverse}
use plain_text_gtd.Text.{Text, lit, is_empty}
use plain_text_gtd.Text.Json.{JsonDict, str_of, has_text}

abbrev pub LogEvent : Type 0
LogEvent = JsonDict

abbrev pub message_event_type : Text
message_event_type = lit "message"

abbrev pub layout_switch_event_type : Text
layout_switch_event_type = lit "layout_switch"

abbrev pub client_connected_event_type : Text
client_connected_event_type = lit "client_connected"

-- `MESSAGE_TEXT_TRUNCATION_LIMIT`
abbrev pub message_text_truncation_limit : ℕ
message_text_truncation_limit = 500

-- `RECENT_MESSAGES_PER_CLIENT`
abbrev pub recent_messages_per_client : ℕ
recent_messages_per_client = 5

-- `truncate_message_text`
unfoldable pub truncate_message_text : Text → Text × Bool
truncate_message_text text =
    if leb (length text) message_text_truncation_limit
    then (text, false)
    else (take message_text_truncation_limit text, true)

abbrev pub unless_blank : Text → Option Text
unless_blank [] = none
unless_blank (c ∷ s) = some (c ∷ s)

-- `event.get("type") == MESSAGE_EVENT_TYPE`
unfoldable pub is_message : LogEvent → Bool
unfolding has_text
is_message event = has_text (lit "type") message_event_type event

-- `_event_layout_slug`
unfoldable pub event_layout_slug : LogEvent → Option Text
unfolding has_text str_of is_message
event_layout_slug event =
    if has_text (lit "type") layout_switch_event_type event
    then unless_blank (str_of (lit "to_layout_slug") event)
    else if is_message event || has_text (lit "type") client_connected_event_type event
    then unless_blank (str_of (lit "layout_slug") event)
    else none

pub record Message : Type 0 where
  pub timestamp : Text
  pub agent_name : Text
  pub text : Text

-- What is gathered of one client.
pub record ClientSummary : Type 0 where
  pub client_id : Text
  pub device_kind : Text
  pub current_layout : Option Text
  pub last_seen : Text
  pub is_connected : Bool
  pub recent_messages : List Message

abbrev pub new_summary : Text → ClientSummary
new_summary client_id = record {
  client_id = client_id;
  device_kind = [];
  current_layout = none;
  last_seen = [];
  is_connected = false;
  recent_messages = [];
}

unfoldable pub message_of : LogEvent → Message
unfolding str_of
message_of event = record {
  timestamp = str_of (lit "timestamp") event;
  agent_name = str_of (lit "agent_name") event;
  text = str_of (lit "message_text") event;
}

abbrev or_kept {ℓ} : {A : Type ℓ} → Option A → Option A → Option A
or_kept none old = old
or_kept (some a) old = some a

-- What an event does to the summary of its client.
unfoldable pub noted : LogEvent → ClientSummary → ClientSummary
unfolding str_of event_layout_slug is_message message_of
noted event s = record s {
  last_seen = str_of (lit "timestamp") event;
  device_kind =
      if is_empty (str_of (lit "device_kind") event)
      then s.device_kind
      else str_of (lit "device_kind") event;
  current_layout = or_kept (event_layout_slug event) s.current_layout;
  recent_messages =
      if is_message event
      then latest recent_messages_per_client (s.recent_messages ++ (message_of event ∷ []))
      else s.recent_messages;
}

-- `setdefault`
abbrev pub found_or_new : Text → Option ClientSummary → ClientSummary
found_or_new client_id none = new_summary client_id
found_or_new client_id (some s) = s

unfoldable pub tally : LogEvent → Assoc Text ClientSummary → Assoc Text ClientSummary
unfolding str_of noted lookup assign text_eq
tally event d =
    let client_id = str_of (lit "client_id") event in
    if is_empty client_id
    then d
    else assign client_id (noted event (found_or_new client_id (lookup client_id d))) d

unfoldable pub tally_all : List LogEvent → Assoc Text ClientSummary → Assoc Text ClientSummary
unfolding tally
tally_all [] d = d
tally_all (event ∷ events) d = tally_all events (tally event d)

abbrev marked : Text → Option ClientSummary → Assoc Text ClientSummary → Assoc Text ClientSummary
marked client_id none d = d
marked client_id (some s) d = assign ⦃e = text_eq⦄ client_id (record s { is_connected = true }) d

-- The loop over the clients that are connected; a set is a list here.
unfoldable pub mark_connected : List Text → Assoc Text ClientSummary → Assoc Text ClientSummary
unfolding lookup assign text_eq
mark_connected [] d = d
mark_connected (client_id ∷ ids) d = mark_connected ids (marked client_id (lookup client_id d) d)

-- `find_client_id_for_agent`, on the events from the last to the first
unfoldable pub sender_in : Text → List LogEvent → Option Text
unfolding is_message has_text str_of
sender_in agent_id [] = none
sender_in agent_id (event ∷ events) =
    let rest = sender_in agent_id events in
    if is_message event && has_text (lit "agent_id") agent_id event
    then unless_blank (str_of (lit "client_id") event)
    else rest

-- `find_client_id_for_agent`
unfoldable pub find_client_id_for_agent : List LogEvent → Text → Option Text
unfolding sender_in
find_client_id_for_agent events agent_id =
    if is_empty agent_id then none else sender_in agent_id (reverse events)

-- `sorted(…, key=…, reverse=True)`, which keeps the order of equal keys
unfoldable pub is_seen_later : ClientSummary → ClientSummary → Bool
unfolding key_le
is_seen_later a b = key_le (textual (λ s. s.last_seen) ∷ []) b a

-- `summarize_client_activity`
unfoldable pub summarize_client_activity : List LogEvent → List Text → List ClientSummary
unfolding tally_all mark_connected is_seen_later sort
summarize_client_activity events connected_client_ids =
    sort is_seen_later (map (λ e. e.1) (mark_connected connected_client_ids (tally_all events [])))
