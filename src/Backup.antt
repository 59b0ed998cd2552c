-- ===== src/Backup.antt =====
-- system/services/host_backup/src/host_backup/cli.py: the command that starts a backup and waits for its
-- end. The log is what `json.loads` makes of its lines, where a line is no dict nothing; the type of an
-- event is no list and no dict. A wait is given what each of its polls finds new in the log, up to its
-- deadline. A set is a list of its elements.
use plain_text_gtd.Prelude.{
  ℕ, Bool, not, ◌||◌, List, [], ◌∷◌, Option, none, some, lookup, text_eq, ◌==◌, contains, select,
  latest, if◌then◌else◌,
}
use plain_text_gtd.Text.{Text, lit}
use plain_text_gtd.Text.Json.{JsonDict, JsonValue, json_text, json_other, has_text}
pub mod Inflight
pub mod Config
pub mod Quoted

-- `event.get("type") == t`
unfoldable pub has_type : Text → JsonDict → Bool
unfolding has_text
has_type t event = has_text (lit "type") t event

-- `event.get("type") in TICK_TERMINAL_EVENT_TYPES`
unfoldable pub is_terminal : JsonDict → Bool
unfolding has_type
is_terminal event =
    has_type (lit "RESTIC_BACKUP_SUCCEEDED") event
    || (has_type (lit "RESTIC_BACKUP_FAILED") event
        || (has_type (lit "SNAPSHOT_FAILED") event
            || (has_type (lit "TICK_SKIPPED_DUE_TO_MISSING_SECRETS") event
                || has_type (lit "TICK_ERROR") event)))

abbrev text_or_none : Option JsonValue → Option Text
text_or_none none = none
text_or_none (some (json_text t)) = some t
text_or_none (some (json_other t)) = none

-- `event.get("tick_id")`, where it is a text
unfoldable pub tick_id : JsonDict → Option Text
unfolding lookup text_eq
tick_id event = text_or_none (lookup (lit "tick_id") event)

pub record TickIds : Type 0 where
  pub started : List Text
  pub finished : List Text

abbrev pub scan_tick : Option Text → JsonDict → TickIds → TickIds
scan_tick none event s = s
scan_tick (some id) event s =
    if has_type (lit "BACKUP_STARTED") event
    then record s { started = id ∷ s.started }
    else if is_terminal event
    then record s { finished = id ∷ s.finished }
    else s

-- One turn of the loop of `_scan_for_inflight_tick_ids`
unfoldable pub scan_line : Option JsonDict → TickIds → TickIds
unfolding has_text tick_id has_type is_terminal
scan_line none s = s
scan_line (some event) s =
    if has_text (lit "source") (lit "backup") event then scan_tick (tick_id event) event s else s

unfoldable pub scan_lines : List (Option JsonDict) → TickIds → TickIds
unfolding scan_line
scan_lines [] s = s
scan_lines (line ∷ lines) s = scan_lines lines (scan_line line s)

abbrev pub no_ticks : TickIds
no_ticks = record { started = []; finished = [] }

-- `_scan_for_inflight_tick_ids`
unfoldable pub scan_for_inflight_tick_ids : ℕ → List (Option JsonDict) → List Text
unfolding scan_lines text_eq
scan_for_inflight_tick_ids max_lines lines =
    let s = scan_lines (latest max_lines lines) no_ticks in
    select (λ id. not (contains ⦃e = text_eq⦄ s.finished id)) s.started

-- `pending_tick_ids.discard(tick_id)`, where there is a text
unfoldable pub discard : Option Text → List Text → List Text
unfolding text_eq
discard none pending = pending
discard (some id) pending = select (λ other. not (◌==◌ ⦃e = text_eq⦄ other id)) pending

-- The loop over what one poll finds new
unfoldable pub discard_ended : List JsonDict → List Text → List Text
unfolding is_terminal discard tick_id
discard_ended [] pending = pending
discard_ended (event ∷ events) pending =
    discard_ended events (if is_terminal event then discard (tick_id event) pending else pending)

-- The loop of `_wait_for_no_inflight_backup`
unfoldable pub wait_for_pending : List (List JsonDict) → List Text → List Text
unfolding discard_ended
wait_for_pending [] pending = pending
wait_for_pending (events ∷ polls) [] = []
wait_for_pending (events ∷ polls) (id ∷ pending) =
    wait_for_pending polls (discard_ended events (id ∷ pending))

-- `_wait_for_no_inflight_backup`, with the ids that are left when it returns
unfoldable pub wait_for_no_inflight_backup :
    List (Option JsonDict) → List (List JsonDict) → List Text
unfolding scan_for_inflight_tick_ids wait_for_pending
wait_for_no_inflight_backup lines polls =
    wait_for_pending polls (scan_for_inflight_tick_ids 200 lines)

abbrev first_terminal : List JsonDict → Option JsonDict → Option JsonDict
first_terminal [] other = other
first_terminal (event ∷ events) other =
    let rest = first_terminal events other in if is_terminal event then some event else rest

-- `_wait_for_next_completion`
unfoldable pub wait_for_next_completion : List (List JsonDict) → Option JsonDict
unfolding is_terminal
wait_for_next_completion [] = none
wait_for_next_completion (events ∷ polls) = first_terminal events (wait_for_next_completion polls)

abbrev pub exit_backup_succeeded : ℕ
exit_backup_succeeded = 0

abbrev pub exit_backup_failed : ℕ
exit_backup_failed = 1

abbrev pub exit_no_completion_observed : ℕ
exit_no_completion_observed = 2

abbrev pub exit_backups_not_configured : ℕ
exit_backups_not_configured = 3

-- `_exit_code_for_completion`
unfoldable pub exit_code_for_completion : JsonDict → ℕ
unfolding has_type
exit_code_for_completion completion =
    if has_type (lit "RESTIC_BACKUP_SUCCEEDED") completion
    then exit_backup_succeeded
    else if has_type (lit "TICK_SKIPPED_DUE_TO_MISSING_SECRETS") completion
    then exit_backups_not_configured
    else exit_backup_failed

abbrev pub exit_code : Option JsonDict → ℕ
exit_code none = exit_no_completion_observed
exit_code (some completion) = exit_code_for_completion completion
