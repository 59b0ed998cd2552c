-- ===== src/Backup/Inflight.antt =====
-- system/services/host_backup/src/host_backup/cli.py: which backups are still waited for.
use plain_text_gtd.Prelude.{
  Bool, true, false, not, ◌&&◌, ◌||◌, List, [], ◌∷◌, Option, none, some, ◌≡◌, refl, ◌∙◌, ◌==◌,
  text_eq, contains, contains-select, latest, Bool-cases, inl, inr, arith,
}
use plain_text_gtd.Text.{Text, lit}
use plain_text_gtd.Text.Json.{JsonDict, has_text}
use plain_text_gtd.Backup.{
  has_type, is_terminal, tick_id, TickIds, scan_tick, no_ticks, scan_line, scan_lines,
  scan_for_inflight_tick_ids, discard, discard_ended, wait_for_pending, wait_for_no_inflight_backup,
}

-- The id is given, and it is this one.
abbrev pub is_id : Text → Option Text → Bool
is_id id none = false
is_id id (some t) = ◌==◌ ⦃e = text_eq⦄ id t

-- The line is an event of the backups by which the tick starts.
abbrev starts : Text → Option JsonDict → Bool
starts id none = false
starts id (some event) =
    has_text (lit "source") (lit "backup") event
    && (is_id id (tick_id event) && has_type (lit "BACKUP_STARTED") event)

-- The line is an event of the backups by which the tick ends.
abbrev finishes : Text → Option JsonDict → Bool
finishes id none = false
finishes id (some event) =
    has_text (lit "source") (lit "backup") event
    && (is_id id (tick_id event)
        && (not (has_type (lit "BACKUP_STARTED") event) && is_terminal event))

unfoldable pub is_started : Text → List (Option JsonDict) → Bool
unfolding has_text has_type tick_id
is_started id [] = false
is_started id (line ∷ lines) = starts id line || is_started id lines

unfoldable pub is_finished : Text → List (Option JsonDict) → Bool
unfolding has_text has_type is_terminal tick_id
is_finished id [] = false
is_finished id (line ∷ lines) = finishes id line || is_finished id lines

-- Some event that was found new ends the tick.
unfoldable pub is_ended : Text → List JsonDict → Bool
unfolding tick_id is_terminal
is_ended id [] = false
is_ended id (event ∷ events) = (is_terminal event && is_id id (tick_id event)) || is_ended id events

unfoldable pub is_ended_later : Text → List (List JsonDict) → Bool
unfolding is_ended
is_ended_later id [] = false
is_ended_later id (events ∷ polls) = is_ended id events || is_ended_later id polls

scan_tick-started :
    (id : Text) (t : Option Text) (event : JsonDict) (s : TickIds)
    → contains (scan_tick t event s).started id
      ≡ ((is_id id t && has_type (lit "BACKUP_STARTED") event) || contains s.started id)
scan_tick-started id none event s = refl
scan_tick-started id (some t) event s = elim (Bool-cases (has_type (lit "BACKUP_STARTED") event)) [
  | inl e ↦ rw e (ground arith)
  | inr e ↦ rw e (elim (Bool-cases (is_terminal event)) [
    | inl f ↦ rw f (ground arith)
    | inr f ↦ rw f (ground arith)
  ])
]

scan_tick-finished :
    (id : Text) (t : Option Text) (event : JsonDict) (s : TickIds)
    → contains (scan_tick t event s).finished id ≡ (
        (is_id id t && (not (has_type (lit "BACKUP_STARTED") event) && is_terminal event))
        || contains s.finished id)
scan_tick-finished id none event s = refl
scan_tick-finished id (some t) event s = elim (Bool-cases (has_type (lit "BACKUP_STARTED") event)) [
  | inl e ↦ rw e (ground arith)
  | inr e ↦ rw e (elim (Bool-cases (is_terminal event)) [
    | inl f ↦ rw f (ground arith)
    | inr f ↦ rw f (ground arith)
  ])
]

scan_line-started :
    (id : Text) (line : Option JsonDict) (s : TickIds)
    → contains (scan_line line s).started id ≡ (starts id line || contains s.started id)
unfolding scan_line
scan_line-started id none s = refl
scan_line-started id (some event) s =
    elim (Bool-cases (has_text (lit "source") (lit "backup") event)) [
      | inl e ↦ rw e (scan_tick-started id (tick_id event) event s)
      | inr e ↦ rw e refl
    ]

scan_line-finished :
    (id : Text) (line : Option JsonDict) (s : TickIds)
    → contains (scan_line line s).finished id ≡ (finishes id line || contains s.finished id)
unfolding scan_line
scan_line-finished id none s = refl
scan_line-finished id (some event) s =
    elim (Bool-cases (has_text (lit "source") (lit "backup") event)) [
      | inl e ↦ rw e (scan_tick-finished id (tick_id event) event s)
      | inr e ↦ rw e refl
    ]

swapped : (a b c : Bool) → (b || (a || c)) ≡ ((a || b) || c)
swapped a b c = ground arith

scan_lines-started :
    (id : Text) (lines : List (Option JsonDict)) (s : TickIds)
    → contains (scan_lines lines s).started id ≡ (is_started id lines || contains s.started id)
unfolding scan_lines is_started
scan_lines-started id [] s = refl
scan_lines-started id (line ∷ lines) s =
    scan_lines-started id lines (scan_line line s)
    ∙ rw (scan_line-started id line s)
        (swapped (starts id line) (is_started id lines) (contains s.started id))

scan_lines-finished :
    (id : Text) (lines : List (Option JsonDict)) (s : TickIds)
    → contains (scan_lines lines s).finished id ≡ (is_finished id lines || contains s.finished id)
unfolding scan_lines is_finished
scan_lines-finished id [] s = refl
scan_lines-finished id (line ∷ lines) s =
    scan_lines-finished id lines (scan_line line s)
    ∙ rw (scan_line-finished id line s)
        (swapped (finishes id line) (is_finished id lines) (contains s.finished id))

-- The ids that are waited for at first.
scanned :
    (id : Text) (lines : List (Option JsonDict))
    → contains (scan_for_inflight_tick_ids 200 lines) id
      ≡ (is_started id (latest 200 lines) && not (is_finished id (latest 200 lines)))
unfolding scan_for_inflight_tick_ids
scanned id lines =
    let window = latest 200 lines in
    contains-select id (λ other. not (contains (scan_lines window no_ticks).finished other))
      (scan_lines window no_ticks).started
    ∙ rw (scan_lines-started id window no_ticks, scan_lines-finished id window no_ticks)
        (unchanged (is_started id window) (is_finished id window))
  where
    unchanged : (a b : Bool) → ((a || false) && not (b || false)) ≡ (a && not b)
    unchanged a b = ground arith

kept : (b : Bool) → b ≡ (b && true)
kept b = ground arith

merged : (a b c : Bool) → ((a && not b) && not c) ≡ (a && not (b || c))
merged a b c = ground arith

contains-discard :
    (id : Text) (t : Option Text) (pending : List Text)
    → contains (discard t pending) id ≡ (contains pending id && not (is_id id t))
unfolding discard
contains-discard id none pending = kept (contains pending id)
contains-discard id (some t) pending = contains-select id (λ other. not (other == t)) pending

contains-discard_ended :
    (id : Text) (events : List JsonDict) (pending : List Text)
    → contains (discard_ended events pending) id ≡ (contains pending id && not (is_ended id events))
unfolding discard_ended is_ended
contains-discard_ended id [] pending = kept (contains pending id)
contains-discard_ended id (event ∷ events) pending = elim (Bool-cases (is_terminal event)) [
  | inl e ↦ rw e (
      contains-discard_ended id events (discard (tick_id event) pending)
      ∙ rw (contains-discard id (tick_id event) pending)
          (merged (contains pending id) (is_id id (tick_id event)) (is_ended id events)))
  | inr e ↦ rw e (contains-discard_ended id events pending)
]

contains-wait_for_pending :
    (id : Text) (polls : List (List JsonDict)) (pending : List Text)
    → contains (wait_for_pending polls pending) id
      ≡ (contains pending id && not (is_ended_later id polls))
unfolding wait_for_pending is_ended_later
contains-wait_for_pending id [] pending = kept (contains pending id)
contains-wait_for_pending id (events ∷ polls) [] = refl
contains-wait_for_pending id (events ∷ polls) (t ∷ pending) =
    contains-wait_for_pending id polls (discard_ended events (t ∷ pending))
    ∙ rw (contains-discard_ended id events (t ∷ pending))
        (merged (contains (t ∷ pending) id) (is_ended id events) (is_ended_later id polls))

-- When the wait returns, a tick is still pending exactly where one of the last 200 lines of the log was its
-- start and none of them its end, and no poll found its end: a wait that returns with nothing pending has
-- seen each of those ticks end.
pub wait_for_no_inflight_backup_pending :
    (id : Text) (lines : List (Option JsonDict)) (polls : List (List JsonDict))
    → contains ⦃e = text_eq⦄ (wait_for_no_inflight_backup lines polls) id ≡ (
        (is_started id (latest 200 lines) && not (is_finished id (latest 200 lines)))
        && not (is_ended_later id polls))
unfolding wait_for_no_inflight_backup
wait_for_no_inflight_backup_pending id lines polls =
    contains-wait_for_pending id polls (scan_for_inflight_tick_ids 200 lines)
    ∙ rw (scanned id lines) refl
