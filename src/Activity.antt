-- ===== src/Activity.antt =====
-- system/apps/system_interface/imbue/system_interface/activity_state.py: whether a chat shows an agent
-- as idle, thinking or running a tool. An event of the transcript is a record of the keys that the code
-- asks for. A key that is missing, or whose value is not a text, is `none`; a missing list is empty.
-- Parameters are the test of `\b` for a character of a word, which reads the Unicode tables, and the
-- instants with their order, where the code has the floats of `datetime.timestamp` and of the file
-- system.
use plain_text_gtd.Prelude.{
  ℕ, Bool, true, false, not, ◌&&◌, ◌||◌, List, [], ◌∷◌, ◌++◌, Option, none, some, ◌==◌, nat_eq,
  text_eq, option_eq, contains, if◌then◌else◌, drop, length,
}
use plain_text_gtd.Text.{Text, lit, starts_with, has_infix, is_empty, strip}
pub mod Matching
pub mod Tail
pub mod Shown

-- `ActivityState`
pub data ActivityState : Type 0 where
  idle : ActivityState
  thinking : ActivityState
  tool_running : ActivityState

pub record Event : Type 0 where
  pub kind : Option Text
  pub tool_calls : List (Option Text)
  pub tool_call_id : Option Text
  pub is_meta : Bool
  pub content : Option Text
  pub timestamp : Option Text

-- The two sets of the walk.
pub record CallIds : Type 0 where
  pub pending : List Text
  pub matched : List Text

-- An id that is missing or empty is not added.
unfoldable pub add_id : Option Text → List Text → List Text
add_id none ids = ids
add_id (some []) ids = ids
add_id (some (c ∷ id)) ids = (c ∷ id) ∷ ids

-- The loop over the tool calls of one message.
unfoldable pub add_ids : List (Option Text) → List Text → List Text
unfolding add_id
add_ids [] ids = ids
add_ids (id ∷ calls) ids = add_ids calls (add_id id ids)

-- One turn of the loop over the events.
unfoldable pub track : Event → CallIds → CallIds
unfolding add_id add_ids text_eq option_eq
track event s =
    if event.kind == some (lit "assistant_message")
    then record { pending = add_ids event.tool_calls s.pending; matched = s.matched }
    else if event.kind == some (lit "tool_result")
    then record { pending = s.pending; matched = add_id event.tool_call_id s.matched }
    else s

unfoldable pub track_all : List Event → CallIds → CallIds
unfolding track
track_all [] s = s
track_all (event ∷ events) s = track_all events (track event s)

-- `bool(pending - matched)`
unfoldable pub leaves_some : List Text → List Text → Bool
unfolding text_eq
leaves_some [] matched = false
leaves_some (id ∷ pending) matched = not (contains matched id) || leaves_some pending matched

-- `has_unmatched_tool_use`
unfoldable pub has_unmatched_tool_use : List Event → Bool
unfolding track_all leaves_some
has_unmatched_tool_use events =
    let s = track_all events (record { pending = []; matched = [] }) in
    leaves_some s.pending s.matched

-- `content.strip() if isinstance(content, str) else ""`
unfoldable pub stripped : Option Text → Text
unfolding strip
stripped none = []
stripped (some content) = strip content

module _ (is_word : ℕ → Bool) where
  -- `\b` behind a character of a word
  unfoldable pub at_boundary : Text → Bool
  at_boundary [] = true
  at_boundary (c ∷ s) = not (is_word c)

  -- `_MODEL_FAST_COMMAND_RE.match`
  unfoldable pub is_model_fast_command : Text → Bool
  unfolding at_boundary starts_with
  is_model_fast_command text =
      (starts_with text (lit "/model") && at_boundary (drop 6 text))
      || (starts_with text (lit "/fast") && at_boundary (drop 5 text))

  -- `is_non_turn_tail_event`
  unfoldable pub is_non_turn_tail_event : Event → Bool
  unfolding is_model_fast_command stripped starts_with has_infix text_eq option_eq
  is_non_turn_tail_event event =
      let text = stripped event.content in
      if event.is_meta
      then true
      else if not (event.kind == some (lit "user_message"))
      then false
      else if is_model_fast_command text
      then true
      else starts_with text (lit "<local-command-stdout>")
        && (has_infix (lit "Set model to") text || has_infix (lit "Fast mode") text)

  -- The events from the last to the first.
  unfoldable pub reversed : List Event → List Event → List Event
  reversed [] behind = behind
  reversed (event ∷ events) behind = reversed events (event ∷ behind)

  unfoldable pub first_turn : List Event → Option Text
  unfolding is_non_turn_tail_event
  first_turn [] = none
  first_turn (event ∷ events) =
      let rest = first_turn events in if is_non_turn_tail_event event then rest else event.kind

  -- `last_event_type`
  unfoldable pub last_event_type : List Event → Option Text
  unfolding reversed first_turn
  last_event_type events = first_turn (reversed events [])

unfoldable pub none_if_blank : Option Text → Option Text
none_if_blank none = none
none_if_blank (some []) = none
none_if_blank (some (c ∷ s)) = some (c ∷ s)

-- `last_event_timestamp`
unfoldable pub last_event_timestamp : List Event → Option Text
unfolding none_if_blank
last_event_timestamp [] = none
last_event_timestamp (event ∷ []) = none_if_blank event.timestamp
last_event_timestamp (event ∷ next ∷ events) = last_event_timestamp (next ∷ events)

-- `RUNNING_LIFECYCLE_STATES`
abbrev pub running_lifecycle_states : List Text
running_lifecycle_states = lit "RUNNING" ∷ lit "RUNNING_UNKNOWN_AGENT_TYPE" ∷ []

module _ {Instant : Type 0} (is_before : Instant → Instant → Bool) where
  -- `is_transcript_tail_stale`
  unfoldable pub is_transcript_tail_stale : Option Instant → Option Instant → Bool
  is_transcript_tail_stale none process_started_at = false
  is_transcript_tail_stale (some t) none = false
  is_transcript_tail_stale (some t) (some p) = is_before t p

  -- `derive_activity_state`
  unfoldable pub derive_activity_state :
      Bool → Bool → Option Text → Option Instant → Option Instant → ActivityState
  unfolding is_transcript_tail_stale text_eq option_eq
  derive_activity_state is_agent_running has_pending_tool_use tail_event_type tail_event_at
        process_started_at =
      if not is_agent_running
      then idle
      else if is_transcript_tail_stale tail_event_at process_started_at
      then idle
      else if has_pending_tool_use
      then tool_running
      else if contains (some (lit "user_message") ∷ some (lit "tool_result") ∷ []) tail_event_type
      then thinking
      else idle
