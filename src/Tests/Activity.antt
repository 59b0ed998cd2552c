-- ===== src/Tests/Activity.antt =====
-- Runs of the states of a chat.
use plain_text_gtd.Prelude.{
  ℕ, Bool, true, false, ◌&&◌, List, [], ◌∷◌, some, none, ◌≡◌, ◌↔◌, refl, All, ltb, leb, text_eq,
  option_eq,
}
use plain_text_gtd.Text.{Text, lit}
use plain_text_gtd.Activity.{
  Event, idle, thinking, has_unmatched_tool_use, is_non_turn_tail_event, derive_activity_state,
}
use plain_text_gtd.Activity.Matching.{is_called, is_answered, has_unmatched_tool_use_called}

abbrev event_of : Text → Text → Event
event_of kind content = record {
  kind = some kind;
  tool_calls = [];
  tool_call_id = none;
  is_meta = false;
  content = some content;
  timestamp = none;
}

abbrev calling : Event
calling = record (event_of (lit "assistant_message") []) {
  tool_calls = some (lit "a") ∷ some (lit "b") ∷ some [] ∷ [];
}

abbrev answering : Event
answering = record (event_of (lit "tool_result") []) { tool_call_id = some (lit "a") }

abbrev asking : Event
asking = event_of (lit "user_message") (lit "go on")

abbrev picking : List Event
picking =
    event_of (lit "user_message") (lit " /model opus")
    ∷ event_of (lit "user_message") (lit "<local-command-stdout>Set model to opus")
    ∷ []

abbrev is_letter : ℕ → Bool
is_letter c = leb 97 c && leb c 122

abbrev at_work : List Event
at_work = asking ∷ calling ∷ answering ∷ []

at_work_unmatched : has_unmatched_tool_use at_work ≡ true
unfolding has_unmatched_tool_use text_eq option_eq
at_work_unmatched = refl

picking_skipped : All (λ e. is_non_turn_tail_event is_letter e ≡ true) picking
unfolding is_non_turn_tail_event text_eq option_eq
picking_skipped = (refl, (refl, tt))

asking_turn : is_non_turn_tail_event is_letter asking ≡ false
unfolding is_non_turn_tail_event text_eq option_eq
asking_turn = refl

-- `/models` is no command of the picker.
models_turn :
    is_non_turn_tail_event is_letter (event_of (lit "user_message") (lit "/models")) ≡ false
unfolding is_non_turn_tail_event text_eq option_eq
models_turn = refl

asking_thinking :
    derive_activity_state ltb true false (some (lit "user_message")) (some 5) (some 5) ≡ thinking
unfolding derive_activity_state text_eq option_eq
asking_thinking = refl

stale_idle :
    derive_activity_state ltb true true (some (lit "user_message")) (some 4) (some 5) ≡ idle
unfolding derive_activity_state
stale_idle = refl

has_unmatched_tool_use_called_example :
    (has_unmatched_tool_use at_work ≡ true)
    ↔ ((id : Text) × (is_called id at_work ≡ true) × (is_answered id at_work ≡ false))
has_unmatched_tool_use_called_example = has_unmatched_tool_use_called at_work
