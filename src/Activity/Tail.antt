-- ===== src/Activity/Tail.antt =====
-- The last genuine turn of a transcript.
use plain_text_gtd.Prelude.{ℕ, Bool, true, false, List, [], ◌∷◌, ◌++◌, ◌≡◌, refl, ◌∙◌, All}
use plain_text_gtd.Activity.{Event, is_non_turn_tail_event, reversed, first_turn, last_event_type}

reversed-append :
    (is_word : ℕ → Bool) (xs ys behind : List Event)
    → reversed is_word (xs ++ ys) behind ≡ reversed is_word ys (reversed is_word xs behind)
unfolding reversed
reversed-append is_word [] ys behind = refl
reversed-append is_word (x ∷ xs) ys behind = reversed-append is_word xs ys (x ∷ behind)

first_turn-reversed :
    (is_word : ℕ → Bool) (tail behind : List Event)
    → All (λ e. is_non_turn_tail_event is_word e ≡ true) tail
    → first_turn is_word (reversed is_word tail behind) ≡ first_turn is_word behind
unfolding reversed first_turn
first_turn-reversed is_word [] behind h = refl
first_turn-reversed is_word (x ∷ tail) behind h =
    first_turn-reversed is_word tail (x ∷ behind) h.1 ∙ (rw h.0 refl)

-- A run of events that are no genuine turns, behind any transcript, changes nothing in the type of the
-- last genuine turn. Behind an event that is a genuine turn, it leaves the type of that event.
pub last_event_type_tail :
    (is_word : ℕ → Bool) (events : List Event) (event : Event) (tail : List Event)
    → All (λ e. is_non_turn_tail_event is_word e ≡ true) tail
    → is_non_turn_tail_event is_word event ≡ false
    → (last_event_type is_word (events ++ tail) ≡ last_event_type is_word events)
      × (last_event_type is_word (events ++ (event ∷ tail)) ≡ event.kind)
unfolding last_event_type reversed first_turn
last_event_type_tail is_word events event tail h e = (
  rw (reversed-append is_word events tail [])
      (first_turn-reversed is_word tail (reversed is_word events []) h),
  rw (reversed-append is_word events (event ∷ tail) [])
      (first_turn-reversed is_word tail (event ∷ reversed is_word events []) h ∙ (rw e refl)),
)
