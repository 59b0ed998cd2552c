-- ===== src/DataTypes/Values.antt =====
-- `ItemStatus(value)` and `Priority(value)`, which look a member up by its value.
use plain_text_gtd.Prelude.{◌≡◌, refl, Option, some, first, ◌==◌, text_eq}
use plain_text_gtd.Text.{Text}
use plain_text_gtd.DataTypes.{
  ItemStatus, Priority, all_statuses, all_priorities, status_value, priority_value, inbox, next,
  waiting, someday, read_review, reference, done, trashed, high, normal, low,
}

unfoldable pub status_of : Text → Option ItemStatus
unfolding text_eq
status_of value = first (λ s. status_value s == value) all_statuses

unfoldable pub priority_of : Text → Option Priority
unfolding text_eq
priority_of value = first (λ p. priority_value p == value) all_priorities

pub status_of-status_value : (s : ItemStatus) → status_of (status_value s) ≡ some s
unfolding status_of
status_of-status_value inbox = refl
status_of-status_value next = refl
status_of-status_value waiting = refl
status_of-status_value someday = refl
status_of-status_value read_review = refl
status_of-status_value reference = refl
status_of-status_value done = refl
status_of-status_value trashed = refl

pub priority_of-priority_value : (p : Priority) → priority_of (priority_value p) ≡ some p
unfolding priority_of
priority_of-priority_value high = refl
priority_of-priority_value normal = refl
priority_of-priority_value low = refl
