-- ===== src/Views/Today.antt =====
-- runner.py: `view_today`.
use plain_text_gtd.Prelude.{
  Bool, true, false, not, ◌&&◌, ◌||◌, List, [], ◌∷◌, Option, none, some, ◌==◌, nat_eq, option_eq,
  ltb, select, ascending, textual, Component,
}
use plain_text_gtd.Dates.{Date}
use plain_text_gtd.DataTypes.{Item, priority_sort}
use plain_text_gtd.Host.{Host}
use plain_text_gtd.Views.Keys.{is_closed, sort_by, title_key, date_or, starts_after}

-- `date is not None and date < today`
abbrev pub is_before : Option Date → Date → Bool
is_before none today = false
is_before (some d) today = ltb d today

abbrev pub is_none {ℓ} : {A : Type ℓ} → Option A → Bool
is_none none = true
is_none (some a) = false

unfoldable pub is_due_today : Date → Item → Bool
is_due_today today it = not (is_closed it.status) && it.due_date == some today

unfoldable pub is_starting_today : Date → Item → Bool
is_starting_today today it =
    not (is_closed it.status) && it.start_date == some today && not (it.due_date == some today)

unfoldable pub is_in_progress : Date → Item → Bool
is_in_progress today it =
    not (is_closed it.status)
    && is_before it.start_date today
    && not (it.due_date == some today)
    && (is_none it.due_date || starts_after it.due_date today)

unfoldable pub is_past_due : Date → Item → Bool
is_past_due today it = not (is_closed it.status) && is_before it.due_date today

pub record TodayPage : Type 0 where
  pub due_today : List Item
  pub starting_today : List Item
  pub in_progress : List Item
  pub past_due : List Item

module _ (h : Host) where
  abbrev progress_key : Date → List (Component Item)
  progress_key today =
      ascending (λ it. priority_sort it.priority)
      ∷ ascending (λ it. date_or it.start_date today)
      ∷ textual (λ it. h.lower it.title)
      ∷ []

  abbrev overdue_key : Date → List (Component Item)
  overdue_key today = ascending (λ it. date_or it.due_date today) ∷ title_key h

  unfoldable pub view_today : Date → List Item → TodayPage
  unfolding is_due_today is_starting_today is_in_progress is_past_due
  view_today today snapshot = record {
    due_today = sort_by (title_key h) (select (is_due_today today) snapshot);
    starting_today = sort_by (title_key h) (select (is_starting_today today) snapshot);
    in_progress = sort_by (progress_key today) (select (is_in_progress today) snapshot);
    past_due = sort_by (overdue_key today) (select (is_past_due today) snapshot);
  }
