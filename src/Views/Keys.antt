-- ===== src/Views/Keys.antt =====
-- runner.py: the sort keys of the pages, and the tests that their comprehensions share.
use plain_text_gtd.Prelude.{
  ℕ, Bool, true, false, not, ◌&&◌, ◌||◌, List, [], ◌∷◌, Option, none, some, ◌==◌, text_eq,
  option_eq, ltb, select, sort, key_le, Component, ascending, descending, textual,
}
use plain_text_gtd.Text.{Text}
use plain_text_gtd.Dates.{Date, max_date}
use plain_text_gtd.DataTypes.{
  Item, ItemStatus, status_eq, priority_sort, project_child_sort, done, trashed, next,
}
use plain_text_gtd.Host.{Host}

-- `status in (ItemStatus.DONE, ItemStatus.TRASHED)`
abbrev pub is_closed : ItemStatus → Bool
is_closed s = s == done || s == trashed

abbrev pub zero_if : Bool → ℕ
zero_if true = 0
zero_if false = 1

abbrev pub is_set {ℓ} : {A : Type ℓ} → Option A → Bool
is_set none = false
is_set (some a) = true

abbrev pub date_or : Option Date → Date → Date
date_or none default = default
date_or (some d) default = d

-- `item.start_date is not None and item.start_date > today`
abbrev pub starts_after : Option Date → Date → Bool
starts_after none today = false
starts_after (some d) today = ltb today d

abbrev pub non_empty : Option Text → Option Text
non_empty none = none
non_empty (some []) = none
non_empty (some (c ∷ s)) = some (c ∷ s)

-- `item.parent` as a test: an empty id counts as none
abbrev pub parent_of : Item → Option Text
parent_of item = non_empty item.parent

-- `(PRIORITY_SORT[item.priority], -item.created_at.timestamp())`
abbrev pub newest_key : Host → List (Component Item)
newest_key h =
    ascending (λ it. priority_sort it.priority) ∷ descending (λ it. h.timestamp it.created_at) ∷ []

-- `(PRIORITY_SORT[p.priority], p.title.lower())`
abbrev pub title_key : Host → List (Component Item)
title_key h = ascending (λ it. priority_sort it.priority) ∷ textual (λ it. h.lower it.title) ∷ []

-- The key of the Next view.
abbrev pub action_key : List (Component Item)
action_key =
    ascending (λ it. priority_sort it.priority)
    ∷ ascending (λ it. zero_if it.quick)
    ∷ ascending (λ it. zero_if (is_set it.due_date))
    ∷ ascending (λ it. date_or it.due_date max_date)
    ∷ ascending (λ it. it.created_at)
    ∷ []

-- `_project_child_sort_key`
abbrev pub project_child_key : List (Component Item)
project_child_key = ascending (λ it. project_child_sort it.status) ∷ action_key

abbrev pub sort_by : List (Component Item) → List Item → List Item
sort_by key = sort (key_le key)

-- The test of the Next view: an action that is not deferred.
abbrev pub is_next_action : Date → Item → Bool
is_next_action today it =
    it.status == next && (not it.is_project && not (starts_after it.start_date today))

-- The test of the Tickler view.
abbrev pub is_deferred : Date → Item → Bool
is_deferred today it = not (is_closed it.status) && starts_after it.start_date today

-- The children of a project that its group shows.
abbrev pub open_children : Text → List Item → List Item
open_children project_id snapshot =
    sort_by project_child_key
      (select (λ it. it.parent == some project_id && not (is_closed it.status)) snapshot)
