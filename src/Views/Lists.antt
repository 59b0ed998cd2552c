-- ===== src/Views/Lists.antt =====
-- runner.py: the pages that show one list: `_list_view` with its callers, `view_inbox` and
-- `view_tickler`.
use plain_text_gtd.Prelude.{List, [], ◌∷◌, Component, ascending, textual, select}
use plain_text_gtd.Dates.{Date}
use plain_text_gtd.DataTypes.{
  Item, ItemStatus, priority_sort, inbox, waiting, read_review, reference,
}
use plain_text_gtd.Host.{Host}
use plain_text_gtd.Views.Keys.{sort_by, newest_key, is_deferred, date_or}
use plain_text_gtd.Views.Context.{has_status}

module _ (h : Host) where
  -- `_list_view`; none of its callers gives a key
  unfoldable pub list_view : ItemStatus → List Item → List Item
  list_view status snapshot = sort_by (newest_key h) (select (has_status status) snapshot)

  unfoldable pub view_inbox : List Item → List Item
  view_inbox snapshot = sort_by (newest_key h) (select (has_status inbox) snapshot)

  unfoldable pub view_waiting : List Item → List Item
  unfolding list_view
  view_waiting = list_view waiting

  unfoldable pub view_read : List Item → List Item
  unfolding list_view
  view_read = list_view read_review

  unfoldable pub view_reference : List Item → List Item
  unfolding list_view
  view_reference = list_view reference

  abbrev tickler_key : Date → List (Component Item)
  tickler_key today =
      ascending (λ it. date_or it.start_date today)
      ∷ ascending (λ it. priority_sort it.priority)
      ∷ textual (λ it. h.lower it.title)
      ∷ []

  unfoldable pub view_tickler : Date → List Item → List Item
  view_tickler today snapshot = sort_by (tickler_key today) (select (is_deferred today) snapshot)
