-- ===== src/Views/Search.antt =====
-- runner.py: `view_all`, the search page.
use plain_text_gtd.Prelude.{
  Bool, not, ◌&&◌, ◌||◌, List, [], ◌∷◌, ◌++◌, map, Option, none, some, ◌==◌, text_eq, Assoc, lookup,
  select, contains, ascending, descending, Component, if◌then◌else◌,
}
use plain_text_gtd.Text.{Text, lit, strip, is_empty, has_infix}
use plain_text_gtd.DataTypes.{
  Item, status_eq, status_value, priority_value, priority_sort, done, trashed,
}
use plain_text_gtd.Host.{Host}
use plain_text_gtd.Views.Keys.{sort_by, title_key, project_child_key, parent_of, zero_if}
use plain_text_gtd.Views.Next.{Group, append_at}

-- The query parameters.
pub record Query : Type 0 where
  pub q : Text
  pub status : Text
  pub priority : Text
  pub kind : Text

module _ (h : Host) where
  -- `q.strip().lower()`
  abbrev pub needle_of : Query → Text
  needle_of query = h.lower (strip query.q)

  -- The tests of the loop: an item that passes none of the `continue`s.
  unfoldable pub matches : Query → Item → Bool
  unfolding has_infix
  matches query it =
      not (it.status == trashed)
      && (is_empty query.status || status_value it.status == query.status)
      && (is_empty query.priority || priority_value it.priority == query.priority)
      && not (query.kind == lit "project" && not it.is_project)
      && not (query.kind == lit "task" && it.is_project)
      && (is_empty (needle_of query)
          || has_infix (needle_of query) (h.lower it.title)
          || has_infix (needle_of query) (h.lower it.body))

  abbrev pub result_key : List (Component Item)
  result_key =
      ascending (λ it. priority_sort it.priority)
      ∷ ascending (λ it. zero_if (not (it.status == done)))
      ∷ descending (λ it. h.timestamp it.created_at)
      ∷ []

  unfoldable pub results_of : Query → List Item → List Item
  unfolding matches
  results_of query snapshot = sort_by result_key (select (matches query) snapshot)

abbrev place_child : Item → Option Text → Assoc Text (List Item) → Assoc Text (List Item)
place_child it none d = d
place_child it (some parent) d = if it.is_project then d else append_at parent it d

-- `matched_children_by_parent`
unfoldable pub children_by_parent : Assoc Text (List Item) → List Item → Assoc Text (List Item)
unfolding append_at
children_by_parent d [] = d
children_by_parent d (it ∷ items) = children_by_parent (place_child it (parent_of it) d) items

abbrev pub own_id : Item → List Text
own_id it = if it.is_project then it.id ∷ [] else []

abbrev pub unmatched_parent : List Text → Option Text → List Text
unmatched_parent result_ids none = []
unmatched_parent result_ids (some parent) = if contains result_ids parent then [] else parent ∷ []

-- `project_ids_to_show`
unfoldable pub ids_to_show : List Text → List Item → List Text
ids_to_show result_ids [] = []
ids_to_show result_ids (it ∷ items) =
    own_id it ++ (unmatched_parent result_ids (parent_of it) ++ ids_to_show result_ids items)

abbrev tasks_or : Option (List Item) → List Item
tasks_or none = []
tasks_or (some l) = l

abbrev pub group_for : Assoc Text (List Item) → Item → Group
group_for by_parent p = record {
  project = p;
  tasks = sort_by project_child_key (tasks_or (lookup p.id by_parent));
}

-- `shown_child_ids`
unfoldable pub shown_ids : List Group → List Text
shown_ids [] = []
shown_ids (g ∷ groups) = map (λ (it : Item). it.id) g.tasks ++ shown_ids groups

pub record SearchPage : Type 0 where
  pub results : List Item
  pub project_groups : List Group
  pub standalone : List Item

module _ (h : Host) where
  unfoldable pub groups_shown : List Item → List Item → List Group
  unfolding ids_to_show children_by_parent
  groups_shown results snapshot =
      let ids = ids_to_show (map (λ (it : Item). it.id) results) results in
      map (group_for (children_by_parent [] results))
        (sort_by (title_key h) (select (λ it. contains ids it.id && it.is_project) snapshot))

  -- The matched tasks that no group shows.
  unfoldable pub standalone_of : List Item → List Group → List Item
  unfolding shown_ids
  standalone_of results groups =
      select (λ it. not it.is_project && not (contains (shown_ids groups) it.id)) results

  -- `view_all`
  unfoldable pub view_all : Query → List Item → SearchPage
  unfolding results_of groups_shown standalone_of
  view_all query snapshot =
      let results = results_of h query snapshot in
      let groups = groups_shown results snapshot in
      record {
        results = results;
        project_groups = groups;
        standalone = standalone_of results groups;
      }
