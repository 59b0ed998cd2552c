-- ===== src/Views/Next.antt =====
-- runner.py: `view_next`.
use plain_text_gtd.Prelude.{
  List, [], ◌∷◌, ◌++◌, Option, none, some, ◌==◌, text_eq, Assoc, lookup, select, key_le, sort,
  Component, ascending, textual, if◌then◌else◌,
}
use plain_text_gtd.Text.{Text}
use plain_text_gtd.Dates.{Date}
use plain_text_gtd.DataTypes.{Item, priority_sort, key_error}
use plain_text_gtd.Host.{Host}
use plain_text_gtd.World.{Result, ok, err}
use plain_text_gtd.Views.Keys.{sort_by, action_key, is_next_action, parent_of, is_set}
use plain_text_gtd.Views.Context.{parent_lookup}

-- A project with the tasks that are shown under it.
pub record Group : Type 0 where
  pub project : Item
  pub tasks : List Item

-- `(PRIORITY_SORT[pg[0].priority], pg[0].title.lower())`
abbrev pub group_key : Host → List (Component Group)
group_key h =
    ascending (λ g. priority_sort g.project.priority) ∷ textual (λ g. h.lower g.project.title) ∷ []

-- `d.setdefault(key, []).append(task)`
unfoldable pub append_at : Text → Item → Assoc Text (List Item) → Assoc Text (List Item)
append_at key task [] = (key, task ∷ []) ∷ []
append_at key task ((k, tasks) ∷ d) =
    if key == k then (k, tasks ++ (task ∷ [])) ∷ d else (k, tasks) ∷ append_at key task d

-- The tasks by parent, and those without a project.
pub record Split : Type 0 where
  pub grouped : Assoc Text (List Item)
  pub standalone : List Item

-- Where a task goes: under the id of its parent if that is a project on file.
abbrev pub project_id : Option Text → Assoc Text Item → Option Text
project_id none projects = none
project_id (some id) projects = if is_set (lookup id projects) then some id else none

abbrev pub place : Item → Option Text → Split → Split
place task none s = record s { standalone = s.standalone ++ (task ∷ []) }
place task (some id) s = record s { grouped = append_at id task s.grouped }

-- The loop over the sorted tasks.
unfoldable pub split_tasks : Assoc Text Item → Split → List Item → Split
unfolding append_at lookup
split_tasks projects s [] = s
split_tasks projects s (task ∷ tasks) =
    split_tasks projects (place task (project_id (parent_of task) projects) s) tasks

abbrev pub with_group : Text → List Item → Option Item → Result (List Group) → Result (List Group)
with_group id tasks none rest = err key_error
with_group id tasks (some p) (err e) = err e
with_group id tasks (some p) (ok groups) = ok (record { project = p; tasks = tasks } ∷ groups)

-- The loop over `grouped_by_parent.items()`, where `project_by_id[parent_id]` may raise.
unfoldable pub groups_of : Assoc Text Item → Assoc Text (List Item) → Result (List Group)
unfolding lookup
groups_of projects [] = ok []
groups_of projects ((id, tasks) ∷ d) =
    with_group id tasks (lookup id projects) (groups_of projects d)

pub record NextPage : Type 0 where
  pub loose : List Item
  pub project_groups : List Group

abbrev pub next_page : Host → List Item → Result (List Group) → Result NextPage
next_page h loose (err e) = err e
next_page h loose (ok groups) =
    ok (record { loose = loose; project_groups = sort (key_le (group_key h)) groups })

-- The tasks of the page, sorted.
unfoldable pub next_tasks : Date → List Item → List Item
next_tasks today snapshot = sort_by action_key (select (is_next_action today) snapshot)

unfoldable pub split_next : Date → List Item → Split
unfolding next_tasks split_tasks
split_next today snapshot =
    split_tasks (parent_lookup snapshot) (record { grouped = []; standalone = [] })
      (next_tasks today snapshot)

module _ (h : Host) where
  -- `view_next`
  unfoldable pub view_next : Date → List Item → Result NextPage
  unfolding split_next groups_of
  view_next today snapshot =
      let s = split_next today snapshot in
      next_page h s.standalone (groups_of (parent_lookup snapshot) s.grouped)
