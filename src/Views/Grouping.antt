-- ===== src/Views/Grouping.antt =====
-- runner.py: the two loops of `view_next`, which group its tasks by project.
use mathlib.Core.Bool.{false≢true}
use plain_text_gtd.Prelude.{
  ℕ, ◌+◌, ◌≡◌, refl, ap, ◌∙◌, Bool, true, List, [], ◌∷◌, ◌++◌, Option, none, some, arith, Assoc,
  All, lookup, sort, insert, key_le, inl, inr, Bool-cases, Option-cases, ◌==◌, text_eq,
}
use plain_text_gtd.Text.{Text}
use plain_text_gtd.Dates.{Date}
use plain_text_gtd.DataTypes.{Item}
use plain_text_gtd.Host.{Host}
use plain_text_gtd.World.{ok}
use plain_text_gtd.Views.Keys.{is_set, parent_of}
use plain_text_gtd.Views.Context.{count, parent_lookup}
use plain_text_gtd.Views.Next.{
  Group, Split, NextPage, append_at, project_id, place, split_tasks, groups_of, group_key,
  next_tasks, split_next, view_next,
}

module _ (p : Item → Bool) where
  -- How many of the tasks in the groups pass the test.
  abbrev pub count_groups : List Group → ℕ
  count_groups [] = 0
  count_groups (g ∷ groups) = count p g.tasks + count_groups groups

  abbrev count_entries : Assoc Text (List Item) → ℕ
  count_entries [] = 0
  count_entries ((k, tasks) ∷ d) = count p tasks + count_entries d

  count-append : (xs ys : List Item) → count p (xs ++ ys) ≡ count p xs + count p ys
  unfolding count
  count-append [] ys = omega arith
  count-append (x ∷ xs) ys = ground (arith, count-append xs ys)

  count_entries-append_at :
      (k : Text) (task : Item) (d : Assoc Text (List Item))
      → count_entries (append_at k task d) ≡ count_entries d + count p (task ∷ [])
  unfolding append_at
  count_entries-append_at k task [] = omega arith
  count_entries-append_at k task ((j, tasks) ∷ d) =
      ground (arith, count-append tasks (task ∷ []), count_entries-append_at k task d)

  abbrev count_split : Split → ℕ
  count_split s = count p s.standalone + count_entries s.grouped

  count_split-place :
      (task : Item) (o : Option Text) (s : Split)
      → count_split (place task o s) ≡ count_split s + count p (task ∷ [])
  count_split-place task none s = omega (arith, count-append s.standalone (task ∷ []))
  count_split-place task (some k) s = omega (arith, count_entries-append_at k task s.grouped)

  count-cons : (x : Item) (xs : List Item) → count p (x ∷ xs) ≡ count p (x ∷ []) + count p xs
  unfolding count
  count-cons x xs = ground arith

  count_split-split_tasks :
      (projects : Assoc Text Item) (s : Split) (tasks : List Item)
      → count_split (split_tasks projects s tasks) ≡ count_split s + count p tasks
  unfolding split_tasks
  count_split-split_tasks projects s [] = unfold count in omega arith
  count_split-split_tasks projects s (task ∷ tasks) =
      let o = project_id (parent_of task) projects in
      omega (
        arith,
        count_split-split_tasks projects (place task o s) tasks,
        count_split-place task o s,
        count-cons task tasks,
      )

  count_groups-insert :
      (le : Group → Group → Bool) (g : Group) (groups : List Group)
      → count_groups (insert le g groups) ≡ count p g.tasks + count_groups groups
  unfolding insert
  count_groups-insert le g [] = refl
  count_groups-insert le g (x ∷ groups) = ground (arith, count_groups-insert le g groups)

  count_groups-sort :
      (le : Group → Group → Bool) (groups : List Group)
      → count_groups (sort le groups) ≡ count_groups groups
  unfolding sort
  count_groups-sort le [] = refl
  count_groups-sort le (g ∷ groups) =
      count_groups-insert le g (sort le groups)
      ∙ ap (λ n. count p g.tasks + n) (count_groups-sort le groups)

module _ (projects : Assoc Text Item) where
  -- Every key of the groups is the id of a project on file.
  abbrev HasProjects : Assoc Text (List Item) → Type 0
  HasProjects = All (λ e. is_set (lookup e.0 projects) ≡ true)

  append_at-HasProjects :
      (k : Text) (task : Item) (d : Assoc Text (List Item))
      → is_set (lookup k projects) ≡ true
      → HasProjects d
      → HasProjects (append_at k task d)
  unfolding append_at
  append_at-HasProjects k task [] e h = (e, tt)
  append_at-HasProjects k task ((j, tasks) ∷ d) e h = elim (Bool-cases (k == j)) [
    | inl q ↦ rw q (h.0, h.1)
    | inr q ↦ rw q (h.0, append_at-HasProjects k task d e h.1)
  ]

  place-HasProjects :
      (task : Item) (o : Option Text) (s : Split)
      → HasProjects s.grouped
      → HasProjects (place task (project_id o projects) s).grouped
  place-HasProjects task none s h = h
  place-HasProjects task (some k) s h = elim (Bool-cases (is_set (lookup k projects))) [
    | inl e ↦ rw e (append_at-HasProjects k task s.grouped e h)
    | inr e ↦ rw e h
  ]

  split_tasks-HasProjects :
      (tasks : List Item) (s : Split)
      → HasProjects s.grouped
      → HasProjects (split_tasks projects s tasks).grouped
  unfolding split_tasks
  split_tasks-HasProjects [] s h = h
  split_tasks-HasProjects (task ∷ tasks) s h =
      split_tasks-HasProjects tasks _ (place-HasProjects task (parent_of task) s h)

  groups_of_ok :
      (d : Assoc Text (List Item))
      → HasProjects d
      → (groups : List Group) × (groups_of projects d ≡ ok groups)
        × ((p : Item → Bool) → count_groups p groups ≡ count_entries p d)
  unfolding groups_of
  groups_of_ok [] h = ([], refl, λ p. refl)
  groups_of_ok ((k, tasks) ∷ d) h =
      let (groups, e, same) = groups_of_ok d h.1 in
      elim (Option-cases (lookup k projects)) [
        | inl missing ↦ absurd (false≢true (rw missing at h.0))
        | inr (project, there) ↦ (
          record { project = project; tasks = tasks } ∷ groups,
          rw (there, e),
          λ p. ap (λ n. count p tasks + n) (same p),
        )
      ]

-- The Next page never fails on a missing project, and each action that it is for appears on it as
-- often as in the sorted list of actions, loose or in a group: so it does by any test of items.
pub view_next_total :
    (h : Host) (today : Date) (snapshot : List Item)
    → (page : NextPage) × (view_next h today snapshot ≡ ok page)
      × ((p : Item → Bool)
          → count p page.loose + count_groups p page.project_groups
            ≡ count p (next_tasks today snapshot))
unfolding view_next split_next count
view_next_total h today snapshot =
    let projects = parent_lookup snapshot in
    let start : Split = record { grouped = []; standalone = [] } in
    let s = split_tasks projects start (next_tasks today snapshot) in
    let (groups, e, same) =
      groups_of_ok projects s.grouped
        (split_tasks-HasProjects projects (next_tasks today snapshot) start tt) in
    (
      record { loose = s.standalone; project_groups = sort (key_le (group_key h)) groups },
      rw e,
      λ p. omega (
        arith,
        same p,
        count_groups-sort p (key_le (group_key h)) groups,
        count_split-split_tasks p projects start (next_tasks today snapshot),
      ),
    )
