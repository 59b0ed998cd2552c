-- ===== src/Views/Found.antt =====
-- runner.py: the groups and the loose items of `view_all`.
use mathlib.Core.List.{mem-cons, not-mem-nil}
use mathlib.Core.Logic.Or
use plain_text_gtd.Prelude.{
  ◌≡◌, refl, sym, ap, Bool, true, false, ◌⊎◌, inl, inr, List, [], ◌∷◌, ◌++◌, map, Mem, arith,
  contains, text_eq, ≡→eq, Bool-cases, mem-select_of_mem, subst,
}
use plain_text_gtd.Text.{Text}
use plain_text_gtd.DataTypes.{Item}
use plain_text_gtd.Host.{Host}
use plain_text_gtd.Views.Keys.{parent_of}
use plain_text_gtd.Views.Next.{Group}
use plain_text_gtd.Views.Listing.{mem-listed_of_mem}
use plain_text_gtd.Views.Search.{
  own_id, unmatched_parent, result_key, Query, SearchPage, matches, results_of, ids_to_show,
  group_for, shown_ids, groups_shown, standalone_of, view_all,
}

contains-append-right :
    (xs ys : List Text) (t : Text) → contains ys t ≡ true → contains (xs ++ ys) t ≡ true
contains-append-right [] ys t e = e
contains-append-right (x ∷ xs) ys t e = ground (arith, contains-append-right xs ys t)

contains_self : (t : Text) (ys : List Text) → contains (t ∷ ys) t ≡ true
contains_self t ys = rw (≡→eq t t refl)

own_shown :
    (ids : List Text) (a it : Item) (items : List Item)
    → a ≡ it
    → a.is_project ≡ true
    → contains (ids_to_show ids (it ∷ items)) a.id ≡ true
unfolding ids_to_show
own_shown ids a it items same p =
    let q : it.is_project ≡ true = rw (← same) p in rw (q, same) (contains_self it.id _)

rest_shown :
    (ids : List Text) (id : Text) (it : Item) (items : List Item)
    → contains (ids_to_show ids items) id ≡ true
    → contains (ids_to_show ids (it ∷ items)) id ≡ true
unfolding ids_to_show
rest_shown ids id it items e =
    contains-append-right (own_id it) (unmatched_parent ids (parent_of it) ++ ids_to_show ids items)
      id (contains-append-right (unmatched_parent ids (parent_of it)) (ids_to_show ids items) id e)

is_true-IsProp : (b : Bool) → IsProp (b ≡ true)
is_true-IsProp b = hlevel

-- A matched project is among those to show.
ids_to_show_project :
    (a : Item) (ids : List Text) (items : List Item)
    → Mem a items
    → a.is_project ≡ true
    → contains (ids_to_show ids items) a.id ≡ true
ids_to_show_project a ids [] m p = absurd (not-mem-nil m)
ids_to_show_project a ids (it ∷ items) m p =
    Or.elim (is_true-IsProp _) (mem-cons.0 m) (λ same. own_shown ids a it items same p)
      (λ r. rest_shown ids a.id it items (ids_to_show_project a ids items r p))

-- The items that the search page shows: its projects, and its loose items.
abbrev pub projects_shown : SearchPage → List Item
projects_shown page = map (λ (g : Group). g.project) page.project_groups

projects_of_groups :
    (by_parent : _) (projects : List Item)
    → map (λ (g : Group). g.project) (map (group_for by_parent) projects) ≡ projects
projects_of_groups by_parent [] = refl
projects_of_groups by_parent (p ∷ projects) =
    ap (λ l. p ∷ l) (projects_of_groups by_parent projects)

module _ (h : Host) (query : Query) (snapshot : List Item) (it : Item) where
  groups_shown_project :
      (results : List Item)
      → Mem it results
      → Mem it snapshot
      → it.is_project ≡ true
      → Mem it (map (λ (g : Group). g.project) (groups_shown h results snapshot))
  unfolding groups_shown
  groups_shown_project results m n p = subst (Mem it) (sym (projects_of_groups _ _)) (
      mem-listed_of_mem _ _ snapshot n
        (rw (ids_to_show_project it (map (λ (i : Item). i.id) results) results m p, p)))

  -- A project that the search matches has a group of its own on the page.
  pub view_all_project :
      Mem it snapshot
      → matches h query it ≡ true
      → it.is_project ≡ true
      → Mem it (projects_shown (view_all h query snapshot))
  unfolding view_all results_of
  view_all_project n e p =
      groups_shown_project _ (mem-listed_of_mem (result_key h) (matches h query) snapshot n e) n p

  -- Another item that the search matches is listed by itself, unless a group lists an item with its
  -- id.
  pub view_all_task :
      Mem it snapshot
      → matches h query it ≡ true
      → it.is_project ≡ false
      → (contains (shown_ids (view_all h query snapshot).project_groups) it.id ≡ true)
        ⊎ Mem it (view_all h query snapshot).standalone
  unfolding view_all results_of standalone_of
  view_all_task n e f =
      let m = mem-listed_of_mem (result_key h) (matches h query) snapshot n e in
      elim (Bool-cases (contains (shown_ids (view_all h query snapshot).project_groups) it.id)) [
        | inl c ↦ inl c
        | inr c ↦ inr (mem-select_of_mem _ _ m (rw (f, c)))
      ]
