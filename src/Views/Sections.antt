-- ===== src/Views/Sections.antt =====
-- Which items the Today, Next and Tickler pages show.
use plain_text_gtd.Prelude.{
  ◌≡◌, refl, Bool, true, false, not, ◌&&◌, ◌||◌, List, ◌++◌, Mem, Component, select, Bool-cases,
  inl, inr, ◌∙◌, sym, Option, none, some, arith, leb, ◌==◌, nat_eq, option_eq,
}
use mathlib.Core.List.{mem-append_left, mem-append_right, mem-append}
use mathlib.Core.Logic.{∥∥₁_map}
use mathlib.Core.Logic.Or
use mathlib.Core.Bool.{false≢true}
use plain_text_gtd.Views.Listing.{mem-listed, mem-listed_of_mem}
use plain_text_gtd.Dates.{Date}
use plain_text_gtd.Host.{Host}
use plain_text_gtd.DataTypes.{Item, status_eq}
use plain_text_gtd.Views.Keys.{sort_by, is_closed, starts_after}
use plain_text_gtd.Views.Today.{
  is_due_today, is_starting_today, is_in_progress, is_past_due, is_before, is_none, TodayPage,
  view_today,
}

-- A day that has come: today or before.
abbrev pub has_come : Option Date → Date → Bool
has_come none today = false
has_come (some d) today = leb d today

today_cases :
    (due start : Option Date) (today : Date)
    → ((due == some today)
        || ((start == some today && not (due == some today))
            || ((is_before start today
                  && not (due == some today)
                  && (is_none due || starts_after due today))
                || is_before due today)))
      ≡ (has_come due today || has_come start today)
unfolding option_eq nat_eq
today_cases none none today = ground arith
today_cases none (some s) today = ground arith
today_cases (some d) none today = ground arith
today_cases (some d) (some s) today = ground arith

-- The tests of the four sections of the Today page, taken together: an open item whose due date or
-- start date has come.
sections_lem :
    (today : Date) (it : Item)
    → (is_due_today today it
        || (is_starting_today today it || (is_in_progress today it || is_past_due today it)))
      ≡ (not (is_closed it.status) && (has_come it.due_date today || has_come it.start_date today))
unfolding is_due_today is_starting_today is_in_progress is_past_due
sections_lem today it = elim (Bool-cases (is_closed it.status)) [
  | inl e ↦ rw e
  | inr e ↦ rw e (today_cases it.due_date it.start_date today)
]

mem-either :
    {a : Item} {xs ys : List Item} (b c : Bool)
    → (b || c) ≡ true
    → (b ≡ true → Mem a xs)
    → (c ≡ true → Mem a ys)
    → Mem a (xs ++ ys)
mem-either true c e f g = mem-append_left _ (f refl)
mem-either false c e f g = mem-append_right _ (g e)

not_and : (b c : Bool) → (not b && c) ≡ true → (b ≡ false) × (c ≡ true)
not_and true c e = absurd (false≢true e)
not_and false c e = (refl, e)

or_left : (b c : Bool) → b ≡ true → (b || c) ≡ true
or_left b c e = rw e

or_right : (b c : Bool) → c ≡ true → (b || c) ≡ true
or_right true c e = refl
or_right false c e = e

-- All that the Today page lists.
abbrev pub items_shown : TodayPage → List Item
items_shown page = page.due_today ++ (page.starting_today ++ (page.in_progress ++ page.past_due))

disjoint :
    (closed : Bool) (due start : Option Date) (today : Date)
    → let is_due = not closed && due == some today in
      let is_starting = not closed && start == some today && not (due == some today) in
      let is_going =
        not closed
        && is_before start today
        && not (due == some today)
        && (is_none due || starts_after due today) in
      let is_late = not closed && is_before due today in
      ((is_due && is_going) ≡ false)
      × ((is_due && is_late) ≡ false)
      × ((is_going && is_late) ≡ false)
      × ((is_starting && is_due) ≡ false)
      × ((is_starting && is_going) ≡ false)
unfolding option_eq nat_eq
disjoint true due start today = (refl, refl, refl, refl, refl)
disjoint false none none today = (refl, refl, refl, refl, refl)
disjoint false none (some s) today = ground arith
disjoint false (some d) none today = ground arith
disjoint false (some d) (some s) today = ground arith

module _ (h : Host) (today : Date) (items : List Item) (it : Item) where
  -- Every open item whose due date or start date is today or past is listed on the Today page.
  pub view_today_complete :
      Mem it items
      → is_closed it.status ≡ false
      → (has_come it.due_date today || has_come it.start_date today) ≡ true
      → Mem it (items_shown (view_today h today items))
  unfolding view_today
  view_today_complete m opened come =
      mem-either _ _ (sections_lem today it ∙ (rw (opened, come))) (mem-listed_of_mem _ _ items m)
        (λ e.
          mem-either _ _ e (mem-listed_of_mem _ _ items m) (λ e'.
            mem-either _ _ e' (mem-listed_of_mem _ _ items m) (mem-listed_of_mem _ _ items m)))

  shown_in :
      {C : Type 0} (key : List (Component Item)) (p : Item → Bool) (rest : List Item)
      → (p it ≡ true → C)
      → (Mem it rest → ∥ Mem it items × C ∥₁)
      → Mem it (sort_by key (select p items) ++ rest)
      → ∥ Mem it items × C ∥₁
  shown_in key p rest f g m =
      Or.elim squash₁ (mem-append.0 m)
        (λ a. ∥∥₁_map (mem-listed key p items a) (λ (n, e). (n, f e))) g

  shows_lem :
      (is_due_today today it
          || (is_starting_today today it || (is_in_progress today it || is_past_due today it)))
        ≡ true
      → (is_closed it.status ≡ false)
        × ((has_come it.due_date today || has_come it.start_date today) ≡ true)
  shows_lem e = not_and _ _ (sym (sections_lem today it) ∙ e)

  -- The Today page lists open items of the snapshot alone, whose due date or start date has come.
  pub view_today_sound :
      Mem it (items_shown (view_today h today items))
      → ∥ Mem it items
          × ((is_closed it.status ≡ false)
              × ((has_come it.due_date today || has_come it.start_date today) ≡ true)) ∥₁
  unfolding view_today
  view_today_sound =
      shown_in _ (is_due_today today) _ (λ e. shows_lem (or_left _ _ e))
        (shown_in _ (is_starting_today today) _
          (λ e. shows_lem (or_right (is_due_today today it) _ (or_left _ _ e)))
          (shown_in _ (is_in_progress today) _
            (λ e. shows_lem (
              or_right (is_due_today today it) _
                (or_right (is_starting_today today it) _ (or_left _ _ e))))
            (λ m. ∥∥₁_map (mem-listed _ (is_past_due today) items m) (λ (n, e). (
              n,
              shows_lem (
                  or_right (is_due_today today it) _ (
                    or_right (is_starting_today today it) _
                      (or_right (is_in_progress today it) _ e))),
            )))))

module _ (today : Date) (it : Item) where
  -- No item passes the tests of two of the sections for items due today, in progress and past due,
  -- and an item that passes the test of those starting today passes neither of the first two.
  pub sections_disjoint :
      ((is_due_today today it && is_in_progress today it) ≡ false)
      × ((is_due_today today it && is_past_due today it) ≡ false)
      × ((is_in_progress today it && is_past_due today it) ≡ false)
      × ((is_starting_today today it && is_due_today today it) ≡ false)
      × ((is_starting_today today it && is_in_progress today it) ≡ false)
  unfolding is_due_today is_starting_today is_in_progress is_past_due
  sections_disjoint = disjoint (is_closed it.status) it.due_date it.start_date today
