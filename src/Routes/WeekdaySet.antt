-- ===== src/Routes/WeekdaySet.antt =====
-- runner.py: the weekdays that a form sets, `tuple(sorted({…}))`.
use plain_text_gtd.Prelude.{
  ℕ, ◌<◌, ◌≡◌, refl, ◌||◌, List, [], ◌∷◌, arith, All, contains, nat_eq, inl, inr, Bool-cases, ltb,
  ◌==◌, map, ap, ◌∙◌,
}
use plain_text_gtd.Text.{Text}
use plain_text_gtd.DataTypes.{pos}
use plain_text_gtd.Host.{Host}
use plain_text_gtd.World.{ok}
use plain_text_gtd.Routes.Weekdays.{week_numbers, insert_once, sorted_set, recur_from}

-- Strictly ascending, from above `low`.
abbrev pub AreAscending : List ℕ → Type 0
AreAscending [] = Unit
AreAscending (n ∷ ns) = All (λ m. n < m) ns × AreAscending ns

All-insert_once :
    (low n : ℕ) (ns : List ℕ)
    → low < n
    → All (λ m. low < m) ns
    → All (λ m. low < m) (insert_once n ns)
unfolding insert_once
All-insert_once low n [] h a = (h, tt)
All-insert_once low n (m ∷ ms) h a = ground (arith, All-insert_once low n ms)

All-below : (n m : ℕ) (ms : List ℕ) → n < m → All (λ k. m < k) ms → All (λ k. n < k) ms
All-below n m [] h a = tt
All-below n m (k ∷ ms) h a = (omega (arith, a.0), All-below n m ms h a.1)

insert_once-AreAscending : (n : ℕ) (ns : List ℕ) → AreAscending ns → AreAscending (insert_once n ns)
unfolding insert_once
insert_once-AreAscending n [] a = (tt, tt)
insert_once-AreAscending n (m ∷ ms) a = elim (Bool-cases (ltb n m)) [
  | inl e ↦ rw e ((ground arith, All-below n m ms (ground arith) a.0), a)
  | inr e ↦ elim (Bool-cases (ltb m n)) [
    | inl f ↦
        rw (e, f) (All-insert_once m n ms (ground arith) a.0, insert_once-AreAscending n ms a.1)
    | inr f ↦ rw (e, f) a
  ]
]

contains-insert_once :
    (n : ℕ) (ns : List ℕ) (k : ℕ) → contains (insert_once n ns) k ≡ contains (n ∷ ns) k
unfolding insert_once
contains-insert_once n [] k = refl
contains-insert_once n (m ∷ ms) k = ground (arith, contains-insert_once n ms k)

sorted_set-AreAscending : (ns : List ℕ) → AreAscending (sorted_set ns)
unfolding sorted_set
sorted_set-AreAscending [] = tt
sorted_set-AreAscending (n ∷ ns) =
    insert_once-AreAscending n (sorted_set ns) (sorted_set-AreAscending ns)

contains-sorted_set : (ns : List ℕ) (k : ℕ) → contains (sorted_set ns) k ≡ contains ns k
unfolding sorted_set
contains-sorted_set [] k = refl
contains-sorted_set (n ∷ ns) k =
    contains-insert_once n (sorted_set ns) k ∙ ap (λ b. (k == n) || b) (contains-sorted_set ns k)

-- The weekdays that a form sets are those that it sends, each once and in ascending order, where all
-- of what it sends can be read.
pub recur_from_set :
    (h : Host) (weekdays : List Text) (ns : List ℕ)
    → week_numbers h weekdays ≡ ok ns
    → (set : List ℕ) × (recur_from h weekdays ≡ ok (map pos set))
      × AreAscending set
      × ((k : ℕ) → contains set k ≡ contains ns k)
unfolding recur_from
recur_from_set h weekdays ns e =
    (sorted_set ns, rw (e, recur_from), sorted_set-AreAscending ns, contains-sorted_set ns)
