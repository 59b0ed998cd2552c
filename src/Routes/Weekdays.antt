-- ===== src/Routes/Weekdays.antt =====
-- runner.py: the weekdays that the forms send, as `save_item` and `set_recur_route` read them.
use plain_text_gtd.Prelude.{
  ℕ, Bool, false, ◌&&◌, List, [], ◌∷◌, map, Option, none, some, leb, ltb, if◌then◌else◌,
}
use plain_text_gtd.Text.{Text}
use plain_text_gtd.DataTypes.{ℤ, pos, negsuc, value_error}
use plain_text_gtd.Host.{Host}
use plain_text_gtd.World.{Result, ok, err}
use plain_text_gtd.Storage.Coerce.{int_of_text}

-- `d.isdigit()`
is_digits : Host → Text → Bool
is_digits h [] = false
is_digits h (c ∷ []) = h.is_digit c
is_digits h (c ∷ d ∷ s) = h.is_digit c && is_digits h (d ∷ s)

abbrev within_week : ℤ → Option ℕ
within_week (pos n) = if leb n 6 then some n else none
within_week (negsuc n) = none

abbrev keep : Option ℕ → List ℕ → List ℕ
keep none ns = ns
keep (some n) ns = n ∷ ns

-- The numbers of `{int(d) for d in weekdays if d.isdigit() and 0 <= int(d) <= 6}`, as often as the
-- form sends them.
unfoldable pub week_numbers : Host → List Text → Result (List ℕ)
unfolding is_digits
week_numbers h [] = ok []
week_numbers h (d ∷ weekdays) =
    let rest = week_numbers h weekdays in
    let taken : Result (List ℕ) = elim (int_of_text h d) [
      | none ↦ err value_error
      | some n ↦ elim rest [ err e ↦ err e | ok ns ↦ ok (keep (within_week n) ns) ]
    ] in
    if is_digits h d then taken else rest

-- A sorted list of the set: each number once.
unfoldable pub insert_once : ℕ → List ℕ → List ℕ
insert_once n [] = n ∷ []
insert_once n (m ∷ ms) =
    let rest = insert_once n ms in
    if ltb n m then n ∷ m ∷ ms else if ltb m n then m ∷ rest else m ∷ ms

unfoldable pub sorted_set : List ℕ → List ℕ
unfolding insert_once
sorted_set [] = []
sorted_set (n ∷ ns) = insert_once n (sorted_set ns)

-- `tuple(sorted({…}))`
unfoldable pub recur_from : Host → List Text → Result (List ℤ)
unfolding week_numbers sorted_set
recur_from h weekdays = elim (week_numbers h weekdays) [
  | err e ↦ err e
  | ok ns ↦ ok (map pos (sorted_set ns))
]
