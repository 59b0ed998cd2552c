-- ===== src/Routes/Recurrence.antt =====
-- runner.py: `_next_recurrence_after`, and the weekdays that the forms send.
use native.Mathlib.Decide.{dec_lt}
use mathlib.Core.Bool.{false≢true}
use plain_text_gtd.Prelude.{
  sym, ◌∙◌, ℕ, zero, suc, ◌+◌, ◌-◌, ◌%◌, ◌≤◌, ◌<◌, ◌≡◌, Bool, true, false, List, [], ◌∷◌, Option,
  none, some, arith, contains, inl, inr, Bool-cases, if◌then◌else◌,
}
use plain_text_gtd.Dates.{Date, add_days, weekday, max_date}
use plain_text_gtd.DataTypes.{ℤ, pos, int_eq, overflow_error}
use plain_text_gtd.World.{Result, ok, err}

-- Whether the date falls on one of the weekdays.
abbrev pub falls_on : List ℤ → Date → Bool
falls_on weekdays d = contains weekdays (pos (weekday d))

-- The loop over the offsets, from `offset` on for `rounds` rounds.
search_days : ℕ → Date → List ℤ → ℕ → Result (Option Date)
search_days zero today weekdays offset = ok none
search_days (suc rounds) today weekdays offset = elim (add_days today offset) [
  | none ↦ err overflow_error
  | some candidate ↦
      let later = search_days rounds today weekdays (offset + 1) in
      if falls_on weekdays candidate then ok (some candidate) else later
]

-- `_next_recurrence_after`
unfoldable pub next_recurrence_after : Date → List ℤ → Result (Option Date)
unfolding search_days
next_recurrence_after today [] = ok none
next_recurrence_after today (d ∷ weekdays) = search_days 7 today (d ∷ weekdays) 1

-- `d` is the first date after `today` that falls on one of the weekdays.
pub record IsNextOn (weekdays : List ℤ) (today d : Date) : Type 0 where
  pub later : today < d
  pub falls : falls_on weekdays d ≡ true
  pub first : (e : Date) → today < e → e < d → falls_on weekdays e ≡ false

add_days-fits : (today n : ℕ) → today + n ≤ max_date → add_days today n ≡ some (today + n)
unfolding add_days
add_days-fits today n h = ground arith

module _ (today : Date) (weekdays : List ℤ) where
  -- No day before the offset is one of the weekdays.
  abbrev NoneBefore : ℕ → Type 0
  NoneBefore offset = (e : Date) → today < e → e < today + offset → falls_on weekdays e ≡ false

  NoneBefore-suc :
      (offset : ℕ)
      → NoneBefore offset
      → falls_on weekdays (today + offset) ≡ false
      → NoneBefore (offset + 1)
  NoneBefore-suc offset before missed e low high = elim (dec_lt e (today + offset)) [
    | yes p ↦ before e low p
    | no p ↦ let same : e ≡ today + offset = omega arith in rw same missed
  ]

  offset_passed :
      (offset k : ℕ)
      → offset ≤ k
      → falls_on weekdays (today + k) ≡ true
      → falls_on weekdays (today + offset) ≡ false
      → offset + 1 ≤ k
  offset_passed offset k low falls missed = elim (dec_lt offset k) [
    | yes p ↦ omega arith
    | no p ↦
        let same : k ≡ offset = omega arith in absurd (false≢true (sym missed ∙ (rw same at falls)))
  ]

  search_days_found :
      (rounds offset : ℕ)
      → today + offset ≤ max_date
      → falls_on weekdays (today + offset) ≡ true
      → search_days (suc rounds) today weekdays offset ≡ ok (some (today + offset))
  unfolding search_days
  search_days_found rounds offset fits found =
      rw (add_days-fits today offset fits, search_days) (rw found)

  search_days_missed :
      (rounds offset : ℕ)
      → today + offset ≤ max_date
      → falls_on weekdays (today + offset) ≡ false
      → search_days (suc rounds) today weekdays offset
        ≡ search_days rounds today weekdays (offset + 1)
  unfolding search_days
  search_days_missed rounds offset fits missed =
      rw (add_days-fits today offset fits, search_days) (rw missed)

  search_days_least :
      (rounds offset k : ℕ)
      → today + offset + rounds ≤ max_date + 1
      → 0 < offset
      → offset ≤ k
      → k < offset + rounds
      → falls_on weekdays (today + k) ≡ true
      → NoneBefore offset
      → (d : Date) × (search_days rounds today weekdays offset ≡ ok (some d))
        × (d ≤ today + k)
        × IsNextOn weekdays today d
  search_days_least zero offset k fits positive low high falls before = absurd (omega arith)
  search_days_least (suc rounds) offset k fits positive low high falls before =
      elim (Bool-cases (falls_on weekdays (today + offset))) [
        | inl found ↦ (
          today + offset,
          search_days_found rounds offset (omega arith) found,
          omega arith,
          record { later = omega arith; falls = found; first = before },
        )
        | inr missed ↦ rw (search_days_missed rounds offset (omega arith) missed) (
            search_days_least rounds (offset + 1) k (omega arith) (omega arith)
              (offset_passed offset k low falls missed) (omega arith) falls
              (NoneBefore-suc offset before missed))
      ]

-- Some day of the week ahead falls on a weekday that is listed.
offset_of : (today w : ℕ) → w < 7 → (k : ℕ) × (0 < k) × (k ≤ 7) × (weekday (today + k) ≡ w)
unfolding weekday
offset_of today w h = (7 - (today + 6 + (7 - w)) % 7, omega arith, omega arith, omega arith)

-- Where a weekday from 0 to 6 is listed, and the calendar does not end within a week, the result is the
-- first later date that falls on a listed weekday, at most a week ahead; the search does not give up.
pub next_recurrence_after_least :
    (today : Date) (weekdays : List ℤ) (w : ℕ)
    → w < 7
    → contains weekdays (pos w) ≡ true
    → today + 7 ≤ max_date
    → (d : Date) × (next_recurrence_after today weekdays ≡ ok (some d))
      × (d ≤ today + 7)
      × IsNextOn weekdays today d
unfolding next_recurrence_after
next_recurrence_after_least today [] w small listed fits = absurd (false≢true listed)
next_recurrence_after_least today (v ∷ weekdays) w small listed fits =
    let (k, positive, high, day) = offset_of today w small in
    let (d, found, within, first) =
      search_days_least today (v ∷ weekdays) 7 1 k (omega arith) (omega arith) (omega arith)
        (omega arith) (rw day listed) (λ e low below. absurd (omega arith)) in
    (d, found, omega arith, first)
