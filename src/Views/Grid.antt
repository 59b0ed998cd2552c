-- ===== src/Views/Grid.antt =====
-- The grid of the calendar: whole weeks around the month, and the way from month to month.
use plain_text_gtd.Prelude.{
  ℕ, zero, suc, ◌+◌, ◌-◌, ◌*◌, ◌/◌, ◌%◌, ◌≤◌, ◌<◌, ◌≡◌, refl, List, [], ◌∷◌, arith, length, ◌==◌,
  nat_eq, ap, ◌||◌, option_eq, some,
}
use plain_text_gtd.Dates.{Date, weekday, days_in_month, is_leap}
use plain_text_gtd.DataTypes.{Item}
use plain_text_gtd.Views.Context.{count}
use plain_text_gtd.Views.Calendar.{
  count_days, month_days, previous_of, following_of, chips_for_day, chip_kind,
}

-- The month before the month after is the month itself, and so the other way round.
pub previous_of-following_of :
    (year month : ℕ)
    → 1 ≤ year
    → 1 ≤ month
    → month ≤ 12
    → (previous_of (following_of year month).0 (following_of year month).1 ≡ (year, month))
      × (following_of (previous_of year month).0 (previous_of year month).1 ≡ (year, month))
unfolding previous_of following_of
previous_of-following_of year month y low high = (ground arith, ground arith)

length-count_days : (n : ℕ) (d : Date) → length (count_days n d) ≡ n
unfolding count_days
length-count_days zero d = refl
length-count_days (suc n) d = ap suc (length-count_days n (d + 1))

-- Each day of a list of days is the day before, and one.
abbrev pub AreDaysFrom : Date → List Date → Type 0
AreDaysFrom d [] = Unit
AreDaysFrom d (x ∷ days) = (x ≡ d) × AreDaysFrom (d + 1) days

count_days-AreDaysFrom : (n : ℕ) (d : Date) → AreDaysFrom d (count_days n d)
unfolding count_days
count_days-AreDaysFrom zero d = tt
count_days-AreDaysFrom (suc n) d = (refl, count_days-AreDaysFrom n (d + 1))

-- The grid of a month that starts on `first`, which is a date from the second week of the calendar
-- on: consecutive days from a Monday on, in whole weeks, from the week of the first day to that of
-- the last, and no week more.
pub month_days_weeks :
    (year month : ℕ) (first : Date)
    → 7 ≤ first
    → let days = month_days year month first in
      let monday = first - weekday first in
      AreDaysFrom monday days
      × (weekday monday ≡ 0)
      × (length days % 7 ≡ 0)
      × (monday ≤ first)
      × (first < monday + 7)
      × (first + days_in_month (is_leap year) month ≤ monday + length days)
      × (length days < (weekday first + days_in_month (is_leap year) month) + 7)
unfolding month_days weekday
month_days_weeks year month first h =
    let lead = (first + 6) % 7 in
    let weeks = (lead + days_in_month (is_leap year) month + 6) / 7 in
    (
      count_days-AreDaysFrom (weeks * 7) (first - lead),
      omega arith,
      omega (arith, length-count_days (weeks * 7) (first - lead)),
      omega arith,
      omega arith,
      omega (arith, length-count_days (weeks * 7) (first - lead)),
      omega (arith, length-count_days (weeks * 7) (first - lead)),
    )

-- A day of the calendar has a chip for each item that is due or starts on it, and one chip where it
-- does both.
pub chips_for_day-count :
    (day : Date) (items : List Item)
    → length (chips_for_day day items)
      ≡ count (λ it. it.due_date == some day || it.start_date == some day) items
unfolding chips_for_day chip_kind count
chips_for_day-count day [] = refl
chips_for_day-count day (it ∷ items) = ground (arith, chips_for_day-count day items)
