-- ===== src/Dates/Civil.antt =====
-- The ordinal of the year, month and day of a date is the date.
use plain_text_gtd.Prelude.{
  ℕ, zero, suc, ◌+◌, ◌-◌, ◌≤◌, ◌<◌, ◌≡◌, refl, Bool, true, false, ◌&&◌, some, arith, ap, ◌∙◌, leb,
  ltb, nat_eq, if◌then◌else◌,
}
use plain_text_gtd.Dates.{
  IsDate, CivilDate, is_leap, days_before_year, days_before_month, days_in_month, month_of_day,
  year_of, civil_of, ordinal_of,
}

-- A test that holds of the days of a year, one after the other.
holds_for : (ℕ → Bool) → ℕ → Bool
holds_for test zero = true
holds_for test (suc days) = holds_for test days && test days

holds_for-each :
    (test : ℕ → Bool) (days day : ℕ) → holds_for test days ≡ true → day < days → test day ≡ true
unfolding holds_for
holds_for-each test zero day all early = absurd (omega arith)
holds_for-each test (suc days) day all early = ground (arith, holds_for-each test days day)

abbrev year_length : Bool → ℕ
year_length leap = if leap then 366 else 365

-- What the search for the month has to give, as a test.
month_fits : Bool → ℕ → Bool
month_fits leap r =
    let m = month_of_day leap r in
    leb 1 m
    && leb m 12
    && leb (days_before_month leap m) r
    && ltb r (days_before_month leap m + days_in_month leap m)

table : (leap : Bool) → holds_for (month_fits leap) (year_length leap) ≡ true
unfolding holds_for month_fits month_of_day days_in_month
table true = refl
table false = refl

record MonthFits (leap : Bool) (r : ℕ) : Type 0 where
  low : 1 ≤ month_of_day leap r
  high : month_of_day leap r ≤ 12
  before : days_before_month leap (month_of_day leap r) ≤ r
  after :
      r < days_before_month leap (month_of_day leap r) + days_in_month leap (month_of_day leap r)

MonthFits-parts : (leap : Bool) (r : ℕ) → month_fits leap r ≡ true → MonthFits leap r
unfolding month_fits
MonthFits-parts leap r e = ground arith

days_before_year-suc :
    (y : ℕ) → 1 ≤ y → days_before_year (y + 1) ≡ days_before_year y + year_length (is_leap y)
unfolding days_before_year is_leap nat_eq
days_before_year-suc y h = ground arith

record YearFits (d y : ℕ) : Type 0 where
  low : 1 ≤ y
  high : y ≤ 9999
  before : days_before_year y < d
  after : d ≤ days_before_year (y + 1)

year_of-fits : (d : ℕ) → IsDate d → YearFits d (year_of d)
unfolding year_of days_before_year
year_of-fits d h = ground arith

-- The year, month and day of a date lie in their ranges.
pub record CivilFits (c : CivilDate) : Type 0 where
  pub year_low : 1 ≤ c.year
  pub year_high : c.year ≤ 9999
  pub month_low : 1 ≤ c.month
  pub month_high : c.month ≤ 12
  pub day_low : 1 ≤ c.day
  pub day_high : c.day ≤ days_in_month (is_leap c.year) c.month

ordinal_of-fits :
    (c : CivilDate)
    → CivilFits c
    → ordinal_of c
      ≡ some (days_before_year c.year + days_before_month (is_leap c.year) c.month + c.day)
unfolding ordinal_of
ordinal_of-fits c f = ground arith

module _ (d : ℕ) (h : IsDate d) where
  year_fits : YearFits d (year_of d)
  year_fits = year_of-fits d h

  day_of_year : d - 1 - days_before_year (year_of d) < year_length (is_leap (year_of d))
  day_of_year = omega (
    arith,
    year_fits,
    days_before_year-suc (year_of d) year_fits.low,
    year_fits.before,
    year_fits.after,
  )

  MonthFits-date : MonthFits (is_leap (year_of d)) (d - 1 - days_before_year (year_of d))
  MonthFits-date = MonthFits-parts _ _ (holds_for-each _ _ _ (table _) day_of_year)

  pub civil_of-fits : CivilFits (civil_of d)
  unfolding civil_of
  civil_of-fits = record {
    year_low = year_fits.low;
    year_high = year_fits.high;
    month_low = MonthFits-date.low;
    month_high = MonthFits-date.high;
    day_low = omega arith;
    day_high = omega (arith, MonthFits-date.after, MonthFits-date.before);
  }

  -- The date of the year, month and day of a date is that date.
  pub ordinal_of-civil_of : ordinal_of (civil_of d) ≡ some d
  unfolding civil_of
  ordinal_of-civil_of =
      ordinal_of-fits (civil_of d) civil_of-fits
      ∙ ap some (omega (arith, year_fits.before, MonthFits-date.before, h.low))
