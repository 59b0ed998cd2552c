-- ===== src/Dates.antt =====
-- What the program uses of Python's `date` and `datetime`. A date is its proleptic Gregorian ordinal
-- (`date.toordinal()`), and a naive datetime the number of microseconds since the start of day 0.
pub mod Civil
pub mod Iso
use plain_text_gtd.Prelude.{
  ℕ, ◌+◌, ◌-◌, ◌*◌, ◌/◌, ◌%◌, ◌≤◌, Bool, ◌&&◌, ◌||◌, not, Option, none, some, leb, ltb, ◌==◌,
  nat_eq, if◌then◌else◌,
}

abbrev pub Date : Type 0
Date = ℕ

abbrev pub DateTime : Type 0
DateTime = ℕ

-- `date.max.toordinal()`
abbrev pub max_date : Date
max_date = 3652059

abbrev pub day_length : ℕ
day_length = 86400000000

-- The dates that Python can represent.
pub record IsDate (d : Date) : Type 0 where
  pub low : 1 ≤ d
  pub high : d ≤ max_date

-- `when.date()`
abbrev pub date_of : DateTime → Date
date_of t = t / day_length

-- `d.weekday()`: Monday is 0
unfoldable pub weekday : Date → ℕ
weekday d = (d + 6) % 7

-- `d + timedelta(days=n)`, `none` for an OverflowError
unfoldable pub add_days : Date → ℕ → Option Date
add_days d n = if leb (d + n) max_date then some (d + n) else none

pub record CivilDate : Type 0 where
  pub year : ℕ
  pub month : ℕ
  pub day : ℕ

unfoldable pub is_leap : ℕ → Bool
unfolding nat_eq
is_leap y = y % 4 == 0 && (not (y % 100 == 0) || y % 400 == 0)

unfoldable pub days_before_year : ℕ → ℕ
days_before_year y = let p = y - 1 in p * 365 + p / 4 + p / 400 - p / 100

-- Days of the year before the month, in a year that is leap or is not.
unfoldable pub days_before_month : Bool → ℕ → ℕ
days_before_month leap m =
    if leb m 1
    then 0
    else if leb m 2
    then 31
    else (if leap then 1 else 0)
      + (if leb m 3
          then 59
          else if leb m 4
          then 90
          else if leb m 5
          then 120
          else if leb m 6
          then 151
          else if leb m 7
          then 181
          else if leb m 8
          then 212
          else if leb m 9
          then 243
          else if leb m 10
          then 273
          else if leb m 11
          then 304
          else if leb m 12
          then 334
          else 365)

unfoldable pub days_in_month : Bool → ℕ → ℕ
unfolding days_before_month
days_in_month leap m = days_before_month leap (m + 1) - days_before_month leap m

-- The month that holds a day of the year, counted from 0.
unfoldable pub month_of_day : Bool → ℕ → ℕ
unfolding days_before_month
month_of_day leap r =
    if ltb r 31
    then 1
    else if ltb r (days_before_month leap 3)
    then 2
    else if ltb r (days_before_month leap 4)
    then 3
    else if ltb r (days_before_month leap 5)
    then 4
    else if ltb r (days_before_month leap 6)
    then 5
    else if ltb r (days_before_month leap 7)
    then 6
    else if ltb r (days_before_month leap 8)
    then 7
    else if ltb r (days_before_month leap 9)
    then 8
    else if ltb r (days_before_month leap 10)
    then 9
    else if ltb r (days_before_month leap 11)
    then 10
    else if ltb r (days_before_month leap 12)
    then 11
    else 12

-- The year that holds an ordinal: cycles of 400, 100, 4 and 1 years.
unfoldable pub year_of : Date → ℕ
year_of d =
    let n = d - 1 in
    let r400 = n % 146097 in
    let r100 = r400 % 36524 in
    let r4 = r100 % 1461 in
    let y = 400 * (n / 146097) + 100 * (r400 / 36524) + 4 * (r100 / 1461) + r4 / 365 in
    if leb 4 (r400 / 36524) || leb 4 (r4 / 365) then y else y + 1

-- The year, month and day of a date.
unfoldable pub civil_of : Date → CivilDate
civil_of d =
    let y = year_of d in
    let r = d - 1 - days_before_year y in
    let m = month_of_day (is_leap y) r in
    record { year = y; month = m; day = r - days_before_month (is_leap y) m + 1 }

-- `date(year, month, day).toordinal()`, `none` for a ValueError
unfoldable pub ordinal_of : CivilDate → Option Date
ordinal_of c =
    let leap = is_leap c.year in
    if leb 1 c.year
      && leb c.year 9999
      && leb 1 c.month
      && leb c.month 12
      && leb 1 c.day
      && leb c.day (days_in_month leap c.month)
    then some (days_before_year c.year + days_before_month leap c.month + c.day)
    else none
