-- ===== src/Views/Calendar.antt =====
-- runner.py: `view_calendar_for`, `_render_calendar` and `_chips_for_day`.
use plain_text_gtd.Prelude.{
  ℕ, zero, suc, ◌+◌, ◌-◌, ◌*◌, ◌/◌, Bool, true, not, ◌&&◌, List, [], ◌∷◌, map, Option, none, some,
  ◌==◌, nat_eq, option_eq, leb, select, if◌then◌else◌,
}
use plain_text_gtd.Text.{Text}
use plain_text_gtd.Dates.{Date, max_date, weekday, civil_of, ordinal_of, is_leap, days_in_month}
use plain_text_gtd.DataTypes.{Item, gtd_error, value_error}
use plain_text_gtd.World.{Result, ok, err}
use plain_text_gtd.Views.Keys.{is_closed}

pub data ChipKind : Type 0 where
  due span : ChipKind

-- The page that a chip links to.
pub data Link : Type 0 where
  project_detail edit_item : Text → Link

pub record Chip : Type 0 where
  pub kind : ChipKind
  pub title : Text
  pub href : Link

-- `due` counts before `span`
unfoldable pub chip_kind : Date → Item → Option ChipKind
chip_kind day it =
    if it.due_date == some day
    then some due
    else if it.start_date == some day
    then some span
    else none

abbrev link_of : Item → Link
link_of it = if it.is_project then project_detail it.id else edit_item it.id

abbrev chip_or : Item → Option ChipKind → List Chip → List Chip
chip_or it none rest = rest
chip_or it (some k) rest = record { kind = k; title = it.title; href = link_of it } ∷ rest

-- `_chips_for_day`
unfoldable pub chips_for_day : Date → List Item → List Chip
unfolding chip_kind
chips_for_day day [] = []
chips_for_day day (it ∷ items) = chip_or it (chip_kind day it) (chips_for_day day items)

pub record Cell : Type 0 where
  pub day : ℕ
  pub in_month : Bool
  pub is_today : Bool
  pub chips : List Chip

-- The days of `calendar.Calendar(firstweekday=0).itermonthdates(year, month)`: whole weeks, from a
-- Monday on.
unfoldable pub count_days : ℕ → Date → List Date
count_days zero d = []
count_days (suc n) d = d ∷ count_days n (d + 1)

unfoldable pub month_days : ℕ → ℕ → Date → List Date
unfolding count_days weekday
month_days year month first =
    let lead = weekday first in
    count_days ((lead + days_in_month (is_leap year) month + 6) / 7 * 7) (first - lead)

abbrev pub cell_of : ℕ → Date → List Item → Date → Cell
cell_of month today visible d = record {
  day = (civil_of d).day;
  in_month = (civil_of d).month == month;
  is_today = d == today;
  chips = chips_for_day d visible;
}

pub record CalendarPage : Type 0 where
  pub cells : List Cell
  pub previous_year : ℕ
  pub previous_month : ℕ
  pub following_year : ℕ
  pub following_month : ℕ

unfoldable pub previous_of : ℕ → ℕ → ℕ × ℕ
unfolding nat_eq
previous_of year month = if month == 1 then (year - 1, 12) else (year, month - 1)

unfoldable pub following_of : ℕ → ℕ → ℕ × ℕ
unfolding nat_eq
following_of year month = if month == 12 then (year + 1, 1) else (year, month + 1)

-- The iteration raises where the last week leaves the dates that Python has.
unfoldable pub are_dates : List Date → Bool
are_dates [] = true
are_dates (d ∷ days) = leb d max_date && are_dates days

abbrev calendar_page : ℕ → ℕ → Date → List Item → Option Date → Result CalendarPage
calendar_page year month today snapshot none = err value_error
calendar_page year month today snapshot (some first) =
    let days = month_days year month first in
    if are_dates days
    then ok (record {
      cells = map (cell_of month today (select (λ it. not (is_closed it.status)) snapshot)) days;
      previous_year = (previous_of year month).0;
      previous_month = (previous_of year month).1;
      following_year = (following_of year month).0;
      following_month = (following_of year month).1;
    })
    else err value_error

-- `_render_calendar`, for a year from 1 on; a year that Python has no dates for raises.
unfoldable pub render_calendar : ℕ → ℕ → Date → List Item → Result CalendarPage
unfolding are_dates
render_calendar year month today snapshot =
    calendar_page year month today snapshot
      (ordinal_of (record { year = year; month = month; day = 1 }))

-- `view_calendar_for`
unfoldable pub view_calendar_for : ℕ → ℕ → Date → List Item → Result CalendarPage
unfolding render_calendar
view_calendar_for year month today snapshot =
    if leb 1 month && leb month 12 then render_calendar year month today snapshot else err gtd_error

-- `view_calendar_today`
unfoldable pub view_calendar_today : Date → List Item → Result CalendarPage
unfolding render_calendar civil_of
view_calendar_today today = render_calendar (civil_of today).year (civil_of today).month today
