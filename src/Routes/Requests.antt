-- ===== src/Routes/Requests.antt =====
-- What the handlers of runner.py read of a request, and what they reply.
use plain_text_gtd.Prelude.{Option, none, some, [], ◌∷◌}
use plain_text_gtd.Text.{Text}
use plain_text_gtd.Dates.{Date}
use plain_text_gtd.Dates.Iso.{date_from_iso}
use plain_text_gtd.DataTypes.{ItemStatus, Priority, value_error}
use plain_text_gtd.DataTypes.Values.{status_of, priority_of}
use plain_text_gtd.World.{Result, ok, err}

-- The pages that a redirect names through `request.url_for`.
pub data Page : Type 0 where
  inbox_page today_page instructions_page weekly_review_page projects_and_goals_page : Page
  project_page : Text → Page

-- A redirect goes to a page, or to an address that the request brought.
pub data Location : Type 0 where
  page : Page → Location
  address : Text → Location

pub data Reply : Type 0 where
  redirect : Location → Reply
  no_content : Reply
  html : Text → Reply

-- The header `referer`.
pub record Request : Type 0 where
  pub referer : Option Text

-- `a or b`, for an address that may be empty
abbrev pub or_location : Text → Location → Location
or_location [] other = other
or_location (c ∷ s) other = address (c ∷ s)

abbrev referer_or : Option Text → Location → Location
referer_or none other = other
referer_or (some s) other = or_location s other

-- `request.headers.get("referer") or request.url_for("inbox").path`
abbrev pub came_from : Request → Location
came_from request = referer_or request.referer (page inbox_page)

-- `text or None`
abbrev pub none_if_empty : Text → Option Text
none_if_empty [] = none
none_if_empty (c ∷ s) = some (c ∷ s)

-- `text or default`
abbrev pub text_or : Text → Text → Text
text_or [] default = default
text_or (c ∷ s) default = c ∷ s

-- `_parse_optional_date`
unfoldable pub parse_optional_date : Text → Result (Option Date)
parse_optional_date [] = ok none
parse_optional_date (c ∷ s) = elim (date_from_iso (c ∷ s)) [
  | none ↦ err value_error
  | some d ↦ ok (some d)
]

-- `ItemStatus(text)`
unfoldable pub status_in : Text → Result ItemStatus
status_in s = elim (status_of s) [ none ↦ err value_error | some x ↦ ok x ]

-- `Priority(text)`
unfoldable pub priority_in : Text → Result Priority
priority_in s = elim (priority_of s) [ none ↦ err value_error | some x ↦ ok x ]
