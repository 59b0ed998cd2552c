-- ===== src/DataTypes.antt =====
-- system/apps/gtd/src/gtd/data_types.py: the statuses, the priorities and the frozen `Item`.
pub mod Values
use native.Mathlib.Decide.{ℕ_discrete}
use plain_text_gtd.Prelude.{ℕ, Bool, false, List, [], ◌∷◌, Option, none, Eq}
use plain_text_gtd.Text.{Text, lit}
use plain_text_gtd.Dates.{Date, DateTime}

-- The exceptions that a request can end with: the two of the application, those of Python and
-- pydantic that it lets through, and a file that is no frontmatter file.
pub data Failure : Type 0 where
  gtd_error gtd_value_error value_error type_error key_error overflow_error : Failure
  file_not_found validation_error parse_error : Failure

pub data ItemStatus : Type 0 where
  inbox next waiting someday read_review reference done trashed : ItemStatus

pub data Priority : Type 0 where
  high normal low : Priority

unfoldable pub status_discrete : Discrete ItemStatus
status_discrete = hlevel

unfoldable pub priority_discrete : Discrete Priority
priority_discrete = hlevel

instance unfoldable pub status_eq : Eq ItemStatus
unfolding status_discrete
status_eq = record { dec = status_discrete }

instance unfoldable pub priority_eq : Eq Priority
unfolding priority_discrete
priority_eq = record { dec = priority_discrete }

abbrev pub status_value : ItemStatus → Text
status_value inbox = lit "inbox"
status_value next = lit "next"
status_value waiting = lit "waiting"
status_value someday = lit "someday"
status_value read_review = lit "read-review"
status_value reference = lit "reference"
status_value done = lit "done"
status_value trashed = lit "trashed"

abbrev pub priority_value : Priority → Text
priority_value high = lit "high"
priority_value normal = lit "normal"
priority_value low = lit "low"

-- `list(ItemStatus)`
abbrev pub all_statuses : List ItemStatus
all_statuses = inbox ∷ next ∷ waiting ∷ someday ∷ read_review ∷ reference ∷ done ∷ trashed ∷ []

-- `list(Priority)`
abbrev pub all_priorities : List Priority
all_priorities = high ∷ normal ∷ low ∷ []

-- `PRIORITY_SORT`
abbrev pub priority_sort : Priority → ℕ
priority_sort high = 0
priority_sort normal = 1
priority_sort low = 2

-- `PROJECT_CHILD_SORT`
abbrev pub project_child_sort : ItemStatus → ℕ
project_child_sort next = 0
project_child_sort inbox = 1
project_child_sort someday = 2
project_child_sort waiting = 3
project_child_sort read_review = 4
project_child_sort reference = 5
project_child_sort done = 6
project_child_sort trashed = 7

-- A weekday in a hand-edited file can be any integer. `negsuc n` is -(n + 1).
pub data ℤ : Type 0 where
  pos : ℕ → ℤ
  negsuc : ℕ → ℤ

unfoldable pub int_discrete : Discrete ℤ
unfolding ℕ_discrete
int_discrete = hlevel ℕ_discrete

instance unfoldable pub int_eq : Eq ℤ
unfolding int_discrete
int_eq = record { dec = int_discrete }

pub record Item : Type 0 where
  pub id : Text
  pub title : Text
  pub status : ItemStatus
  pub created_at : DateTime
  pub updated_at : DateTime
  pub body : Text
  pub due_date : Option Date
  pub start_date : Option Date
  pub parent : Option Text
  pub waiting_for : Option Text
  pub contexts : List Text
  pub tags : List Text
  pub quick : Bool
  pub recur_weekdays : List ℤ
  pub is_project : Bool
  pub priority : Priority
  pub prev_status : Option ItemStatus

-- `Item(id=…, title=…, status=…, created_at=…, updated_at=…)`, with the defaults for the rest
abbrev pub new_item : Text → Text → ItemStatus → DateTime → Item
new_item id title status created = record {
  id = id;
  title = title;
  status = status;
  created_at = created;
  updated_at = created;
  body = [];
  due_date = none;
  start_date = none;
  parent = none;
  waiting_for = none;
  contexts = [];
  tags = [];
  quick = false;
  recur_weekdays = [];
  is_project = false;
  priority = normal;
  prev_status = none;
}
