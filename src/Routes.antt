-- ===== src/Routes.antt =====
-- system/apps/gtd/src/gtd/runner.py: the handlers that change items and texts. The web framework and
-- the HTML of the pages are outside the model; a handler gives a reply or raises.
pub mod Requests
pub mod Recurrence
pub mod Capture
pub mod Cascade
pub mod Parking
pub mod Someday
pub mod Weekdays
pub mod Edits
pub mod Save
pub mod Bounce
pub mod Pages
pub mod Created
pub mod Saved
pub mod Shelved
pub mod Titles
pub mod WeekdaySet
