-- ===== src/Views.antt =====
-- runner.py: the pages, as the lists that they hand to their templates. `Keys` has the sort keys and
-- filters, `Context` what every page gets, and the others a page or two each.
pub mod Keys
pub mod Context
pub mod Lists
pub mod Next
pub mod Projects
pub mod Search
pub mod Today
pub mod Calendar
pub mod Counting
pub mod Listing
pub mod Found
pub mod Grouping
pub mod Grid
pub mod Sections
