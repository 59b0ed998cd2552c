-- ===== src/Tests.antt =====
-- Runs of the program on small data: each applies a theorem at one input.
pub mod Items
pub mod Store
pub mod Projects
pub mod Checks
pub mod Pages
pub mod Commands
pub mod Bands
pub mod Activity
pub mod Browser
pub mod Shell
pub mod Services
