-- ===== src/Storage.antt =====
-- system/apps/gtd/src/gtd/storage.py: `Coerce` reads metadata values, `Posts` turns a post into an
-- item and back, `Files` has the operations on the files; the others hold what is proved of them.
pub mod Coerce
pub mod Posts
pub mod Files
pub mod Documents
pub mod Keys
pub mod Readback
pub mod RoundTrip
pub mod Ids
pub mod ReadOnly
pub mod Writes
pub mod Memory
pub mod Texts
