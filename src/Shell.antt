-- ===== src/Shell.antt =====
-- system/apps/system_interface/imbue/system_interface: parts of the shell around the apps that keep a
-- state of their own. `Slugs` and `Layouts` are workspace_layouts.py, `Mutex` and `Terminals` parts of
-- layout_ops.py, `EventQueues` is event_queues.py, `Broadcaster` ws_broadcaster.py and `ClientLog`
-- client_activity.py; the others hold proofs.
pub mod Slugs
pub mod Layouts
pub mod Registry
pub mod Requests
pub mod Deletion
pub mod EventQueues
pub mod Replay
pub mod Delivered
pub mod Mutex
pub mod Terminals
pub mod Broadcaster
pub mod Clients
pub mod Connected
pub mod ClientLog
pub mod Summaries
