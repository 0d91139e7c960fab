-- ===== src/Launch.antt =====
-- launch.py: the launcher of a server with this plugin, its checks before and after the start, and its
-- supervision of the server.
pub mod Records
pub mod Preflight
pub mod Process
mod Checks
mod Waits
mod Ends
mod Statuses
mod Environment
mod Tests
