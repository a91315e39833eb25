-- ===== src/Worker.antt =====
-- crates/renderer-worker: the untrusted process that answers the requests of one host.
pub mod Interfaces
pub mod Errors
pub mod State
pub mod Handle
pub mod Process
mod Tests
mod ProcessTests
