-- ===== src/Sandbox.antt =====
-- crates/sandbox/src: the seam between the host and the worker.
pub mod Error
pub mod Config
pub mod Backend
pub mod Transport
pub mod Region
pub mod Process
pub mod Reader
pub mod Session
pub mod Subprocess
pub mod Handshake
pub mod Version
pub mod Vm
mod ProcessTests
mod SessionTests
mod VmTests
mod Tests
