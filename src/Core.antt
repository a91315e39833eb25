-- ===== src/Core.antt =====
-- crates/core/src: the host's document manager and its page cache.
pub mod Error
pub mod Cache
pub mod Manager
pub mod Imaging
pub mod Io
mod Tests
