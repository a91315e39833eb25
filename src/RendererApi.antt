-- ===== src/RendererApi.antt =====
-- crates/renderer-api: the domain types and the hard limits that every other part validates
-- against.
pub mod Error
pub mod Limits
pub mod Types
pub mod Pages
pub mod Detect
mod Tests
