-- ===== src/Ooxml.antt =====
-- The text-preview renderers (crates/renderer-ooxml): shared text helpers, RTF and
-- Office containers.
pub mod Container
pub mod Archive
pub mod Markup
pub mod Sheet
pub mod Members
pub mod Office
pub mod Rtf
mod Tests
mod OfficeTests
