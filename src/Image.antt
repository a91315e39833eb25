-- ===== src/Image.antt =====
-- The image renderer (crates/renderer-image): its scaling and its renderer.
pub mod Scaling
pub mod Renderer
pub mod Serving
mod Tests
