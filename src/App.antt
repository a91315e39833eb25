-- ===== src/App.antt =====
-- src-tauri/src/app_config.rs: how the desktop application chooses its sandbox backend.
pub mod Manifest
pub mod Config
mod Tests
