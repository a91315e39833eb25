-- ===== src/RendererApi/Error.antt =====
-- crates/renderer-api/src/error.rs
use doc_bunker.Prelude.{Text}

pub data RenderError : Type 0 where
  unsupported_format document_too_large invalid_document password_protected : RenderError
  rendering_failed timeout resource_limit_exceeded : RenderError
  internal : Text → RenderError
