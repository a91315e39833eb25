-- ===== src/Sandbox/Backend.antt =====
-- The trait `SandboxBackend` of crates/sandbox/src/backend.rs with the types of session.rs. A method
-- with `&mut self` returns the new backend, one with `&mut SandboxSession` the new session too.
use doc_bunker.Prelude.{ℕ, List, Result}
use doc_bunker.RendererApi.Types.{DocumentInfo, RenderOptions, RenderedPage}
use doc_bunker.Sandbox.Error.{SandboxError}
use doc_bunker.Sandbox.Config.{SandboxConfig}

pub data SandboxKind : Type 0 where
  mock subprocess runsc qemu_vm : SandboxKind

pub record SandboxSession : Type 0 where
  pub id : ℕ
  pub kind : SandboxKind

pub record SandboxBackend (B : Type 0) : Type 0 where
  pub initialize : B → Result SandboxError (Unit {0}) × B
  pub start_session : SandboxConfig → B → Result SandboxError SandboxSession × B
  pub send_document : SandboxSession → List ℕ → B → Result SandboxError ℕ × SandboxSession × B
  pub get_document_info :
      SandboxSession → ℕ → B → Result SandboxError DocumentInfo × SandboxSession × B
  pub render_page :
      SandboxSession
      → ℕ
      → ℕ
      → RenderOptions
      → B
      → Result SandboxError RenderedPage × SandboxSession × B
  pub close_session : SandboxSession → B → Result SandboxError (Unit {0}) × B
