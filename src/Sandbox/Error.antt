-- ===== src/Sandbox/Error.antt =====
-- crates/sandbox/src/error.rs
use doc_bunker.Prelude.{String, Text}
use doc_bunker.RendererApi.Error.{RenderError}
use doc_bunker.Protocol.Error.{IoError, ProtocolError}
use doc_bunker.Protocol.Message.{ErrorCode}

pub data SandboxError : Type 0 where
  io : IoError → SandboxError
  protocol : ProtocolError → SandboxError
  render : RenderError → SandboxError
  invalid_session unknown_document : SandboxError
  backend_unsupported : String → SandboxError
  timeout worker_crashed : SandboxError
  worker_error : ErrorCode → Text → SandboxError
  internal : String → SandboxError
