-- ===== src/Core/Error.antt =====
-- crates/core/src/error.rs: the errors that the user sees, and what becomes of the others.
use doc_bunker.Prelude.{String}
use doc_bunker.RendererApi.Error.{RenderError}
use doc_bunker.Protocol.Message.{ErrorCode}
use doc_bunker.Sandbox.Error.{SandboxError}

pub data DocBunkerError : Type 0 where
  unsupported_format document_too_large invalid_document password_protected : DocBunkerError
  rendering_failed sandbox_startup_failed sandbox_crashed timeout : DocBunkerError
  resource_limit_exceeded protocol_violation internal_error invalid_page : DocBunkerError
  no_document_open cancelled : DocBunkerError

abbrev pub code : DocBunkerError → String
code unsupported_format = "unsupported_format"
code document_too_large = "document_too_large"
code invalid_document = "invalid_document"
code password_protected = "password_protected"
code rendering_failed = "rendering_failed"
code sandbox_startup_failed = "sandbox_startup_failed"
code sandbox_crashed = "sandbox_crashed"
code timeout = "timeout"
code resource_limit_exceeded = "resource_limit_exceeded"
code protocol_violation = "protocol_violation"
code internal_error = "internal_error"
code invalid_page = "invalid_page"
code no_document_open = "no_document_open"
code cancelled = "cancelled"

abbrev pub from_worker_code : ErrorCode → DocBunkerError
from_worker_code ErrorCode.unsupported_format = unsupported_format
from_worker_code ErrorCode.document_too_large = document_too_large
from_worker_code ErrorCode.invalid_document = invalid_document
from_worker_code ErrorCode.password_protected = password_protected
from_worker_code ErrorCode.rendering_failed = rendering_failed
from_worker_code ErrorCode.timeout = timeout
from_worker_code ErrorCode.resource_limit_exceeded = resource_limit_exceeded
from_worker_code ErrorCode.protocol_violation = protocol_violation
from_worker_code ErrorCode.unsupported_operation = internal_error
from_worker_code ErrorCode.internal = internal_error

-- `From<RenderError>`
abbrev pub from_render : RenderError → DocBunkerError
from_render RenderError.unsupported_format = unsupported_format
from_render RenderError.document_too_large = document_too_large
from_render RenderError.invalid_document = invalid_document
from_render RenderError.password_protected = password_protected
from_render RenderError.rendering_failed = rendering_failed
from_render RenderError.timeout = timeout
from_render RenderError.resource_limit_exceeded = resource_limit_exceeded
from_render (RenderError.internal _) = internal_error

-- `From<SandboxError>`
abbrev pub from_sandbox : SandboxError → DocBunkerError
from_sandbox (SandboxError.backend_unsupported _) = sandbox_startup_failed
from_sandbox SandboxError.timeout = timeout
from_sandbox SandboxError.worker_crashed = sandbox_crashed
from_sandbox (SandboxError.worker_error c _) = from_worker_code c
from_sandbox (SandboxError.protocol _) = protocol_violation
from_sandbox (SandboxError.render e) = from_render e
from_sandbox SandboxError.invalid_session = internal_error
from_sandbox SandboxError.unknown_document = no_document_open
from_sandbox (SandboxError.io _) = internal_error
from_sandbox (SandboxError.internal _) = internal_error
