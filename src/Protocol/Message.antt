-- ===== src/Protocol/Message.antt =====
-- crates/protocol/src/message.rs. The field `data` of an `OpenDocument` request is `bytes` here.
use doc_bunker.Prelude.{
  ℕ, Option, List, Bool, Text, ◌==◌, if◌then◌else◌, ◌≡◌, ◌↔◌, arith, Result, ok, err,
}

pub record HelloRequest : Type 0 where
  pub protocol_version : ℕ
  pub max_document_size : ℕ
  pub max_ipc_message : ℕ
  pub shm_capable : Bool

pub record HelloOk : Type 0 where
  pub protocol_version : ℕ
  pub max_document_size : ℕ
  pub max_ipc_message : ℕ
  pub max_page_width : ℕ
  pub max_page_height : ℕ
  pub max_pixel_buffer : ℕ
  pub shm_name : Option Text
  pub shm_capacity : Option ℕ

pub record OpenDocumentRequest : Type 0 where
  pub document_id : ℕ
  pub bytes : List ℕ

pub record DocumentInfoWire : Type 0 where
  pub page_count : ℕ
  pub width : ℕ
  pub height : ℕ
  pub format : ℕ

pub record DocumentOpenedResponse : Type 0 where
  pub document_id : ℕ
  pub info : DocumentInfoWire

pub record GetDocumentInfoRequest : Type 0 where
  pub document_id : ℕ

pub record DocumentInfoResponse : Type 0 where
  pub document_id : ℕ
  pub info : DocumentInfoWire

pub record RenderPageRequest : Type 0 where
  pub document_id : ℕ
  pub page : ℕ
  pub target_width : ℕ
  pub target_height : ℕ

pub record PageRenderedResponse : Type 0 where
  pub document_id : ℕ
  pub page : ℕ
  pub width : ℕ
  pub height : ℕ
  pub stride : ℕ
  pub pixel_format : ℕ
  pub bytes : List ℕ
  pub shm_len : Option ℕ

pub record CloseDocumentRequest : Type 0 where
  pub document_id : ℕ

pub record CloseDocumentResponse : Type 0 where
  pub document_id : ℕ

pub record PingRequest : Type 0 where
  pub nonce : ℕ

pub record PongResponse : Type 0 where
  pub nonce : ℕ

pub record ErrorResponse : Type 0 where
  pub code : ℕ
  pub message : Text

pub data Request : Type 0 where
  hello : HelloRequest → Request
  open_document : OpenDocumentRequest → Request
  get_document_info : GetDocumentInfoRequest → Request
  render_page : RenderPageRequest → Request
  close_document : CloseDocumentRequest → Request
  ping : PingRequest → Request

pub data Response : Type 0 where
  hello_ok : HelloOk → Response
  document_opened : DocumentOpenedResponse → Response
  document_info : DocumentInfoResponse → Response
  page_rendered : PageRenderedResponse → Response
  closed : CloseDocumentResponse → Response
  pong : PongResponse → Response
  error : ErrorResponse → Response

pub data ErrorCode : Type 0 where
  unsupported_format document_too_large invalid_document password_protected : ErrorCode
  rendering_failed timeout resource_limit_exceeded protocol_violation : ErrorCode
  unsupported_operation internal : ErrorCode

-- `ErrorCode::as_u8`
abbrev pub code_as_u8 : ErrorCode → ℕ
code_as_u8 unsupported_format = 1
code_as_u8 document_too_large = 2
code_as_u8 invalid_document = 3
code_as_u8 password_protected = 4
code_as_u8 rendering_failed = 5
code_as_u8 timeout = 6
code_as_u8 resource_limit_exceeded = 7
code_as_u8 protocol_violation = 8
code_as_u8 unsupported_operation = 9
code_as_u8 internal = 10

-- `ErrorCode::try_from`
unfoldable pub code_from_u8 : ℕ → Result (Unit {0}) ErrorCode
code_from_u8 value =
    if value == 1
    then ok unsupported_format
    else if value == 2
    then ok document_too_large
    else if value == 3
    then ok invalid_document
    else if value == 4
    then ok password_protected
    else if value == 5
    then ok rendering_failed
    else if value == 6
    then ok timeout
    else if value == 7
    then ok resource_limit_exceeded
    else if value == 8
    then ok protocol_violation
    else if value == 9
    then ok unsupported_operation
    else if value == 10
    then ok internal
    else err tt

-- The wire code of an error is read back, and no other byte is read as that error.
pub code_from_u8_iff : (n : ℕ) (c : ErrorCode) → (code_from_u8 n ≡ ok c) ↔ (n ≡ code_as_u8 c)
unfolding code_from_u8
code_from_u8_iff n c = (λ e. ground arith, λ e. ground arith)
