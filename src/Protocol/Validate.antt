-- ===== src/Protocol/Validate.antt =====
-- crates/protocol/src/validate.rs: negotiation of the limits, validation of every message against
-- them, and conversion between wire values and domain values.
pub mod Negotiation
pub mod Conversion
use doc_bunker.Prelude.{
  ℕ, ◌^◌, ◌%◌, min, ◌&&◌, ◌||◌, not, Option, none, some, arith, ltb, leb, ◌==◌, if◌then◌else◌, Bool,
  true, false, Result, ok, err, ◌>>=◌, ◌>>◌, map_err, ok_or, length, to_usize, byte_len, Text,
}
use doc_bunker.RendererApi.Limits
use doc_bunker.RendererApi.Types.{
  rgba8888, bytes_per_pixel, DocumentInfo, RenderedPage, pixel_format_from_u8, pixel_format_as_u8,
  format_from_u8, format_as_u8, validate_info, validate_page,
}
use doc_bunker.Protocol.Error.{ProtocolError, invalid_version, string_too_long, limit_violation}
use doc_bunker.Protocol.Limits.{
  protocol_version, max_ipc_message, max_string_length, min_ipc_message, validate_message_string,
}
use doc_bunker.Protocol.Message.{
  HelloRequest, HelloOk, OpenDocumentRequest, DocumentInfoWire, RenderPageRequest,
  PageRenderedResponse, ErrorResponse, code_from_u8,
}
use doc_bunker.Protocol.ShmName.{is_valid_shm_name}

pub record NegotiatedLimits : Type 0 where
  pub max_document_size : ℕ
  pub max_ipc_message : ℕ
  pub max_page_width : ℕ
  pub max_page_height : ℕ
  pub max_pixel_buffer : ℕ

abbrev Checked : Type 0
Checked = Result ProtocolError (Unit {0})

-- `ok_or` and `map_err` to a limit violation.
abbrev within {ℓ} : {A : Type ℓ} → Option A → ProtocolError → Result ProtocolError A
within o e = ok_or e o

-- The range test that both handshakes make.
check_ipc : ℕ → Checked
check_ipc n = do
  ipc ← within (to_usize n) (limit_violation "ipc message size out of range")
  if not (leb min_ipc_message ipc && leb ipc max_ipc_message)
      then err (limit_violation "ipc message size out of range")
      else ok tt

unfoldable pub validate_hello_request : HelloRequest → Checked
unfolding check_ipc
validate_hello_request req =
    if not (req.protocol_version == protocol_version)
    then err invalid_version
    else if req.max_document_size == 0
    then err (limit_violation "document size must be non-zero")
    else check_ipc req.max_ipc_message

-- The last match of `validate_hello_ok`.
check_shm : Option Text → Option ℕ → Checked
check_shm (some name) (some capacity) =
    validate_message_string name
    >> (if not (is_valid_shm_name name)
        then err (limit_violation "shm name must match docbunker_pagebuf_<pid>_<n>.bin")
        else do
          n ← within (to_usize capacity) (limit_violation "shm capacity out of range")
          if n == 0 || ltb Limits.max_pixel_buffer n
              then err (limit_violation "shm capacity out of range")
              else ok tt)
check_shm none none = ok tt
check_shm _ _ = err (limit_violation "shm name and capacity must be both present or both absent")

check_pixel_buffer : ℕ → Checked
check_pixel_buffer n = do
  pix ← within (to_usize n) (limit_violation "pixel buffer size out of range")
  if pix == 0 || ltb Limits.max_pixel_buffer pix
      then err (limit_violation "pixel buffer size out of range")
      else ok tt

-- The cast `as usize` of the document size keeps the low 64 bits.
unfoldable pub validate_hello_ok : HelloOk → Checked
unfolding check_ipc check_shm check_pixel_buffer
validate_hello_ok h =
    if not (h.protocol_version == protocol_version)
    then err invalid_version
    else if h.max_document_size == 0 || ltb Limits.max_document_size (h.max_document_size % 2 ^ 64)
    then err (limit_violation "document size out of range")
    else if h.max_page_width == 0
        || h.max_page_height == 0
        || ltb Limits.max_page_width h.max_page_width
        || ltb Limits.max_page_height h.max_page_height
    then err (limit_violation "invalid page limits")
    else do
      check_ipc h.max_ipc_message
      check_pixel_buffer h.max_pixel_buffer
      check_shm h.shm_name h.shm_capacity

unfoldable pub server_negotiate : HelloRequest → Result ProtocolError NegotiatedLimits
server_negotiate client = do
  validate_hello_request client
  document ←
      within (to_usize client.max_document_size) (limit_violation "document size out of range")
  ipc ← within (to_usize client.max_ipc_message) (limit_violation "ipc message size out of range")
  ok (record {
    max_document_size = min document Limits.max_document_size;
    max_ipc_message = min ipc max_ipc_message;
    max_page_width = Limits.max_page_width;
    max_page_height = Limits.max_page_height;
    max_pixel_buffer = Limits.max_pixel_buffer;
  })

unfoldable pub client_negotiate : HelloOk → Result ProtocolError NegotiatedLimits
client_negotiate h = do
  validate_hello_ok h
  document ← within (to_usize h.max_document_size) (limit_violation "document size out of range")
  ipc ← within (to_usize h.max_ipc_message) (limit_violation "ipc message size out of range")
  pix ← within (to_usize h.max_pixel_buffer) (limit_violation "pixel buffer size out of range")
  ok (record {
    max_document_size = min document Limits.max_document_size;
    max_ipc_message = min ipc max_ipc_message;
    max_page_width = min h.max_page_width Limits.max_page_width;
    max_page_height = min h.max_page_height Limits.max_page_height;
    max_pixel_buffer = min pix Limits.max_pixel_buffer;
  })

unfoldable pub to_hello_ok : NegotiatedLimits → HelloOk
to_hello_ok l = record {
  protocol_version = protocol_version;
  max_document_size = l.max_document_size % 2 ^ 64;
  max_ipc_message = l.max_ipc_message % 2 ^ 32;
  max_page_width = l.max_page_width;
  max_page_height = l.max_page_height;
  max_pixel_buffer = l.max_pixel_buffer % 2 ^ 64;
  shm_name = none;
  shm_capacity = none;
}

unfoldable pub validate_open_document : NegotiatedLimits → OpenDocumentRequest → Checked
validate_open_document l req =
    if req.document_id == 0
    then err (limit_violation "invalid document id")
    else if ltb l.max_document_size (length req.bytes)
    then err (limit_violation "document too large")
    else ok tt

unfoldable pub validate_target : NegotiatedLimits → ℕ → ℕ → Checked
validate_target l width height =
    if width == 0 || height == 0
    then err (limit_violation "render target must be non-zero")
    else if ltb l.max_page_width width || ltb l.max_page_height height
    then err (limit_violation "render target too large")
    else do
      size ←
          within (Limits.pixel_buffer_size width height (bytes_per_pixel rgba8888))
            (limit_violation "pixel buffer size overflow")
      if ltb l.max_pixel_buffer size then err (limit_violation "pixel buffer too large") else ok tt

unfoldable pub validate_render_request : NegotiatedLimits → RenderPageRequest → Checked
unfolding validate_target
validate_render_request l req =
    if req.document_id == 0
    then err (limit_violation "invalid document id")
    else validate_target l req.target_width req.target_height

unfoldable pub validate_error_response : ErrorResponse → Checked
validate_error_response e = do
  _ ← map_err (λ _. limit_violation "unknown error code") (code_from_u8 e.code)
  if ltb max_string_length (byte_len e.message)
      then err string_too_long
      else validate_message_string e.message

unfoldable pub document_info_from_wire : DocumentInfoWire → Result ProtocolError DocumentInfo
document_info_from_wire wire = do
  format ← map_err (λ _. limit_violation "unknown document format") (format_from_u8 wire.format)
  let info : DocumentInfo = record {
    page_count = wire.page_count;
    width = wire.width;
    height = wire.height;
    format = format;
  }
  map_err (λ _. limit_violation "invalid document metadata") (validate_info info)
  ok info

unfoldable pub document_info_to_wire : DocumentInfo → DocumentInfoWire
document_info_to_wire info = record {
  page_count = info.page_count;
  width = info.width;
  height = info.height;
  format = format_as_u8 info.format;
}

unfoldable pub rendered_page_from_wire : PageRenderedResponse → Result ProtocolError RenderedPage
rendered_page_from_wire wire = elim wire.shm_len [
  | some _ ↦ err (limit_violation "shared-memory page not normalized")
  | none ↦ do
    format ←
        map_err (λ _. limit_violation "unknown pixel format")
          (pixel_format_from_u8 wire.pixel_format)
    let page : RenderedPage = record {
      width = wire.width;
      height = wire.height;
      stride = wire.stride;
      pixel_format = format;
      bytes = wire.bytes;
    }
    map_err (λ _. limit_violation "invalid rendered page") (validate_page page)
    ok page
]

unfoldable pub rendered_page_to_wire : RenderedPage → PageRenderedResponse
rendered_page_to_wire page = record {
  document_id = 0;
  page = 0;
  width = page.width;
  height = page.height;
  stride = page.stride;
  pixel_format = pixel_format_as_u8 page.pixel_format;
  bytes = page.bytes;
  shm_len = none;
}

-- `NegotiatedLimits::validate_document_info` and `validate_rendered_page`.
unfoldable pub validate_document_info :
    NegotiatedLimits → DocumentInfoWire → Result ProtocolError DocumentInfo
validate_document_info l info = document_info_from_wire info

unfoldable pub validate_rendered_page :
    NegotiatedLimits → PageRenderedResponse → Result ProtocolError RenderedPage
validate_rendered_page l resp = do
  page ← rendered_page_from_wire resp
  if ltb l.max_pixel_buffer (length page.bytes)
      then err (limit_violation "pixel buffer too large")
      else ok page
