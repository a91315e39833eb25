-- ===== src/Protocol/Limits.antt =====
-- crates/protocol/src/limits.rs
use doc_bunker.Prelude.{
  ◌*◌, ◌<◌, ℕ, arith, ltb, if◌then◌else◌, Result, ok, err, Text, byte_len, u32_max,
}
use doc_bunker.Protocol.Error.{ProtocolError, string_too_long}
use doc_bunker.RendererApi.Limits

abbrev pub protocol_version : ℕ
protocol_version = 2

abbrev pub frame_header_size : ℕ
frame_header_size = 4

abbrev pub max_ipc_message : ℕ
max_ipc_message = 96 * 1024 * 1024

abbrev pub max_string_length : ℕ
max_string_length = 256

abbrev pub min_ipc_message : ℕ
min_ipc_message = 4096

abbrev pub validate_message_string : Text → Result ProtocolError (Unit {0})
validate_message_string s =
    if ltb max_string_length (byte_len s) then err string_too_long else ok tt

-- The compile-time assertions: a frame can carry any page and any document, and its length fits
-- the header.
pub frame_has_room :
    (Limits.max_pixel_buffer < max_ipc_message)
    × (Limits.max_document_size < max_ipc_message)
    × (max_ipc_message < u32_max)
frame_has_room = omega arith
