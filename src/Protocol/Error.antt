-- ===== src/Protocol/Error.antt =====
-- crates/protocol/src/error.rs
use doc_bunker.Prelude.{ℕ, String}

-- `std::io::ErrorKind`: the kinds that the code tells apart, and any other by a number.
pub data IoError : Type 0 where
  interrupted unexpected_eof write_zero : IoError
  other : ℕ → IoError

-- The number stands for postcard's own error, which the code passes on and never inspects.
pub data ProtocolError : Type 0 where
  frame_too_large frame_too_small truncated_frame resource_exhausted : ProtocolError
  invalid_version invalid_discriminator : ProtocolError
  serialization : ℕ → ProtocolError
  io : IoError → ProtocolError
  string_too_long : ProtocolError
  limit_violation : String → ProtocolError
  out_of_order connection_closed : ProtocolError
