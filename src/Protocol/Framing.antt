-- ===== src/Protocol/Framing.antt =====
-- `FrameReader` and `FrameWriter` of crates/protocol/src/framing.rs.
pub mod Reading
pub mod Writing
use doc_bunker.Prelude.{
  ℕ, ◌-◌, Bool, not, Option, none, some, List, [], ◌∷◌, ltb, if◌then◌else◌, Result, ok, err, length,
  to_u32, to_le_bytes, from_le_bytes, ◌++◌,
}
use doc_bunker.Protocol.Error.{
  ProtocolError, IoError, frame_too_large, frame_too_small, truncated_frame, resource_exhausted, io,
  unexpected_eof,
}
use doc_bunker.Protocol.Limits.{frame_header_size}
use doc_bunker.Protocol.Stream.{Event, Filled, full, eof, fault, fill, enough}

-- The next payload, or none at the end of the stream, beside the stream that is left.
abbrev pub Frame : Type 0
Frame = Result ProtocolError (Option (List ℕ)) × List Event

-- `try_reserve_exact` asks the allocator, which is a parameter.
module _ (reserve : ℕ → Bool) (max_frame : ℕ) where
  after_body : Option (Filled × List Event) → Option Frame
  after_body none = none
  after_body (some (full payload, s)) = some (ok (some payload), s)
  after_body (some (eof _, s)) = some (err truncated_frame, s)
  after_body (some (fault unexpected_eof, s)) = some (err truncated_frame, s)
  after_body (some (fault e, s)) = some (err (io e), s)

  read_body : ℕ → List Event → Option Frame
  unfolding after_body
  read_body len s =
      if ltb len 2
      then some (err frame_too_small, s)
      else if ltb max_frame len
      then some (err frame_too_large, s)
      else if not (reserve len)
      then some (err resource_exhausted, s)
      else after_body (fill (enough s) len [] s)

  after_header : Option (Filled × List Event) → Option Frame
  unfolding read_body
  after_header none = none
  after_header (some (full header, s)) = read_body (from_le_bytes header) s
  after_header (some (eof [], s)) = some (ok none, s)
  after_header (some (eof (b ∷ bs), s)) = some (err truncated_frame, s)
  after_header (some (fault e, s)) = some (err (io e), s)

  -- `FrameReader::next_frame`. None means that the fuel of a loop ran out.
  unfoldable pub next_frame : List Event → Option Frame
  unfolding after_header
  next_frame s = after_header (fill (enough s) frame_header_size [] s)

-- `Write::write_all` of a transport.
pub record Sink (W : Type 0) : Type 0 where
  pub write_all : List ℕ → W → Result IoError (Unit {0}) × W

-- `expect` panics where the length of the payload does not fit its header.
pub data Written (W : Type 0) : Type 0 where
  written : Result ProtocolError (Unit {0}) → W → Written W
  panicked : W → Written W

module _ {W : Type 0} (sink : Sink W) where
  after_payload : Result IoError (Unit {0}) × W → Written W
  after_payload (err e, w) = written (err (io e)) w
  after_payload (ok _, w) = written (ok tt) w

  write_payload : List ℕ → Result IoError (Unit {0}) × W → Written W
  unfolding after_payload
  write_payload payload (err e, w) = written (err (io e)) w
  write_payload payload (ok _, w) = after_payload (sink.write_all payload w)

  with_length : List ℕ → W → Option ℕ → Written W
  unfolding write_payload
  with_length payload w none = panicked w
  with_length payload w (some len) = write_payload payload (sink.write_all (to_le_bytes len) w)

  -- `FrameWriter::write_frame`
  unfoldable pub write_frame : ℕ → List ℕ → W → Written W
  unfolding with_length
  write_frame max_frame payload w =
      if ltb (max_frame - frame_header_size) (length payload)
      then written (err frame_too_large) w
      else with_length payload w (to_u32 (length payload))
