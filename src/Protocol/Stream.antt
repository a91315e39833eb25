-- ===== src/Protocol/Stream.antt =====
-- The two ends of a transport as the framing of crates/protocol/src/framing.rs sees them, through
-- the `Read` and `Write` of the standard library.
pub mod Filling
use doc_bunker.Prelude.{
  ℕ, zero, suc, ◌+◌, ◌-◌, List, [], ◌∷◌, ◌++◌, leb, if◌then◌else◌, Result, ok, err, length, take,
  drop, All, Option, none, some, ◌≢◌, ◌≡◌,
}
use doc_bunker.Protocol.Error.{IoError, interrupted}

-- What the calls of `read` will meet, in order: bytes as they arrive, or a failure. The stream
-- is at its end when no event is left; an empty chunk is a premature end.
pub data Event : Type 0 where
  chunk : List ℕ → Event
  failure : IoError → Event

-- `Read::read` into a buffer of `n` bytes: part of a chunk may stay behind.
unfoldable pub read : ℕ → List Event → Result IoError (List ℕ) × List Event
read n [] = (ok [], [])
read n (failure e ∷ s) = (err e, s)
read n (chunk bs ∷ s) = (ok (take n bs), if leb (length bs) n then s else chunk (drop n bs) ∷ s)

-- How a loop that fills a buffer ends: full, at the end of the stream with the bytes so far, or
-- on a failure.
pub data Filled : Type 0 where
  full eof : List ℕ → Filled
  fault : IoError → Filled

fill_step :
    (List ℕ → List Event → Option (Filled × List Event))
    → List ℕ
    → Result IoError (List ℕ) × List Event
    → Option (Filled × List Event)
fill_step again acc (ok [], s) = some (eof acc, s)
fill_step again acc (ok (b ∷ bs), s) = again (acc ++ (b ∷ bs)) s
fill_step again acc (err interrupted, s) = again acc s
fill_step again acc (err e, s) = some (fault e, s)

-- Reads until `need` bytes are there, and tries again after an interruption: the header loop of
-- `FrameReader::next_frame`, and `Read::read_exact`. None means that the fuel ran out.
unfoldable pub fill : ℕ → ℕ → List ℕ → List Event → Option (Filled × List Event)
unfolding fill_step read
fill zero need acc s = none
fill (suc fuel) need acc s =
    if leb need (length acc)
    then some (full acc, s)
    else fill_step (fill fuel need) acc (read (need - length acc) s)

-- Each round takes an event off the stream or is the last one before the test succeeds.
abbrev pub enough : List Event → ℕ
enough s = length s + 2

-- A stream that delivers all its bytes, in any portions and with any interruptions.
abbrev pub IsClean : Event → Type 0
IsClean (chunk bs) = bs ≢ []
IsClean (failure e) = e ≡ interrupted

-- The bytes of a stream.
abbrev pub content : List Event → List ℕ
content [] = []
content (chunk bs ∷ s) = bs ++ content s
content (failure e ∷ s) = content s
