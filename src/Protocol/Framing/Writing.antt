-- ===== src/Protocol/Framing/Writing.antt =====
-- `FrameWriter::write_frame` into a byte vector, and the way back through `FrameReader`.
use doc_bunker.Prelude.{
  ℕ, suc, ◌+◌, ◌-◌, ◌^◌, ◌≤◌, ◌<◌, ◌≡◌, refl, ap, ◌∙◌, Bool, true, none, some, List, [], ◌∷◌, ◌++◌,
  arith, ltb, if◌then◌else◌, ok, err, length, drop, All, to_le_bytes, from_le_bytes-to_le_bytes,
  length-append,
}
use mathlib.Core.List.{append_assoc}
use doc_bunker.Protocol.Error.{frame_too_large}
use doc_bunker.Protocol.Stream.{Event, IsClean, content}
use doc_bunker.Protocol.Stream.Filling.{take_front, drop_front}
use doc_bunker.Protocol.Framing.{Sink, written, write_frame, next_frame}
use doc_bunker.Protocol.Framing.Reading.{verdict, next_frame-verdict}

-- `Write` for a vector appends, and never fails.
abbrev pub vec_sink : Sink (List ℕ)
vec_sink = record { write_all = λ bs w. (ok tt, w ++ bs) }

-- The bytes of a frame.
unfoldable pub frame : List ℕ → List ℕ
frame payload = to_le_bytes (length payload) ++ payload

-- A payload that leaves room for the header is written behind what was there; a longer one is
-- refused, and nothing is written. The writer's cap must fit 32 bits, which keeps `expect` safe.
pub write_frame_vec :
    (max_frame : ℕ) (payload w : List ℕ)
    → max_frame ≤ 2 ^ 32
    → write_frame vec_sink max_frame payload w ≡ (
        if ltb (max_frame - 4) (length payload)
        then written (err frame_too_large) w
        else written (ok tt) (w ++ frame payload))
unfolding write_frame frame
write_frame_vec max_frame payload w h =
    ground (arith, append_assoc w (to_le_bytes (length payload)) payload)

-- The frames of several payloads, in order.
abbrev pub frames : List (List ℕ) → List ℕ
frames [] = []
frames (p ∷ ps) = frame p ++ frames ps

module _ (reserve : ℕ → Bool) (max_frame : ℕ) where
  -- A payload that the reader takes.
  pub record IsReadable (payload : List ℕ) : Type 0 where
    pub long : 2 ≤ length payload
    pub short : length payload ≤ max_frame
    pub reserved : reserve (length payload) ≡ true
    pub u32 : length payload < 2 ^ 32

  verdict-frame :
      (payload rest : List ℕ)
      → IsReadable payload
      → verdict reserve max_frame (frame payload ++ rest) ≡ ok (some payload)
  unfolding frame to_le_bytes
  verdict-frame payload rest r = ground (
    arith,
    from_le_bytes-to_le_bytes (length payload) r.u32,
    length-append payload rest,
    take_front (length payload) payload rest refl,
  )

  drop-frame : (payload rest : List ℕ) → drop (4 + length payload) (frame payload ++ rest) ≡ rest
  unfolding frame to_le_bytes
  drop-frame payload rest =
      let e : 4 + length payload ≡ suc (suc (suc (suc (length payload)))) = omega arith in
      rw e (drop_front (length payload) payload rest refl)

  -- A frame is read back from a stream that begins with its bytes, however they arrive, and the
  -- stream then holds what follows.
  pub next_frame-frame :
      (payload rest : List ℕ) (s : List Event)
      → All IsClean s
      → content s ≡ frame payload ++ rest
      → IsReadable payload
      → (s' : List Event) × (next_frame reserve max_frame s ≡ some (ok (some payload), s'))
        × All IsClean s'
        × (content s' ≡ rest)
  next_frame-frame payload rest s c e r =
      let (s', f, reads) = next_frame-verdict reserve max_frame s c in
      let v = ap (verdict reserve max_frame) e ∙ verdict-frame payload rest r in
      (
        s',
        rw v at f,
        reads.clean,
        reads.behind payload v ∙ ap (drop (4 + length payload)) e ∙ drop-frame payload rest,
      )

  -- Reading gives these payloads in order, and then the clean end of the stream.
  abbrev pub ReadsAll : List (List ℕ) → List Event → Type 0
  ReadsAll [] s = (s' : List Event) × (next_frame reserve max_frame s ≡ some (ok none, s'))
  ReadsAll (p ∷ ps) s =
      (s' : List Event) × (next_frame reserve max_frame s ≡ some (ok (some p), s')) × ReadsAll ps s'

  -- A stream that consists of the frames of readable payloads, in any portions and with any
  -- interruptions, is read as exactly these payloads and then its clean end.
  pub ReadsAll-frames :
      (payloads : List (List ℕ)) (s : List Event)
      → All IsReadable payloads
      → All IsClean s
      → content s ≡ frames payloads
      → ReadsAll payloads s
  ReadsAll-frames [] s r c e =
      let (s', f, _) = next_frame-verdict reserve max_frame s c in
      (s', rw (ap (verdict reserve max_frame) e) at f)
  ReadsAll-frames (p ∷ ps) s r c e =
      let (s', f, c', e') = next_frame-frame p (frames ps) s c e r.0 in
      (s', f, ReadsAll-frames ps s' r.1 c' e')
