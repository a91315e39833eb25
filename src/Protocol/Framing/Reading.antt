-- ===== src/Protocol/Framing/Reading.antt =====
-- `FrameReader::next_frame` against a description of frames on plain bytes.
use doc_bunker.Prelude.{
  ℕ, zero, suc, ◌+◌, ◌≤◌, ◌<◌, ◌≡◌, refl, sym, ap, ◌∙◌, ◌||◌, ◌≢◌, inl, inr, Bool, not, Option,
  none, some, List, [], ◌∷◌, arith, ltb, ◌==◌, if◌then◌else◌, Bool-cases, Result, ok, err, length,
  take, drop, All, length-take, from_le_bytes,
}
use native.Mathlib.Decide.{dec_lt}
use doc_bunker.Protocol.Error.{
  ProtocolError, frame_too_small, frame_too_large, truncated_frame, resource_exhausted,
  unexpected_eof,
}
use doc_bunker.Protocol.Stream.{Event, IsClean, content, fill, enough, full, eof, Filled, fault}
use doc_bunker.Protocol.Stream.Filling.{fill_full, fill_eof, fill_total}
use doc_bunker.Protocol.Framing.{Frame, after_body, read_body, after_header, next_frame}

drop_nil {ℓ} : {A : Type ℓ} (n : ℕ) → drop {A = A} n [] ≡ []
drop_nil zero = refl
drop_nil (suc n) = refl

drop-drop {ℓ} : {A : Type ℓ} (m n : ℕ) (xs : List A) → drop (0 + n) (drop m xs) ≡ drop (m + n) xs
drop-drop zero n xs = refl
drop-drop (suc m) n [] = drop_nil (0 + n) ∙ sym (drop_nil (suc m + n))
drop-drop (suc m) n (x ∷ xs) =
    let e : suc m + n ≡ suc (m + n) = omega arith in rw e (drop-drop m n xs)

-- Behind a frame of the given front and payload; where no payload was read nothing is claimed.
abbrev pub IsBehind : ℕ → List ℕ → Result ProtocolError (Option (List ℕ)) → List Event → Type 0
IsBehind front bytes (ok (some p)) s = content s ≡ drop (front + length p) bytes
IsBehind front bytes (ok none) s = Unit
IsBehind front bytes (err e) s = Unit

module _ (reserve : ℕ → Bool) (max_frame : ℕ) where
  -- What the body of a frame must give, once its length is known.
  abbrev pub body_verdict : ℕ → List ℕ → Result ProtocolError (Option (List ℕ))
  body_verdict len body =
      if ltb len 2
      then err frame_too_small
      else if ltb max_frame len
      then err frame_too_large
      else if not (reserve len)
      then err resource_exhausted
      else if ltb (length body) len
      then err truncated_frame
      else ok (some (take len body))

  -- The frame at the front of a string of bytes.
  abbrev pub verdict : List ℕ → Result ProtocolError (Option (List ℕ))
  verdict bytes =
      if length bytes == 0
      then ok none
      else if ltb (length bytes) 4
      then err truncated_frame
      else body_verdict (from_le_bytes (take 4 bytes)) (drop 4 bytes)

  -- Reading ends with the verdict, and after a payload the stream stands behind that frame.
  pub record Reads (bytes : List ℕ) (front : ℕ) (r : Result ProtocolError (Option (List ℕ)))
      (s' : List Event) : Type 0 where
    pub clean : All IsClean s'
    pub behind : (p : List ℕ) → r ≡ ok (some p) → content s' ≡ drop (front + length p) bytes

  abbrev BodyReads : ℕ → List Event → Type 0
  BodyReads len s =
      (s' : List Event) × (read_body reserve max_frame len s
        ≡ some (body_verdict len (content s), s'))
      × Reads (content s) 0 (body_verdict len (content s)) s'

  abbrev pub FrameReads : List Event → Type 0
  FrameReads s =
      (s' : List Event) × (next_frame reserve max_frame s ≡ some (verdict (content s), s'))
      × Reads (content s) 4 (verdict (content s)) s'

  body_short :
      (len : ℕ) (s : List Event) → All IsClean s → length (content s) < len → BodyReads len s
  unfolding read_body
  body_short len s c short =
      let f = fill_eof (enough s) len [] s (omega arith) short c in
      elim (Bool-cases (ltb len 2 || ltb max_frame len || not (reserve len))) [
        | inl e ↦ (s, ground arith, record { clean = c; behind = λ p q. ground arith })
        | inr e ↦ ([], ground (arith, f), record { clean = tt; behind = λ p q. ground arith })
      ]

  body_long :
      (len : ℕ) (s : List Event) → All IsClean s → len ≤ length (content s) → BodyReads len s
  unfolding read_body
  body_long len s c long =
      let (s', f, c', k) =
        fill_full (enough s) len [] s (content s) refl (omega arith) (omega arith) long c in
      elim (Bool-cases (ltb len 2 || ltb max_frame len || not (reserve len))) [
        | inl e ↦ (s, ground arith, record { clean = c; behind = λ p q. ground arith })
        | inr e ↦ (
          s',
          ground (arith, f),
          record {
            clean = c';
            behind = λ p q.
                let same : p ≡ take len (content s) = ground arith in
                let size : 0 + length p ≡ len =
                  omega (arith, ap length same, length-take len (content s)) in
                rw size k;
          },
        )
      ]

  body_reads : (len : ℕ) (s : List Event) → All IsClean s → BodyReads len s
  body_reads len s c = elim (dec_lt (length (content s)) len) [
    | yes short ↦ body_short len s c short
    | no long ↦ body_long len s c (omega arith)
  ]

  short_verdict :
      (bytes : List ℕ)
      → length bytes < 4
      → after_header reserve max_frame (some (eof bytes, [])) ≡ some (verdict bytes, [])
  unfolding after_header
  short_verdict [] h = refl
  short_verdict (b ∷ bs) h = ground arith

  long_verdict :
      (bytes : List ℕ)
      → 4 ≤ length bytes
      → verdict bytes ≡ body_verdict (from_le_bytes (take 4 bytes)) (drop 4 bytes)
  long_verdict bytes h = ground arith

  short_refused : (bytes p : List ℕ) → length bytes < 4 → verdict bytes ≢ ok (some p)
  short_refused bytes p h q = ground arith

  header_reads :
      (s s' : List Event)
      → fill (enough s) 4 [] s ≡ some (full (take 4 (content s)), s')
      → content s' ≡ drop 4 (content s)
      → 4 ≤ length (content s)
      → BodyReads (from_le_bytes (take 4 (content s))) s'
      → FrameReads s
  unfolding next_frame after_header
  header_reads s s' f k long (s2, g, r) =
      let v = long_verdict (content s) long in
      (
        s2,
        rw (f, v, ← k) g,
        record {
          clean = r.clean;
          behind = λ p q.
              r.behind p (rw (v, ← k) at q)
              ∙ ap (drop (0 + length p)) k
              ∙ drop-drop 4 (length p) (content s);
        },
      )

  after_body_total :
      (end : Filled × List Event) → (r : Frame) × (after_body reserve max_frame (some end) ≡ some r)
  unfolding after_body
  after_body_total (full payload, s) = (_, refl)
  after_body_total (eof bs, s) = (_, refl)
  after_body_total (fault unexpected_eof, s) = (_, refl)
  after_body_total (fault e, s) = (_, refl)

  body_total :
      (len : ℕ) (s : List Event) → (r : Frame) × (read_body reserve max_frame len s ≡ some r)
  unfolding read_body
  body_total len s =
      let (end, e) = fill_total (enough s) len [] s (omega arith) in
      elim (Bool-cases (ltb len 2)) [
        | inl a ↦ ((err frame_too_small, s), ground arith)
        | inr a ↦ elim (Bool-cases (ltb max_frame len)) [
          | inl b ↦ ((err frame_too_large, s), ground arith)
          | inr b ↦ elim (Bool-cases (reserve len)) [
            | inr c ↦ ((err resource_exhausted, s), ground arith)
            | inl c ↦ let (r, q) = after_body_total end in (r, ground (arith, e, q))
          ]
        ]
      ]

  header_total :
      (end : Filled × List Event)
      → (r : Frame) × (after_header reserve max_frame (some end) ≡ some r)
  unfolding after_header
  header_total (full header, s) = body_total (from_le_bytes header) s
  header_total (eof [], s) = (_, refl)
  header_total (eof (b ∷ bs), s) = (_, refl)
  header_total (fault e, s) = (_, refl)

  pub next_frame-verdict : (s : List Event) → All IsClean s → FrameReads s
  unfolding next_frame
  next_frame-verdict s c = elim (dec_lt (length (content s)) 4) [
    | yes short ↦ (
      [],
      rw (fill_eof (enough s) 4 [] s (omega arith) short c) (short_verdict (content s) short),
      record { clean = tt; behind = λ p q. absurd (short_refused (content s) p short q) },
    )
    | no long ↦
        let (s', f, c', k) =
          fill_full (enough s) 4 [] s (content s) refl (omega arith) (omega arith) (omega arith)
            c in
        header_reads s s' f k (omega arith) (body_reads (from_le_bytes (take 4 (content s))) s' c')
  ]

  Reads-IsBehind :
      (bytes : List ℕ) (front : ℕ) (r : Result ProtocolError (Option (List ℕ))) (s : List Event)
      → Reads bytes front r s
      → IsBehind front bytes r s
  Reads-IsBehind bytes front (ok (some p)) s h = h.behind p refl
  Reads-IsBehind bytes front (ok none) s h = tt
  Reads-IsBehind bytes front (err e) s h = tt

  -- On a stream that delivers its bytes in any portions and with any interruptions, `next_frame`
  -- gives the verdict on those bytes, and where it returns a payload the stream then stands right
  -- behind that frame.
  pub next_frame_lem :
      (s : List Event)
      → All IsClean s
      → (s' : List Event) × (next_frame reserve max_frame s ≡ some (verdict (content s), s'))
        × All IsClean s'
        × IsBehind 4 (content s) (verdict (content s)) s'
  next_frame_lem s c =
      let (s', e, r) = next_frame-verdict s c in
      (s', e, r.clean, Reads-IsBehind (content s) 4 (verdict (content s)) s' r)

  -- On any stream, faulty or not, `next_frame` returns.
  pub next_frame_total : (s : List Event) → (r : Frame) × (next_frame reserve max_frame s ≡ some r)
  unfolding next_frame
  next_frame_total s =
      let (end, e) = fill_total (enough s) 4 [] s (omega arith) in rw e (header_total end)
