-- ===== src/Ooxml/Container.antt =====
-- Text helpers of crates/renderer-ooxml/src/container.rs.
use doc_bunker.Prelude.{
  ℕ, ◌+◌, ◌-◌, ◌≤◌, ◌≡◌, Bool, true, ◌||◌, List, [], ◌∷◌, ◌++◌, ltb, leb, ◌==◌, if◌then◌else◌,
  leb→le, Bool-cases, inl, inr, length, length-append, Text, byte_len, len_utf8, arith,
}
use doc_bunker.Prelude.Scanning.{is_empty, trim}

abbrev pub max_text_chars : ℕ
max_text_chars = 200000

abbrev pub max_lines : ℕ
max_lines = 4096

-- `line.truncate(floor_char_boundary(&line, max))`: the longest prefix of whole characters that fits.
unfoldable pub truncate_at : ℕ → Text → Text
truncate_at max [] = []
truncate_at max (c ∷ t) =
    let rest = truncate_at (max - len_utf8 c) t in if leb (len_utf8 c) max then c ∷ rest else []

unfoldable pub total_len : List Text → ℕ
total_len [] = 0
total_len (t ∷ ts) = byte_len t + total_len ts

-- `push_line`: the lines and the flag after it.
unfoldable pub push_line : List Text → Text → Bool → List Text × Bool
push_line out text truncated =
    let remaining = max_text_chars - total_len out in
    if is_empty (trim text)
    then (out, truncated)
    else if leb max_lines (length out) || truncated
    then (out, truncated)
    else if remaining == 0
    then (out, true)
    else if ltb remaining (byte_len text)
    then (out ++ truncate_at remaining text ∷ [], true)
    else (out ++ text ∷ [], truncated)

byte_len-truncate_at : (max : ℕ) (t : Text) → byte_len (truncate_at max t) ≤ max
unfolding truncate_at
byte_len-truncate_at max [] = omega arith
byte_len-truncate_at max (c ∷ t) = elim (Bool-cases (leb (len_utf8 c) max)) [
  | inl fits ↦
      rw fits (
        let h = byte_len-truncate_at (max - len_utf8 c) t in let k = leb→le _ _ fits in omega arith)
  | inr over ↦ rw over (omega arith)
]

total_len-append : (ts us : List Text) → total_len (ts ++ us) ≡ total_len ts + total_len us
unfolding total_len
total_len-append [] us = omega arith
total_len-append (t ∷ ts) us = omega (arith, total_len-append ts us)

-- Within the cap on bytes and the cap on lines.
pub record IsCapped (out : List Text) : Type 0 where
  pub bytes : total_len out ≤ max_text_chars
  pub count : length out ≤ max_lines

total_len-one : (t : Text) → total_len (t ∷ []) ≡ byte_len t
unfolding total_len
total_len-one t = omega arith

pub push_line-IsCapped :
    (out : List Text) (text : Text) (truncated : Bool)
    → IsCapped out
    → IsCapped (push_line out text truncated).0
unfolding push_line
push_line-IsCapped out text truncated v =
    let cut = truncate_at (max_text_chars - total_len out) text in
    ground (
      arith,
      total_len-append out (text ∷ []),
      total_len-one text,
      length-append out (text ∷ []),
      total_len-append out (cut ∷ []),
      total_len-one cut,
      length-append out (cut ∷ []),
      byte_len-truncate_at (max_text_chars - total_len out) text,
    )
