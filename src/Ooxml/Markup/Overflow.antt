-- ===== src/Ooxml/Markup/Overflow.antt =====
-- The room that `extract_part_xml` and `extract_markup_text` compute for a line that is full.
use doc_bunker.Prelude.{
  ℕ, ◌+◌, ◌≡◌, refl, ◌∙◌, ap, true, false, some, [], ◌∷◌, ◌++◌, arith, Text, byte_len,
  byte_len-append, len_utf8,
}
use doc_bunker.Prelude.Scanning.{is_whitespace, is_empty, trim}
use doc_bunker.Ooxml.Container.{max_text_chars, truncate_at}
use doc_bunker.Ooxml.Markup.{Line, ends_with_space, append_capped, separated, reference_run}

-- The line is full.
record IsFull (l : Line) : Type 0 where
  size : byte_len l.line ≡ max_text_chars
  blank : l.after_blank_run ≡ true
  last : ends_with_space l.line ≡ false

trim_one : (c : ℕ) → is_whitespace c ≡ false → trim (c ∷ []) ≡ c ∷ []
unfolding trim
trim_one c w = rw (w) (rw (w) refl)

nonempty : (t : Text) → byte_len t ≡ max_text_chars → is_empty t ≡ false
nonempty [] e = absurd (omega arith)
nonempty (c ∷ t) e = refl

separated_full :
    (l : Line) (c : ℕ)
    → IsFull l
    → is_whitespace c ≡ false
    → (separated (c ∷ []) l).line ≡ l.line ++ 32 ∷ []
unfolding separated
separated_full l c v w = let t = trim_one c w in let n = nonempty l.line v.size in ground arith

overlong :
    (l : Line) (c : ℕ)
    → byte_len l.line ≡ max_text_chars + 1
    → byte_len (append_capped (c ∷ []) l).line ≡ max_text_chars + 1 + len_utf8 c
unfolding append_capped truncate_at
overlong l c e = ground (arith, byte_len-append l.line (c ∷ []))

-- If a line has reached its cap, the last run of text was blank and the line does not end in a
-- space, then a character reference that shows makes the line longer than the cap: the space that
-- is put before it is not counted, and the room that is left wraps round.
pub reference_run_overflow :
    (l : Line) (c : ℕ)
    → byte_len l.line ≡ max_text_chars
    → l.after_blank_run ≡ true
    → ends_with_space l.line ≡ false
    → is_whitespace c ≡ false
    → byte_len (reference_run (some c) l).line ≡ max_text_chars + 1 + len_utf8 c
unfolding reference_run
reference_run_overflow l c size blank last w =
    let v : IsFull l = record { size = size; blank = blank; last = last } in
    overlong (separated (c ∷ []) l) c (
      ap byte_len (separated_full l c v w) ∙ byte_len-append l.line (32 ∷ []) ∙ omega (arith, size))
