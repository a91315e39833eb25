-- ===== src/Sandbox/Version/Printed.antt =====
-- `parse` of versions against their `Display` (crates/sandbox/src/version.rs).
use doc_bunker.Prelude.{
  ℕ, ◌≤◌, ◌≡◌, ◌≢◌, refl, ap, ◌∙◌, false, some, [], ◌∷◌, ◌++◌, All, All-append, Text, decimal,
  u32_max, arith,
}
use doc_bunker.Prelude.Scanning.{is_whitespace, split_whitespace, split}
use doc_bunker.Prelude.Scanning.Decimal.{
  IsDigit, decimal-IsDigit, decimal-ne-nil, from_str_radix-decimal,
}
use doc_bunker.Prelude.Scanning.{from_str_radix}
use doc_bunker.Sandbox.Version.{SemVer, parse, display, parse_parts}

-- The fields of `SemVer` are 32-bit numbers.
pub record IsSemVer (v : SemVer) : Type 0 where
  pub major : v.major ≤ u32_max
  pub minor : v.minor ≤ u32_max
  pub patch : v.patch ≤ u32_max

-- The characters of a printed version.
abbrev IsPlain : ℕ → Type 0
IsPlain c = is_whitespace c ≡ false

split_whitespace-one :
    (c : ℕ) (t : Text) → All IsPlain (c ∷ t) → split_whitespace (c ∷ t) ≡ (c ∷ t) ∷ []
unfolding split_whitespace
split_whitespace-one c [] h = rw (h.0) refl
split_whitespace-one c (d ∷ t) h =
    let a = h.0 in let b = h.1.0 in ground (arith, split_whitespace-one d t h.1)

split-append :
    (t rest : Text) → All IsDigit t → split b'.' (t ++ (b'.' ∷ rest)) ≡ t ∷ split b'.' rest
unfolding split
split-append [] rest h = refl
split-append (c ∷ t) rest h = let d = h.0 in ground (arith, split-append t rest h.1)

split_last : (t : Text) → All IsDigit t → split b'.' t ≡ t ∷ []
unfolding split
split_last [] h = refl
split_last (c ∷ t) h = let d = h.0 in ground (arith, split_last t h.1)

digit-IsPlain : (t : Text) → All IsDigit t → All IsPlain t
unfolding is_whitespace
digit-IsPlain [] h = tt
digit-IsPlain (c ∷ t) h = let d = h.0 in (ground arith, digit-IsPlain t h.1)

display-IsPlain : (v : SemVer) → All IsPlain (display v)
unfolding display
display-IsPlain v =
    let digits = λ (n : ℕ). digit-IsPlain (decimal n) (decimal-IsDigit n) in
    All-append IsPlain (decimal v.major) _ (digits v.major)
      (dot, All-append IsPlain (decimal v.minor) _ (digits v.minor) (dot, digits v.patch))
  where
    dot : is_whitespace b'.' ≡ false
    dot = unfold is_whitespace in refl

one_token : (t : Text) → t ≢ [] → All IsPlain t → split_whitespace t ≡ t ∷ []
one_token [] ne h = absurd (ne refl)
one_token (c ∷ t) ne h = split_whitespace-one c t h

append_ne : (t rest : Text) → t ≢ [] → t ++ rest ≢ []
append_ne [] rest ne = λ e. ne refl
append_ne (c ∷ t) rest ne = λ e. cc

split-display :
    (v : SemVer) → split b'.' (display v) ≡ decimal v.major ∷ decimal v.minor ∷ decimal v.patch ∷ []
unfolding display
split-display v =
    split-append (decimal v.major) _ (decimal-IsDigit v.major)
    ∙ ap (◌∷◌ (decimal v.major)) (
        split-append (decimal v.minor) _ (decimal-IsDigit v.minor)
        ∙ ap (◌∷◌ (decimal v.minor)) (split_last (decimal v.patch) (decimal-IsDigit v.patch)))

field_read : (n : ℕ) → n ≤ u32_max → from_str_radix u32_max 10 (decimal n) ≡ some n
field_read n h = from_str_radix-decimal u32_max n h (omega arith)

parts_read :
    (v : SemVer)
    → IsSemVer v
    → parse_parts (decimal v.major ∷ decimal v.minor ∷ decimal v.patch ∷ []) ≡ some v
unfolding parse_parts
parts_read v h =
    ground
      (arith, field_read v.major h.major, field_read v.minor h.minor, field_read v.patch h.patch)

-- A version that is printed is read back, whatever its three numbers are.
pub parse-display : (v : SemVer) → IsSemVer v → parse (display v) ≡ some v
unfolding parse
parse-display v h =
    rw (one_token (display v) (display_ne v) (display-IsPlain v))
      (rw (split-display v) (parts_read v h))
  where
    display_ne : (v : SemVer) → display v ≢ []
    display_ne v = unfold display in append_ne (decimal v.major) _ (decimal-ne-nil v.major)
