-- ===== src/Prelude/Scanning.antt =====
-- Rust's functions on strings: trimming, splitting, and reading numbers.
pub mod Decimal
use Prim.Native.Nat.{ℕ, ◌+◌, ◌-◌, ◌*◌}
use mathlib.Core.Bool.{Bool, true, false, ◌&&◌, ◌||◌}
use mathlib.Core.List.{List, [], ◌∷◌, ◌++◌, reverse}
use mathlib.Core.Option.{Option, none, some}
use doc_bunker.Prelude.Tests.{ltb, leb, ◌==◌, if◌then◌else◌}
use doc_bunker.Prelude.Strings.{Text}

-- `char::is_whitespace`
unfoldable pub is_whitespace : ℕ → Bool
is_whitespace c =
    (leb 9 c && leb c 13)
    || c == 32
    || c == 0x85
    || c == 0xA0
    || c == 0x1680
    || (leb 0x2000 c && leb c 0x200A)
    || c == 0x2028
    || c == 0x2029
    || c == 0x202F
    || c == 0x205F
    || c == 0x3000

-- `str::trim_start`, `str::trim_end` and `str::trim`
unfoldable pub trim_start : Text → Text
unfolding is_whitespace
trim_start [] = []
trim_start (c ∷ t) = if is_whitespace c then trim_start t else c ∷ t

unfoldable pub trim_end : Text → Text
unfolding trim_start
trim_end t = reverse (trim_start (reverse t))

unfoldable pub trim : Text → Text
unfolding trim_start
trim t = reverse (trim_start (reverse (trim_start t)))

abbrev pub is_empty : Text → Bool
is_empty [] = true
is_empty (c ∷ t) = false

-- A character in front of the first piece.
abbrev pub attach : ℕ → List Text → List Text
attach c [] = (c ∷ []) ∷ []
attach c (t ∷ ts) = (c ∷ t) ∷ ts

abbrev pub starts_with_space : Text → Bool
starts_with_space [] = true
starts_with_space (c ∷ t) = is_whitespace c

-- `str::split_whitespace`
unfoldable pub split_whitespace : Text → List Text
unfolding is_whitespace
split_whitespace [] = []
split_whitespace (c ∷ t) =
    let rest = split_whitespace t in
    if is_whitespace c then rest else if starts_with_space t then (c ∷ []) ∷ rest else attach c rest

-- `str::split` at a character
unfoldable pub split : ℕ → Text → List Text
split separator [] = [] ∷ []
split separator (c ∷ t) =
    let rest = split separator t in if c == separator then [] ∷ rest else attach c rest

abbrev pub starts_with_newline : Text → Bool
starts_with_newline [] = false
starts_with_newline (c ∷ t) = c == b'\n'

-- `str::lines`: a carriage return before the end of a line belongs to that end.
unfoldable pub lines : Text → List Text
lines [] = []
lines (c ∷ t) =
    let rest = lines t in
    if c == b'\n'
    then [] ∷ rest
    else if c == 13 && starts_with_newline t
    then rest
    else attach c rest

-- `str::strip_prefix`, the prefix first.
unfoldable pub strip_prefix : Text → Text → Option Text
strip_prefix [] t = some t
strip_prefix (c ∷ p) [] = none
strip_prefix (c ∷ p) (d ∷ t) = let rest = strip_prefix p t in if c == d then rest else none

below : ℕ → ℕ → Option ℕ
below radix v = if ltb v radix then some v else none

-- `char::to_digit`
unfoldable pub to_digit : ℕ → ℕ → Option ℕ
unfolding below
to_digit radix c =
    if leb b'0' c && leb c b'9'
    then below radix (c - b'0')
    else if leb b'a' c && leb c b'z'
    then below radix (c - b'a' + 10)
    else if leb b'A' c && leb c b'Z'
    then below radix (c - b'A' + 10)
    else none

-- The value of digits that stand behind digits of the given value.
unfoldable pub digits_value : ℕ → ℕ → Text → Option ℕ
unfolding to_digit
digits_value radix acc [] = some acc
digits_value radix acc (d ∷ ds) = elim (to_digit radix d) [
  | none ↦ none
  | some v ↦ digits_value radix (acc * radix + v) ds
]

unsigned : ℕ → Text → Option ℕ
unfolding digits_value
unsigned radix [] = none
unsigned radix (d ∷ ds) = digits_value radix 0 (d ∷ ds)

abbrev within : ℕ → Option ℕ → Option ℕ
within top none = none
within top (some n) = if leb n top then some n else none

abbrev drop_plus : Text → Text
drop_plus [] = []
drop_plus (c ∷ t) = if c == b'+' then t else c ∷ t

-- `from_str_radix` at an unsigned type whose largest value is `top`; at radix 10 it is `str::parse`.
unfoldable pub from_str_radix : ℕ → ℕ → Text → Option ℕ
unfolding unsigned
from_str_radix top radix t = within top (unsigned radix (drop_plus t))
