-- ===== src/Prelude/Utf8.antt =====
-- `String::from_utf8_lossy` and `str::from_utf8`, one byte at a time.
use Prim.Native.Nat.{ℕ, zero, suc, ◌+◌, ◌-◌, ◌*◌}
use mathlib.Core.Bool.{◌&&◌}
use mathlib.Core.List.{List, [], ◌∷◌, ◌++◌}
use mathlib.Core.Option.{Option, none, some}
use doc_bunker.Prelude.Tests.{ltb, leb, ◌==◌, if◌then◌else◌}
use doc_bunker.Prelude.Strings.{Text}

-- Inside a character: the bytes that are missing behind the next one, the range of the next one,
-- and the bits so far.
pub data Pending : Type 0 where
  idle : Pending
  within : ℕ → ℕ → ℕ → ℕ → Pending

-- The first byte of a character; none is an invalid one.
begin : ℕ → Option (Text × Pending)
begin b =
    if ltb b 0x80
    then some (b ∷ [], idle)
    else if leb 0xC2 b && leb b 0xDF
    then some ([], within 0 0x80 0xBF (b - 0xC0))
    else if b == 0xE0
    then some ([], within 1 0xA0 0xBF 0)
    else if b == 0xED
    then some ([], within 1 0x80 0x9F 0xD)
    else if leb 0xE1 b && leb b 0xEF
    then some ([], within 1 0x80 0xBF (b - 0xE0))
    else if b == 0xF0
    then some ([], within 2 0x90 0xBF 0)
    else if b == 0xF4
    then some ([], within 2 0x80 0x8F 4)
    else if leb 0xF1 b && leb b 0xF3
    then some ([], within 2 0x80 0xBF (b - 0xF0))
    else none

advance : ℕ → ℕ → Text × Pending
advance zero bits = (bits ∷ [], idle)
advance (suc missing) bits = ([], within missing 0x80 0xBF bits)

-- A byte; none is an invalid one.
strict : Pending → ℕ → Option (Text × Pending)
unfolding begin advance
strict idle b = begin b
strict (within missing low high bits) b =
    if leb low b && leb b high then some (advance missing (bits * 64 + (b - 0x80))) else none

from_utf8_at : Pending → List ℕ → Option Text
unfolding strict
from_utf8_at idle [] = some []
from_utf8_at (within missing low high bits) [] = none
from_utf8_at p (b ∷ bytes) = elim (strict p b) [
  | none ↦ none
  | some (out, p') ↦ elim (from_utf8_at p' bytes) [ none ↦ none | some t ↦ some (out ++ t) ]
]

unfoldable pub from_utf8 : List ℕ → Option Text
unfolding from_utf8_at
from_utf8 bytes = from_utf8_at idle bytes

-- The replacement character stands for the longest invalid piece.
restart : Option (Text × Pending) → Text × Pending
restart none = (0xFFFD ∷ [], idle)
restart (some next) = next

replaced : Pending → ℕ → Text × Pending
unfolding restart begin
replaced idle b = (0xFFFD ∷ [], idle)
replaced (within missing low high bits) b = let (out, p) = restart (begin b) in (0xFFFD ∷ out, p)

lossy_step : Pending → ℕ → Text × Pending
unfolding strict replaced
lossy_step p b = elim (strict p b) [ some next ↦ next | none ↦ replaced p b ]

lossy_at : Pending → List ℕ → Text
unfolding lossy_step
lossy_at idle [] = []
lossy_at (within missing low high bits) [] = 0xFFFD ∷ []
lossy_at p (b ∷ bytes) = let (out, p') = lossy_step p b in out ++ lossy_at p' bytes

unfoldable pub from_utf8_lossy : List ℕ → Text
unfolding lossy_at
from_utf8_lossy bytes = lossy_at idle bytes
