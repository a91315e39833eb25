-- ===== src/Prelude/Scanning/Decimal.antt =====
-- The decimal digits that a number is printed with are read back.
use Prim.Native.Nat.{ℕ, zero, suc, ◌+◌, ◌*◌, ◌/◌, ◌%◌, ◌^◌, ◌≤◌, ◌<◌}
use mathlib.Core.Path.{◌≡◌, refl, ◌∙◌}
use mathlib.Core.List.{[], ◌∷◌}
use mathlib.Core.Option.{some}
use mathlib.Core.Logic.{◌≢◌, inl, inr}
use native.Mathlib.Omega.{arith}
use doc_bunker.Prelude.Tests.{ltb, Bool-cases}
use doc_bunker.Prelude.Lists.{All}
use doc_bunker.Prelude.Strings.{Text, decimal, decimal_from}
use doc_bunker.Prelude.Scanning.{to_digit, digits_value, from_str_radix}

to_digit_decimal : (d : ℕ) → d < 10 → to_digit 10 (b'0' + d) ≡ some d
unfolding to_digit
to_digit_decimal d h = ground arith

digits_value-digit :
    (acc d : ℕ) (rest : Text)
    → d < 10
    → digits_value 10 acc ((b'0' + d) ∷ rest) ≡ digits_value 10 (acc * 10 + d) rest
unfolding digits_value
digits_value-digit acc d rest h = rw (digits_value, to_digit_decimal d h) refl

one_digit :
    (n : ℕ) (acc : Text)
    → n < 10
    → digits_value 10 0 ((b'0' + n % 10) ∷ acc) ≡ digits_value 10 n acc
one_digit n acc h =
    let e : 0 * 10 + n % 10 ≡ n = omega arith in
    digits_value-digit 0 (n % 10) acc (omega arith) ∙ rw e refl

digits_value-decimal_from :
    (fuel n : ℕ) (acc : Text)
    → n < 10 ^ suc fuel
    → digits_value 10 0 (decimal_from (suc fuel) n acc) ≡ digits_value 10 n acc
unfolding decimal_from
digits_value-decimal_from zero n acc h = ground (arith, one_digit n acc)
digits_value-decimal_from (suc fuel) n acc h = elim (Bool-cases (ltb n 10)) [
  | inl small ↦ rw small (one_digit n acc (ground arith))
  | inr large ↦
      let e : n / 10 * 10 + n % 10 ≡ n = omega arith in
      rw large (
        digits_value-decimal_from fuel (n / 10) ((b'0' + n % 10) ∷ acc) (grind arith)
        ∙ digits_value-digit (n / 10) (n % 10) acc (omega arith)
        ∙ rw e refl)
]

abbrev pub IsDigit : ℕ → Type 0
IsDigit d = (b'0' ≤ d) × (d ≤ b'9')

decimal_from-IsDigit :
    (fuel n : ℕ) (acc : Text) → All IsDigit acc → All IsDigit (decimal_from fuel n acc)
unfolding decimal_from
decimal_from-IsDigit zero n acc h = h
decimal_from-IsDigit (suc fuel) n acc h =
    let h' : All IsDigit ((b'0' + n % 10) ∷ acc) = ((omega arith, omega arith), h) in
    elim (Bool-cases (ltb n 10)) [
      | inl small ↦ rw small h'
      | inr large ↦ rw large (decimal_from-IsDigit fuel (n / 10) ((b'0' + n % 10) ∷ acc) h')
    ]

pub decimal-IsDigit : (n : ℕ) → All IsDigit (decimal n)
unfolding decimal
decimal-IsDigit n = decimal_from-IsDigit 20 n [] tt

longer_ne : (fuel n : ℕ) (c : ℕ) (acc : Text) → decimal_from fuel n (c ∷ acc) ≢ []
unfolding decimal_from
longer_ne zero n c acc = λ e. cc
longer_ne (suc fuel) n c acc = elim (Bool-cases (ltb n 10)) [
  | inl small ↦ rw small (λ e. cc)
  | inr large ↦ rw large (longer_ne fuel (n / 10) (b'0' + n % 10) (c ∷ acc))
]

pub decimal-ne-nil : (n : ℕ) → decimal n ≢ []
unfolding decimal decimal_from
decimal-ne-nil n = elim (Bool-cases (ltb n 10)) [
  | inl small ↦ rw small (λ e. cc)
  | inr large ↦ rw large (longer_ne 19 (n / 10) (b'0' + n % 10) [])
]

digits_read :
    (top n : ℕ) (t : Text)
    → All IsDigit t
    → t ≢ []
    → n ≤ top
    → digits_value 10 0 t ≡ some n
    → from_str_radix top 10 t ≡ some n
unfolding from_str_radix
digits_read top n [] h ne le e = absurd (ne refl)
digits_read top n (c ∷ t) h ne le e = let d = h.0 in ground arith

-- A printed number is read back, at every type that holds it.
pub from_str_radix-decimal :
    (top n : ℕ) → n ≤ top → n < 10 ^ 20 → from_str_radix top 10 (decimal n) ≡ some n
unfolding decimal digits_value
from_str_radix-decimal top n le h =
    digits_read top n (decimal n) (decimal-IsDigit n) (decimal-ne-nil n) le
      (digits_value-decimal_from 19 n [] h)
