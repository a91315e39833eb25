-- ===== src/Prelude/Outcome.antt =====
-- Rust's `Result`, with the `?` operator as bind and `map_err`.
use mathlib.Core.Path.{◌≡◌, refl}
use mathlib.Core.Logic.{◌⊎◌, inl, inr}
use mathlib.Core.Option.{Option, none, some}

pub data Result {ℓ κ} (E : Type ℓ) (A : Type κ) : Type (ℓ ⊔ κ) where
  ok : A → Result E A
  err : E → Result E A

infixl 5 ◌>>=◌ ◌>>◌
abbrev pub ◌>>=◌ {ℓ κ μ} :
    {E : Type ℓ} {A : Type κ} {B : Type μ} → Result E A → (A → Result E B) → Result E B
ok a >>= f = f a
err e >>= f = err e

abbrev pub ◌>>◌ {ℓ κ} : {E : Type ℓ} {B : Type κ} → Result E (Unit {0}) → Result E B → Result E B
m >> k = m >>= λ _. k

abbrev pub map_err {ℓ κ μ} :
    {E : Type ℓ} {F : Type κ} {A : Type μ} → (E → F) → Result E A → Result F A
map_err f (ok a) = ok a
map_err f (err e) = err (f e)

-- `ok_or`: an absent value becomes the given error.
abbrev pub ok_or {ℓ κ} : {E : Type ℓ} {A : Type κ} → E → Option A → Result E A
ok_or e none = err e
ok_or e (some a) = ok a

pub Result-cases {ℓ κ} :
    {E : Type ℓ} {A : Type κ} (r : Result E A) → ((a : A) × (r ≡ ok a)) ⊎ ((e : E) × (r ≡ err e))
Result-cases (ok a) = inl (a, refl)
Result-cases (err e) = inr (e, refl)

-- What lies between the two steps of a chain that ends in `out`.
abbrev pub Between {ℓ κ μ} :
    {E : Type ℓ} {A : Type κ} {B : Type μ} → Result E A → (A → Result E B) → B → Type (ℓ ⊔ κ ⊔ μ)
Between {A = A} first next out = (mid : A) × (first ≡ ok mid) × (next mid ≡ ok out)

-- A chain that succeeds did so at each step.
pub >>=-Between {ℓ κ μ} :
    {E : Type ℓ} {A : Type κ} {B : Type μ} (first : Result E A) (next : A → Result E B) {out : B}
    → (first >>= next) ≡ ok out
    → Between first next out
>>=-Between (err stopped) next ends = cc
>>=-Between (ok mid) next ends = (mid, refl, ends)

-- Where the code can panic: an error that it returns, or a panic.
pub data Stop {ℓ} (E : Type ℓ) : Type ℓ where
  failed : E → Stop E
  panicked : Stop E

-- An error that `?` passes on.
abbrev pub lift_stop {ℓ κ} : {E : Type ℓ} {A : Type κ} → Result E A → Result (Stop E) A
lift_stop (ok a) = ok a
lift_stop (err e) = err (failed e)

-- `expect`, and an index: absent is a panic.
abbrev pub expect {ℓ κ} : {E : Type ℓ} {A : Type κ} → Option A → Result (Stop E) A
expect none = err panicked
expect (some a) = ok a
