-- ===== src/Prelude/Assoc.antt =====
-- Rust's `HashMap` as an association list with the newest binding first: the code never relies on
-- the order of the entries. `insert` drops the binding that it replaces.
use mathlib.Core.Path.{◌≡◌, ◌∙◌, refl, subst}
use mathlib.Core.Logic.{◌≢◌, ite, if_pos, if_neg}
use mathlib.Core.Option.{Option, none, some}
use mathlib.Core.List.{List, [], ◌∷◌}
use native.Mathlib.Omega.{arith}
use doc_bunker.Prelude.Lists.{All}

module _ {ℓ} {K V : Type ℓ} (dec : Discrete K) where
  unfoldable pub get : K → List (K × V) → Option V
  get k [] = none
  get k ((j, v) ∷ m) = ite (dec j k) (some v) (get k m)

  unfoldable pub remove : K → List (K × V) → List (K × V)
  remove k [] = []
  remove k ((j, v) ∷ m) = let rest = remove k m in ite (dec j k) rest ((j, v) ∷ rest)

  unfoldable pub insert : K → V → List (K × V) → List (K × V)
  insert k v m = (k, v) ∷ remove k m

  pub get-remove : (k j : K) (m : List (K × V)) → get j (remove k m) ≡ ite (dec k j) none (get j m)
  unfolding get remove
  get-remove k j [] = ground arith
  get-remove k j ((i, v) ∷ m) = ground (arith, get-remove k j m)

  pub get-insert :
      (k j : K) (v : V) (m : List (K × V)) → get j (insert k v m) ≡ ite (dec k j) (some v) (get j m)
  unfolding get insert
  get-insert k j v m = ground (arith, get-remove k j m)

  pub get-insert_self : (k : K) (v : V) (m : List (K × V)) → get k (insert k v m) ≡ some v
  get-insert_self k v m = get-insert k k v m ∙ if_pos (dec k k) refl _ _

  pub get-insert_ne : (k j : K) (v : V) (m : List (K × V)) → k ≢ j → get j (insert k v m) ≡ get j m
  get-insert_ne k j v m h = get-insert k j v m ∙ if_neg (dec k j) h _ _

  pub get-remove_self : (k : K) (m : List (K × V)) → get k (remove k m) ≡ none
  get-remove_self k m = get-remove k k m ∙ if_pos (dec k k) refl _ _

  pub get-remove_ne : (k j : K) (m : List (K × V)) → k ≢ j → get j (remove k m) ≡ get j m
  get-remove_ne k j m h = get-remove k j m ∙ if_neg (dec k j) h _ _

  -- Every binding that is left was there before.
  pub All-remove {μ} :
      (P : K × V → Type μ) (k : K) (m : List (K × V)) → All P m → All P (remove k m)
  unfolding remove
  All-remove P k [] h = h
  All-remove P k ((j, v) ∷ m) h =
      elim (dec j k) as (λ d. All P (ite d (remove k m) ((j, v) ∷ remove k m))) [
        | yes e ↦ All-remove P k m h.1
        | no e ↦ (h.0, All-remove P k m h.1)
      ]

  pub All-insert :
      (P : K × V → Type ℓ) (k : K) (v : V) (m : List (K × V))
      → P (k, v)
      → All P m
      → All P (insert k v m)
  unfolding insert
  All-insert P k v m p h = (p, All-remove P k m h)

  -- What holds of all bindings holds of the one that is found.
  pub All-get :
      (P : K × V → Type ℓ) (k : K) (v : V) (m : List (K × V))
      → All P m
      → get k m ≡ some v
      → P (k, v)
  unfolding get
  All-get P k v [] h e = cc
  All-get P k v ((j, x) ∷ m) h e = elim (dec j k) [
    | yes p ↦ subst P (here p (rw (if_pos (dec j k) p) at e)) h.0
    | no p ↦ All-get P k v m h.1 (rw (if_neg (dec j k) p) at e)
  ]
    where
      here : j ≡ k → some x ≡ some v → ◌≡◌ {A = K × V} (j, x) (k, v)
      here p q = cc
