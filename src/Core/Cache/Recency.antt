-- ===== src/Core/Cache/Recency.antt =====
-- An ideal cache: the pages with their keys in one list, the last used first.
use doc_bunker.Prelude.{
  ℕ, suc, ◌+◌, ◌≡◌, ◌≢◌, refl, ap, sym, not, Option, none, some, List, [], ◌∷◌, ◌==◌, length, take,
  All, arith, map,
}
use doc_bunker.Prelude.Assoc
use mathlib.Core.Logic.{ite}
use mathlib.Core.Path.{subst}
use mathlib.Core.Option
use doc_bunker.RendererApi.Types.{RenderedPage}
use doc_bunker.Core.Cache.{CacheKey, key_dec, position, remove_at, pop_back, retain}

abbrev pub Recent : Type 0
Recent = List (CacheKey × RenderedPage)

abbrev pub keys : Recent → List CacheKey
keys = map (λ e. e.0)

abbrev pub lookup : CacheKey → Recent → Option RenderedPage
lookup = Assoc.get key_dec

abbrev pub without : CacheKey → Recent → Recent
without = Assoc.remove key_dec

abbrev pub IsFresh : CacheKey → Recent → Type 0
IsFresh k = All (λ e. k ≢ e.0)

abbrev pub IsDistinct : Recent → Type 0
IsDistinct [] = Unit
IsDistinct (e ∷ l) = IsFresh e.0 l × IsDistinct l

-- Use of a key moves it to the front; a new page goes to the front and the last one may go.
abbrev pub use_key : CacheKey → RenderedPage → Recent → Recent
use_key k p l = (k, p) ∷ without k l

abbrev pub insert_page : ℕ → CacheKey → RenderedPage → Recent → Recent
insert_page n k p l = take n (use_key k p l)

abbrev pub forget : ℕ → Recent → Recent
forget document = retain (λ e. not (e.0.document == document))

pub without_fresh : (k : CacheKey) (l : Recent) → IsFresh k l → without k l ≡ l
unfolding Assoc.remove
without_fresh k [] h = refl
without_fresh k (e ∷ l) h = ground (arith, without_fresh k l h.1)

pub IsFresh-of_none : (k : CacheKey) (l : Recent) → lookup k l ≡ none → IsFresh k l
unfolding Assoc.get
IsFresh-of_none k [] h = tt
IsFresh-of_none k (e ∷ l) h = elim (key_dec e.0 k) [
  | yes p ↦ absurd (ground arith)
  | no p ↦ ((λ q. p (sym q)), IsFresh-of_none k l (ground arith))
]

pub IsFresh-without : (k j : CacheKey) (l : Recent) → IsFresh k l → IsFresh k (without j l)
IsFresh-without k j l h = Assoc.All-remove key_dec _ j l h

pub IsFresh-without_self : (k : CacheKey) (l : Recent) → IsFresh k (without k l)
unfolding Assoc.remove
IsFresh-without_self k [] = tt
IsFresh-without_self k (e ∷ l) =
    elim (key_dec e.0 k) as (λ d. IsFresh k (ite d (without k l) (e ∷ without k l))) [
      | yes p ↦ IsFresh-without_self k l
      | no p ↦ ((λ q. p (sym q)), IsFresh-without_self k l)
    ]

pub IsDistinct-without : (k : CacheKey) (l : Recent) → IsDistinct l → IsDistinct (without k l)
unfolding Assoc.remove
IsDistinct-without k [] h = tt
IsDistinct-without k (e ∷ l) h =
    elim (key_dec e.0 k) as (λ d. IsDistinct (ite d (without k l) (e ∷ without k l))) [
      | yes p ↦ IsDistinct-without k l h.1
      | no p ↦ (IsFresh-without e.0 k l h.0, IsDistinct-without k l h.1)
    ]

-- The key is found where it stands, and taking it out there is taking it out everywhere.
pub position-keys :
    (k : CacheKey) (l : Recent) (p : RenderedPage)
    → IsDistinct l
    → lookup k l ≡ some p
    → (i : ℕ) × (position k (keys l) ≡ some i)
      × (remove_at i (keys l) ≡ keys (without k l))
      × (length (without k l) + 1 ≡ length l)
unfolding Assoc.get Assoc.remove position remove_at
position-keys k [] p d h = cc
position-keys k (e ∷ l) p d h =
    elim (key_dec e.0 k)
        as (λ x.
          ite x (some e.1) (lookup k l) ≡ some p
          → (i : ℕ) × (ite x (some 0) (Option.map suc (position k (keys l))) ≡ some i)
            × (remove_at i (e.0 ∷ keys l) ≡ keys (ite x (without k l) (e ∷ without k l)))
            × (length (ite x (without k l) (e ∷ without k l)) + 1 ≡ suc (length l))) [
              | yes q ↦ λ g.
                  let same = without_fresh k l (subst (λ j. IsFresh j l) q d.0) in
                  (0, refl, ap keys (sym same), omega (arith, ap length same))
              | no q ↦ λ g.
                  let r = position-keys k l p d.1 g in
                  (suc r.0, ap (Option.map suc) r.1, ap (◌∷◌ e.0) r.2, omega (arith, r.3))
            ]
      h

-- The last key goes: it is fresh to what stays, and nothing else is lost.
pub pop_back-keys :
    (e : CacheKey × RenderedPage) (l : Recent)
    → IsDistinct (e ∷ l)
    → (last : CacheKey) × (pop_back (keys (e ∷ l)) ≡ some (keys (take (length l) (e ∷ l)), last))
      × ((j : CacheKey)
          → ite (key_dec last j) none (lookup j (e ∷ l)) ≡ lookup j (take (length l) (e ∷ l)))
      × ((j : CacheKey) → IsFresh j (e ∷ l) → j ≢ last)
unfolding Assoc.get pop_back
pop_back-keys e [] d = (e.0, refl, (λ j. ground arith), (λ j h. h.0))
pop_back-keys e (x ∷ l) d =
    let r = pop_back-keys x l d.1 in
    (r.0, ap (Option.map _) r.1, (λ j. ground (arith, r.2 j, r.3 e.0 d.0)), (λ j h. r.3 j h.1))
