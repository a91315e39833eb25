-- ===== src/Core/Cache/Retention.antt =====
-- crates/core/src/cache.rs: what `retain` keeps of the keys and of the entries.
use doc_bunker.Prelude.{
  ◌≤◌, ◌≡◌, refl, ap, Bool, none, [], ◌∷◌, if◌then◌else◌, length, arith, inl, inr, Bool-cases,
}
use doc_bunker.Prelude.Assoc
use doc_bunker.RendererApi.Types.{RenderedPage}
use doc_bunker.Core.Cache.{CacheKey, key_dec, retain}
use doc_bunker.Core.Cache.Recency.{Recent, keys, lookup, IsFresh, IsDistinct}

-- `retain` on the keys and on the entries.
pub retain-keys :
    (f : CacheKey → Bool) (l : Recent) → retain f (keys l) ≡ keys (retain (λ e. f e.0) l)
unfolding retain
retain-keys f [] = refl
retain-keys f (e ∷ l) = ground (arith, retain-keys f l)

IsFresh-retain :
    (f : CacheKey × RenderedPage → Bool) (k : CacheKey) (l : Recent)
    → IsFresh k l
    → IsFresh k (retain f l)
unfolding retain
IsFresh-retain f k [] h = tt
IsFresh-retain f k (e ∷ l) h = elim (Bool-cases (f e)) [
  | inl t ↦ rw t (h.0, IsFresh-retain f k l h.1)
  | inr t ↦ rw t (IsFresh-retain f k l h.1)
]

pub IsDistinct-retain :
    (f : CacheKey × RenderedPage → Bool) (l : Recent) → IsDistinct l → IsDistinct (retain f l)
unfolding retain
IsDistinct-retain f [] h = tt
IsDistinct-retain f (e ∷ l) h = elim (Bool-cases (f e)) [
  | inl t ↦ rw t (IsFresh-retain f e.0 l h.0, IsDistinct-retain f l h.1)
  | inr t ↦ rw t (IsDistinct-retain f l h.1)
]

pub length-retain :
    (f : CacheKey × RenderedPage → Bool) (l : Recent) → length (retain f l) ≤ length l
unfolding retain
length-retain f [] = omega arith
length-retain f (e ∷ l) = ground (arith, length-retain f l)

pub lookup-retain :
    (f : CacheKey → Bool) (j : CacheKey) (l : Recent)
    → lookup j (retain (λ e. f e.0) l) ≡ (if f j then lookup j l else none)
unfolding retain Assoc.get
lookup-retain f j [] = ground arith
lookup-retain f j (e ∷ l) = elim (key_dec e.0 j) [
  | yes p ↦ ground (arith, ap f p, lookup-retain f j l)
  | no p ↦ ground (arith, lookup-retain f j l)
]
