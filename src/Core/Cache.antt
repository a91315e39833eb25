-- ===== src/Core/Cache.antt =====
-- crates/core/src/cache.rs: the page cache, a hash map of entries beside the order of their use.
pub mod Recency
pub mod Eviction
pub mod Retention
pub mod Refinement
use doc_bunker.Prelude.{
  ℕ, zero, suc, Bool, not, Option, none, some, List, [], ◌∷◌, max, ltb, ◌==◌, if◌then◌else◌, length,
}
use doc_bunker.Prelude.Assoc
use mathlib.Core.Logic.{ite}
use mathlib.Core.Option
use native.Mathlib.Decide.{ℕ_discrete}
use doc_bunker.RendererApi.Types.{RenderedPage}

abbrev pub default_capacity : ℕ
default_capacity = 3

pub record CacheKey : Type 0 where
  pub document : ℕ
  pub page : ℕ
  pub width : ℕ
  pub height : ℕ

unfoldable pub key_dec : Discrete CacheKey
key_dec = hlevel ℕ_discrete

pub record PageCache : Type 0 where
  pub capacity : ℕ
  pub order : List CacheKey
  pub entries : List (CacheKey × RenderedPage)

-- `PageCache::new`
unfoldable pub new : ℕ → PageCache
new capacity = record { capacity = max capacity 1; order = []; entries = [] }

-- `order.iter().position(..)`, `order.remove(pos)` and `order.pop_back()`.
unfoldable pub position : CacheKey → List CacheKey → Option ℕ
position key [] = none
position key (k ∷ order) = ite (key_dec k key) (some 0) (Option.map suc (position key order))

module _ {ℓ} {A : Type ℓ} where
  unfoldable pub remove_at : ℕ → List A → List A
  remove_at i [] = []
  remove_at zero (x ∷ xs) = xs
  remove_at (suc i) (x ∷ xs) = x ∷ remove_at i xs

  unfoldable pub pop_back : List A → Option (List A × A)
  pop_back [] = none
  pop_back (x ∷ []) = some ([], x)
  pop_back (x ∷ y ∷ xs) = Option.map (λ r. (x ∷ r.0, r.1)) (pop_back (y ∷ xs))

  -- `retain`
  unfoldable pub retain : (A → Bool) → List A → List A
  retain f [] = []
  retain f (x ∷ xs) = let rest = retain f xs in if f x then x ∷ rest else rest

promote : CacheKey → Option ℕ → List CacheKey → List CacheKey
promote key none order = order
promote key (some pos) order = key ∷ remove_at pos order

unfoldable pub touch : CacheKey → PageCache → PageCache
unfolding promote
touch key c = record c { order = promote key (position key c.order) c.order }

unfoldable pub evict_oldest : Option (List CacheKey × CacheKey) → PageCache → PageCache
evict_oldest none c = c
evict_oldest (some (order, oldest)) c = record c {
  order = order;
  entries = Assoc.remove key_dec oldest c.entries;
}

-- The loop of `evict`: each round takes a key off the order, so its length is enough fuel.
unfoldable pub evict_loop : ℕ → PageCache → PageCache
unfolding evict_oldest
evict_loop zero c = c
evict_loop (suc fuel) c =
    let rest = evict_loop fuel (evict_oldest (pop_back c.order) c) in
    if ltb c.capacity (length c.order) then rest else c

unfoldable pub evict : PageCache → PageCache
unfolding evict_loop
evict c = evict_loop (length c.order) c

found : CacheKey → Option RenderedPage → PageCache → Option RenderedPage × PageCache
found key none c = (none, c)
found key (some _) c = let c' = touch key c in (Assoc.get key_dec key c'.entries, c')

-- `PageCache::get`
unfoldable pub get : CacheKey → PageCache → Option RenderedPage × PageCache
unfolding found
get key c = found key (Assoc.get key_dec key c.entries) c

store : CacheKey → RenderedPage → Option RenderedPage → PageCache → PageCache
store key rendered (some _) c =
    touch key (record c { entries = Assoc.insert key_dec key rendered c.entries })
store key rendered none c =
    evict
      (record c { entries = Assoc.insert key_dec key rendered c.entries; order = key ∷ c.order })

-- `PageCache::put`
unfoldable pub put : CacheKey → RenderedPage → PageCache → PageCache
unfolding store
put key rendered c = store key rendered (Assoc.get key_dec key c.entries) c

-- `PageCache::remove_document`
unfoldable pub remove_document : ℕ → PageCache → PageCache
remove_document document c = record c {
  order = retain (λ k. not (k.document == document)) c.order;
  entries = retain (λ e. not (e.0.document == document)) c.entries;
}

-- `PageCache::len` counts the entries.
abbrev pub len : PageCache → ℕ
len c = length c.entries
