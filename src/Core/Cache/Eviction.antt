-- ===== src/Core/Cache/Eviction.antt =====
-- crates/core/src/cache.rs: what `evict` makes of a cache, against the ideal list.
use doc_bunker.Prelude.{
  ℕ, zero, suc, ◌≤◌, ◌<◌, ◌≡◌, refl, ap, sym, ◌∙◌, none, some, List, [], ◌∷◌, length, take, arith,
  ◌⊎◌, map, length-take, inl, inr,
}
use doc_bunker.Prelude.Assoc
use mathlib.Core.Logic.{ite, if_pos}
use mathlib.Core.Path.{subst}
use doc_bunker.RendererApi.Types.{RenderedPage}
use doc_bunker.Core.Cache.{CacheKey, key_dec, PageCache, pop_back, evict_oldest, evict_loop, evict}
use doc_bunker.Core.Cache.Recency.{
  Recent, keys, lookup, without, IsFresh, IsDistinct, IsDistinct-without, position-keys,
  pop_back-keys,
}

pub record Refines (n : ℕ) (c : PageCache) (l : Recent) : Type 0 where
  pub sized : c.capacity ≡ n
  pub ordered : c.order ≡ keys l
  pub holds : (k : CacheKey) → Assoc.get key_dec k c.entries ≡ lookup k l
  pub distinct : IsDistinct l
  pub separate : IsDistinct c.entries
  pub bounded : length l ≤ n
  pub positive : 1 ≤ n

pub length-map : {A B : Type 0} (f : A → B) (l : List A) → length (map f l) ≡ length l
length-map f [] = refl
length-map f (x ∷ l) = ap suc (length-map f l)

pub take_all : {A : Type 0} (n : ℕ) (l : List A) → length l ≤ n → take n l ≡ l
take_all zero [] h = refl
take_all zero (x ∷ l) h = absurd (omega arith)
take_all (suc n) [] h = refl
take_all (suc n) (x ∷ l) h = ap (◌∷◌ x) (take_all n l (omega arith))

pub none_of_fresh : (k : CacheKey) (l : Recent) → IsFresh k l → lookup k l ≡ none
unfolding Assoc.get
none_of_fresh k [] h = refl
none_of_fresh k (e ∷ l) h = ground (arith, none_of_fresh k l h.1)

IsFresh-take : (k : CacheKey) (n : ℕ) (l : Recent) → IsFresh k l → IsFresh k (take n l)
IsFresh-take k zero l h = tt
IsFresh-take k (suc n) [] h = tt
IsFresh-take k (suc n) (e ∷ l) h = (h.0, IsFresh-take k n l h.1)

IsDistinct-take : (n : ℕ) (l : Recent) → IsDistinct l → IsDistinct (take n l)
IsDistinct-take zero l h = tt
IsDistinct-take (suc n) [] h = tt
IsDistinct-take (suc n) (e ∷ l) h = (IsFresh-take e.0 n l h.0, IsDistinct-take n l h.1)

-- Two lists that bind the same keys once each are equally long.
pub same_length :
    (l m : Recent)
    → IsDistinct l
    → IsDistinct m
    → ((k : CacheKey) → lookup k l ≡ lookup k m)
    → length l ≡ length m
unfolding Assoc.get
same_length [] [] hl hm h = refl
same_length [] (e ∷ m) hl hm h = absurd (ground (arith, h e.0, key_dec e.0 e.0))
same_length (e ∷ l) m hl hm h = omega (
  arith,
  (position-keys e.0 m e.1 hm (sym (h e.0) ∙ here)).3,
  same_length l (without e.0 m) hl.1 (IsDistinct-without e.0 m hm) rest,
)
  where
    here : lookup e.0 (e ∷ l) ≡ some e.1
    here = if_pos (key_dec e.0 e.0) refl _ _

    rest : (k : CacheKey) → lookup k l ≡ lookup k (without e.0 m)
    rest k = ground (arith, h k, Assoc.get-remove key_dec e.0 k m, none_of_fresh e.0 l hl.0)

-- The loop stops at once where the order fits.
pub evict_loop_fits :
    (fuel : ℕ) (c : PageCache) → length c.order ≤ c.capacity → evict_loop fuel c ≡ c
unfolding evict_loop
evict_loop_fits zero c h = refl
evict_loop_fits (suc fuel) c h = ground arith

pub loop_step :
    (fuel : ℕ) (c : PageCache)
    → c.capacity < length c.order
    → evict_loop (suc fuel) c ≡ evict_loop fuel (evict_oldest (pop_back c.order) c)
unfolding evict_loop
loop_step fuel c h = ground arith

pub evict_one :
    (n : ℕ) (c : PageCache) (order : List CacheKey) (last : CacheKey)
    → c.capacity ≡ n
    → length c.order ≡ suc n
    → pop_back c.order ≡ some (order, last)
    → length order ≡ n
    → evict c ≡ record c { order = order; entries = Assoc.remove key_dec last c.entries }
unfolding evict evict_oldest
evict_one n c order last s o p l =
    ap (λ i. evict_loop i c) o
    ∙ loop_step n c (omega arith)
    ∙ ap (λ x. evict_loop n (evict_oldest x c)) p
    ∙ evict_loop_fits n (record c { order = order; entries = Assoc.remove key_dec last c.entries })
        (omega arith)

pub evict-Refines_one :
    (n : ℕ) (c : PageCache) (x : CacheKey × RenderedPage) (l : Recent)
    → c.capacity ≡ n
    → c.order ≡ keys (x ∷ l)
    → ((j : CacheKey) → Assoc.get key_dec j c.entries ≡ lookup j (x ∷ l))
    → IsDistinct (x ∷ l)
    → IsDistinct c.entries
    → length l ≡ n
    → 1 ≤ n
    → Refines n (evict c) (take n (x ∷ l))
evict-Refines_one n c x l s o e d m b q =
    let r = pop_back-keys x l d in
    subst (λ i. Refines n (evict c) (take i (x ∷ l))) b
      (subst (λ y. Refines n y (take (length l) (x ∷ l)))
        (sym (
          evict_one n c (keys (take (length l) (x ∷ l))) r.0 s
            (ap length o ∙ ap suc (length-map (λ y. y.0) l ∙ b)) (ap pop_back o ∙ r.1)
            (length-map (λ y. y.0) (take (length l) (x ∷ l))
              ∙ omega (arith, length-take (length l) (x ∷ l)))))
        (record {
          sized = s;
          ordered = refl;
          holds = λ j.
              Assoc.get-remove key_dec r.0 j c.entries
              ∙ ap (ite (key_dec r.0 j) none) (e j)
              ∙ r.2 j;
          distinct = IsDistinct-take (length l) (x ∷ l) d;
          separate = IsDistinct-without r.0 c.entries m;
          bounded = omega (arith, length-take (length l) (x ∷ l));
          positive = q;
        }))

pub evict-Refines_fits :
    (n : ℕ) (c : PageCache) (l : Recent) → Refines n c l → Refines n (evict c) (take n l)
unfolding evict
evict-Refines_fits n c l r =
    subst (λ y. Refines n y (take n l))
      (sym (
        evict_loop_fits (length c.order) c
          (omega (arith, r.sized, ap length r.ordered, length-map (λ y. y.0) l, r.bounded))))
      (subst (Refines n c) (sym (take_all n l r.bounded)) r)

-- What is dropped from a list that is one too long is its last key.
pub evict-Refines :
    (n : ℕ) (c : PageCache) (x : CacheKey × RenderedPage) (l : Recent)
    → c.capacity ≡ n
    → c.order ≡ keys (x ∷ l)
    → ((j : CacheKey) → Assoc.get key_dec j c.entries ≡ lookup j (x ∷ l))
    → IsDistinct (x ∷ l)
    → IsDistinct c.entries
    → length l ≤ n
    → 1 ≤ n
    → Refines n (evict c) (take n (x ∷ l))
evict-Refines n c x l s o e d m b q = elim (split n (length l) b) [
  | inl h ↦ evict-Refines_one n c x l s o e d m h q
  | inr h ↦ evict-Refines_fits n c (x ∷ l) (record {
    sized = s;
    ordered = o;
    holds = e;
    distinct = d;
    separate = m;
    bounded = h;
    positive = q;
  })
]
  where
    split : (i j : ℕ) → j ≤ i → (j ≡ i) ⊎ (suc j ≤ i)
    split i j h = ground arith
