-- ===== src/Core/Cache/Refinement.antt =====
-- crates/core/src/cache.rs: the operations of `PageCache` against the ideal list of recently used
-- pages.
use doc_bunker.Prelude.{
  ℕ, ◌≤◌, ◌≡◌, refl, ap, sym, ◌∙◌, not, Option, none, some, [], ◌∷◌, ◌==◌, if◌then◌else◌, length,
  arith, max,
}
use doc_bunker.Prelude.Assoc
use mathlib.Core.Logic.{ite, if_pos, if_neg}
use mathlib.Core.Path.{subst}
use doc_bunker.RendererApi.Types.{RenderedPage}
use doc_bunker.Core.Cache.{
  CacheKey, key_dec, PageCache, new, position, retain, promote, touch, found, get, store, put,
  remove_document, len,
}
use doc_bunker.Core.Cache.Recency.{
  Recent, keys, lookup, without, IsDistinct, use_key, insert_page, forget, without_fresh,
  IsFresh-of_none, IsFresh-without_self, IsDistinct-without, position-keys,
}
use doc_bunker.Core.Cache.Eviction.{Refines, take_all, evict-Refines, same_length}
use doc_bunker.Core.Cache.Retention.{retain-keys, IsDistinct-retain, length-retain, lookup-retain}

pub new-Refines : (capacity : ℕ) → Refines (max capacity 1) (new capacity) []
unfolding new Assoc.get
new-Refines capacity = record {
  sized = refl;
  ordered = refl;
  holds = λ k. refl;
  distinct = tt;
  separate = tt;
  bounded = omega arith;
  positive = omega arith;
}

abbrev pub touched : CacheKey → Option RenderedPage → Recent → Recent
touched k none l = l
touched k (some p) l = use_key k p l

touch_order :
    (k : CacheKey) (p q : RenderedPage) (c : PageCache) (l : Recent)
    → c.order ≡ keys l
    → IsDistinct l
    → lookup k l ≡ some q
    → (touch k c).order ≡ keys (use_key k p l)
unfolding touch promote
touch_order k p q c l o d h =
    let r = position-keys k l q d h in
    ap (λ x. promote k (position k x) x) o ∙ ap (λ x. promote k x (keys l)) r.1 ∙ ap (◌∷◌ k) r.2

-- A key that is present is used: its page may change, the other pages stay.
refreshed :
    (n : ℕ) (k : CacheKey) (p q : RenderedPage) (c : PageCache) (l : Recent) (m : Recent)
    → Refines n c l
    → lookup k l ≡ some q
    → IsDistinct m
    → ((j : CacheKey) → lookup j m ≡ lookup j (use_key k p l))
    → Refines n (touch k (record c { entries = m })) (use_key k p l)
unfolding touch
refreshed n k p q c l m r h d e = record {
  sized = r.sized;
  ordered = touch_order k p q (record c { entries = m }) l r.ordered r.distinct h;
  holds = e;
  distinct = (IsFresh-without_self k l, IsDistinct-without k l r.distinct);
  separate = d;
  bounded = omega (arith, r.bounded, (position-keys k l q r.distinct h).3);
  positive = r.positive;
}

lookup-use_key :
    (k j : CacheKey) (p : RenderedPage) (l : Recent)
    → lookup j (use_key k p l) ≡ ite (key_dec k j) (some p) (lookup j l)
unfolding Assoc.insert
lookup-use_key k j p l = Assoc.get-insert key_dec k j p l

lookup-use_key_same :
    (k j : CacheKey) (p : RenderedPage) (l : Recent)
    → lookup k l ≡ some p
    → lookup j l ≡ lookup j (use_key k p l)
lookup-use_key_same k j p l h = elim (key_dec k j) [
  | yes e ↦
      subst (λ x. lookup x l ≡ some p) e h
      ∙ sym (lookup-use_key k j p l ∙ if_pos (key_dec k j) e _ (lookup j l))
  | no e ↦ sym (lookup-use_key k j p l ∙ if_neg (key_dec k j) e (some p) _)
]

got :
    (n : ℕ) (k : CacheKey) (c : PageCache) (l : Recent) (o : Option RenderedPage)
    → Refines n c l
    → lookup k l ≡ o
    → ((found k o c).0 ≡ o) × Refines n (found k o c).1 (touched k o l)
unfolding found touch
got n k c l none r h = (refl, r)
got n k c l (some p) r h = (
  r.holds k ∙ h,
  refreshed n k p p c l c.entries r h r.separate (λ j. r.holds j ∙ lookup-use_key_same k j p l h),
)

-- On a cache that implements an ideal list, `get` answers with the page that the list has under
-- the key, if any, and leaves a cache that implements the list with that key moved to the front.
pub get-Refines :
    (n : ℕ) (k : CacheKey) (c : PageCache) (l : Recent)
    → Refines n c l
    → ((get k c).0 ≡ lookup k l) × Refines n (get k c).1 (touched k (lookup k l) l)
unfolding get
get-Refines n k c l r =
    subst
      (λ o. ((found k o c).0 ≡ lookup k l) × Refines n (found k o c).1 (touched k (lookup k l) l))
      (sym (r.holds k)) (got n k c l (lookup k l) r refl)

inserted :
    (n : ℕ) (k : CacheKey) (p : RenderedPage) (c : PageCache) (l : Recent)
    → Refines n c l
    → (j : CacheKey) → lookup j (Assoc.insert key_dec k p c.entries) ≡ lookup j (use_key k p l)
inserted n k p c l r j =
    Assoc.get-insert key_dec k j p c.entries
    ∙ ap (ite (key_dec k j) (some p)) (r.holds j)
    ∙ sym (lookup-use_key k j p l)

stored :
    (n : ℕ) (k : CacheKey) (p : RenderedPage) (c : PageCache) (l : Recent) (o : Option RenderedPage)
    → Refines n c l
    → lookup k l ≡ o
    → Refines n (store k p o c) (insert_page n k p l)
unfolding store Assoc.insert
stored n k p c l none r h =
    evict-Refines n (record c { entries = Assoc.insert key_dec k p c.entries; order = k ∷ c.order })
      (k, p) (without k l) r.sized
      (ap (◌∷◌ k) (r.ordered ∙ ap keys (sym (without_fresh k l (IsFresh-of_none k l h)))))
      (inserted n k p c l r) (IsFresh-without_self k l, IsDistinct-without k l r.distinct)
      (IsFresh-without_self k c.entries, IsDistinct-without k c.entries r.separate)
      (omega (arith, r.bounded, ap length (without_fresh k l (IsFresh-of_none k l h)))) r.positive
stored n k p c l (some q) r h =
    subst (Refines n _)
      (sym (
        take_all n (use_key k p l)
          (omega (arith, r.bounded, (position-keys k l q r.distinct h).3))))
      (refreshed n k p q c l (Assoc.insert key_dec k p c.entries) r h
        (IsFresh-without_self k c.entries, IsDistinct-without k c.entries r.separate)
        (inserted n k p c l r))

-- On a cache that implements an ideal list of recently used pages, `put` leaves one that
-- implements the list with the page at its front, cut to the capacity: an older page of that key
-- is replaced, and what is evicted is the least recently used page.
pub put-Refines :
    (n : ℕ) (k : CacheKey) (p : RenderedPage) (c : PageCache) (l : Recent)
    → Refines n c l
    → Refines n (put k p c) (insert_page n k p l)
unfolding put
put-Refines n k p c l r =
    subst (λ o. Refines n (store k p o c) (insert_page n k p l)) (sym (r.holds k))
      (stored n k p c l (lookup k l) r refl)

-- On a cache that implements an ideal list, `remove_document` leaves one that implements the list
-- without the pages of that document, in the same order.
pub remove_document-Refines :
    (n : ℕ) (document : ℕ) (c : PageCache) (l : Recent)
    → Refines n c l
    → Refines n (remove_document document c) (forget document l)
unfolding remove_document
remove_document-Refines n document c l r = record {
  sized = r.sized;
  ordered = ap (retain _) r.ordered ∙ retain-keys _ l;
  holds = λ j.
      lookup-retain (λ k. not (k.document == document)) j c.entries
      ∙ ap (λ o. if not (j.document == document) then o else none) (r.holds j)
      ∙ sym (lookup-retain (λ k. not (k.document == document)) j l);
  distinct = IsDistinct-retain _ l r.distinct;
  separate = IsDistinct-retain _ c.entries r.separate;
  bounded = omega (arith, r.bounded, length-retain (λ e. not (e.0.document == document)) l);
  positive = r.positive;
}

-- A cache that implements an ideal list holds as many entries as the list, and no more than its
-- capacity.
pub len-Refines :
    (n : ℕ) (c : PageCache) (l : Recent) → Refines n c l → (len c ≡ length l) × (len c ≤ n)
len-Refines n c l r =
    let e = same_length c.entries l r.separate r.distinct r.holds in
    (e, omega (arith, e, r.bounded))
