-- ===== src/Protocol/Stream/Filling.antt =====
-- The reading loops of crates/protocol/src/framing.rs on clean streams and on any stream.
use doc_bunker.Prelude.{
  ℕ, zero, suc, ◌+◌, ◌-◌, ◌≤◌, ◌<◌, ◌≡◌, refl, sym, ap, ◌∙◌, Option, some, List, [], ◌∷◌, ◌++◌,
  arith, length, take, drop, All, length-append, take-append-drop, length-take, length-drop, ◌≢◌,
}
use native.Mathlib.Decide.{dec_lt}
use mathlib.Core.List.{append_assoc, append-nil}
use doc_bunker.Protocol.Error.{IoError, interrupted}
use doc_bunker.Protocol.Stream.{
  Event, chunk, failure, Filled, full, eof, fault, fill, IsClean, content,
}

take_all {ℓ} : {A : Type ℓ} (n : ℕ) (xs : List A) → length xs ≤ n → take n xs ≡ xs
take_all zero [] h = refl
take_all zero (x ∷ xs) h = absurd (omega arith)
take_all (suc n) [] h = refl
take_all (suc n) (x ∷ xs) h = ap (◌∷◌ x) (take_all n xs (omega arith))

pub take_front {ℓ} : {A : Type ℓ} (n : ℕ) (xs ys : List A) → n ≡ length xs → take n (xs ++ ys) ≡ xs
take_front zero [] ys h = refl
take_front zero (x ∷ xs) ys h = absurd (omega arith)
take_front (suc n) [] ys h = absurd (omega arith)
take_front (suc n) (x ∷ xs) ys h = ap (◌∷◌ x) (take_front n xs ys (omega arith))

pub drop_front {ℓ} : {A : Type ℓ} (n : ℕ) (xs ys : List A) → n ≡ length xs → drop n (xs ++ ys) ≡ ys
drop_front zero [] ys h = refl
drop_front zero (x ∷ xs) ys h = absurd (omega arith)
drop_front (suc n) [] ys h = absurd (omega arith)
drop_front (suc n) (x ∷ xs) ys h = drop_front n xs ys (omega arith)

fill_done :
    (fuel need : ℕ) (acc : List ℕ) (s : List Event)
    → need ≤ length acc
    → fill (suc fuel) need acc s ≡ some (full acc, s)
unfolding fill
fill_done fuel need acc s h = ground arith

fill_again :
    (fuel need : ℕ) (acc : List ℕ) (s : List Event)
    → length acc < need
    → fill (suc fuel) need acc (failure interrupted ∷ s) ≡ fill fuel need acc s
unfolding fill
fill_again fuel need acc s h = ground arith

fill_end :
    (fuel need : ℕ) (acc : List ℕ)
    → length acc < need
    → fill (suc fuel) need acc [] ≡ some (eof acc, [])
unfolding fill
fill_end fuel need acc h = ground arith

-- A whole chunk is taken.
fill_whole :
    (fuel need b : ℕ) (acc bs : List ℕ) (s : List Event)
    → length acc + suc (length bs) ≤ need
    → fill (suc fuel) need acc (chunk (b ∷ bs) ∷ s) ≡ fill fuel need (acc ++ (b ∷ bs)) s
unfolding fill
fill_whole fuel need b acc bs s h =
    let k = need - length acc - 1 in
    let e : need - length acc ≡ suc k = omega arith in rw e (ground (arith, take_all k bs))

-- A chunk is split, and the buffer is full.
fill_split :
    (fuel need k b : ℕ) (acc bs : List ℕ) (s : List Event)
    → need ≡ length acc + suc k
    → k < length bs
    → fill (suc fuel) need acc (chunk (b ∷ bs) ∷ s)
      ≡ fill fuel need (acc ++ (b ∷ take k bs)) (chunk (drop k bs) ∷ s)
unfolding fill
fill_split fuel need k b acc bs s e h =
    let m : need - length acc ≡ suc k = omega arith in rw m (ground arith)

-- What a call of `fill` has reached: the buffer and the bytes still to come make up `all`.
abbrev pub Splits : ℕ → List ℕ → Option (Filled × List Event) → Type 0
Splits need all r =
    (s' : List Event) × (r ≡ some (full (take need all), s'))
    × All IsClean s'
    × (content s' ≡ drop need all)

Splits-done :
    (fuel need : ℕ) (acc : List ℕ) (s : List Event) (all : List ℕ)
    → 0 < fuel
    → all ≡ acc ++ content s
    → need ≡ length acc
    → All IsClean s
    → Splits need all (fill fuel need acc s)
Splits-done zero need acc s all f e n c = absurd (omega arith)
Splits-done (suc fuel) need acc s all f e n c = (
  s,
  fill_done fuel need acc s (omega arith) ∙ rw e (rw (take_front need acc (content s) n)),
  c,
  rw e (rw (drop_front need acc (content s) n)),
)

chunk_rest : (k : ℕ) (bs rest : List ℕ) → take k bs ++ (drop k bs ++ rest) ≡ bs ++ rest
chunk_rest k bs rest =
    sym (append_assoc (take k bs) (drop k bs) rest) ∙ ap (λ t. t ++ rest) (take-append-drop k bs)

drop_nonempty : (k : ℕ) (bs : List ℕ) → k < length bs → drop k bs ≢ []
drop_nonempty k bs h e = omega (arith, length-drop k bs, ap length e)

pub fill_full :
    (fuel need : ℕ) (acc : List ℕ) (s : List Event) (all : List ℕ)
    → all ≡ acc ++ content s
    → length s + 2 ≤ fuel
    → length acc ≤ need
    → need ≤ length all
    → All IsClean s
    → Splits need all (fill fuel need acc s)
fill_full zero need acc s all e f a n c = absurd (omega arith)
fill_full (suc fuel) need acc [] all e f a n c =
    Splits-done (suc fuel) need acc [] all (omega arith) e
      (omega (arith, length-append acc [], ap length e)) c
fill_full (suc fuel) need acc (failure x ∷ s) all e f a n c = elim (dec_lt (length acc) need) [
  | no p ↦ Splits-done (suc fuel) need acc _ all (omega arith) e (omega arith) c
  | yes p ↦
      let same =
        ap (λ y. fill (suc fuel) need acc (failure y ∷ s)) c.0 ∙ fill_again fuel need acc s p in
      rw same (fill_full fuel need acc s all e (omega arith) a n c.1)
]
fill_full (suc fuel) need acc (chunk [] ∷ s) all e f a n c = absurd (c.0 refl)
fill_full (suc fuel) need acc (chunk (b ∷ bs) ∷ s) all e f a n c = elim (dec_lt (length acc) need) [
  | no p ↦ Splits-done (suc fuel) need acc _ all (omega arith) e (omega arith) c
  | yes p ↦ elim (dec_lt need (length acc + suc (length bs))) [
    | no q ↦ rw (fill_whole fuel need b acc bs s (omega arith)) (
        fill_full fuel need (acc ++ (b ∷ bs)) s all
          (e ∙ sym (append_assoc acc (b ∷ bs) (content s))) (omega arith)
          (omega (arith, length-append acc (b ∷ bs))) n c.1)
    | yes q ↦
        let k = need - length acc - 1 in
        let shown = acc ++ (b ∷ take k bs) in
        rw (fill_split fuel need k b acc bs s (omega arith) (omega arith)) (
          Splits-done fuel need shown (chunk (drop k bs) ∷ s) all (omega arith)
            (e
              ∙ ap (λ t. acc ++ (b ∷ t)) (sym (chunk_rest k bs (content s)))
              ∙ sym (append_assoc acc (b ∷ take k bs) (drop k bs ++ content s)))
            (omega (arith, length-append acc (b ∷ take k bs), length-take k bs))
            (drop_nonempty k bs (omega arith), c.1))
  ]
]

-- Where the stream ends too early, `fill` returns all of its bytes.
pub fill_eof :
    (fuel need : ℕ) (acc : List ℕ) (s : List Event)
    → length s + 2 ≤ fuel
    → length (acc ++ content s) < need
    → All IsClean s
    → fill fuel need acc s ≡ some (eof (acc ++ content s), [])
fill_eof zero need acc s f n c = absurd (omega arith)
fill_eof (suc fuel) need acc [] f n c = rw append-nil (fill_end fuel need acc (rw append-nil at n))
fill_eof (suc fuel) need acc (failure x ∷ s) f n c =
    ap (λ y. fill (suc fuel) need acc (failure y ∷ s)) c.0
    ∙ fill_again fuel need acc s (omega (arith, length-append acc (content s)))
    ∙ fill_eof fuel need acc s (omega arith) n c.1
fill_eof (suc fuel) need acc (chunk [] ∷ s) f n c = absurd (c.0 refl)
fill_eof (suc fuel) need acc (chunk (b ∷ bs) ∷ s) f n c =
    fill_whole fuel need b acc bs s
      (omega (arith, length-append acc ((b ∷ bs) ++ content s), length-append bs (content s)))
    ∙ (rw (← append_assoc acc (b ∷ bs) (content s)) (
        fill_eof fuel need (acc ++ (b ∷ bs)) s (omega arith)
          (rw (append_assoc acc (b ∷ bs) (content s)) n) c.1))

fill_fault :
    (fuel need : ℕ) (acc : List ℕ) (e : IoError) (s : List Event)
    → length acc < need
    → e ≢ interrupted
    → fill (suc fuel) need acc (failure e ∷ s) ≡ some (fault e, s)
unfolding fill
fill_fault fuel need acc interrupted s h k = absurd (k refl)
fill_fault fuel need acc _ s h k = ground arith

fill_empty :
    (fuel need : ℕ) (acc : List ℕ) (s : List Event)
    → length acc < need
    → fill (suc fuel) need acc (chunk [] ∷ s) ≡ some (eof acc, s)
unfolding fill
fill_empty fuel need acc s h =
    let k = need - length acc - 1 in
    let m : need - length acc ≡ suc k = omega arith in rw m (ground arith)

abbrev Ends : Option (Filled × List Event) → Type 0
Ends r = (end : Filled × List Event) × (r ≡ some end)

fill_total_step :
    (fuel need : ℕ) (acc : List ℕ) (s : List Event)
    → length s + 2 ≤ suc fuel
    → length acc < need
    → ((acc' : List ℕ) (s' : List Event) → length s' + 2 ≤ fuel → Ends (fill fuel need acc' s'))
    → Ends (fill (suc fuel) need acc s)
fill_total_step fuel need acc [] f p again = (_, fill_end fuel need acc p)
fill_total_step fuel need acc (failure interrupted ∷ s) f p again =
    rw (fill_again fuel need acc s p) (again acc s (omega arith))
fill_total_step fuel need acc (failure e ∷ s) f p again =
    (_, fill_fault fuel need acc e s p (λ q. cc))
fill_total_step fuel need acc (chunk [] ∷ s) f p again = (_, fill_empty fuel need acc s p)
fill_total_step zero need acc (chunk (b ∷ bs) ∷ s) f p again = absurd (omega arith)
fill_total_step (suc fuel) need acc (chunk (b ∷ bs) ∷ s) f p again =
    elim (dec_lt need (length acc + suc (length bs))) [
      | no q ↦ rw (fill_whole (suc fuel) need b acc bs s (omega arith)) (again _ s (omega arith))
      | yes q ↦
          let k = need - length acc - 1 in
          rw (fill_split (suc fuel) need k b acc bs s (omega arith) (omega arith)) (
            _,
            fill_done fuel need (acc ++ (b ∷ take k bs)) _
                (omega (arith, length-append acc (b ∷ take k bs), length-take k bs)),
          )
    ]

-- On any stream, faulty or not, the loop ends: `enough` is enough fuel.
pub fill_total :
    (fuel need : ℕ) (acc : List ℕ) (s : List Event)
    → length s + 2 ≤ fuel
    → Ends (fill fuel need acc s)
fill_total zero need acc s f = absurd (omega arith)
fill_total (suc fuel) need acc s f = elim (dec_lt (length acc) need) [
  | no p ↦ (_, fill_done fuel need acc s (omega arith))
  | yes p ↦ fill_total_step fuel need acc s f p (λ acc' s' g. fill_total fuel need acc' s' g)
]
