-- ===== src/Sandbox/Region.antt =====
-- The shared page buffer on the host's side (`ShmRegion`, `read_exact_at` and `normalize_shm` of
-- crates/sandbox/src/process.rs). What a positional read of the file answers is a parameter: none
-- is an error, no bytes are the end of the file; more than the buffer holds are never read.
use doc_bunker.Prelude.{
  ℕ, zero, suc, ◌-◌, ◌≤◌, ◌<◌, ◌≡◌, refl, Option, none, some, List, [], ◌∷◌, ◌++◌, ◌||◌, arith, ltb,
  if◌then◌else◌, Result, ok, err, ◌>>=◌, ok_or, length, length-append, length-take, take, to_usize,
  Bool-cases, Option-cases, ltb→lt, inl, inr,
}
use doc_bunker.Protocol.Message.{PageRenderedResponse, Response, page_rendered}
use doc_bunker.Sandbox.Error.{SandboxError, internal}

pub record ShmRegion : Type 0 where
  -- `file.read_at(buffer, offset)`, the offset first and then the buffer's length
  pub read_at : ℕ → ℕ → Option (List ℕ)
  pub capacity : ℕ

-- One round of the loop, given the bytes that were read; the rest of the loop is `next`.
after_read :
    ℕ → List ℕ → Option (List ℕ) → (List ℕ → Option (Option (List ℕ))) → Option (Option (List ℕ))
after_read room done none next = some none
after_read room done (some bytes) next = elim (take room bytes) [
  | [] ↦ some none
  | b ∷ bs ↦ next (done ++ b ∷ bs)
]

-- `read_exact_at` at offset 0, with what is read so far. The outer none means that the fuel ran
-- out, the inner none is an error.
unfoldable pub read_exact_at : ShmRegion → ℕ → ℕ → List ℕ → Option (Option (List ℕ))
unfolding after_read
read_exact_at region zero len done = none
read_exact_at region (suc fuel) len done =
    let room = len - length done in
    let round =
      after_read room done (region.read_at (length done) room)
        (λ more. read_exact_at region fuel len more) in
    if ltb (length done) len then round else some (some done)

-- A read that ends, and fills the buffer unless it is an error.
abbrev Fills : ℕ → Option (Option (List ℕ)) → Type 0
Fills len none = ⊥
Fills len (some none) = Unit {0}
Fills len (some (some bytes)) = length bytes ≡ len

after_read-Fills :
    (len room : ℕ) (done : List ℕ) (read : Option (List ℕ))
    (next : List ℕ → Option (Option (List ℕ)))
    → room ≡ len - length done
    → length done < len
    → ((more : List ℕ) → length more ≤ len → length done < length more → Fills len (next more))
    → Fills len (after_read room done read next)
unfolding after_read
after_read-Fills len room done none next e h k = tt
after_read-Fills len room done (some bytes) next e h k =
    go (take room bytes) (omega (arith, length-take room bytes))
  where
    go :
        (bs : List ℕ)
        → length bs ≤ room
        → Fills len (elim bs [ [] ↦ some none | b ∷ bs ↦ next (done ++ b ∷ bs) ])
    go [] l = tt
    go (b ∷ bs) l =
        k (done ++ b ∷ bs) (omega (arith, length-append done (b ∷ bs)))
          (omega (arith, length-append done (b ∷ bs)))

-- Each round but the last reads a byte, so the fuel of `len + 1` rounds is enough.
read_exact_at-Fills :
    (region : ShmRegion) (fuel len : ℕ) (done : List ℕ)
    → length done ≤ len
    → len - length done < fuel
    → Fills len (read_exact_at region fuel len done)
unfolding read_exact_at
read_exact_at-Fills region zero len done h f = absurd (omega arith)
read_exact_at-Fills region (suc fuel) len done h f = elim (Bool-cases (ltb (length done) len)) [
  | inl more ↦ rw more (
      after_read-Fills len (len - length done) done
        (region.read_at (length done) (len - length done)) (λ m. read_exact_at region fuel len m)
        refl (ltb→lt _ _ more)
        (λ m a b.
          read_exact_at-Fills region fuel len m a (let less = ltb→lt _ _ more in omega arith)))
  | inr full ↦ rw full (ground arith)
]

-- `read_exact_at` with enough fuel; the loop has no other end than these two.
unfoldable pub read_region : ShmRegion → ℕ → Option (List ℕ)
unfolding read_exact_at
read_region region len = elim (read_exact_at region (suc len) len []) [ none ↦ none | some r ↦ r ]

flat :
    (len : ℕ) (r : Option (Option (List ℕ))) (bytes : List ℕ)
    → Fills len r
    → elim r [ none ↦ none | some r ↦ r ] ≡ some bytes
    → length bytes ≡ len
flat len none bytes f e = cc
flat len (some none) bytes f e = cc
flat len (some (some b)) bytes f e = ground arith

length-read_region :
    (region : ShmRegion) (len : ℕ) (bytes : List ℕ)
    → read_region region len ≡ some bytes
    → length bytes ≡ len
unfolding read_region
length-read_region region len bytes e =
    flat len (read_exact_at region (suc len) len []) bytes
      (read_exact_at-Fills region (suc len) len [] (omega arith) (omega arith)) e

restored : PageRenderedResponse → Option (List ℕ) → Result SandboxError Response
restored page none = err (internal "cannot read worker shm region")
restored page (some bytes) = ok (page_rendered (record page { shm_len = none; bytes = bytes }))

read_page : PageRenderedResponse → ShmRegion → ℕ → ℕ → Result SandboxError Response
unfolding restored
read_page page region max_pixel_buffer len =
    if ltb region.capacity len || ltb max_pixel_buffer len
    then err (internal "worker sent a shm page larger than negotiated")
    else restored page (if ltb 0 len then read_region region len else some [])

normalize_page :
    Option ShmRegion → ℕ → PageRenderedResponse → Option ℕ → Result SandboxError Response
unfolding read_page
normalize_page shm max_pixel_buffer page none = ok (page_rendered page)
normalize_page shm max_pixel_buffer page (some shm_len) = do
  region ← ok_or (internal "worker sent a shm page without a region") shm
  len ← ok_or (internal "shm length out of range") (to_usize shm_len)
  read_page page region max_pixel_buffer len

unfoldable pub normalize_shm : Option ShmRegion → ℕ → Response → Result SandboxError Response
unfolding normalize_page
normalize_shm shm max_pixel_buffer (page_rendered page) =
    normalize_page shm max_pixel_buffer page page.shm_len
normalize_shm shm max_pixel_buffer response = ok response

-- What the copy leaves in the response: the raster in the frame, of exactly the announced length,
-- which the region and the negotiated raster size bound.
pub record IsCopied (shm : Option ShmRegion) (max_pixel_buffer n : ℕ) (page : PageRenderedResponse)
    : Type 0 where
  pub region : ShmRegion
  pub present : shm ≡ some region
  pub in_frame : page.shm_len ≡ none
  pub filled : length page.bytes ≡ n
  pub in_region : n ≤ region.capacity
  pub in_limit : n ≤ max_pixel_buffer

length-chosen :
    (region : ShmRegion) (len : ℕ) (bytes : List ℕ)
    → (if ltb 0 len then read_region region len else some []) ≡ some bytes
    → length bytes ≡ len
length-chosen region zero bytes e = ground arith
length-chosen region (suc n) bytes e = length-read_region region (suc n) bytes (ground arith)

normalize_page-IsCopied :
    (region : ShmRegion) (m n : ℕ) (page : PageRenderedResponse) (response : Response)
    → normalize_page (some region) m page (some n) ≡ ok response
    → (copy : PageRenderedResponse) × (response ≡ page_rendered copy)
      × IsCopied (some region) m n copy
unfolding normalize_page
normalize_page-IsCopied region m n page response e =
    elim (Option-cases (if ltb 0 n then read_region region n else some [])) [
      | inl bad ↦ ground arith
      | inr (bytes, good) ↦ (
        record page { shm_len = none; bytes = bytes },
        ground arith,
        record {
          region = region;
          present = refl;
          in_frame = refl;
          filled = length-chosen region n bytes good;
          in_region = ground arith;
          in_limit = ground arith;
        },
      )
    ]

-- A page that announces a length in the shared region is passed on only with its raster copied
-- into the frame.
pub normalize_shm-IsCopied :
    (shm : Option ShmRegion) (max_pixel_buffer n : ℕ) (page : PageRenderedResponse)
    (response : Response)
    → page.shm_len ≡ some n
    → normalize_shm shm max_pixel_buffer (page_rendered page) ≡ ok response
    → (copy : PageRenderedResponse) × (response ≡ page_rendered copy)
      × IsCopied shm max_pixel_buffer n copy
unfolding normalize_shm
normalize_shm-IsCopied none m n page response l e =
    absurd (let e' = rw (l, normalize_page) at e in cc)
normalize_shm-IsCopied (some region) m n page response l e =
    normalize_page-IsCopied region m n page response (rw l at e)
