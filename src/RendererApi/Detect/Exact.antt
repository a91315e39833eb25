-- ===== src/RendererApi/Detect/Exact.antt =====
-- The signatures one by one, whatever the order in which the code tests them.
use doc_bunker.Prelude.{
  ℕ, suc, ap, ◌<◌, ◌≤◌, ◌≡◌, ◌↔◌, Option, none, some, List, [], ◌∷◌, Bool, true, false, ◌&&◌, ◌||◌,
  map, arith, refl, length, take, drop, Text, codes, text_eq, starts_with, to_ascii_lowercase,
}
use doc_bunker.RendererApi.Types.{
  DocumentFormat, unknown, pdf, png, jpeg, webp, ooxml, gif, tiff, bmp, epub, rtf, html,
}
use doc_bunker.RendererApi.Detect.{
  png_signature, first_ascii_lower, is_content_types, is_container, zip_outcome, scan_names,
  zip_entries, zip_kind, detect,
}
use doc_bunker.RendererApi.Limits.{max_document_size}

-- What the bytes of each format that is no container look like.
abbrev pub signature : DocumentFormat → List ℕ → Bool
signature pdf bytes = starts_with (codes "%PDF-") bytes
signature png bytes = starts_with png_signature bytes
signature jpeg bytes = starts_with (0xFF ∷ 0xD8 ∷ []) bytes
signature webp bytes =
    starts_with (codes "RIFF") bytes && text_eq (codes "WEBP") (take 4 (drop 8 bytes))
signature gif bytes = starts_with (codes "GIF87a") bytes || starts_with (codes "GIF89a") bytes
signature tiff bytes =
    starts_with (0x49 ∷ 0x49 ∷ 0x2A ∷ 0 ∷ []) bytes
    || starts_with (0x4D ∷ 0x4D ∷ 0 ∷ 0x2A ∷ []) bytes
signature bmp bytes = starts_with (codes "BM") bytes
signature rtf bytes = starts_with (codes "{\\rtf") bytes
signature html bytes =
    starts_with (codes "<html") (first_ascii_lower bytes 32)
    || starts_with (codes "<!doctype html") (first_ascii_lower bytes 32)
signature f bytes = false

abbrev pub is_plain : DocumentFormat → Bool
is_plain unknown = false
is_plain ooxml = false
is_plain epub = false
is_plain f = true

-- A zip file is never taken for a plain format.
scan_names-is_plain :
    (t c : Bool) (entries : List (Option Text)) → is_plain (scan_names t c entries) ≡ false
unfolding scan_names
scan_names-is_plain t c [] = ground arith
scan_names-is_plain t c (none ∷ entries) = refl
scan_names-is_plain t c (some name ∷ entries) =
    ground
      (arith, scan_names-is_plain (t || is_content_types name) (c || is_container name) entries)

zip_entries-is_plain :
    (entries : Option (List (Option Text))) → is_plain (zip_entries entries) ≡ false
unfolding zip_entries
zip_entries-is_plain none = refl
zip_entries-is_plain (some entries) = ground (arith, scan_names-is_plain false false entries)

module _ (archive : List ℕ → Option (List (Option Text))) where
  zip_kind-is_plain : (bytes : List ℕ) → is_plain (zip_kind archive bytes) ≡ false
  unfolding zip_kind
  zip_kind-is_plain bytes = ground (arith, zip_entries-is_plain (archive bytes))

  detect_sound :
      (b : ℕ) (rest : List ℕ) (f : DocumentFormat)
      → is_plain f ≡ true
      → detect archive (b ∷ rest) ≡ f
      → (8 ≤ length (b ∷ rest)) × (signature f (b ∷ rest) ≡ true)
  unfolding detect
  detect_sound b rest pdf p e = ground (arith, zip_kind-is_plain (b ∷ rest))
  detect_sound b rest f p e = ground (arith, zip_kind-is_plain (b ∷ rest))

short : (f : DocumentFormat) → is_plain f ≡ true → unknown ≡ f → ⊥
short f p e = ground arith

starts_with-head : (c d : ℕ) (p t : Text) → starts_with (c ∷ p) (d ∷ t) ≡ true → d ≡ c
unfolding starts_with
starts_with-head c d p t h = ground arith

lower-head :
    (b : ℕ) (p t : Text) → starts_with (b'<' ∷ p) (first_ascii_lower (b ∷ t) 32) ≡ true → b ≡ b'<'
unfolding starts_with first_ascii_lower to_ascii_lowercase
lower-head b p t h = ground arith

module _ (archive : List ℕ → Option (List (Option Text))) where
  -- No two of the tests hold of the same bytes, since their first bytes differ.
  detect_complete :
      (b : ℕ) (rest : List ℕ) (f : DocumentFormat)
      → 8 ≤ length (b ∷ rest)
      → signature f (b ∷ rest) ≡ true
      → detect archive (b ∷ rest) ≡ f
  unfolding detect
  detect_complete b rest unknown l h = cc
  detect_complete b rest f l h = ground (
    arith,
    starts_with-head b'%' b (codes "PDF-") rest,
    starts_with-head 0x89 b (b'P' ∷ b'N' ∷ b'G' ∷ 0x0D ∷ 0x0A ∷ 0x1A ∷ 0x0A ∷ []) rest,
    starts_with-head 0xFF b (0xD8 ∷ []) rest,
    starts_with-head b'R' b (codes "IFF") rest,
    starts_with-head b'G' b (codes "IF87a") rest,
    starts_with-head b'G' b (codes "IF89a") rest,
    starts_with-head 0x49 b (0x49 ∷ 0x2A ∷ 0 ∷ []) rest,
    starts_with-head 0x4D b (0x4D ∷ 0 ∷ 0x2A ∷ []) rest,
    starts_with-head b'B' b (codes "M") rest,
    starts_with-head b'{' b (codes "\\rtf") rest,
    lower-head b (codes "html") rest,
    lower-head b (codes "!doctype html") rest,
  )

  -- A plain format is detected exactly when there are at least eight bytes and they carry that
  -- format's signature, whatever the order of the tests and whatever the zip package answers.
  pub detect_iff :
      (bytes : List ℕ) (f : DocumentFormat)
      → is_plain f ≡ true
      → (detect archive bytes ≡ f) ↔ ((8 ≤ length bytes) × (signature f bytes ≡ true))
  unfolding detect
  detect_iff [] f p = (λ e. absurd (short f p e), λ h. absurd (omega (arith, h.0)))
  detect_iff (b ∷ rest) f p =
      (λ e. detect_sound archive b rest f p e, λ h. detect_complete b rest f h.0 h.1)

pub any_name : (Text → Bool) → List Text → Bool
any_name test [] = false
any_name test (name ∷ names) = test name || any_name test names

abbrev pub readable : List Text → List (Option Text)
readable names = map (λ (n : Text). some n) names

scan_names_lem :
    (t c : Bool) (names : List Text)
    → scan_names t c (readable names)
      ≡ zip_outcome (t || any_name is_content_types names) (c || any_name is_container names)
unfolding scan_names any_name
scan_names_lem t c [] = ground arith
scan_names_lem t c (n ∷ names) =
    ground (arith, scan_names_lem (t || is_content_types n) (c || is_container n) names)

length-readable : (names : List Text) → length (readable names) ≡ length names
length-readable [] = refl
length-readable (n ∷ names) = ap suc (length-readable names)

-- For a container of 1 to 1024 readable entries within the document limit, the early return of the
-- scan changes nothing: the format is Ooxml where some name is that of the content types, else
-- Epub where some name is one of the two that a book has, else Unknown.
pub zip_kind_lem :
    (archive : List ℕ → Option (List (Option Text))) (bytes : List ℕ) (names : List Text)
    → length bytes ≤ max_document_size
    → archive bytes ≡ some (readable names)
    → 0 < length names
    → length names ≤ 1024
    → zip_kind archive bytes
      ≡ zip_outcome (any_name is_content_types names) (any_name is_container names)
unfolding zip_kind zip_entries
zip_kind_lem archive bytes names fits opened some_entry bounded =
    rw opened (ground (arith, length-readable names, scan_names_lem false false names))
