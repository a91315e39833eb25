-- ===== src/RendererApi/Detect/Tests.antt =====
-- Detection on a few signatures, and its theorems there.
use doc_bunker.Prelude.{
  ℕ, ◌≤◌, ◌≡◌, ◌↔◌, refl, true, Option, some, List, [], ◌∷◌, length, Text, codes, starts_with,
}
use doc_bunker.RendererApi.Types.{pdf, ooxml}
use doc_bunker.RendererApi.Detect.{
  first_ascii_lower, scan_names, detect, zip_kind, is_content_types, is_container,
}
use doc_bunker.RendererApi.Detect.Exact.{signature, readable, detect_iff}

-- A package that finds a book's entry and then that of an Office file in every archive.
abbrev names : List Text
names = codes "mimetype" ∷ codes "[Content_Types].xml" ∷ []

abbrev archive : List ℕ → Option (List (Option Text))
archive bytes = some (readable names)

abbrev local_header : List ℕ
local_header = b'P' ∷ b'K' ∷ 3 ∷ 4 ∷ 0 ∷ 0 ∷ 0 ∷ 0 ∷ []

office_detected : detect archive local_header ≡ ooxml
unfolding detect zip_kind starts_with first_ascii_lower scan_names is_content_types is_container
office_detected = refl

detect_iff_example :
    (detect archive (codes "%PDF-1.7") ≡ pdf)
    ↔ ((8 ≤ length (codes "%PDF-1.7")) × (signature pdf (codes "%PDF-1.7") ≡ true))
detect_iff_example = detect_iff archive (codes "%PDF-1.7") pdf refl
