-- ===== src/RendererApi/Detect.antt =====
-- Detection of a document's format (crates/renderer-api/src/format.rs). The `zip` package is the
-- parameter `archive`: none where the archive does not open, else one value for each entry, none
-- where the entry cannot be read and its name elsewhere.
pub mod Exact
mod Tests
use doc_bunker.Prelude.{
  ℕ, Option, none, some, List, [], ◌∷◌, ◌++◌, Bool, true, false, ◌&&◌, ◌||◌, map, ltb, ◌==◌,
  if◌then◌else◌, length, take, drop, Text, codes, text_eq, starts_with, to_ascii_lowercase,
}
use doc_bunker.RendererApi.Limits.{max_document_size}
use doc_bunker.RendererApi.Types.{
  DocumentFormat, unknown, pdf, png, jpeg, webp, ooxml, gif, tiff, bmp, epub, rtf, html,
}

abbrev pub png_signature : List ℕ
png_signature = 0x89 ∷ b'P' ∷ b'N' ∷ b'G' ∷ 0x0D ∷ 0x0A ∷ 0x1A ∷ 0x0A ∷ []

unfoldable pub first_ascii_lower : List ℕ → ℕ → List ℕ
unfolding to_ascii_lowercase
first_ascii_lower bytes n = map to_ascii_lowercase (take n bytes)

unfoldable pub is_content_types : Text → Bool
unfolding text_eq
is_content_types = text_eq (codes "[Content_Types].xml")

unfoldable pub is_container : Text → Bool
unfolding text_eq
is_container name = text_eq (codes "META-INF/container.xml") name || text_eq (codes "mimetype") name

abbrev pub zip_outcome : Bool → Bool → DocumentFormat
zip_outcome has_content_types has_container =
    if has_content_types then ooxml else if has_container then epub else unknown

-- The loop over the entries, with its two flags.
unfoldable pub scan_names : Bool → Bool → List (Option Text) → DocumentFormat
scan_names has_content_types has_container [] = zip_outcome has_content_types has_container
scan_names has_content_types has_container (none ∷ entries) = unknown
scan_names has_content_types has_container (some name ∷ entries) =
    let types = has_content_types || is_content_types name in
    let container = has_container || is_container name in
    let rest = scan_names types container entries in if types && container then ooxml else rest

unfoldable pub zip_entries : Option (List (Option Text)) → DocumentFormat
zip_entries none = unknown
zip_entries (some entries) =
    if length entries == 0 || ltb 1024 (length entries)
    then unknown
    else scan_names false false entries

module _ (archive : List ℕ → Option (List (Option Text))) where
  unfoldable pub zip_kind : List ℕ → DocumentFormat
  unfolding zip_entries
  zip_kind bytes =
      if ltb max_document_size (length bytes) then unknown else zip_entries (archive bytes)

  unfoldable pub detect : List ℕ → DocumentFormat
  detect bytes =
      if ltb (length bytes) 8
      then unknown
      else if starts_with (codes "%PDF-") bytes
      then pdf
      else if starts_with png_signature bytes
      then png
      else if starts_with (0xFF ∷ 0xD8 ∷ []) bytes
      then jpeg
      else if starts_with (codes "RIFF") bytes && text_eq (codes "WEBP") (take 4 (drop 8 bytes))
      then webp
      else if starts_with (codes "GIF87a") bytes || starts_with (codes "GIF89a") bytes
      then gif
      else if starts_with (codes "II*" ++ 0 ∷ []) bytes
          || starts_with (codes "MM" ++ 0 ∷ b'*' ∷ []) bytes
      then tiff
      else if starts_with (codes "BM") bytes
      then bmp
      else if starts_with (codes "{\\rtf") bytes
      then rtf
      else let lower = first_ascii_lower bytes 32 in
        if starts_with (codes "<html") lower || starts_with (codes "<!doctype html") lower
        then html
        else if starts_with (codes "PK" ++ 3 ∷ 4 ∷ []) bytes
        then zip_kind bytes
        else unknown
