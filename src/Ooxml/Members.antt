-- ===== src/Ooxml/Members.antt =====
-- The members of an Office container that carry text or images: the first pass of `extract` in
-- crates/renderer-ooxml/src/text.rs.
use doc_bunker.Prelude.{
  ℕ, suc, ◌+◌, ◌*◌, min, not, ◌&&◌, ◌||◌, Bool, true, false, Option, none, some, List, [], ◌∷◌,
  ◌++◌, ltb, leb, ◌==◌, if◌then◌else◌, Result, ok, err, ◌>>=◌, ◌>>◌, Text, codes, text_eq, length,
  usize_max, any, starts_with, reverse,
}
use doc_bunker.Prelude.Scanning.{is_empty, split, strip_prefix, from_str_radix}
use doc_bunker.RendererApi.Error.{RenderError, invalid_document, resource_limit_exceeded}
use doc_bunker.Ooxml.Archive.{Member, openable, entry_within_caps}

abbrev pub max_embedded_images : ℕ
max_embedded_images = 64

abbrev pub max_embedded_media_bytes : ℕ
max_embedded_media_bytes = 16 * 1024 * 1024

-- `Path::file_name`: the last part that is neither empty nor a dot, unless it is two dots.
last_part : Option Text → List Text → Option Text
last_part found [] = found
last_part found (part ∷ parts) =
    last_part (if is_empty part || text_eq part (codes ".") then found else some part) parts

file_name : Text → Option Text
unfolding last_part
file_name name = elim (last_part none (split b'/' name)) [
  | none ↦ none
  | some part ↦ if text_eq part (codes "..") then none else some part
]

strip_suffix : Text → Text → Option Text
strip_suffix suffix t = elim (strip_prefix (reverse suffix) (reverse t)) [
  | none ↦ none
  | some rest ↦ some (reverse rest)
]

number_in : Option Text → Option ℕ
unfolding strip_suffix
number_in none = none
number_in (some behind) = elim (strip_suffix (codes ".xml") behind) [
  | none ↦ none
  | some digits ↦ from_str_radix usize_max 10 digits
]

unfoldable pub slide_number : Text → Option ℕ
unfolding number_in file_name
slide_number name = elim (file_name name) [
  | none ↦ none
  | some file ↦ number_in (strip_prefix (codes "slide") file)
]

-- `rsplit_once`: before and behind the last of a character.
rsplit_at : ℕ → Text → Option (Text × Text)
rsplit_at c [] = none
rsplit_at c (d ∷ t) = elim (rsplit_at c t) [
  | some (before, behind) ↦ some (d ∷ before, behind)
  | none ↦ if d == c then some ([], t) else none
]

-- `str::contains` and `str::ends_with`
contains : Text → Text → Bool
contains pattern [] = starts_with pattern []
contains pattern (c ∷ t) = starts_with pattern (c ∷ t) || contains pattern t

unfoldable pub ends_with : Text → Text → Bool
ends_with suffix t = starts_with (reverse suffix) (reverse t)

has_image_extension : Option (Text × Text) → Bool
has_image_extension none = false
has_image_extension (some (stem, extension)) =
    any (codes "png" ∷ codes "jpg" ∷ codes "jpeg" ∷ codes "webp" ∷ [])
      (λ known. text_eq extension known)

media_in : Option (Text × Text) → Bool
unfolding contains ends_with has_image_extension rsplit_at
media_in none = false
media_in (some (directory, file)) =
    (ends_with (codes "/media") directory || contains (codes "/media/") directory)
    && has_image_extension (rsplit_at b'.' file)

unfoldable pub is_media_member : Text → Bool
unfolding media_in rsplit_at
is_media_member name = media_in (rsplit_at b'/' name)

-- What the first pass over the members finds; places are indices into the archive.
pub record Found : Type 0 where
  pub document_part : Option ℕ
  pub slides : List (ℕ × ℕ)
  pub shared_strings : Option ℕ
  pub media_indices : List ℕ
  pub has_content_types : Bool
  pub declared_total : ℕ
  pub declared_media_bytes : ℕ

abbrev pub nothing_found : Found
nothing_found = record {
  document_part = none;
  slides = [];
  shared_strings = none;
  media_indices = [];
  has_content_types = false;
  declared_total = 0;
  declared_media_bytes = 0;
}

-- `saturating_add`
abbrev saturating_add : ℕ → ℕ → ℕ
saturating_add a b = min (a + b) usize_max

unfoldable pub note_media : ℕ → ℕ → Found → Result RenderError Found
note_media index uncompressed f =
    let bytes = saturating_add f.declared_media_bytes uncompressed in
    if leb max_embedded_images (length f.media_indices)
    then err resource_limit_exceeded
    else if ltb max_embedded_media_bytes bytes
    then err resource_limit_exceeded
    else ok
        (record f { declared_media_bytes = bytes; media_indices = f.media_indices ++ index ∷ [] })

unfoldable pub classify : Text → ℕ → ℕ → Found → Result RenderError Found
classify name index uncompressed f =
    if text_eq name (codes "[Content_Types].xml")
    then ok (record f { has_content_types = true })
    else if text_eq name (codes "word/document.xml")
    then ok (record f { document_part = some index })
    else elim (slide_number name) [
      | some slide ↦ ok (record f { slides = f.slides ++ (slide, index) ∷ [] })
      | none ↦
          if text_eq name (codes "xl/sharedStrings.xml")
          then ok (record f { shared_strings = some index })
          else if is_media_member name
          then note_media index uncompressed f
          else ok f
    ]

unfoldable pub scan_members : ℕ → List Member → Found → Result RenderError Found
scan_members index [] f = ok f
scan_members index (m ∷ members) f = do
  openable m
  entry_within_caps m.compressed m.uncompressed f.declared_total
  f' ←
      classify m.name index m.uncompressed
        (record f { declared_total = saturating_add f.declared_total m.uncompressed })
  scan_members (suc index) members f'

abbrev pub is_none : {A : Type 0} → Option A → Bool
is_none none = true
is_none (some a) = false

abbrev pub is_nil : {A : Type 0} → List A → Bool
is_nil [] = true
is_nil (a ∷ l) = false

-- A real Office container.
unfoldable pub check_office : Found → Result RenderError (Unit {0})
check_office f =
    if not f.has_content_types
      || (is_none f.document_part && is_nil f.slides && is_none f.shared_strings)
    then err invalid_document
    else ok tt
