-- ===== src/Ooxml/Archive.antt =====
-- The caps on ZIP containers (crates/renderer-ooxml/src/container.rs). An archive is what the zip
-- package reads of it: its members in order, each with the sizes that it declares and with what
-- decompressing it yields. The sizes are 64-bit numbers.
pub mod Totals
use doc_bunker.Prelude.{
  ℕ, zero, suc, ◌+◌, ◌*◌, ◌^◌, ◌%◌, ◌-◌, min, ◌||◌, ◌&&◌, not, Bool, true, false, Option, none,
  some, List, [], ◌∷◌, ltb, leb, ◌==◌, if◌then◌else◌, Result, ok, err, ok_or, ◌>>=◌, ◌>>◌, length,
  take, get_elem?, usize_max, checked_add, Text, text_eq,
}
use doc_bunker.RendererApi.Error.{RenderError, invalid_document, resource_limit_exceeded}
use doc_bunker.RendererApi.Limits.{max_document_size, validate_document_size}

abbrev pub max_zip_entries : ℕ
max_zip_entries = 1024

abbrev pub max_entry_uncompressed : ℕ
max_entry_uncompressed = 16 * 1024 * 1024

abbrev pub max_total_uncompressed : ℕ
max_total_uncompressed = max_document_size

abbrev pub max_compression_ratio : ℕ
max_compression_ratio = 1000

abbrev pub ratio_slack : ℕ
ratio_slack = 64

-- `by_index` fails on a member that does not open. The bytes are none where decompression fails
-- before the cap of a read.
pub record Member : Type 0 where
  pub opens : Bool
  pub name : Text
  pub compressed : ℕ
  pub uncompressed : ℕ
  pub content : Option (List ℕ)

abbrev pub Archive : Type 0
Archive = List Member

-- `saturating_mul`, and a sum that wraps round in a release build.
unfoldable pub ratio_allowed : ℕ → ℕ → Bool
ratio_allowed compressed uncompressed =
    leb uncompressed ((min (compressed * max_compression_ratio) usize_max + ratio_slack) % 2 ^ 64)

-- Bytes that come on top of a total.
unfoldable pub charge : ℕ → ℕ → Result RenderError ℕ
charge total size = do
  next_total ← ok_or resource_limit_exceeded (checked_add total size)
  if ltb max_total_uncompressed next_total then err resource_limit_exceeded else ok next_total

unfoldable pub entry_within_caps : ℕ → ℕ → ℕ → Result RenderError (Unit {0})
entry_within_caps compressed uncompressed total =
    if ltb max_entry_uncompressed uncompressed
    then err resource_limit_exceeded
    else if not (ratio_allowed compressed uncompressed)
    then err resource_limit_exceeded
    else charge total uncompressed >>= λ _. ok tt

-- `ZipArchive::new` is none where the bytes are no archive.
unfoldable pub open_archive : (List ℕ → Option Archive) → List ℕ → Result RenderError Archive
open_archive zip bytes = do
  validate_document_size bytes
  archive ← ok_or invalid_document (zip bytes)
  if length archive == 0 || ltb max_zip_entries (length archive)
      then err resource_limit_exceeded
      else ok archive

-- The tests of what was read.
unfoldable pub accept : ℕ → List ℕ → ℕ → Result RenderError (List ℕ × ℕ)
accept compressed bytes total =
    if ltb max_entry_uncompressed (length bytes)
    then err resource_limit_exceeded
    else if not (ratio_allowed compressed (length bytes))
    then err resource_limit_exceeded
    else charge total (length bytes) >>= λ next_total. ok (bytes, next_total)

-- `entry.take(cap + 1).read_to_end`
unfoldable pub read_member : Member → ℕ → Result RenderError (List ℕ × ℕ)
read_member m total = do
  entry_within_caps m.compressed m.uncompressed 0
  content ← ok_or invalid_document m.content
  accept m.compressed (take (max_entry_uncompressed + 1) content) total

unfoldable pub openable : Member → Result RenderError (Unit {0})
openable m = if m.opens then ok tt else err invalid_document

-- `by_index`
unfoldable pub by_index : Archive → ℕ → Result RenderError Member
by_index archive index = do m ← ok_or invalid_document (get_elem? archive index); openable m; ok m

-- The bytes of the member at an index, and the total after it.
unfoldable pub read_entry_bounded_total : Archive → ℕ → ℕ → Result RenderError (List ℕ × ℕ)
read_entry_bounded_total archive index total = do m ← by_index archive index; read_member m total

unfoldable pub read_entry_bounded : Archive → ℕ → Result RenderError (List ℕ)
read_entry_bounded archive index = do
  (bytes, total) ← read_entry_bounded_total archive index 0
  ok bytes

unfoldable pub find_entry : Archive → Text → Option ℕ
find_entry [] name = none
find_entry (m ∷ archive) name = elim (m.opens && text_eq m.name name) [
  | true ↦ some 0
  | false ↦ elim (find_entry archive name) [ none ↦ none | some i ↦ some (suc i) ]
]
