-- ===== src/Ooxml/Office.antt =====
-- The text, table and media of an Office container: `extract` of crates/renderer-ooxml/src/text.rs.
-- The archive and the events of each part are what the zip and quick-xml packages read.
pub mod Parts
pub mod Within
use doc_bunker.Prelude.{
  ℕ, zero, suc, ◌+◌, ◌*◌, ◌^◌, ◌-◌, min, not, ◌&&◌, ◌||◌, Bool, true, false, Option, none, some,
  List, [], ◌∷◌, ◌++◌, ltb, leb, ◌==◌, if◌then◌else◌, Result, ok, err, ok_or, ◌>>=◌, ◌>>◌, Text,
  codes, text_eq, length, usize_max, checked_add, any, starts_with, reverse,
}
use doc_bunker.Prelude.Scanning.{is_empty, trim, split, strip_prefix, from_str_radix}
use doc_bunker.RendererApi.Error.{RenderError, invalid_document, resource_limit_exceeded}
use doc_bunker.Ooxml.Archive.{
  Member, Archive, open_archive, entry_within_caps, read_entry_bounded_total,
}
use doc_bunker.Ooxml.Markup.{XmlEvent, extract_part_xml}
use doc_bunker.Ooxml.Sheet.{extract_rows}
use doc_bunker.Ooxml.Members.{
  max_embedded_media_bytes, Found, nothing_found, scan_members, check_office, ends_with, is_none,
  is_nil,
}

pub record OoxmlText : Type 0 where
  pub pages : List (List Text)
  pub media : List (List ℕ)
  pub table : Option (List (List Text))

-- `sort_by_key`, which is stable.
insert_slide : ℕ × ℕ → List (ℕ × ℕ) → List (ℕ × ℕ)
insert_slide (n, i) [] = (n, i) ∷ []
insert_slide (n, i) ((m, j) ∷ slides) =
    let rest = insert_slide (n, i) slides in
    if leb n m then (n, i) ∷ (m, j) ∷ slides else (m, j) ∷ rest

unfoldable pub sort_slides : List (ℕ × ℕ) → List (ℕ × ℕ)
unfolding insert_slide
sort_slides [] = []
sort_slides (slide ∷ slides) = insert_slide slide (sort_slides slides)

-- The pages so far, whether text was cut, and the bytes decompressed so far.
pub record Reading : Type 0 where
  pub pages : List (List Text)
  pub truncated : Bool
  pub extracted_total : ℕ

module _ (xml : List ℕ → List XmlEvent) (archive : Archive) where
  -- A part: its lines behind those given, and the flag and total after it.
  unfoldable pub read_part : ℕ → Bool → ℕ → Result RenderError (List Text × Bool × ℕ)
  read_part index truncated total = do
    (bytes, next) ← read_entry_bounded_total archive index total
    (lines, truncated') ← extract_part_xml (xml bytes) [] truncated
    ok (lines, truncated', next)

  unfoldable pub read_page : ℕ → Reading → Result RenderError Reading
  read_page index r = do
    (lines, truncated, total) ← read_part index r.truncated r.extracted_total
    ok (record { pages = r.pages ++ lines ∷ []; truncated = truncated; extracted_total = total })

  unfoldable pub read_document : Option ℕ → Reading → Result RenderError Reading
  read_document none r = ok r
  read_document (some index) r = read_page index r

  -- Slides behind one that was cut are left out.
  unfoldable pub read_slides : List (ℕ × ℕ) → Reading → Result RenderError Reading
  read_slides [] r = ok r
  read_slides ((number, index) ∷ slides) r =
      if r.truncated then ok r else read_page index r >>= λ r'. read_slides slides r'

  unfoldable pub read_shared : Option ℕ → Reading → Result RenderError (List Text × Bool × ℕ)
  read_shared none r = ok ([], r.truncated, r.extracted_total)
  read_shared (some index) r = read_part index r.truncated r.extracted_total

  -- The first worksheet.
  pub find_sheet : List Member → Option ℕ
  find_sheet [] = none
  find_sheet (m ∷ members) =
      elim (m.opens
        && starts_with (codes "xl/worksheets/sheet") m.name
        && ends_with (codes ".xml") m.name) [
          | true ↦ some 0
          | false ↦ elim (find_sheet members) [ none ↦ none | some i ↦ some (suc i) ]
        ]

  unfoldable pub table_at :
      Option ℕ → List Text → ℕ → Result RenderError (Option (List (List Text)) × ℕ)
  table_at none shared total = ok (none, total)
  table_at (some index) shared total = do
    (bytes, next) ← read_entry_bounded_total archive index total
    table ← extract_rows shared (xml bytes)
    ok (table, next)

  unfoldable pub extract_table : List Text → ℕ → Result RenderError (Option (List (List Text)) × ℕ)
  unfolding find_sheet ends_with
  extract_table shared total = table_at (find_sheet archive) shared total

  unfoldable pub charge_media : ℕ → ℕ → Result RenderError ℕ
  charge_media actual size = do
    actual' ← ok_or resource_limit_exceeded (checked_add actual size)
    if ltb max_embedded_media_bytes actual' then err resource_limit_exceeded else ok actual'

  -- The media and the total behind them, from the bytes of media and the total before them.
  unfoldable pub read_media : List ℕ → ℕ → ℕ → Result RenderError (List (List ℕ) × ℕ)
  read_media [] actual total = ok ([], total)
  read_media (index ∷ indices) actual total = do
    (bytes, next) ← read_entry_bounded_total archive index total
    actual' ← charge_media actual (length bytes)
    (media, last) ← read_media indices actual' next
    ok (bytes ∷ media, last)

  unfoldable pub has_content : List (List Text) → Option (List (List Text)) → List (List ℕ) → Bool
  has_content pages table media =
      any pages (λ page. any page (λ line. not (is_empty (trim line))))
      || not (is_none table)
      || not (is_nil media)

  unfoldable pub extract_found : Found → Result RenderError (OoxmlText × ℕ)
  extract_found f = do
    check_office f
    r ←
        read_document f.document_part
          (record { pages = []; truncated = false; extracted_total = 0 })
    r' ← read_slides (sort_slides f.slides) r
    (shared, truncated, total) ← read_shared f.shared_strings r'
    (table, total') ← extract_table shared total
    (media, last) ← read_media f.media_indices 0 total'
    if not (has_content r'.pages table media)
        then err invalid_document
        else ok (record { pages = r'.pages; media = media; table = table }, last)

-- `extract`, with the bytes that were decompressed in all.
unfoldable pub extract :
    (List ℕ → Option Archive)
    → (List ℕ → List XmlEvent)
    → List ℕ
    → Result RenderError (OoxmlText × ℕ)
extract zip xml bytes = do
  archive ← open_archive zip bytes
  f ← scan_members 0 archive nothing_found
  extract_found xml archive f
