-- ===== src/Ooxml/Office/Within.antt =====
-- The sizes of what `extract` of crates/renderer-ooxml/src/text.rs takes from an Office container.
use doc_bunker.Prelude.{
  some, none, ok_or, ◌>>=◌, ◌||◌, ◌==◌, ltb, ◌+◌, ◌++◌, ℕ, suc, ◌≤◌, ◌≡◌, Bool, true, false, Option,
  List, [], ◌∷◌, arith, if◌then◌else◌, Result, ok, err, >>=-Between, Text, length, length-append,
  All,
}
use mathlib.Core.Path.{subst}
use doc_bunker.RendererApi.Error.{RenderError, invalid_document, resource_limit_exceeded}
use doc_bunker.Ooxml.Container.{IsCapped}
use doc_bunker.Ooxml.Archive.{
  openable, max_zip_entries, Member, Archive, max_total_uncompressed, open_archive,
  entry_within_caps,
}
use doc_bunker.Ooxml.Markup.{XmlEvent}
use doc_bunker.Ooxml.Members.{
  max_embedded_images, max_embedded_media_bytes, Found, nothing_found, note_media, classify,
  scan_members, check_office,
}
use doc_bunker.Ooxml.Office.{
  OoxmlText, sort_slides, Reading, read_document, read_slides, read_shared, find_sheet, table_at,
  extract_table, read_media, extract_found, extract,
}
use doc_bunker.Ooxml.Office.Parts.{
  to_list, content_size, slide_indices, media_size, read_document-Took, read_slides-TookFront,
  read_shared_lem, table_at_lem, read_media-MediaWithin,
}
use doc_bunker.RendererApi.Limits.{validate_document_size}

-- The caps on what is extracted from the members that were found, and the bytes that were decompressed
-- for it: those of the main document, of the slides in their order up to the last one shown, of the
-- shared strings, of the first worksheet and of the media, each in full.
pub record IsExtracted (xml : List ℕ → List XmlEvent) (archive : Archive) (f : Found)
    (t : OoxmlText) (total : ℕ) : Type 0 where
  pub pages : All IsCapped t.pages
  pub media_count : length t.media ≤ max_embedded_images
  pub media_bytes : media_size t.media ≤ max_embedded_media_bytes
  pub slides_read : List ℕ
  pub slides_left : List ℕ
  pub slides : slides_read ++ slides_left ≡ slide_indices (sort_slides f.slides)
  pub page_count : length t.pages ≡ length (to_list f.document_part) + length slides_read
  pub sum :
      total
      ≡ content_size archive (to_list f.document_part)
        + content_size archive slides_read
        + content_size archive (to_list f.shared_strings)
        + content_size archive (to_list (find_sheet xml archive archive))
        + content_size archive f.media_indices
  pub decompressed : total ≤ max_total_uncompressed

-- The same of the archive that a document is and of what its members are.
pub record IsWithin (zip : List ℕ → Option Archive) (xml : List ℕ → List XmlEvent) (bytes : List ℕ)
    (t : OoxmlText) (total : ℕ) : Type 0 where
  pub archive : Archive
  pub opened : zip bytes ≡ some archive
  pub found : Found
  pub scanned : scan_members 0 archive nothing_found ≡ ok found
  pub extracted : IsExtracted xml archive found t total

module _ (xml : List ℕ → List XmlEvent) (archive : Archive) (f : Found) where
  finished :
      (pages : List (List Text)) (table : Option (List (List Text))) (media : List (List ℕ))
      (last : ℕ) (t : OoxmlText) (total : ℕ)
      → (b : Bool)
      → ◌≡◌ {A = Result RenderError (OoxmlText × ℕ)}
          (if b
            then err invalid_document
            else ok (record { pages = pages; media = media; table = table }, last))
          (ok (t, total))
      → IsExtracted xml archive f (record { pages = pages; media = media; table = table }) last
      → IsExtracted xml archive f t total
  finished pages table media last t total true e v = absurd (cc)
  finished pages table media last t total false e v =
      let same : ◌≡◌ {A = OoxmlText} (record { pages = pages; media = media; table = table }) t =
        cc in
      let same' : last ≡ total = cc in
      subst (λ q. IsExtracted xml archive f t q) same'
        (subst (λ q. IsExtracted xml archive f q last) same v)

  extract_found-IsExtracted :
      (t : OoxmlText) (total : ℕ)
      → extract_found xml archive f ≡ ok (t, total)
      → length f.media_indices ≤ max_embedded_images
      → IsExtracted xml archive f t total
  unfolding extract_found extract_table
  extract_found-IsExtracted t total e few =
      let first : Reading = record { pages = []; truncated = false; extracted_total = 0 } in
      let (_, _, e1) = >>=-Between (check_office f) _ e in
      let (r, document, e2) = >>=-Between (read_document xml archive f.document_part first) _ e1 in
      let (r', slides, e3) = >>=-Between (read_slides xml archive (sort_slides f.slides) r) _ e2 in
      let ((shared, b, n), strings, e4) =
        >>=-Between (read_shared xml archive f.shared_strings r') _ e3 in
      let sheet = find_sheet xml archive archive in
      let ((table, n'), sheets, e5) = >>=-Between (table_at xml archive sheet shared n) _ e4 in
      let ((media, last), images, e6) =
        >>=-Between (read_media xml archive f.media_indices 0 n') _ e5 in
      let took =
        read_document-Took xml archive f.document_part first r document
          (record { pages = tt; total = omega arith }) in
      let (front, left, split, others) =
        read_slides-TookFront xml archive (sort_slides f.slides) r r' slides took.valid in
      let (within1, sum1) =
        read_shared_lem xml archive f.shared_strings r' shared b n strings others.valid in
      let (within2, sum2) = table_at_lem xml archive sheet shared n table n' sheets within1 in
      let (count, size, bounded, sum3) =
        read_media-MediaWithin xml archive f.media_indices 0 n' media last images (omega arith)
          within2 in
      finished r'.pages table media last t total _ e6 (record {
        pages = others.valid.pages;
        media_count = omega (arith, count, few);
        media_bytes = omega (arith, size);
        slides_read = front;
        slides_left = left;
        slides = split;
        page_count = omega (arith, took.count, others.count);
        sum = omega (arith, took.charged, others.charged, sum1, sum2, sum3);
        decompressed = bounded;
      })

-- At most 64 media are noted.
note_media-few :
    (index size : ℕ) (f f' : Found)
    → note_media index size f ≡ ok f'
    → length f'.media_indices ≤ max_embedded_images
unfolding note_media
note_media-few index size f f' e = ground (arith, length-append f.media_indices (index ∷ []))

classify-few :
    (name : Text) (index size : ℕ) (f f' : Found)
    → classify name index size f ≡ ok f'
    → length f.media_indices ≤ max_embedded_images
    → length f'.media_indices ≤ max_embedded_images
unfolding classify
classify-few name index size f f' e h = ground (arith, note_media-few index size f f')

scan_members-few :
    (index : ℕ) (members : List Member) (f f' : Found)
    → scan_members index members f ≡ ok f'
    → length f.media_indices ≤ max_embedded_images
    → length f'.media_indices ≤ max_embedded_images
unfolding scan_members
scan_members-few index [] f f' e h =
    let same : f ≡ f' = cc in subst (λ q. length q.media_indices ≤ max_embedded_images) same h
scan_members-few index (m ∷ members) f f' e h =
    let (_, _, e0) = >>=-Between (openable m) _ e in
    let (_, _, e1) =
      >>=-Between (entry_within_caps m.compressed m.uncompressed f.declared_total) _ e0 in
    let (g, classified, rest) = >>=-Between (classify m.name index m.uncompressed _) _ e1 in
    scan_members-few (suc index) members g f' rest
      (classify-few m.name index m.uncompressed _ g classified h)

open_archive-some :
    (zip : List ℕ → Option Archive) (bytes : List ℕ) (archive : Archive)
    → open_archive zip bytes ≡ ok archive
    → zip bytes ≡ some archive
unfolding open_archive
open_archive-some zip bytes archive e =
    let (_, _, e1) = >>=-Between (validate_document_size bytes) _ e in opened (zip bytes) e1
  where
    opened :
        (o : Option Archive)
        → (ok_or invalid_document o >>= λ a.
            if length a == 0 || ltb max_zip_entries (length a)
            then err resource_limit_exceeded
            else ok a)
          ≡ ok archive
        → o ≡ some archive
    opened none q = absurd (cc)
    opened (some a) q = ground arith

-- Whatever a container holds and declares, if text is extracted from it then at most 64 MiB were
-- decompressed in all: the lengths of all the members that were read add up to no more. The lines of
-- each page are within the caps on lines and bytes, and there are at most 64 media of at most 16 MiB
-- together.
pub extract-IsWithin :
    (zip : List ℕ → Option Archive) (xml : List ℕ → List XmlEvent) (bytes : List ℕ) (t : OoxmlText)
    (total : ℕ)
    → extract zip xml bytes ≡ ok (t, total)
    → IsWithin zip xml bytes t total
unfolding extract open_archive
extract-IsWithin zip xml bytes t total e =
    let (archive, is_open, e1) = >>=-Between (open_archive zip bytes) _ e in
    let (f, scanned, e2) = >>=-Between (scan_members 0 archive nothing_found) _ e1 in
    record {
      archive = archive;
      opened = open_archive-some zip bytes archive is_open;
      found = f;
      scanned = scanned;
      extracted =
          extract_found-IsExtracted xml archive f t total e2
            (scan_members-few 0 archive nothing_found f scanned (omega arith));
    }
