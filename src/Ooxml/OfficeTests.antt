-- ===== src/Ooxml/OfficeTests.antt =====
-- A small Office container, markup and a worksheet, and the theorems there.
use doc_bunker.Prelude.{
  ℕ, zero, suc, ◌+◌, ◌≡◌, refl, true, false, none, some, List, [], ◌∷◌, ok, arith, Text, codes,
  text_eq, any, starts_with, byte_len, len_utf8,
}
use doc_bunker.Prelude.Scanning.{trim, trim_end, split, strip_prefix, from_str_radix, is_whitespace}
use doc_bunker.Prelude.Utf8.{from_utf8, from_utf8_lossy}
use doc_bunker.RendererApi.Limits.{validate_document_size}
use doc_bunker.Ooxml.Container.{max_text_chars, push_line, total_len}
use doc_bunker.Ooxml.Rtf.{span}
use doc_bunker.Ooxml.Archive.{
  Member, Archive, ratio_allowed, charge, entry_within_caps, accept, read_member, open_archive,
  read_entry_bounded_total, openable, by_index,
}
use doc_bunker.Ooxml.Archive.Totals.{IsRead, read_member-IsRead}
use doc_bunker.Ooxml.Markup.{
  XmlEvent, start, text, end, Line, Extraction, blank_line, no_blank, is_malformed, one_of,
  is_skipped, is_paragraph_end, text_run, append_capped, end_line, flush_line, read_events,
  part_step, part_result, extract_part_xml, markup_step, decode_text, decode_reference,
  decode_numeric, ends_with_space, reference_run,
}
use doc_bunker.Ooxml.Markup.Skipped.{nothing, text_item, skipped_element}
use doc_bunker.Ooxml.Markup.Overflow.{reference_run_overflow}
use doc_bunker.Ooxml.Sheet.{
  parse_cell_ref, column, read_attributes, without_returns, cell_value, set_cell, place, end_cell,
  end_row, table_step, extract_rows,
}
use doc_bunker.Ooxml.Members.{slide_number, classify, scan_members, check_office}
use doc_bunker.Ooxml.Office.{
  OoxmlText, sort_slides, read_part, read_page, read_document, read_slides, read_shared, table_at,
  extract_table, read_media, has_content, extract_found, extract,
}
use doc_bunker.Ooxml.Office.Within.{IsWithin, extract-IsWithin}

decodes : decode_text (codes "a&lol;&amp;&#x41;") ≡ codes "a&A"
unfolding decode_text text_eq from_utf8_lossy strip_prefix from_str_radix decode_reference
    decode_numeric
decodes = refl

abbrev nothing_yet : Extraction
nothing_yet = record { out = []; truncated = false; current = blank_line }

skipped_element_example :
    read_events markup_step
      (start (codes "script") [] ∷ text (codes "alert") ∷ end (codes "script") ∷ [])
      (none, nothing_yet)
    ≡ read_events markup_step [] (none, no_blank nothing_yet)
skipped_element_example =
    skipped_element (codes "script") (codes "script") [] [] nothing_yet is_script
      (text_item (codes "alert") nothing)
  where
    is_script : is_skipped (codes "script") ≡ true
    is_script = unfold is_skipped one_of any text_eq in refl

-- A line that is full.
filled : ℕ → Text
filled zero = []
filled (suc n) = b'a' ∷ filled n

byte_len-filled : (n : ℕ) → byte_len (filled n) ≡ n
unfolding filled
byte_len-filled zero = refl
byte_len-filled (suc n) = omega (arith, byte_len-filled n)

filled-ends : (n : ℕ) → ends_with_space (filled n) ≡ false
unfolding filled ends_with_space
filled-ends zero = refl
filled-ends (suc zero) = refl
filled-ends (suc (suc n)) = filled-ends (suc n)

full : Line
full = record { line = filled max_text_chars; cut = false; after_blank_run = true }

reference_run_overflow_example :
    byte_len (reference_run (some b'x') full).line ≡ max_text_chars + 1 + len_utf8 b'x'
unfolding full is_whitespace
reference_run_overflow_example =
    reference_run_overflow full b'x' (byte_len-filled max_text_chars) refl
      (filled-ends max_text_chars) refl

abbrev member : Text → Text → Member
member name bytes = record {
  opens = true;
  name = name;
  compressed = 1;
  uncompressed = 2;
  content = some bytes;
}

read_member-IsRead_example : IsRead (member (codes "a") (codes "hi")) 5 (codes "hi") 7
read_member-IsRead_example =
    read_member-IsRead (member (codes "a") (codes "hi")) 5 (codes "hi") 7 reads
  where
    reads : read_member (member (codes "a") (codes "hi")) 5 ≡ ok (codes "hi", 7)
    reads = unfold read_member accept charge ratio_allowed entry_within_caps in refl

abbrev container : Archive
container =
    member (codes "[Content_Types].xml") [] ∷ member (codes "word/document.xml") (codes "hi") ∷ []

-- A reader that takes a part for one run of text.
abbrev one_run : List ℕ → List XmlEvent
one_run bytes = start (codes "t") [] ∷ text bytes ∷ end (codes "t") ∷ end (codes "p") ∷ []

abbrev extracted : OoxmlText
extracted = record { pages = (codes "hi" ∷ []) ∷ []; media = []; table = none }

extracts : extract (λ bytes. some container) one_run [] ≡ ok (extracted, 2)
unfolding extract openable by_index open_archive validate_document_size scan_members classify
    entry_within_caps ratio_allowed charge text_eq extract_found check_office read_document
    read_page read_part read_entry_bounded_total read_member accept extract_part_xml read_events
    is_malformed part_step part_result is_paragraph_end one_of any text_run decode_text
    from_utf8_lossy trim trim_end append_capped end_line flush_line push_line total_len read_slides
    sort_slides read_shared extract_table table_at starts_with read_media has_content slide_number
    split strip_prefix
extracts = refl

extract-IsWithin_example : IsWithin (λ bytes. some container) one_run [] extracted 2
extract-IsWithin_example =
    extract-IsWithin (λ bytes. some container) one_run [] extracted 2 extracts

-- Two cells of the first row: the second replaces the first.
abbrev sheet : List XmlEvent
sheet =
    start (codes "c") ((codes "r", codes "A1") ∷ [])
    ∷ text (codes "x")
    ∷ end (codes "c")
    ∷ start (codes "c") ((codes "r", codes "B1") ∷ [])
    ∷ text (codes "y")
    ∷ end (codes "c")
    ∷ end (codes "row")
    ∷ []

second_replaces : extract_rows [] sheet ≡ ok (some ((codes "y" ∷ []) ∷ []))
unfolding extract_rows table_step read_attributes text_eq parse_cell_ref from_utf8 span column
    from_str_radix end_cell end_row place set_cell cell_value without_returns trim is_malformed
    decode_text from_utf8_lossy
second_replaces = refl
