-- ===== src/Ooxml/Markup.antt =====
-- Text of markup (crates/renderer-ooxml/src: the rest of container.rs, and `extract_part_xml` of
-- text.rs). The quick-xml package turns bytes into events; the list's end is the end of the
-- document. Arithmetic that leaves its range wraps round, as in a release build.
pub mod Lines
pub mod Skipped
pub mod Overflow
use doc_bunker.Prelude.{
  ℕ, zero, suc, ◌+◌, ◌-◌, ◌%◌, ◌^◌, not, ◌&&◌, ◌||◌, Bool, true, false, Option, none, some, List,
  [], ◌∷◌, ◌++◌, ltb, leb, ◌==◌, if◌then◌else◌, Result, ok, err, String, Text, codes, text_eq,
  byte_len, any, u32_max, map,
}
use doc_bunker.Prelude.Scanning.{is_empty, trim, trim_end, strip_prefix, from_str_radix}
use doc_bunker.Prelude.Utf8.{from_utf8_lossy}
use doc_bunker.RendererApi.Error.{RenderError, invalid_document}
use doc_bunker.Ooxml.Container.{max_text_chars, truncate_at, push_line}

-- Names are local names; an attribute is its name and its value.
pub data XmlEvent : Type 0 where
  start : List ℕ → List (List ℕ × List ℕ) → XmlEvent
  empty : List ℕ → XmlEvent
  text : List ℕ → XmlEvent
  general_ref : List ℕ → XmlEvent
  end : List ℕ → XmlEvent
  -- declarations, comments, processing instructions and the like
  other : XmlEvent
  malformed : XmlEvent

unfoldable pub one_of : List String → List ℕ → Bool
one_of names local = any (map codes names) (λ name. text_eq name local)

-- A range of code points, and the radix prefix.
radix_value : List ℕ → Option ℕ
radix_value [] = none
radix_value (c ∷ digits) =
    if c == b'x' || c == b'X'
    then from_str_radix u32_max 16 digits
    else from_str_radix u32_max 10 (c ∷ digits)

scalar : Option ℕ → Option ℕ
scalar none = none
scalar (some c) =
    if (leb 1 c && leb c 0xD7FF) || (leb 0xE000 c && leb c 0x10FFFF) then some c else none

unfoldable pub decode_numeric : List ℕ → Option ℕ
unfolding scalar radix_value
decode_numeric entity = elim (strip_prefix (codes "#") entity) [
  | none ↦ none
  | some digits ↦ scalar (radix_value digits)
]

unfoldable pub decode_reference : List ℕ → Option ℕ
decode_reference reference =
    if text_eq reference (codes "amp")
    then some b'&'
    else if text_eq reference (codes "lt")
    then some b'<'
    else if text_eq reference (codes "gt")
    then some b'>'
    else if text_eq reference (codes "quot")
    then some 34
    else if text_eq reference (codes "apos")
    then some 39
    else decode_numeric reference

abbrev pub to_text : Option ℕ → Text
to_text none = []
to_text (some c) = c ∷ []

-- The loop of `decode_text`: the bytes of the run, or of the reference behind an ampersand, that was
-- read so far. A reference without a semicolon ends the text.
unfoldable pub decode_from : Bool → List ℕ → List ℕ → Text
decode_from false run [] = from_utf8_lossy run
decode_from true reference [] = []
decode_from false run (b ∷ bytes) = elim (b == b'&') [
  | true ↦ from_utf8_lossy run ++ decode_from true [] bytes
  | false ↦ decode_from false (run ++ b ∷ []) bytes
]
decode_from true reference (b ∷ bytes) = elim (b == b';') [
  | true ↦ to_text (decode_reference reference) ++ decode_from false [] bytes
  | false ↦ decode_from true (reference ++ b ∷ []) bytes
]

unfoldable pub decode_text : List ℕ → Text
unfolding decode_from
decode_text raw = decode_from false [] raw

-- The line, whether text was cut off it, and whether the last run of text was blank.
pub record Line : Type 0 where
  pub line : Text
  pub cut : Bool
  pub after_blank_run : Bool

-- The room that is left wraps round where the line is too long already.
unfoldable pub append_capped : Text → Line → Line
append_capped decoded l =
    if ltb max_text_chars (byte_len l.line + byte_len decoded)
    then record l {
      line = l.line ++ truncate_at ((max_text_chars + 2 ^ 64 - byte_len l.line) % 2 ^ 64) decoded;
      cut = true;
    }
    else record l { line = l.line ++ decoded }

unfoldable pub text_run : List ℕ → Line → Line
text_run raw l =
    let decoded = decode_text raw in
    if is_empty (trim decoded)
    then record l { after_blank_run = true }
    else append_capped decoded (record l { after_blank_run = false })

unfoldable pub ends_with_space : Text → Bool
ends_with_space [] = false
ends_with_space (c ∷ []) = c == 32
ends_with_space (c ∷ d ∷ t) = ends_with_space (d ∷ t)

-- A blank run before the reference still separates.
unfoldable pub separated : Text → Line → Line
unfolding ends_with_space
separated decoded l =
    if not (is_empty (trim decoded))
      && l.after_blank_run
      && not (is_empty l.line)
      && not (ends_with_space l.line)
    then record l { line = l.line ++ 32 ∷ []; after_blank_run = false }
    else record l { after_blank_run = false }

unfoldable pub reference_run : Option ℕ → Line → Line
reference_run none l = l
reference_run (some c) l = append_capped (c ∷ []) (separated (c ∷ []) l)

-- The lines so far, and the text of the one that is being read.
pub record Extraction : Type 0 where
  pub out : List Text
  pub truncated : Bool
  pub current : Line

abbrev pub blank_line : Line
blank_line = record { line = []; cut = false; after_blank_run = false }

-- `push_line` of the line, and `clear`.
unfoldable pub end_line : Extraction → Extraction
end_line x =
    let (out, truncated) = push_line x.out (trim_end x.current.line) x.truncated in
    record { out = out; truncated = truncated; current = record x.current { line = [] } }

unfoldable pub flush_line : Extraction → Extraction
flush_line x = if is_empty x.current.line then x else end_line x

unfoldable pub is_malformed : XmlEvent → Bool
is_malformed malformed = true
is_malformed event = false

-- The loop over the events of a reader, which an error of the reader ends.
unfoldable pub read_events :
    {S : Type 0} → (XmlEvent → S → S) → List XmlEvent → S → Result RenderError S
read_events step [] s = ok s
read_events step (event ∷ events) s = elim (is_malformed event) [
  | true ↦ err invalid_document
  | false ↦ read_events step events (step event s)
]

-- Office parts. The flag is set inside a text tag.
unfoldable pub is_paragraph_end : List ℕ → Bool
is_paragraph_end local = one_of ("p" ∷ "tr" ∷ "row" ∷ []) local

abbrev pub set_line : Extraction → Line → Extraction
set_line x l = record x { current = l }

unfoldable pub part_step : XmlEvent → Bool × Extraction → Bool × Extraction
part_step (start local attributes) (inside, x) =
    (text_eq local (codes "t"), set_line x (record x.current { after_blank_run = false }))
part_step (empty local) (inside, x) = (inside, if is_paragraph_end local then end_line x else x)
part_step (text raw) (inside, x) =
    (inside, if inside then set_line x (text_run raw x.current) else x)
part_step (general_ref reference) (inside, x) = (
  inside,
  if inside then set_line x (reference_run (decode_reference reference) x.current) else x,
)
part_step (end local) (inside, x) = (false, if is_paragraph_end local then end_line x else x)
part_step other p = p
part_step malformed p = p

part_end : Extraction → List Text × Bool
part_end x = let x' = flush_line x in (x'.out, x'.truncated || x'.current.cut)

unfoldable pub part_result :
    Result RenderError (Bool × Extraction) → Result RenderError (List Text × Bool)
unfolding part_end
part_result (err e) = err e
part_result (ok (inside, x)) = ok (part_end x)

-- `extract_part_xml`: the lines and the flag after it.
unfoldable pub extract_part_xml :
    List XmlEvent → List Text → Bool → Result RenderError (List Text × Bool)
unfolding part_result
extract_part_xml events out truncated = part_result (
    read_events part_step events
      (false, record { out = out; truncated = truncated; current = blank_line }))

-- Markup. The depth counts the elements that are open inside one that is skipped.
unfoldable pub is_block_tag_end : List ℕ → Bool
is_block_tag_end local =
    one_of
      ("p" ∷ "li" ∷ "tr" ∷ "div" ∷ "h1" ∷ "h2" ∷ "h3" ∷ "h4" ∷ "h5" ∷ "h6" ∷ "blockquote" ∷ "pre"
        ∷ [])
      local

unfoldable pub is_block_tag_start : List ℕ → Bool
is_block_tag_start local = is_block_tag_end local || one_of ("br" ∷ "td" ∷ "th" ∷ []) local

unfoldable pub is_markup_break : List ℕ → Bool
is_markup_break local = is_block_tag_end local || one_of ("br" ∷ "td" ∷ "th" ∷ []) local

unfoldable pub is_skipped : List ℕ → Bool
is_skipped local = one_of ("script" ∷ "style" ∷ "head" ∷ []) local

abbrev pub Markup : Type 0
Markup = Option ℕ × Extraction

abbrev pub no_blank : Extraction → Extraction
no_blank x = set_line x (record x.current { after_blank_run = false })

unfoldable pub markup_step : XmlEvent → Markup → Markup
markup_step (start local attributes) (some depth, x) = (some (suc depth), no_blank x)
markup_step (start local attributes) (none, x) =
    if is_skipped local
    then (some 0, no_blank x)
    else (none, no_blank (if is_block_tag_start local then flush_line x else x))
markup_step (empty local) (some depth, x) = (some depth, x)
markup_step (empty local) (none, x) = (none, if is_markup_break local then flush_line x else x)
markup_step (end local) (some zero, x) = (none, x)
markup_step (end local) (some (suc depth), x) = (some depth, x)
markup_step (end local) (none, x) = (none, if is_block_tag_start local then flush_line x else x)
markup_step (text raw) (some depth, x) = (some depth, x)
markup_step (text raw) (none, x) = (none, set_line x (text_run raw x.current))
markup_step (general_ref reference) (some depth, x) = (some depth, x)
markup_step (general_ref reference) (none, x) =
    (none, set_line x (reference_run (decode_reference reference) x.current))
markup_step other m = m
markup_step malformed m = m

markup_end : Extraction → List Text × Bool
markup_end x = let x' = flush_line x in (x'.out, x'.truncated)

unfoldable pub markup_result : Result RenderError Markup → Result RenderError (List Text × Bool)
unfolding markup_end
markup_result (err e) = err e
markup_result (ok (depth, x)) = ok (markup_end x)

unfoldable pub extract_markup_text :
    List XmlEvent → List Text → Bool → Result RenderError (List Text × Bool)
unfolding markup_result
extract_markup_text events out truncated = markup_result (
    read_events markup_step events
      (none, record { out = out; truncated = truncated; current = blank_line }))
