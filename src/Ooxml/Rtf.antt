-- ===== src/Ooxml/Rtf.antt =====
-- The text of an RTF document (crates/renderer-ooxml/src/rtf.rs). The index into the bytes is the
-- list of the bytes behind it.
pub mod Ending
pub mod Skipping
pub mod Extraction
use doc_bunker.Prelude.{
  ℕ, zero, suc, ◌+◌, ◌-◌, ◌*◌, ◌%◌, ◌^◌, Bool, true, false, not, ◌||◌, ◌&&◌, Option, none, some,
  List, [], ◌∷◌, ◌++◌, ltb, leb, ◌==◌, if◌then◌else◌, Result, ok, err, ◌>>=◌, ◌>>◌, length, Text,
  codes, text_eq, starts_with, byte_len, len_utf8,
}
use doc_bunker.RendererApi.Error.{RenderError, invalid_document, unsupported_format}
use doc_bunker.RendererApi.Limits.{validate_document_size}
use doc_bunker.RendererApi.Types.{DocumentInfo, rtf, validate_info}
use doc_bunker.Prelude.Scanning.{trim}
use doc_bunker.Ooxml.Container.{max_text_chars, push_line}

pub record State : Type 0 where
  pub lines : List Text
  pub line : Text
  pub truncated : Bool
  -- the innermost group first; true means that its content is skipped
  pub group_skip : List Bool
  pub unicode_remaining : ℕ

unfoldable pub start : State
start = record { lines = []; line = []; truncated = false; group_skip = []; unicode_remaining = 0 }

abbrev pub deep_skip : List Bool → Bool
deep_skip [] = false
deep_skip (skip ∷ groups) = skip

unfoldable pub push_capped : ℕ → State → State
push_capped c s =
    if s.truncated
    then s
    else if ltb max_text_chars (byte_len s.line + len_utf8 c)
    then record s { truncated = true }
    else record s { line = s.line ++ c ∷ [] }

-- A character that shows unless the group is skipped.
unfoldable pub emit : ℕ → State → State
emit c s = if deep_skip s.group_skip then s else push_capped c s

-- Outside any group the code marks a temporary.
abbrev pub mark : List Bool → List Bool
mark [] = []
mark (skip ∷ groups) = true ∷ groups

unfoldable pub flush : State → State
flush s =
    let (lines, truncated) = push_line s.lines (trim s.line) s.truncated in
    record s { lines = lines; truncated = truncated }

abbrev pub is_digit : ℕ → Bool
is_digit b = leb b'0' b && leb b b'9'

abbrev pub is_alphabetic : ℕ → Bool
is_alphabetic b = (leb b'a' b && leb b b'z') || (leb b'A' b && leb b b'Z')

abbrev pub is_parameter : ℕ → Bool
is_parameter b = is_digit b || b == b'-'

abbrev pub is_control : ℕ → Bool
is_control b = ltb b 32 || b == 127

-- The bytes of a loop that runs while a test holds, and the bytes behind them.
unfoldable pub span : (ℕ → Bool) → List ℕ → List ℕ × List ℕ
span test [] = ([], [])
span test (b ∷ bytes) =
    let (taken, rest) = span test bytes in if test b then (b ∷ taken, rest) else ([], b ∷ bytes)

-- Decimal digits with what was read so far; `u8::from_str_radix` reads the hexadecimal ones.
unfoldable pub digits_value : ℕ → Text → Option ℕ
digits_value acc [] = some acc
digits_value acc (d ∷ ds) =
    let rest = digits_value (acc * 10 + (d - b'0')) ds in if is_digit d then rest else none

unsigned : Text → Option ℕ
unfolding digits_value
unsigned [] = none
unsigned ds = digits_value 0 ds

within : ℕ → Option ℕ → Option ℕ
within top none = none
within top (some n) = if leb n top then some n else none

-- `parse::<i32>().unwrap_or(0) as u32`: a negative parameter wraps round.
unfoldable pub parameter : Text → ℕ
unfolding unsigned within
parameter [] = 0
parameter (c ∷ ds) =
    if c == b'-'
    then elim (within (2 ^ 31) (unsigned ds)) [ none ↦ 0 | some n ↦ (2 ^ 32 - n) % 2 ^ 32 ]
    else elim (within (2 ^ 31 - 1) (unsigned (c ∷ ds))) [ none ↦ 0 | some n ↦ n ]

-- `char::from_u32`
abbrev pub char_from_u32 : ℕ → Option ℕ
char_from_u32 n = if ltb n 0xD800 || (leb 0xE000 n && leb n 0x10FFFF) then some n else none

hex_digit : ℕ → Option ℕ
hex_digit b =
    if is_digit b
    then some (b - b'0')
    else if leb b'a' b && leb b b'f'
    then some (b - b'a' + 10)
    else if leb b'A' b && leb b b'F'
    then some (b - b'A' + 10)
    else none

-- A sign is allowed where the digits are; the code point is the byte.
unfoldable pub hex_pair : ℕ → ℕ → Option ℕ
unfolding hex_digit
hex_pair high low = if high == b'+' then hex_digit low else elim (hex_digit high) [
  | none ↦ none
  | some h ↦ elim (hex_digit low) [ none ↦ none | some l ↦ some (h * 16 + l) ]
]

any_word : Text → List Text → Bool
any_word word [] = false
any_word word (w ∷ words) = text_eq w word || any_word word words

unfoldable pub is_destination : Text → Bool
unfolding any_word text_eq
is_destination word = any_word word (
    codes "fonttbl"
    ∷ codes "colortbl"
    ∷ codes "stylesheet"
    ∷ codes "info"
    ∷ codes "header"
    ∷ codes "headerl"
    ∷ codes "headerr"
    ∷ codes "headerf"
    ∷ codes "footer"
    ∷ codes "footerl"
    ∷ codes "footerr"
    ∷ codes "footerf"
    ∷ codes "footnote"
    ∷ codes "annotation"
    ∷ codes "pict"
    ∷ codes "object"
    ∷ codes "math"
    ∷ codes "revtbl"
    ∷ codes "datastore"
    ∷ codes "listtable"
    ∷ codes "listoverridetable"
    ∷ codes "generator"
    ∷ codes "themedata"
    ∷ codes "colorschememapping"
    ∷ [])

unfoldable pub unicode_char : Option ℕ → State → State
unicode_char none s = s
unicode_char (some c) s = push_capped c s

-- A control word that shows.
unfoldable pub visible_word : Text → ℕ → State → State
visible_word word param s =
    if text_eq (codes "par") word || text_eq (codes "line") word
    then record (flush s) { line = [] }
    else if text_eq (codes "tab") word
    then push_capped 32 s
    else if text_eq (codes "u") word
    then record (unicode_char (char_from_u32 param) s) { unicode_remaining = 1 }
    else if text_eq (codes "rquote") word
    then push_capped 0x2019 s
    else if text_eq (codes "lquote") word
    then push_capped 0x2018 s
    else if text_eq (codes "endash") word
    then push_capped 0x2013 s
    else if text_eq (codes "emdash") word
    then push_capped 0x2014 s
    else s

unfoldable pub control_word : Text → ℕ → State → State
control_word word param s =
    if is_destination word
    then record s { group_skip = mark s.group_skip }
    else if deep_skip s.group_skip
    then s
    else visible_word word param s

unfoldable pub drop_space : List ℕ → List ℕ
drop_space [] = []
drop_space (b ∷ rest) = if b == 32 then rest else b ∷ rest

abbrev pub Next : Type 0
Next = List ℕ × State

unfoldable pub hex_escape : List ℕ → State → Next
hex_escape (high ∷ low ∷ rest) s = (rest, elim (hex_pair high low) [ none ↦ s | some c ↦ emit c s ])
hex_escape bytes s = ([], s)

unfoldable pub word_escape : List ℕ → State → Next
word_escape bytes s =
    let (word, behind) = span is_alphabetic bytes in
    let (param, rest) = span is_parameter behind in
    (drop_space rest, control_word word (parameter param) s)

-- What follows a backslash.
unfoldable pub escape : ℕ → List ℕ → State → Next
escape control rest s =
    if control == b'\\' || control == b'{' || control == b'}'
    then (rest, emit control s)
    else if control == b'\''
    then hex_escape rest s
    else if control == b'*'
    then (rest, record s { group_skip = mark s.group_skip })
    else if is_alphabetic control
    then word_escape (control ∷ rest) s
    else ((span is_digit rest).1, s)

unfoldable pub literal : ℕ → State → State
literal byte s =
    let shown =
      if not (deep_skip s.group_skip) && s.unicode_remaining == 0 && not (is_control byte)
      then push_capped byte s
      else s in
    record shown { unicode_remaining = shown.unicode_remaining - 1 }

abbrev pub close_group : List ℕ → List Bool → State → Result RenderError Next
close_group rest [] s = err invalid_document
close_group rest (skip ∷ groups) s = ok (rest, record s { group_skip = groups })

unfoldable pub backslash : List ℕ → State → Next
backslash [] s = ([], literal b'\\' s)
backslash (control ∷ rest) s = escape control rest s

-- One round of the loop, at a byte.
unfoldable pub round : ℕ → List ℕ → State → Result RenderError Next
round byte rest s =
    if byte == b'{'
    then ok (rest, record s { group_skip = deep_skip s.group_skip ∷ s.group_skip })
    else if byte == b'}'
    then close_group rest s.group_skip s
    else if byte == b'\\'
    then ok (backslash rest s)
    else ok (rest, literal byte s)

-- The loop. None means that the fuel ran out.
unfoldable pub scan : ℕ → List ℕ → State → Option (Result RenderError State)
scan zero bytes s = none
scan (suc fuel) [] s = some (ok s)
scan (suc fuel) (byte ∷ rest) s = elim (round byte rest s) [
  | err e ↦ some (err e)
  | ok (behind, s') ↦ elim s'.truncated [ true ↦ some (ok s') | false ↦ scan fuel behind s' ]
]

abbrev pub finish : Result RenderError State → Result RenderError (List Text)
finish (err e) = err e
finish (ok s) = elim (flush s).lines [ [] ↦ err invalid_document | t ∷ ts ↦ ok (t ∷ ts) ]

unfoldable pub extract_rtf_text : List ℕ → Option (Result RenderError (List Text))
unfolding scan start
extract_rtf_text bytes = elim (scan (suc (length bytes)) bytes start) [
  | none ↦ none
  | some r ↦ some (finish r)
]

pub record RtfRenderer : Type 0 where
  pub lines : List Text
  pub info : DocumentInfo

abbrev pub page_width : ℕ
page_width = 1240

abbrev pub page_height : ℕ
page_height = 1754

unfoldable pub with_lines : Result RenderError (List Text) → Result RenderError RtfRenderer
with_lines r = do
  lines ← r
  let info : DocumentInfo = record {
    page_count = 1;
    width = page_width;
    height = page_height;
    format = rtf;
  }
  validate_info info
  ok (record { lines = lines; info = info })

-- `RtfRenderer::open`
unfoldable pub open_rtf : List ℕ → Option (Result RenderError RtfRenderer)
open_rtf bytes = elim (validate_document_size bytes) [
  | err e ↦ some (err e)
  | ok _ ↦
      if not (starts_with (codes "{\\rtf") bytes)
      then some (err unsupported_format)
      else elim (extract_rtf_text bytes) [ none ↦ none | some r ↦ some (with_lines r) ]
]
