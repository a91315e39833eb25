-- ===== src/Ooxml/Sheet.antt =====
-- The table of an xlsx worksheet: `parse_cell_ref` and the loop of `extract_table` in
-- crates/renderer-ooxml/src/text.rs.
pub mod Bounds
pub mod Rows
pub mod Cell
use doc_bunker.Prelude.{
  ℕ, zero, suc, ◌+◌, ◌-◌, ◌≤◌, not, ◌&&◌, ◌||◌, Bool, true, false, Option, none, some, List, [],
  ◌∷◌, ◌++◌, ltb, leb, ◌==◌, if◌then◌else◌, Result, ok, err, Text, codes, text_eq, usize_max,
  checked_mul, checked_add, take, length, get_elem?,
}
use doc_bunker.Prelude.Scanning.{trim, from_str_radix}
use doc_bunker.Prelude.Utf8.{from_utf8}
use doc_bunker.RendererApi.Error.{RenderError, invalid_document}
use doc_bunker.Ooxml.Rtf.{is_digit, is_alphabetic, span}
use doc_bunker.Ooxml.Markup.{
  XmlEvent, start, empty, text, general_ref, end, other, malformed, is_malformed, decode_text,
  decode_reference, to_text,
}

abbrev pub max_table_rows : ℕ
max_table_rows = 500

abbrev pub max_table_cols : ℕ
max_table_cols = 64

abbrev pub max_cell_chars : ℕ
max_cell_chars = 256

-- `to_ascii_uppercase` of a letter, counted from 1.
letter_value : ℕ → ℕ
letter_value c = if leb b'a' c then c - b'a' + 1 else c - b'A' + 1

unfoldable pub column : ℕ → Text → Option ℕ
unfolding letter_value
column col [] = some col
column col (c ∷ letters) = elim (checked_mul usize_max col 26) [
  | none ↦ none
  | some shifted ↦ elim (checked_add shifted (letter_value c)) [
    | none ↦ none
    | some next ↦ column next letters
  ]
]

-- `checked_sub(1)`
abbrev pub pred : Option ℕ → Option ℕ
pred none = none
pred (some zero) = none
pred (some (suc n)) = some n

both : Option ℕ → Option ℕ → Option (ℕ × ℕ)
both none row = none
both (some col) none = none
both (some col) (some row) = some (col, row)

abbrev is_nothing : Text → Bool
is_nothing [] = true
is_nothing (c ∷ t) = false

cell_ref_of : Option Text → Option (ℕ × ℕ)
unfolding both column
cell_ref_of none = none
cell_ref_of (some reference) =
    let (letters, behind) = span is_alphabetic reference in
    let (digits, rest) = span is_digit behind in
    if is_nothing letters || is_nothing digits
    then none
    else both (pred (column 0 letters)) (pred (from_str_radix usize_max 10 digits))

-- The column and the row, counted from 0.
unfoldable pub parse_cell_ref : List ℕ → Option (ℕ × ℕ)
unfolding cell_ref_of
parse_cell_ref reference = cell_ref_of (from_utf8 reference)

pub record Table : Type 0 where
  pub rows : List (List Text)
  pub row : List Text
  pub cell_ref : Option (ℕ × ℕ)
  pub cell_shared : Bool
  pub cell_text : Text

abbrev pub empty_table : Table
empty_table = record { rows = []; row = []; cell_ref = none; cell_shared = false; cell_text = [] }

abbrev pub no_cell : Table → Table
no_cell t = record t { cell_ref = none; cell_shared = false; cell_text = [] }

-- The attributes of a cell.
unfoldable pub read_attribute : List ℕ → List ℕ → Table → Table
read_attribute key value t =
    if text_eq key (codes "r")
    then record t { cell_ref = parse_cell_ref value }
    else if text_eq key (codes "t") && text_eq value (codes "s")
    then record t { cell_shared = true }
    else t

unfoldable pub read_attributes : List (List ℕ × List ℕ) → Table → Table
unfolding read_attribute
read_attributes [] t = t
read_attributes ((key, value) ∷ attributes) t =
    read_attributes attributes (read_attribute key value t)

-- A shared string by its index; the default is the empty one.
shared_at : List Text → Option ℕ → Text
shared_at shared none = []
shared_at shared (some i) = elim (get_elem? shared i) [ none ↦ [] | some t ↦ t ]

-- `filter` of all but carriage returns
unfoldable pub without_returns : Text → Text
without_returns [] = []
without_returns (c ∷ t) = let rest = without_returns t in if c == 13 then rest else c ∷ rest

unfoldable pub cell_value : List Text → Table → Text
unfolding shared_at
cell_value shared t = without_returns (
    take max_cell_chars (
      if t.cell_shared
      then shared_at shared (from_str_radix usize_max 10 (trim t.cell_text))
      else trim t.cell_text))

-- `row.resize(index + 1)` where the row is shorter, and the assignment.
unfoldable pub set_cell : ℕ → Text → List Text → List Text
set_cell zero value [] = value ∷ []
set_cell zero value (cell ∷ row) = value ∷ row
set_cell (suc index) value [] = [] ∷ set_cell index value []
set_cell (suc index) value (cell ∷ row) = cell ∷ set_cell index value row

-- The code indexes the cells of the row by the number of the row.
unfoldable pub place : Option (ℕ × ℕ) → Text → List Text → List Text
place none value row = row
place (some (col, row_index)) value row =
    if ltb row_index max_table_rows && ltb col max_table_cols
    then set_cell row_index value row
    else row

unfoldable pub end_cell : List Text → Table → Table
end_cell shared t = no_cell (record t { row = place t.cell_ref (cell_value shared t) t.row })

unfoldable pub end_row : Table → Table
end_row t = elim t.row [ [] ↦ t | cell ∷ row ↦ record t { rows = t.rows ++ t.row ∷ []; row = [] } ]

abbrev pub has_ref : Option (ℕ × ℕ) → Bool
has_ref none = false
has_ref (some r) = true

unfoldable pub table_step : List Text → XmlEvent → Table → Table
table_step shared (start local attributes) t =
    if text_eq local (codes "c") then read_attributes attributes (no_cell t) else t
table_step shared (text raw) t =
    if has_ref t.cell_ref then record t { cell_text = t.cell_text ++ decode_text raw } else t
table_step shared (general_ref reference) t = record t {
  cell_text = t.cell_text ++ to_text (decode_reference reference);
}
table_step shared (end local) t =
    if text_eq local (codes "c")
    then end_cell shared t
    else if text_eq local (codes "row")
    then end_row t
    else t
table_step shared (empty local) t = t
table_step shared other t = t
table_step shared malformed t = t

-- The loop ends at the row cap.
unfoldable pub table_loop : List Text → List XmlEvent → Table → Result RenderError Table
table_loop shared [] t = ok t
table_loop shared (event ∷ events) t = elim (is_malformed event) [
  | true ↦ err invalid_document
  | false ↦ elim (leb max_table_rows (length (table_step shared event t).rows)) [
    | true ↦ ok (table_step shared event t)
    | false ↦ table_loop shared events (table_step shared event t)
  ]
]

unfoldable pub table_rows : List (List Text) → Result RenderError (Option (List (List Text)))
table_rows [] = ok none
table_rows (row ∷ rows) = ok (some (row ∷ rows))

unfoldable pub table_result :
    Result RenderError Table → Result RenderError (Option (List (List Text)))
unfolding table_rows
table_result (err e) = err e
table_result (ok t) = table_rows t.rows

unfoldable pub extract_rows :
    List Text → List XmlEvent → Result RenderError (Option (List (List Text)))
unfolding table_loop table_result
extract_rows shared events = table_result (table_loop shared events empty_table)
