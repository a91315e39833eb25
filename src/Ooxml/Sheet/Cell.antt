-- ===== src/Ooxml/Sheet/Cell.antt =====
-- Where `extract_table` of crates/renderer-ooxml/src/text.rs puts a cell.
use doc_bunker.Prelude.{
  ℕ, zero, suc, ◌≡◌, refl, ap, ◌&&◌, some, none, Bool-cases, inl, inr, Option, List, [], ◌∷◌, ◌++◌,
  ltb, if◌then◌else◌, Result, ok, Text, codes, text_eq, take, replicate,
}
use doc_bunker.Prelude.Scanning.{trim}
use doc_bunker.RendererApi.Error.{RenderError}
use doc_bunker.Ooxml.Markup.{XmlEvent, start, text, end, is_malformed, decode_text}
use doc_bunker.Ooxml.Sheet.{
  empty_table, max_table_rows, max_table_cols, max_cell_chars, without_returns, set_cell, place,
  end_row, table_step, table_loop, table_rows, table_result,
}

-- A row with one cell, with its reference and its text.
abbrev pub one_cell : List ℕ → List ℕ → List XmlEvent
one_cell reference raw =
    start (codes "c") ((codes "r", reference) ∷ [])
    ∷ text raw
    ∷ end (codes "c")
    ∷ end (codes "row")
    ∷ []

-- The text that a cell shows: trimmed, cut to 256 characters and without carriage returns.
abbrev pub shown : List ℕ → Text
shown raw = without_returns (take max_cell_chars (trim (decode_text raw)))

set_cell-fresh :
    (index : ℕ) (value : Text) → set_cell index value [] ≡ replicate index [] ++ value ∷ []
unfolding set_cell
set_cell-fresh zero value = refl
set_cell-fresh (suc index) value = ap (λ row. [] ∷ row) (set_cell-fresh index value)

-- The table from the text of the cell on.
unfoldable behind_ref :
    List Text → List ℕ → Option (ℕ × ℕ) → Result RenderError (Option (List (List Text)))
behind_ref shared raw o = table_result (
    table_loop shared (text raw ∷ end (codes "c") ∷ end (codes "row") ∷ [])
      (record empty_table { cell_ref = o }))

-- The table from the end of the row on.
unfoldable behind_row : List Text → List Text → Result RenderError (Option (List (List Text)))
behind_row shared row =
    table_result (table_loop shared (end (codes "row") ∷ []) (record empty_table { row = row }))

behind_row-set_cell :
    (shared : List Text) (n : ℕ) (value : Text)
    → behind_row shared (set_cell n value []) ≡ ok (some ((replicate n [] ++ value ∷ []) ∷ []))
unfolding behind_row table_loop table_result table_rows table_step is_malformed text_eq end_row
    set_cell
behind_row-set_cell shared zero value = refl
behind_row-set_cell shared (suc n) value =
    ap (λ row. ok (some (([] ∷ row) ∷ []))) (set_cell-fresh n value)

placed :
    (shared : List Text) (raw : List ℕ) (col row : ℕ)
    → behind_row shared (place (some (col, row)) (shown raw) [])
      ≡ ok (
          if ltb row max_table_rows && ltb col max_table_cols
          then some ((replicate row [] ++ shown raw ∷ []) ∷ [])
          else none)
unfolding place
placed shared raw col row = elim (Bool-cases (ltb row max_table_rows && ltb col max_table_cols)) [
  | inl fits ↦ rw fits (behind_row-set_cell shared row (shown raw))
  | inr over ↦ rw over (nothing)
]
  where
    nothing : behind_row shared [] ≡ ok none
    nothing =
        unfold behind_row table_loop table_result table_rows table_step is_malformed text_eq
          end_row in
        refl
