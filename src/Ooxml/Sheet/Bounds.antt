-- ===== src/Ooxml/Sheet/Bounds.antt =====
-- The sizes of a worksheet's table. The length of a row is bounded by the cap on row numbers, since
-- the code indexes the cells of a row by the number of the row.
use doc_bunker.Prelude.{
  ℕ, zero, suc, ◌≤◌, ◌<◌, ◌≡◌, refl, ◌∙◌, ◌&&◌, Bool, true, false, Option, none, some, List, [],
  ◌∷◌, ◌++◌, arith, ltb, leb, Result, ok, err, Text, codes, text_eq, Bool-cases, inl, inr, length,
  length-append, length-take, take, All, All-append, if◌then◌else◌,
}
use mathlib.Core.Path.{subst}
use doc_bunker.RendererApi.Error.{RenderError, invalid_document}
use doc_bunker.Ooxml.Markup.{
  XmlEvent, start, empty, text, general_ref, end, other, malformed, is_malformed,
}
use doc_bunker.Ooxml.Sheet.{
  Table, empty_table, no_cell, read_attribute, read_attributes, without_returns, cell_value,
  set_cell, place, end_cell, end_row, table_step, table_loop, table_rows, table_result,
  extract_rows, max_table_rows, max_table_cols, max_cell_chars,
}

-- At most 256 characters.
abbrev pub IsCell : Text → Type 0
IsCell t = length t ≤ max_cell_chars

-- At most 500 cells.
abbrev pub IsRow : List Text → Type 0
IsRow row = (length row ≤ max_table_rows) × All IsCell row

record IsTable (t : Table) : Type 0 where
  rows : All IsRow t.rows
  row : IsRow t.row

length-without_returns : (t : Text) → length (without_returns t) ≤ length t
unfolding without_returns
length-without_returns [] = omega arith
length-without_returns (c ∷ t) = ground (arith, length-without_returns t)

cell_value-IsCell : (shared : List Text) (t : Table) → IsCell (cell_value shared t)
unfolding cell_value
cell_value-IsCell shared t = capped _
  where
    capped : (s : Text) → IsCell (without_returns (take max_cell_chars s))
    capped s =
        omega (arith, length-without_returns (take max_cell_chars s), length-take max_cell_chars s)

length-set_cell :
    (index top : ℕ) (value : Text) (row : List Text)
    → index < top
    → length row ≤ top
    → length (set_cell index value row) ≤ top
unfolding set_cell
length-set_cell zero top value [] h l = omega arith
length-set_cell zero top value (cell ∷ row) h l = omega arith
length-set_cell (suc index) zero value row h l = absurd (omega arith)
length-set_cell (suc index) (suc top) value [] h l =
    omega (arith, length-set_cell index top value [])
length-set_cell (suc index) (suc top) value (cell ∷ row) h l =
    omega (arith, length-set_cell index top value row)

set_cell-All :
    (index : ℕ) (value : Text) (row : List Text)
    → IsCell value
    → All IsCell row
    → All IsCell (set_cell index value row)
unfolding set_cell
set_cell-All zero value [] v h = (v, tt)
set_cell-All zero value (cell ∷ row) v h = (v, h.1)
set_cell-All (suc index) value [] v h = (omega arith, set_cell-All index value [] v tt)
set_cell-All (suc index) value (cell ∷ row) v h = (h.0, set_cell-All index value row v h.1)

place-IsRow :
    (r : Option (ℕ × ℕ)) (value : Text) (row : List Text)
    → IsCell value
    → IsRow row
    → IsRow (place r value row)
unfolding place
place-IsRow none value row v h = h
place-IsRow (some (col, index)) value row v h =
    elim (Bool-cases (ltb index max_table_rows && ltb col max_table_cols)) [
      | inl fits ↦ rw fits (
        length-set_cell index max_table_rows value row (ground arith) h.0,
        set_cell-All index value row v h.1,
      )
      | inr over ↦ rw over h
    ]

-- A branch between two tables.
choice-IsTable : (b : Bool) (x y : Table) → IsTable x → IsTable y → IsTable (if b then x else y)
choice-IsTable true x y v w = v
choice-IsTable false x y v w = w

keep-IsTable :
    (t : Table) (r : Option (ℕ × ℕ)) (shared : Bool) (s : Text)
    → IsTable t
    → IsTable (record t { cell_ref = r; cell_shared = shared; cell_text = s })
keep-IsTable t r shared s v = record { rows = v.rows; row = v.row }

read_attribute-IsTable :
    (key value : List ℕ) (t : Table) → IsTable t → IsTable (read_attribute key value t)
unfolding read_attribute
read_attribute-IsTable key value t v =
    choice-IsTable (text_eq key (codes "r")) _ _ (keep-IsTable t _ _ _ v) (
      choice-IsTable (text_eq key (codes "t") && text_eq value (codes "s")) _ t
        (keep-IsTable t _ _ _ v) v)

read_attributes-IsTable :
    (attributes : List (List ℕ × List ℕ)) (t : Table)
    → IsTable t
    → IsTable (read_attributes attributes t)
unfolding read_attributes
read_attributes-IsTable [] t v = v
read_attributes-IsTable ((key, value) ∷ attributes) t v =
    read_attributes-IsTable attributes (read_attribute key value t)
      (read_attribute-IsTable key value t v)

end_cell-IsTable : (shared : List Text) (t : Table) → IsTable t → IsTable (end_cell shared t)
unfolding end_cell
end_cell-IsTable shared t v = record {
  rows = v.rows;
  row = place-IsRow t.cell_ref (cell_value shared t) t.row (cell_value-IsCell shared t) v.row;
}

end_row-IsTable : (t : Table) → IsTable t → IsTable (end_row t)
unfolding end_row
end_row-IsTable t v = go t.row v.row
  where
    go :
        (row : List Text)
        → IsRow row
        → IsTable
            (elim row [ [] ↦ t | cell ∷ row' ↦ record t { rows = t.rows ++ t.row ∷ []; row = [] } ])
    go [] h = v
    go (cell ∷ row') h = record {
      rows = All-append IsRow t.rows (t.row ∷ []) v.rows (v.row, tt);
      row = (omega arith, tt);
    }

table_step-IsTable :
    (shared : List Text) (event : XmlEvent) (t : Table)
    → IsTable t
    → IsTable (table_step shared event t)
unfolding table_step
table_step-IsTable shared (start local attributes) t v =
    choice-IsTable _ _ t
      (read_attributes-IsTable attributes (no_cell t) (keep-IsTable t none false [] v)) v
table_step-IsTable shared (text raw) t v = choice-IsTable _ _ t (keep-IsTable t _ _ _ v) v
table_step-IsTable shared (general_ref reference) t v = keep-IsTable t _ _ _ v
table_step-IsTable shared (end local) t v =
    choice-IsTable (text_eq local (codes "c")) _ _ (end_cell-IsTable shared t v)
      (choice-IsTable (text_eq local (codes "row")) _ t (end_row-IsTable t v) v)
table_step-IsTable shared (empty local) t v = v
table_step-IsTable shared other t v = v
table_step-IsTable shared malformed t v = v

read_attributes-rows :
    (attributes : List (List ℕ × List ℕ)) (t : Table) → (read_attributes attributes t).rows ≡ t.rows
unfolding read_attributes read_attribute
read_attributes-rows [] t = refl
read_attributes-rows ((key, value) ∷ attributes) t =
    read_attributes-rows attributes (read_attribute key value t) ∙ ground arith

end_row-rows : (t : Table) → length (end_row t).rows ≤ suc (length t.rows)
unfolding end_row
end_row-rows t = ground (arith, length-append t.rows (t.row ∷ []))

table_step-rows :
    (shared : List Text) (event : XmlEvent) (t : Table)
    → length (table_step shared event t).rows ≤ suc (length t.rows)
unfolding table_step end_cell
table_step-rows shared (start local attributes) t =
    ground (arith, read_attributes-rows attributes (no_cell t))
table_step-rows shared (text raw) t = ground arith
table_step-rows shared (general_ref reference) t = ground arith
table_step-rows shared (end local) t = ground (arith, end_row-rows t)
table_step-rows shared (empty local) t = ground arith
table_step-rows shared other t = ground arith
table_step-rows shared malformed t = ground arith

-- A table within its caps, or an error.
abbrev Ends : Result RenderError Table → Type 0
Ends (ok t) = IsTable t × (length t.rows ≤ max_table_rows)
Ends (err e) = Unit {0}

table_loop-Ends :
    (shared : List Text) (events : List XmlEvent) (t : Table)
    → IsTable t
    → length t.rows < max_table_rows
    → Ends (table_loop shared events t)
unfolding table_loop
table_loop-Ends shared [] t v h = (v, omega arith)
table_loop-Ends shared (event ∷ events) t v h =
    outer (λ w k. table_loop-Ends shared events (table_step shared event t) w k)
      (is_malformed event)
  where
    next : Table
    next = table_step shared event t

    inner :
        (IsTable next → length next.rows < max_table_rows → Ends (table_loop shared events next))
        → (b : Bool) → leb max_table_rows (length next.rows) ≡ b
        → Ends (elim b [ true ↦ ok next | false ↦ table_loop shared events next ])
    inner again true e =
        (table_step-IsTable shared event t v, omega (arith, table_step-rows shared event t))
    inner again false e = again (table_step-IsTable shared event t v) (ground arith)

    outer :
        (IsTable next → length next.rows < max_table_rows → Ends (table_loop shared events next))
        → (b : Bool)
        → Ends (elim b [
          | true ↦ err invalid_document
          | false ↦ elim (leb max_table_rows (length next.rows)) [
            | true ↦ ok next
            | false ↦ table_loop shared events next
          ]
        ])
    outer again true = tt
    outer again false = inner again (leb max_table_rows (length next.rows)) refl

-- A table that is extracted has between 1 and 500 rows, each of at most 500 cells, and each cell at
-- most 256 characters, whatever the worksheet holds.
pub extract_rows_bounds :
    (shared : List Text) (events : List XmlEvent) (rows : List (List Text))
    → extract_rows shared events ≡ ok (some rows)
    → (0 < length rows) × (length rows ≤ max_table_rows) × All IsRow rows
unfolding extract_rows table_rows
extract_rows_bounds shared events rows e =
    go (table_loop shared events empty_table)
      (table_loop-Ends shared events empty_table (record { rows = tt; row = (omega arith, tt) })
        (omega arith))
      e
  where
    nonempty :
        (l : List (List Text))
        → All IsRow l
        → length l ≤ max_table_rows
        → table_rows l ≡ ok (some rows)
        → (0 < length rows) × (length rows ≤ max_table_rows) × All IsRow rows
    nonempty [] v h e = absurd (cc)
    nonempty (r ∷ rs) v h e =
        let same : r ∷ rs ≡ rows = ground arith in
        subst (λ l. (0 < length l) × (length l ≤ max_table_rows) × All IsRow l) same
          (omega arith, h, v)

    go :
        (r : Result RenderError Table)
        → Ends r
        → table_result r ≡ ok (some rows)
        → (0 < length rows) × (length rows ≤ max_table_rows) × All IsRow rows
    go (err x) v e = absurd (cc)
    go (ok t) v e = nonempty t.rows v.0.rows v.1 e
