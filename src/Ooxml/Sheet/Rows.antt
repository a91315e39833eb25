-- ===== src/Ooxml/Sheet/Rows.antt =====
-- What a row of the table holds.
use doc_bunker.Prelude.{
  ℕ, zero, suc, ◌<◌, ◌≡◌, refl, ap, some, List, [], ◌∷◌, arith, ltb, true, ◌&&◌, Bool-cases, inl,
  inr, Text,
}
use doc_bunker.Ooxml.Sheet.{set_cell, place, max_table_rows, max_table_cols}

set_cell-set_cell :
    (index : ℕ) (v w : Text) (row : List Text)
    → set_cell index w (set_cell index v row) ≡ set_cell index w row
unfolding set_cell
set_cell-set_cell zero v w [] = refl
set_cell-set_cell zero v w (cell ∷ row) = refl
set_cell-set_cell (suc index) v w [] = ap (◌∷◌ []) (set_cell-set_cell index v w [])
set_cell-set_cell (suc index) v w (cell ∷ row) = ap (◌∷◌ cell) (set_cell-set_cell index v w row)

-- Of two cells one after the other in a row of the worksheet that have the same row number, only
-- the last is kept, whatever their columns are.
pub place-place :
    (col col' index : ℕ) (v w : Text) (row : List Text)
    → index < max_table_rows
    → col' < max_table_cols
    → place (some (col', index)) w (place (some (col, index)) v row)
      ≡ place (some (col', index)) w row
unfolding place
place-place col col' index v w row h k =
    let inside : (ltb index max_table_rows && ltb col' max_table_cols) ≡ true = ground arith in
    rw inside (elim (Bool-cases (ltb index max_table_rows && ltb col max_table_cols)) [
      | inl fits ↦ rw fits (set_cell-set_cell index v w row)
      | inr over ↦ rw over refl
    ])
