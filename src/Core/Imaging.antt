-- ===== src/Core/Imaging.antt =====
-- crates/core/src/imaging.rs: what is handed to the PNG encoder. The encoder of the png package is
-- the parameter `encode` (width, height, packed pixels); none is an error of its own.
use doc_bunker.Prelude.{
  ℕ, zero, suc, ◌+◌, ◌-◌, ◌*◌, ◌≤◌, ◌<◌, ◌≡◌, refl, ap, ◌∙◌, Option, none, some, List, [], ◌∷◌,
  ◌++◌, arith, leb, ◌==◌, if◌then◌else◌, Result, ok, map_err, ok_or, ◌>>=◌, ◌>>◌, length,
  length-append, length-take, length-drop, take, drop, usize_max, checked_add, checked_mul,
  Bool-cases, ==_iff, inl, inr,
}
use doc_bunker.RendererApi.Limits.{max_pixel_buffer}
use doc_bunker.RendererApi.Types.{
  PixelFormat, rgba8888, RenderedPage, bytes_per_pixel, validate_page,
}
use doc_bunker.RendererApi.Pages.{IsPage}
use doc_bunker.Core.Error.{DocBunkerError, from_render, internal_error}

-- `bytes.get(start..end)`
abbrev pub get_range : List ℕ → ℕ → ℕ → Option (List ℕ)
get_range bytes from until =
    if leb until (length bytes) then some (take (until - from) (drop from bytes)) else none

-- The row at `y`; its place in the packed buffer is behind the rows before it.
unfoldable pub copy_row : List ℕ → ℕ → ℕ → ℕ → Result DocBunkerError (List ℕ)
copy_row bytes stride row_len y = do
  src_start ← ok_or internal_error (checked_mul usize_max y stride)
  src_end ← ok_or internal_error (checked_add src_start row_len)
  dst_start ← ok_or internal_error (checked_mul usize_max y row_len)
  ok_or internal_error (get_range bytes src_start src_end)

-- The loop over the rows, by the rows left.
unfoldable pub copy_rows : List ℕ → ℕ → ℕ → ℕ → ℕ → Result DocBunkerError (List ℕ)
copy_rows bytes stride row_len zero y = ok []
copy_rows bytes stride row_len (suc left) y = do
  row ← copy_row bytes stride row_len y
  rest ← copy_rows bytes stride row_len left (suc y)
  ok (row ++ rest)

unfoldable pub packed : RenderedPage → Result DocBunkerError (List ℕ)
packed page = do
  row_len ←
      ok_or internal_error (checked_mul usize_max page.width (bytes_per_pixel page.pixel_format))
  if page.stride == row_len
      then ok page.bytes
      else copy_rows page.bytes page.stride row_len page.height 0

-- `Rgba8888` is the only pixel format, so the test of the format never fails.
unfoldable pub encode_rgba_to_png :
    (ℕ → ℕ → List ℕ → Option (List ℕ)) → RenderedPage → Result DocBunkerError (List ℕ)
encode_rgba_to_png encode page = do
  map_err from_render (validate_page page)
  pixels ← packed page
  ok_or internal_error (encode page.width page.height pixels)

row_end : (y h stride row : ℕ) → y < h → row ≤ stride → y * stride + row ≤ stride * h
row_end y h stride row p q = grind arith

row_start : (y h stride row : ℕ) → y < h → row ≤ stride → y * row ≤ stride * h
row_start y h stride row p q = grind arith

copy_row_lem :
    (bytes : List ℕ) (stride row h y : ℕ)
    → length bytes ≡ stride * h
    → stride * h ≤ max_pixel_buffer
    → row ≤ stride
    → y < h
    → copy_row bytes stride row y ≡ ok (take row (drop (y * stride) bytes))
unfolding copy_row
copy_row_lem bytes stride row h y l b r lt =
    let same : y * stride + row - y * stride ≡ row = omega arith in
    ground (arith, row_end y h stride row, row_start y h stride row)

take-row : (r rest : List ℕ) → take (length r) (r ++ rest) ≡ r
take-row [] rest = refl
take-row (b ∷ r) rest = ap (◌∷◌ b) (take-row r rest)

drop-row : (r rest : List ℕ) (n : ℕ) → drop (length r + n) (r ++ rest) ≡ drop n rest
drop-row [] rest n = let e : 0 + n ≡ n = omega arith in rw e refl
drop-row (b ∷ r) rest n =
    let e : suc (length r) + n ≡ suc (length r + n) = omega arith in rw e (drop-row r rest n)

-- A packed buffer holds rows one behind the other, without the padding of the source.
abbrev pub HoldsRows : List ℕ → ℕ → ℕ → ℕ → ℕ → List ℕ → Type 0
HoldsRows bytes stride row y left out =
    (k : ℕ) → k < left → take row (drop (k * row) out) ≡ take row (drop ((y + k) * stride) bytes)

module _ (bytes : List ℕ) (stride row h : ℕ) (filled : length bytes ≡ stride * h)
    (bounded : stride * h ≤ max_pixel_buffer) (narrow : row ≤ stride) where
  rows_behind :
      (y left : ℕ) (r rest : List ℕ)
      → length r ≡ row
      → r ≡ take row (drop (y * stride) bytes)
      → HoldsRows bytes stride row (suc y) left rest
      → HoldsRows bytes stride row y (suc left) (r ++ rest)
  rows_behind y left r rest l e hold zero lt =
      let z : 0 * row ≡ 0 = omega arith in
      let p : y + 0 ≡ y = omega arith in rw (z, p) (rw (← l) (take-row r rest) ∙ e)
  rows_behind y left r rest l e hold (suc k) lt =
      let z : suc k * row ≡ length r + k * row = omega (arith, ap (λ (t : ℕ). t) l) in
      let p : y + suc k ≡ suc y + k = omega arith in
      rw (z, p, drop-row r rest (k * row)) (hold k (omega arith))

  copy_rows_lem :
      (left y : ℕ)
      → y + left ≤ h
      → (out : List ℕ) × (copy_rows bytes stride row left y ≡ ok out)
        × (length out ≡ left * row)
        × HoldsRows bytes stride row y left out
  unfolding copy_rows
  copy_rows_lem zero y b = ([], refl, omega arith, λ k lt. absurd (omega arith))
  copy_rows_lem (suc left) y b =
      let (rest, e, l, hold) = copy_rows_lem left (suc y) (omega arith) in
      let r = take row (drop (y * stride) bytes) in
      let n : length r ≡ row = omega (
        arith,
        length-take row (drop (y * stride) bytes),
        length-drop (y * stride) bytes,
        row_end y h stride row (omega arith) narrow,
      ) in
      (
        r ++ rest,
        rw (copy_row_lem bytes stride row h y filled bounded narrow (omega arith), e) refl,
        omega (arith, length-append r rest),
        rows_behind y left r rest n refl hold,
      )

four_bytes : (f : PixelFormat) → bytes_per_pixel f ≡ 4
four_bytes rgba8888 = refl

row_fits : (w s h : ℕ) → w * 4 ≤ s → 0 < h → s * h ≤ max_pixel_buffer → w * 4 ≤ usize_max
row_fits w s h a b c = grind arith

-- A valid page is packed without an error: the buffer has four bytes for each pixel, and its rows
-- are those of the page without their padding.
pub packed-HoldsRows :
    (p : RenderedPage)
    → IsPage p
    → (out : List ℕ) × (packed p ≡ ok out)
      × (length out ≡ p.height * (p.width * 4))
      × HoldsRows p.bytes p.stride (p.width * 4) 0 p.height out
unfolding packed
packed-HoldsRows p v =
    let four = four_bytes p.pixel_format in
    let fits = row_fits p.width p.stride p.height v.rows v.high v.bounded in
    elim (Bool-cases (p.stride == p.width * 4)) [
      | inl same ↦
          let e = (==_iff _ _).0 same in
          let filled = v.filled in
          (
            p.bytes,
            ground arith,
            grind arith,
            λ k lt. let z : 0 + k ≡ k = omega arith in rw z (rw e refl),
          )
      | inr other ↦
          let (out, e, l, hold) =
            copy_rows_lem p.bytes p.stride (p.width * 4) p.height v.filled v.bounded v.rows p.height
              0 (omega arith) in
          (out, ground arith, l, hold)
    ]
