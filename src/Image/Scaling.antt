-- ===== src/Image/Scaling.antt =====
-- Bilinear scaling of packed RGBA (crates/renderer-image/src/scaling.rs). The output is written
-- at growing positions, so it is built by appending. An index out of range is a panic.
pub mod Bounds
pub mod Results
use doc_bunker.Prelude.{
  ℕ, zero, suc, ◌+◌, ◌-◌, ◌*◌, ◌/◌, ◌%◌, min, List, [], ◌∷◌, ◌++◌, ◌&&◌, ◌||◌, not, ltb, ◌==◌,
  if◌then◌else◌, Result, ok, err, ◌>>=◌, ◌>>◌, ok_or, Stop, failed, lift_stop, expect, length,
  get_elem?,
}
use doc_bunker.RendererApi.Error.{
  RenderError, invalid_document, resource_limit_exceeded, rendering_failed,
}
use doc_bunker.RendererApi.Limits.{pixel_buffer_size, max_pixel_buffer, rgba_bytes_per_pixel}

-- 16.16 fixed point.
abbrev pub unit : ℕ
unit = 65536

unfoldable pub step : ℕ → ℕ → ℕ
step src dst = if ltb 1 dst then (src - 1) * unit / (dst - 1) else 0

-- Two samples, weighted by a fraction of `unit`.
unfoldable pub blend : ℕ → ℕ → ℕ → ℕ
blend a b frac = a * (unit - frac) + b * frac

unfoldable pub mix : ℕ → ℕ → ℕ → ℕ → ℕ → ℕ → ℕ
unfolding blend
mix s00 s01 s10 s11 fx_frac fy_frac =
    blend (blend s00 s01 fx_frac) (blend s10 s11 fx_frac) fy_frac / 4294967296

module _ (src : List ℕ) (src_w src_h : ℕ) where
  -- The byte of channel `c` at a column and a row.
  unfoldable pub byte_at : ℕ → ℕ → ℕ → Result (Stop RenderError) ℕ
  byte_at c x y = expect (get_elem? src ((y * src_w + x) * 4 + c))

  unfoldable pub channel : ℕ → ℕ → ℕ → Result (Stop RenderError) ℕ
  unfolding byte_at mix
  channel fx fy c = do
    let x0 = fx / unit
    let x1 = min (x0 + 1) (src_w - 1)
    let y0 = fy / unit
    let y1 = min (y0 + 1) (src_h - 1)
    s00 ← byte_at c x0 y0
    s01 ← byte_at c x1 y0
    s10 ← byte_at c x0 y1
    s11 ← byte_at c x1 y1
    ok (mix s00 s01 s10 s11 (fx % unit) (fy % unit) % 256)

  unfoldable pub pixel : ℕ → ℕ → Result (Stop RenderError) (List ℕ)
  unfolding channel
  pixel fx fy = do
    r ← channel fx fy 0
    g ← channel fx fy 1
    b ← channel fx fy 2
    a ← channel fx fy 3
    ok (r ∷ g ∷ b ∷ a ∷ [])

  -- The loop on `dx`, by the columns left.
  unfoldable pub row : ℕ → ℕ → ℕ → ℕ → Result (Stop RenderError) (List ℕ)
  unfolding pixel
  row step_x fy zero fx = ok []
  row step_x fy (suc left) fx = do
    p ← pixel fx fy
    rest ← row step_x fy left (fx + step_x)
    ok (p ++ rest)

  -- The loop on `dy`, by the rows left.
  unfoldable pub rows : ℕ → ℕ → ℕ → ℕ → ℕ → Result (Stop RenderError) (List ℕ)
  unfolding row
  rows step_x step_y dst_w zero fy = ok []
  rows step_x step_y dst_w (suc left) fy = do
    r ← row step_x fy dst_w 0
    rest ← rows step_x step_y dst_w left (fy + step_y)
    ok (r ++ rest)

  unfoldable pub scale_rgba : ℕ → ℕ → Result (Stop RenderError) (List ℕ)
  scale_rgba dst_w dst_h = if src_w == 0 || src_h == 0 then err (failed invalid_document) else do
    src_size ←
        lift_stop
          (ok_or resource_limit_exceeded (pixel_buffer_size src_w src_h rgba_bytes_per_pixel))
    if not (length src == src_size) then err (failed rendering_failed) else do
      dst_size ←
          lift_stop
            (ok_or resource_limit_exceeded (pixel_buffer_size dst_w dst_h rgba_bytes_per_pixel))
      if ltb max_pixel_buffer dst_size
          then err (failed resource_limit_exceeded)
          else if src_w == dst_w && src_h == dst_h
          then ok src
          else rows (step src_w dst_w) (step src_h dst_h) dst_w dst_h 0
