-- ===== src/Image/Scaling/Results.antt =====
-- What scaling returns, for sources and targets of every size.
use doc_bunker.Prelude.{
  ℕ, zero, suc, ==_iff, ◌+◌, some, ◌-◌, ◌*◌, ◌^◌, ◌≤◌, ◌<◌, ◌≡◌, ◌≢◌, List, arith, ok, err, inl,
  inr, Bool-cases, ◌==◌, ◌&&◌, panicked, length, usize_max,
}
use doc_bunker.RendererApi.Limits.{pixel_buffer_size, pixel_buffer_size_lem, max_pixel_buffer}
use doc_bunker.Image.Scaling.{unit, step, scale_rgba}
use doc_bunker.Image.Scaling.Bounds.{Within, step_bound, rows_lem}

target_step : (src dst : ℕ) → 0 < dst → 0 + (dst - 1) * step src dst ≤ (src - 1) * unit
target_step src dst h = omega (arith, step_bound src dst h)

size_some :
    (w h : ℕ)
    → w < 2 ^ 32
    → h < 2 ^ 32
    → w * h * 4 ≤ usize_max
    → pixel_buffer_size w h 4 ≡ some (w * h * 4)
size_some w h hw hh b = ground (arith, pixel_buffer_size_lem w h 4 hw hh (omega arith))

-- Scaling a packed buffer of the announced size to a target of at most the largest pixel buffer
-- succeeds, fills exactly the target, and keeps each of the four channels inside any range that it
-- had in the source: an opaque image stays opaque, one of a single colour keeps that colour.
pub scale_rgba-Within :
    (src : List ℕ) (src_w src_h dst_w dst_h : ℕ) (lo hi : ℕ → ℕ)
    → 0 < src_w
    → src_w < 2 ^ 32
    → 0 < src_h
    → src_h < 2 ^ 32
    → dst_w < 2 ^ 32
    → dst_h < 2 ^ 32
    → length src ≡ src_w * src_h * 4
    → length src ≤ usize_max
    → dst_w * dst_h * 4 ≤ max_pixel_buffer
    → ((c : ℕ) → hi c ≤ 255)
    → Within lo hi src
    → (out : List ℕ) × (scale_rgba src src_w src_h dst_w dst_h ≡ ok out)
      × (length out ≡ dst_w * dst_h * 4)
      × Within lo hi out
unfolding scale_rgba
scale_rgba-Within src src_w src_h dst_w dst_h lo hi hw bw hh bh dw dh filled fits small narrow
      within =
    let (out, e, l, w) =
      rows_lem src src_w src_h filled hw hh lo hi within narrow (step src_w dst_w)
        (step src_h dst_h) dst_w dst_h 0 (λ pos. step_bound src_w dst_w pos)
        (λ pos. target_step src_h dst_h pos) in
    elim (Bool-cases (src_w == dst_w && src_h == dst_h)) [
      | inl same ↦
          (src, ground (arith, size_some src_w src_h, size_some dst_w dst_h), ground arith, within)
      | inr other ↦
          (out, ground (arith, size_some src_w src_h, size_some dst_w dst_h), omega arith, w)
    ]

-- With bytes below 256, scaling never panics, whatever the sizes: each index is in range.
pub scale_rgba_never_panics :
    (src : List ℕ) (src_w src_h dst_w dst_h : ℕ)
    → src_w < 2 ^ 32
    → src_h < 2 ^ 32
    → dst_w < 2 ^ 32
    → dst_h < 2 ^ 32
    → Within (λ _. 0) (λ _. 255) src
    → scale_rgba src src_w src_h dst_w dst_h ≢ err panicked
unfolding scale_rgba
scale_rgba_never_panics src zero src_h dst_w dst_h bw bh dw dh within = λ e. cc
scale_rgba_never_panics src (suc src_w) zero dst_w dst_h bw bh dw dh within = λ e. ground arith
scale_rgba_never_panics src (suc w) (suc h) dst_w dst_h bw bh dw dh within = λ bad.
    elim (Bool-cases (length src == suc w * suc h * 4)) [
      | inl same ↦
          let (out, e, l, in_range) =
            rows_lem src (suc w) (suc h) ((==_iff _ _).0 same) (omega arith) (omega arith) (λ _. 0)
              (λ _. 255) within (λ c. omega arith) (step (suc w) dst_w) (step (suc h) dst_h) dst_w
              dst_h 0 (λ pos. step_bound (suc w) dst_w pos)
              (λ pos. target_step (suc h) dst_h pos) in
          ground
            (arith, pixel_buffer_size_lem (suc w) (suc h) 4, pixel_buffer_size_lem dst_w dst_h 4)
      | inr other ↦
          ground
            (arith, pixel_buffer_size_lem (suc w) (suc h) 4, pixel_buffer_size_lem dst_w dst_h 4)
    ]
