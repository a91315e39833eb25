-- ===== src/Image/Scaling/Bounds.antt =====
-- Indices and sample values of the scaling loops.
use doc_bunker.Prelude.{
  ℕ, zero, suc, ◌+◌, ◌-◌, ◌*◌, ◌/◌, ◌%◌, ◌≤◌, ◌<◌, min, ◌≡◌, refl, ap, List, [], ◌∷◌, ◌++◌, some,
  arith, length, length-append, get_elem?, get_elem?_of_lt, ok,
}
use mathlib.Core.List.{append_assoc}
use doc_bunker.Image.Scaling.{unit, step, blend, mix, byte_at, channel, pixel, row, rows}

abbrev IsBetween : ℕ → ℕ → ℕ → Type 0
IsBetween lo hi n = (lo ≤ n) × (n ≤ hi)

-- Each channel of each pixel lies in the range given for that channel.
abbrev pub Within : (ℕ → ℕ) → (ℕ → ℕ) → List ℕ → Type 0
Within lo hi (r ∷ g ∷ b ∷ a ∷ rest) =
    ((lo 0 ≤ r) × (r ≤ hi 0))
    × ((lo 1 ≤ g) × (g ≤ hi 1))
    × ((lo 2 ≤ b) × (b ≤ hi 2))
    × ((lo 3 ≤ a) × (a ≤ hi 3))
    × Within lo hi rest
Within lo hi bytes = Unit {0}

weights :
    (a b f g lo hi : ℕ)
    → lo ≤ a
    → a ≤ hi
    → lo ≤ b
    → b ≤ hi
    → (lo * (f + g) ≤ a * f + b * g) × (a * f + b * g ≤ hi * (f + g))
weights a b f g lo hi h1 h2 h3 h4 = grind arith

blend_bounds :
    (a b frac lo hi : ℕ)
    → frac ≤ unit
    → lo ≤ a
    → a ≤ hi
    → lo ≤ b
    → b ≤ hi
    → IsBetween (lo * unit) (hi * unit) (blend a b frac)
unfolding blend
blend_bounds a b frac lo hi hf h1 h2 h3 h4 =
    let e : unit - frac + frac ≡ unit = omega arith in
    rw e at (weights a b (unit - frac) frac lo hi h1 h2 h3 h4)

mix_bounds :
    (s00 s01 s10 s11 fx fy lo hi : ℕ)
    → fx < unit
    → fy < unit
    → IsBetween lo hi s00
    → IsBetween lo hi s01
    → IsBetween lo hi s10
    → IsBetween lo hi s11
    → IsBetween lo hi (mix s00 s01 s10 s11 fx fy)
unfolding mix
mix_bounds s00 s01 s10 s11 fx fy lo hi hx hy h00 h01 h10 h11 = omega (
  arith,
  blend_bounds s00 s01 fx lo hi (omega arith) h00.0 h00.1 h01.0 h01.1,
  blend_bounds s10 s11 fx lo hi (omega arith) h10.0 h10.1 h11.0 h11.1,
  blend_bounds (blend s00 s01 fx) (blend s10 s11 fx) fy (lo * unit) (hi * unit),
)

pub step_bound : (src dst : ℕ) → 0 < dst → (dst - 1) * step src dst ≤ (src - 1) * unit
unfolding step
step_bound src dst h = grind arith

Within-get_elem? :
    (lo hi : ℕ → ℕ) (n k c i v : ℕ) (xs : List ℕ)
    → length xs ≡ n * 4
    → i ≡ k * 4 + c
    → k < n
    → c < 4
    → Within lo hi xs
    → get_elem? xs i ≡ some v
    → IsBetween (lo c) (hi c) v
Within-get_elem? lo hi n k c i v [] hl he hk hc w e = cc
Within-get_elem? lo hi n k c i v (r ∷ []) hl he hk hc w e = absurd (omega arith)
Within-get_elem? lo hi n k c i v (r ∷ g ∷ []) hl he hk hc w e = absurd (omega arith)
Within-get_elem? lo hi n k c i v (r ∷ g ∷ b ∷ []) hl he hk hc w e = absurd (omega arith)
Within-get_elem? lo hi n k c zero v (r ∷ g ∷ b ∷ a ∷ rest) hl he hk hc w e =
    let z : c ≡ 0 = omega arith in rw z (ground arith)
Within-get_elem? lo hi n k c (suc zero) v (r ∷ g ∷ b ∷ a ∷ rest) hl he hk hc w e =
    let z : c ≡ 1 = omega arith in rw z (ground arith)
Within-get_elem? lo hi n k c (suc (suc zero)) v (r ∷ g ∷ b ∷ a ∷ rest) hl he hk hc w e =
    let z : c ≡ 2 = omega arith in rw z (ground arith)
Within-get_elem? lo hi n k c (suc (suc (suc zero))) v (r ∷ g ∷ b ∷ a ∷ rest) hl he hk hc w e =
    let z : c ≡ 3 = omega arith in rw z (ground arith)
Within-get_elem? lo hi n k c (suc (suc (suc (suc i)))) v (r ∷ g ∷ b ∷ a ∷ rest) hl he hk hc w e =
    Within-get_elem? lo hi (n - 1) (k - 1) c i v rest (omega arith) (omega arith) (omega arith) hc
      w.4 e

next :
    (left f step top : ℕ)
    → 0 < left
    → f + (suc left - 1) * step ≤ top
    → f + step + (left - 1) * step ≤ top
next left f step top pos b = grind arith

index_bound : (x y w h c : ℕ) → x < w → y < h → c < 4 → (y * w + x) * 4 + c < w * h * 4
index_bound x y w h c hx hy hc = grind arith

pixel_bound : (x y w h : ℕ) → x < w → y < h → y * w + x < w * h
pixel_bound x y w h hx hy = grind arith

-- A source of the announced size, with every channel in its range.
module _ (src : List ℕ) (w h : ℕ) (filled : length src ≡ w * h * 4) (wide : 0 < w) (high : 0 < h)
    (lo hi : ℕ → ℕ) (within : Within lo hi src) where
  byte_at_bounds :
      (c x y : ℕ)
      → x < w
      → y < h
      → c < 4
      → (v : ℕ) × (byte_at src w h c x y ≡ ok v) × IsBetween (lo c) (hi c) v
  unfolding byte_at
  byte_at_bounds c x y hx hy hc =
      let (v, e) =
        get_elem?_of_lt src ((y * w + x) * 4 + c) (omega (arith, index_bound x y w h c hx hy hc)) in
      (
        v,
        rw e refl,
        Within-get_elem? lo hi (w * h) (y * w + x) c ((y * w + x) * 4 + c) v src filled refl
            (pixel_bound x y w h hx hy) hc within e,
      )

  module _ (narrow : (c : ℕ) → hi c ≤ 255) where
    channel_bounds :
        (fx fy c : ℕ)
        → fx ≤ (w - 1) * unit
        → fy ≤ (h - 1) * unit
        → c < 4
        → (v : ℕ) × (channel src w h fx fy c ≡ ok v) × IsBetween (lo c) (hi c) v
    unfolding channel
    channel_bounds fx fy c hx hy hc =
        let x0 : ℕ = fx / unit in
        let x1 = min (x0 + 1) (w - 1) in
        let y0 : ℕ = fy / unit in
        let y1 = min (y0 + 1) (h - 1) in
        let (a, ea, ba) = byte_at_bounds c x0 y0 (omega arith) (omega arith) hc in
        let (b, eb, bb) = byte_at_bounds c x1 y0 (omega arith) (omega arith) hc in
        let (d, ed, bd) = byte_at_bounds c x0 y1 (omega arith) (omega arith) hc in
        let (e, ee, be) = byte_at_bounds c x1 y1 (omega arith) (omega arith) hc in
        let m =
          mix_bounds a b d e (fx % unit) (fy % unit) (lo c) (hi c) (omega arith) (omega arith) ba bb
            bd be in
        (
          mix a b d e (fx % unit) (fy % unit),
          rw (ea, eb, ed, ee) (ap ok (omega (arith, narrow c))),
          m,
        )

    pixel_lem :
        (fx fy : ℕ)
        → fx ≤ (w - 1) * unit
        → fy ≤ (h - 1) * unit
        → (p : List ℕ) × (pixel src w h fx fy ≡ ok p)
          × (length p ≡ 4)
          × ((rest : List ℕ) → Within lo hi rest → Within lo hi (p ++ rest))
    unfolding pixel
    pixel_lem fx fy hx hy =
        let (r, er, br) = channel_bounds fx fy 0 hx hy (omega arith) in
        let (g, eg, bg) = channel_bounds fx fy 1 hx hy (omega arith) in
        let (b, eb, bb) = channel_bounds fx fy 2 hx hy (omega arith) in
        let (a, ea, ba) = channel_bounds fx fy 3 hx hy (omega arith) in
        (r ∷ g ∷ b ∷ a ∷ [], rw (er, eg, eb, ea) refl, refl, λ rest wr. (br, bg, bb, ba, wr))

    row_lem :
        (step_x fy left fx : ℕ)
        → (0 < left → fx + (left - 1) * step_x ≤ (w - 1) * unit)
        → fy ≤ (h - 1) * unit
        → (p : List ℕ) × (row src w h step_x fy left fx ≡ ok p)
          × (length p ≡ left * 4)
          × ((rest : List ℕ) → Within lo hi rest → Within lo hi (p ++ rest))
    unfolding row
    row_lem step_x fy zero fx hx hy = ([], refl, refl, λ rest wr. wr)
    row_lem step_x fy (suc left) fx hx hy =
        let b = hx (omega arith) in
        let (p, ep, lp, wp) = pixel_lem fx fy (grind arith) hy in
        let (q, eq, lq, wq) =
          row_lem step_x fy left (fx + step_x) (λ pos. next left fx step_x ((w - 1) * unit) pos b)
            hy in
        (
          p ++ q,
          rw (ep, eq) refl,
          omega (arith, length-append p q),
          λ rest wr. rw append_assoc (wp (q ++ rest) (wq rest wr)),
        )

    pub rows_lem :
        (step_x step_y dst_w left fy : ℕ)
        → (0 < dst_w → (dst_w - 1) * step_x ≤ (w - 1) * unit)
        → (0 < left → fy + (left - 1) * step_y ≤ (h - 1) * unit)
        → (p : List ℕ) × (rows src w h step_x step_y dst_w left fy ≡ ok p)
          × (length p ≡ left * (dst_w * 4))
          × Within lo hi p
    unfolding rows
    rows_lem step_x step_y dst_w zero fy hx hy = ([], refl, omega arith, tt)
    rows_lem step_x step_y dst_w (suc left) fy hx hy =
        let b = hy (omega arith) in
        let (p, ep, lp, wp) =
          row_lem step_x fy dst_w 0 (λ pos. omega (arith, hx pos)) (grind arith) in
        let (q, eq, lq, wq) =
          rows_lem step_x step_y dst_w left (fy + step_y) hx
            (λ pos. next left fy step_y ((h - 1) * unit) pos b) in
        (p ++ q, rw (ep, eq) refl, omega (arith, length-append p q), wp q wq)
