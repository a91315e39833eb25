-- ===== src/RendererApi/Limits.antt =====
-- crates/renderer-api/src/limits.rs: the hard limits, and arithmetic on sizes that is checked.
use doc_bunker.Prelude.{
  ℕ, ◌*◌, ◌^◌, ◌≤◌, ◌<◌, ◌≡◌, ◌↔◌, Option, none, some, List, ◌||◌, arith, ltb, leb, ◌==◌,
  if◌then◌else◌, Result, ok, err, length, to_usize, usize_max, checked_mul,
}
use doc_bunker.RendererApi.Error.{RenderError, resource_limit_exceeded, document_too_large}

abbrev pub max_document_size : ℕ
max_document_size = 64 * 1024 * 1024

abbrev pub max_page_width : ℕ
max_page_width = 4096

abbrev pub max_page_height : ℕ
max_page_height = 4096

abbrev pub max_page_count : ℕ
max_page_count = 100000

abbrev pub max_pixel_buffer : ℕ
max_pixel_buffer = max_page_width * max_page_height * 4

abbrev pub rgba_bytes_per_pixel : ℕ
rgba_bytes_per_pixel = 4

-- The `?` of an `Option`.
infixl 5 ◌>>=◌
abbrev ◌>>=◌ {ℓ κ} : {A : Type ℓ} {B : Type κ} → Option A → (A → Option B) → Option B
none >>= f = none
some a >>= f = f a

unfoldable pub pixel_buffer_size : ℕ → ℕ → ℕ → Option ℕ
pixel_buffer_size width height bytes_per_pixel = do
  w ← to_usize width
  h ← to_usize height
  bpp ← to_usize bytes_per_pixel
  n ← checked_mul usize_max w h
  checked_mul usize_max n bpp

fits : Option ℕ → Result RenderError (Unit {0})
fits none = err resource_limit_exceeded
fits (some n) = if leb n max_pixel_buffer then ok tt else err resource_limit_exceeded

unfoldable pub validate_render_target : ℕ → ℕ → Result RenderError (Unit {0})
unfolding fits pixel_buffer_size
validate_render_target width height =
    if width == 0 || height == 0
    then err resource_limit_exceeded
    else if ltb max_page_width width || ltb max_page_height height
    then err resource_limit_exceeded
    else fits (pixel_buffer_size width height rgba_bytes_per_pixel)

unfoldable pub validate_document_size : List ℕ → Result RenderError (Unit {0})
validate_document_size bytes =
    if ltb max_document_size (length bytes) then err document_too_large else ok tt

product_fits : (w h : ℕ) → w < 2 ^ 32 → h < 2 ^ 32 → w * h ≤ usize_max
product_fits w h hw hh = grind arith

-- On 32-bit operands the checked size is the product, whatever the operands, exactly when the
-- product fits 64 bits.
pub pixel_buffer_size_lem :
    (w h b : ℕ)
    → w < 2 ^ 32
    → h < 2 ^ 32
    → b < 2 ^ 32
    → pixel_buffer_size w h b ≡ (if leb (w * h * b) usize_max then some (w * h * b) else none)
unfolding pixel_buffer_size
pixel_buffer_size_lem w h b hw hh hb = ground (arith, product_fits w h)

abbrev pub IsTarget : ℕ → ℕ → Type 0
IsTarget width height = (0 < width) × (width ≤ 4096) × (0 < height) × (height ≤ 4096)

area_bound : (w h : ℕ) → w ≤ 4096 → h ≤ 4096 → w * h ≤ 4096 * 4096
area_bound w h hw hh = grind arith

-- A render target is accepted exactly when both sides lie between 1 and 4096.
pub validate_render_target_iff : (w h : ℕ) → (validate_render_target w h ≡ ok tt) ↔ IsTarget w h
unfolding validate_render_target
validate_render_target_iff w h = (λ e. ground arith, λ t. ground (arith, area_bound w h))
