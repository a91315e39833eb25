-- ===== src/RendererApi/Pages.antt =====
-- What the validation of crates/renderer-api/src/types.rs guarantees.
use doc_bunker.Prelude.{ℕ, ◌*◌, ◌≤◌, ◌<◌, ◌≡◌, ◌↔◌, arith, ok, length, usize_max}
use doc_bunker.RendererApi.Limits.{max_page_count, max_pixel_buffer}
use doc_bunker.RendererApi.Types.{
  DocumentFormat, DocumentInfo, RenderedPage, format_as_u8, format_from_u8, validate_info,
  validate_page,
}

-- The geometry of a page that may be shown.
pub record IsPage (p : RenderedPage) : Type 0 where
  pub wide : 0 < p.width
  pub wide_bound : p.width ≤ 4096
  pub high : 0 < p.height
  pub high_bound : p.height ≤ 4096
  pub rows : p.width * 4 ≤ p.stride
  pub bounded : p.stride * p.height ≤ max_pixel_buffer
  pub filled : length p.bytes ≡ p.stride * p.height

pub record IsInfo (i : DocumentInfo) : Type 0 where
  pub some_page : 0 < i.page_count
  pub count_bound : i.page_count ≤ max_page_count
  pub width_bound : i.width ≤ 4096
  pub height_bound : i.height ≤ 4096

stride_bound : (s h : ℕ) → 0 < h → s * h ≤ max_pixel_buffer → s ≤ usize_max
stride_bound s h a b = grind arith

-- `RenderedPage::validate` accepts a page exactly when both sides lie between 1 and 4096, a row of
-- pixels fits the stride, and the buffer holds exactly stride * height bytes, within the limit.
pub validate_page_iff : (p : RenderedPage) → (validate_page p ≡ ok tt) ↔ IsPage p
unfolding validate_page
validate_page_iff p = (λ e. ground arith, λ v. ground (arith, stride_bound p.stride p.height))

-- `DocumentInfo::validate` accepts exactly 1 to 100000 pages of at most 4096 by 4096.
pub validate_info_iff : (i : DocumentInfo) → (validate_info i ≡ ok tt) ↔ IsInfo i
unfolding validate_info
validate_info_iff i = (λ e. ground arith, λ v. ground arith)

-- The wire code of a format determines it, and no other code is accepted.
pub format_from_u8-as_u8 : (f : DocumentFormat) → format_from_u8 (format_as_u8 f) ≡ ok f
unfolding format_from_u8
format_from_u8-as_u8 f = ground arith

pub format_from_u8_iff :
    (n : ℕ) (f : DocumentFormat) → (format_from_u8 n ≡ ok f) ↔ (n ≡ format_as_u8 f)
unfolding format_from_u8
format_from_u8_iff n f = (λ e. ground arith, λ e. ground arith)
