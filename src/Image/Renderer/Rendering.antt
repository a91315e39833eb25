-- ===== src/Image/Renderer/Rendering.antt =====
-- The pages of an opened image: `render_page` of crates/renderer-image/src/image.rs with the
-- validation of crates/renderer-api.
use doc_bunker.Prelude.{ℕ, ◌*◌, ◌≤◌, ◌≡◌, refl, List, [], ◌∷◌, arith, ok, length}
use doc_bunker.RendererApi.Limits.{IsTarget, validate_render_target_iff, max_pixel_buffer}
use doc_bunker.RendererApi.Types.{RenderOptions, RenderedPage, rgba8888}
use doc_bunker.RendererApi.Pages.{IsPage}
use doc_bunker.Image.Scaling.{scale_rgba}
use doc_bunker.Image.Scaling.Bounds.{Within}
use doc_bunker.Image.Scaling.Results.{scale_rgba-Within}
use doc_bunker.Image.Renderer.{RgbaImage, ImageRenderer, render_page}
use doc_bunker.Image.Renderer.Decoding.{AreBytes, IsImage, IsOpened}

pub AreBytes-Within : (bytes : List ℕ) → AreBytes bytes → Within (λ _. 0) (λ _. 255) bytes
AreBytes-Within [] v = tt
AreBytes-Within (r ∷ []) v = tt
AreBytes-Within (r ∷ g ∷ []) v = tt
AreBytes-Within (r ∷ g ∷ b ∷ []) v = tt
AreBytes-Within (r ∷ g ∷ b ∷ a ∷ rest) v =
    let rest_range = AreBytes-Within rest v.1.1.1.1 in
    (
      (omega arith, omega (arith, v.0)),
      (omega arith, omega (arith, v.1.0)),
      (omega arith, omega (arith, v.1.1.0)),
      (omega arith, omega (arith, v.1.1.1.0)),
      rest_range,
    )

area : (w h : ℕ) → w ≤ 4096 → h ≤ 4096 → w * h * 4 ≤ max_pixel_buffer
area w h a b = grind arith

scaled :
    (i : RgbaImage) (w h : ℕ)
    → IsImage i
    → IsTarget w h
    → (out : List ℕ) × (scale_rgba i.bytes i.width i.height w h ≡ ok out) × (length out ≡ w * h * 4)
scaled i w h v t =
    let (a, b, c, d) = v.target in
    let (out, e, l, in_range) =
      scale_rgba-Within i.bytes i.width i.height w h (λ _. 0) (λ _. 255) a (omega arith) c
        (omega arith) (omega arith) (omega arith) v.filled
        (let small = area i.width i.height b d in let filled = v.filled in omega arith)
        (area w h (omega arith) (omega arith)) (λ _. omega arith)
        (AreBytes-Within i.bytes v.values) in
    (out, e, l)

abbrev page_of : RenderOptions → List ℕ → RenderedPage
page_of options pixels = record {
  width = options.target_width;
  height = options.target_height;
  stride = options.target_width * 4;
  pixel_format = rgba8888;
  bytes = pixels;
}

same_area : (w h : ℕ) → w * h * 4 ≡ w * 4 * h
same_area w h = grind arith

page_of-IsPage :
    (options : RenderOptions) (out : List ℕ)
    → IsTarget options.target_width options.target_height
    → length out ≡ options.target_width * options.target_height * 4
    → IsPage (page_of options out)
page_of-IsPage options out t l = ground (
  arith,
  area options.target_width options.target_height,
  same_area options.target_width options.target_height,
)

-- An opened image draws page 0 at every size within the page limits: the result is a valid page
-- of exactly the size asked for, so the worker's check of the page never refuses it.
pub render_page-IsPage :
    (r : ImageRenderer) (options : RenderOptions)
    → IsOpened r
    → IsTarget options.target_width options.target_height
    → (p : RenderedPage) × (render_page 0 options r ≡ ok p)
      × IsPage p
      × (p.width ≡ options.target_width)
      × (p.height ≡ options.target_height)
unfolding render_page
render_page-IsPage r options v t =
    let w = options.target_width in
    let h = options.target_height in
    let (out, e, l) = scaled r.rgba w h v.image t in
    let checked = (validate_render_target_iff w h).1 t in
    (
      page_of options out,
      rw (checked, e) (ground arith),
      page_of-IsPage options out t l,
      refl,
      refl,
    )
