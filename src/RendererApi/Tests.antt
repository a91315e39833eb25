-- ===== src/RendererApi/Tests.antt =====
-- Runs of the validation of crates/renderer-api, and the theorems at concrete values.
use doc_bunker.Prelude.{◌≡◌, refl, [], ◌∷◌, ok, err}
use doc_bunker.RendererApi.Error.{resource_limit_exceeded}
use doc_bunker.RendererApi.Limits.{validate_render_target}
use doc_bunker.RendererApi.Types.{rgba8888, RenderedPage, validate_page}

abbrev one_pixel : RenderedPage
one_pixel = record {
  width = 1;
  height = 1;
  stride = 4;
  pixel_format = rgba8888;
  bytes = 1 ∷ 2 ∷ 3 ∷ 4 ∷ [];
}

one_pixel_accepted : validate_page one_pixel ≡ ok tt
unfolding validate_page
one_pixel_accepted = refl

zero_width_refused : validate_render_target 0 7 ≡ err resource_limit_exceeded
unfolding validate_render_target
zero_width_refused = refl
