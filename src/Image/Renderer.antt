-- ===== src/Image/Renderer.antt =====
-- Decoding and the renderer of raster images (crates/renderer-image/src/image.rs). The packages png,
-- jpeg-decoder, webp and image are the fields of `Decoders`; none is an error of theirs.

pub mod Decoding
pub mod Rendering
use doc_bunker.Prelude.{
  ℕ, Option, none, some, List, [], ◌∷◌, Bool, ◌||◌, not, ltb, ◌==◌, if◌then◌else◌, Result, ok, err,
  ◌>>=◌, ◌>>◌, ok_or, Stop, failed, panicked, lift_stop, length, replicate, checked_mul, u32_max,
  Text, codes,
}
use doc_bunker.RendererApi.Error.{
  RenderError, invalid_document, resource_limit_exceeded, rendering_failed, unsupported_format,
  internal,
}
use doc_bunker.RendererApi.Limits.{
  pixel_buffer_size, max_pixel_buffer, max_page_width, max_page_height, rgba_bytes_per_pixel,
  validate_document_size, validate_render_target,
}
use doc_bunker.RendererApi.Types.{
  rgba8888, DocumentFormat, png, jpeg, webp, gif, tiff, bmp, DocumentInfo, RenderOptions,
  RenderedPage,
}
use doc_bunker.RendererApi.Detect.{detect}
use doc_bunker.Worker.Interfaces.{DocumentRenderer}
use doc_bunker.Image.Scaling.{scale_rgba}

pub record RgbaImage : Type 0 where
  pub width : ℕ
  pub height : ℕ
  pub bytes : List ℕ

pub record ImageRenderer : Type 0 where
  pub info : DocumentInfo
  pub rgba : RgbaImage

-- The color type that the png package reports.
pub data ColorType : Type 0 where
  rgb rgba other : ColorType

-- `image::ImageFormat`, as far as the code names it.
pub data ImageFormat : Type 0 where
  gif_format tiff_format bmp_format : ImageFormat

pub record Decoders : Type 0 where
  pub archive : List ℕ → Option (List (Option Text))
  pub png_info : List ℕ → Option (ℕ × ℕ × ColorType)
  pub png_frame : List ℕ → Option (List ℕ)
  pub jpeg_info : List ℕ → Option (ℕ × ℕ)
  pub jpeg_decode : List ℕ → Option (List ℕ)
  pub webp_features : List ℕ → Option (ℕ × ℕ)
  -- the pixels and the bytes per pixel of their layout
  pub webp_decode : List ℕ → Option (List ℕ × ℕ)
  pub image_dimensions : ImageFormat → List ℕ → Option (ℕ × ℕ)
  -- the width, the height and the pixels after `to_rgba8`
  pub image_decode : ImageFormat → List ℕ → Option (ℕ × ℕ × List ℕ)

-- The loop for three bytes a pixel: chunks of the output with chunks of the input.
unfoldable pub zip_pixels : List ℕ → List ℕ → List ℕ
zip_pixels (o0 ∷ o1 ∷ o2 ∷ o3 ∷ out) (r ∷ g ∷ b ∷ rest) = r ∷ g ∷ b ∷ 255 ∷ zip_pixels out rest
zip_pixels out bytes = out

unfoldable pub to_rgba : ℕ → ℕ → List ℕ → ℕ → Result RenderError RgbaImage
to_rgba width height bytes bpp = do
  expected ← ok_or rendering_failed (pixel_buffer_size width height bpp)
  if not (length bytes == expected) then err rendering_failed else do
    size ← ok_or resource_limit_exceeded (pixel_buffer_size width height rgba_bytes_per_pixel)
    if bpp == 3
        then ok
            (record { width = width; height = height; bytes = zip_pixels (replicate size 0) bytes })
        else if bpp == 4
        then ok (record { width = width; height = height; bytes = bytes })
        else err rendering_failed

unfoldable pub validate_dims : ℕ → ℕ → Result RenderError (Unit {0})
validate_dims width height =
    if width == 0 || height == 0
    then err invalid_document
    else if ltb max_page_width width || ltb max_page_height height
    then err resource_limit_exceeded
    else do
      size ← ok_or resource_limit_exceeded (pixel_buffer_size width height rgba_bytes_per_pixel)
      if ltb max_pixel_buffer size then err resource_limit_exceeded else ok tt

abbrev pub png_bpp : ColorType → Result RenderError ℕ
png_bpp rgb = ok 3
png_bpp rgba = ok 4
png_bpp other = err rendering_failed

abbrev pub image_format : DocumentFormat → Result RenderError ImageFormat
image_format gif = ok gif_format
image_format tiff = ok tiff_format
image_format bmp = ok bmp_format
image_format f = err unsupported_format

-- The checks on what the image package decoded.
unfoldable pub check_decoded : ℕ → ℕ → ℕ × ℕ × List ℕ → Result RenderError RgbaImage
check_decoded width height (w, h, pixels) =
    if not (w == width) || not (h == height) then err rendering_failed else do
      expected ← ok_or resource_limit_exceeded (pixel_buffer_size width height rgba_bytes_per_pixel)
      if not (length pixels == expected)
          then err rendering_failed
          else ok (record { width = width; height = height; bytes = pixels })

module _ (d : Decoders) where
  open d use {
    archive, png_info, png_frame, jpeg_info, jpeg_decode, webp_features, webp_decode,
    image_dimensions, image_decode,
  }

  unfoldable pub decode_png : List ℕ → Result RenderError RgbaImage
  decode_png bytes = do
    (width, height, color) ← ok_or invalid_document (png_info bytes)
    validate_dims width height
    buf ← ok_or rendering_failed (png_frame bytes)
    bpp ← png_bpp color
    to_rgba width height buf bpp

  unfoldable pub decode_jpeg : List ℕ → Result RenderError RgbaImage
  decode_jpeg bytes = do
    (width, height) ← ok_or invalid_document (jpeg_info bytes)
    validate_dims width height
    pixels ← ok_or rendering_failed (jpeg_decode bytes)
    to_rgba width height pixels 3

  unfoldable pub decode_webp : List ℕ → Result RenderError RgbaImage
  decode_webp bytes = do
    (width, height) ← ok_or invalid_document (webp_features bytes)
    validate_dims width height
    (pixels, bpp) ← ok_or rendering_failed (webp_decode bytes)
    to_rgba width height pixels bpp

  unfoldable pub decode_image_format : List ℕ → DocumentFormat → Result RenderError RgbaImage
  decode_image_format bytes format = do
    f ← image_format format
    (width, height) ← ok_or invalid_document (image_dimensions f bytes)
    validate_dims width height
    decoded ← ok_or rendering_failed (image_decode f bytes)
    check_decoded width height decoded

  -- The `match` on the detected format in `open`.
  unfoldable pub decode : List ℕ → DocumentFormat → Result RenderError RgbaImage
  decode bytes png = decode_png bytes
  decode bytes jpeg = decode_jpeg bytes
  decode bytes webp = decode_webp bytes
  decode bytes gif = decode_image_format bytes gif
  decode bytes tiff = decode_image_format bytes tiff
  decode bytes bmp = decode_image_format bytes bmp
  decode bytes f = err unsupported_format

  -- The `match` on the detected format in `decode_embedded`.
  unfoldable pub decode_small : List ℕ → DocumentFormat → Result RenderError RgbaImage
  decode_small bytes png = decode_png bytes
  decode_small bytes jpeg = decode_jpeg bytes
  decode_small bytes webp = decode_webp bytes
  decode_small bytes f = err unsupported_format

  unfoldable pub decode_embedded : List ℕ → Result RenderError (ℕ × ℕ × List ℕ)
  decode_embedded bytes = do
    validate_document_size bytes
    image ← decode_small bytes (detect archive bytes)
    ok (image.width, image.height, image.bytes)

  unfoldable pub open_image : List ℕ → Result RenderError ImageRenderer
  open_image bytes = do
    validate_document_size bytes
    let detected = detect archive bytes
    image ← decode bytes detected
    ok (record {
      info = record {
        page_count = 1;
        width = image.width;
        height = image.height;
        format = detected;
      };
      rgba = image;
    })

unfoldable pub render_page :
    ℕ → RenderOptions → ImageRenderer → Result (Stop RenderError) RenderedPage
render_page page options r = if not (page == 0) then err (failed invalid_document) else do
  lift_stop (validate_render_target options.target_width options.target_height)
  pixels ←
      scale_rgba r.rgba.bytes r.rgba.width r.rgba.height options.target_width options.target_height
  stride ← lift_stop (
      ok_or resource_limit_exceeded (checked_mul u32_max options.target_width rgba_bytes_per_pixel))
  ok (record {
    width = options.target_width;
    height = options.target_height;
    stride = stride;
    pixel_format = rgba8888;
    bytes = pixels;
  })

-- A panic ends the worker process; the interface has no such outcome, and shows an internal error.
abbrev pub no_panic : Result (Stop RenderError) RenderedPage → Result RenderError RenderedPage
no_panic (ok page) = ok page
no_panic (err (failed e)) = err e
no_panic (err panicked) = err (internal (codes "panic"))

unfoldable pub image_renderer : DocumentRenderer ImageRenderer
image_renderer = record {
  info = λ r. ok r.info;
  render_page = λ page options r. (no_panic (render_page page options r), r);
}
