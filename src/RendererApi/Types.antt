-- ===== src/RendererApi/Types.antt =====
-- crates/renderer-api/src/types.rs: what may cross the isolation boundary.
use doc_bunker.Prelude.{
  ℕ, List, ◌++◌, ◌||◌, not, ltb, ◌==◌, if◌then◌else◌, Result, ok, err, ◌>>=◌, ok_or, length,
  to_usize, usize_max, u32_max, checked_mul, codes, decimal,
}
use doc_bunker.RendererApi.Error.{
  RenderError, invalid_document, resource_limit_exceeded, rendering_failed, internal,
}
use doc_bunker.RendererApi.Limits.{
  max_page_count, max_page_width, max_page_height, max_pixel_buffer, rgba_bytes_per_pixel,
}

pub data PixelFormat : Type 0 where
  rgba8888 : PixelFormat

abbrev pub bytes_per_pixel : PixelFormat → ℕ
bytes_per_pixel rgba8888 = rgba_bytes_per_pixel

pub data DocumentFormat : Type 0 where
  unknown pdf png jpeg webp ooxml gif tiff bmp epub rtf html : DocumentFormat

pub record DocumentInfo : Type 0 where
  pub page_count : ℕ
  pub width : ℕ
  pub height : ℕ
  pub format : DocumentFormat

pub record RenderOptions : Type 0 where
  pub target_width : ℕ
  pub target_height : ℕ

pub record RenderedPage : Type 0 where
  pub width : ℕ
  pub height : ℕ
  pub stride : ℕ
  pub pixel_format : PixelFormat
  pub bytes : List ℕ

-- `PixelFormat::try_from` and `u8::from`.
unfoldable pub pixel_format_from_u8 : ℕ → Result RenderError PixelFormat
pixel_format_from_u8 value =
    if value == 1
    then ok rgba8888
    else err (internal (codes "unknown pixel format: " ++ decimal value))

abbrev pub pixel_format_as_u8 : PixelFormat → ℕ
pixel_format_as_u8 rgba8888 = 1

-- `DocumentFormat::as_u8` and `DocumentFormat::try_from`.
abbrev pub format_as_u8 : DocumentFormat → ℕ
format_as_u8 unknown = 0
format_as_u8 pdf = 1
format_as_u8 png = 2
format_as_u8 jpeg = 3
format_as_u8 webp = 4
format_as_u8 ooxml = 5
format_as_u8 gif = 6
format_as_u8 tiff = 7
format_as_u8 bmp = 8
format_as_u8 epub = 9
format_as_u8 rtf = 10
format_as_u8 html = 11

unfoldable pub format_from_u8 : ℕ → Result RenderError DocumentFormat
format_from_u8 value =
    if value == 0
    then ok unknown
    else if value == 1
    then ok pdf
    else if value == 2
    then ok png
    else if value == 3
    then ok jpeg
    else if value == 4
    then ok webp
    else if value == 5
    then ok ooxml
    else if value == 6
    then ok gif
    else if value == 7
    then ok tiff
    else if value == 8
    then ok bmp
    else if value == 9
    then ok epub
    else if value == 10
    then ok rtf
    else if value == 11
    then ok html
    else err (internal (codes "unknown document format: " ++ decimal value))

-- `DocumentInfo::validate`
unfoldable pub validate_info : DocumentInfo → Result RenderError (Unit {0})
validate_info info =
    if info.page_count == 0 || ltb max_page_count info.page_count
    then err invalid_document
    else if ltb max_page_width info.width || ltb max_page_height info.height
    then err resource_limit_exceeded
    else ok tt

-- `RenderedPage::validate`, from the checked products on.
check_buffer : RenderedPage → Result RenderError (Unit {0})
check_buffer page = do
  min_stride ←
      ok_or resource_limit_exceeded
        (checked_mul u32_max page.width (bytes_per_pixel page.pixel_format))
  if ltb page.stride min_stride then err resource_limit_exceeded else do
    stride ← ok_or resource_limit_exceeded (to_usize page.stride)
    height ← ok_or resource_limit_exceeded (to_usize page.height)
    expected ← ok_or resource_limit_exceeded (checked_mul usize_max stride height)
    if ltb max_pixel_buffer expected
        then err resource_limit_exceeded
        else if not (length page.bytes == expected)
        then err rendering_failed
        else ok tt

unfoldable pub validate_page : RenderedPage → Result RenderError (Unit {0})
unfolding check_buffer
validate_page page =
    if page.width == 0 || page.height == 0
    then err resource_limit_exceeded
    else if ltb max_page_width page.width || ltb max_page_height page.height
    then err resource_limit_exceeded
    else check_buffer page
