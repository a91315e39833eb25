-- ===== src/Protocol/Validate/Conversion.antt =====
-- crates/protocol/src/validate.rs: the conversions between wire values and domain values.
use doc_bunker.Prelude.{ℕ, ◌≡◌, ◌↔◌, arith, ok}
use doc_bunker.RendererApi.Types.{DocumentInfo, RenderedPage, pixel_format_from_u8}
use doc_bunker.RendererApi.Pages.{
  IsPage, IsInfo, validate_page_iff, validate_info_iff, format_from_u8_iff,
}
use doc_bunker.Protocol.Message.{DocumentInfoWire, PageRenderedResponse}
use doc_bunker.Protocol.Validate.{
  document_info_from_wire, document_info_to_wire, rendered_page_from_wire, rendered_page_to_wire,
}

-- Wire metadata is accepted as a domain value exactly when it is the encoding of that value and
-- the value is within the limits on page count and size.
pub document_info_from_wire_iff :
    (w : DocumentInfoWire) (i : DocumentInfo)
    → (document_info_from_wire w ≡ ok i) ↔ ((w ≡ document_info_to_wire i) × IsInfo i)
unfolding document_info_from_wire document_info_to_wire
document_info_from_wire_iff w i = (
  λ e. ground (arith, format_from_u8_iff w.format i.format, validate_info_iff i),
  λ h. ground (arith, format_from_u8_iff w.format i.format, validate_info_iff i),
)

-- The wire page of a raster with the given ids.
abbrev pub page_response : ℕ → ℕ → RenderedPage → PageRenderedResponse
page_response id page p = record (rendered_page_to_wire p) { document_id = id; page = page }

-- A wire page is accepted as a domain page exactly when it is the in-frame encoding of that page,
-- under any ids, and the page's geometry, stride and buffer size are valid.
pub rendered_page_from_wire_iff :
    (w : PageRenderedResponse) (p : RenderedPage)
    → (rendered_page_from_wire w ≡ ok p) ↔ ((w ≡ page_response w.document_id w.page p) × IsPage p)
unfolding pixel_format_from_u8 rendered_page_from_wire rendered_page_to_wire
rendered_page_from_wire_iff w p =
    (λ e. ground (arith, validate_page_iff p), λ h. ground (arith, validate_page_iff p))
