-- ===== src/Worker/Handle/Invariant.antt =====
-- The invariant of the worker, and what its responses look like from outside.
use doc_bunker.Prelude.{
  ℕ, ◌≡◌, ◌≢◌, ◌⊎◌, refl, Bool, true, false, not, none, some, [], if◌then◌else◌, ok, Text, length,
  All,
}
use doc_bunker.RendererApi.Types.{DocumentInfo, RenderedPage}
use doc_bunker.RendererApi.Pages.{IsPage, IsInfo}
use doc_bunker.Protocol.Message.{
  PageRenderedResponse, Response, hello_ok, document_opened, document_info, page_rendered, closed,
  pong, error, ErrorCode,
}
use doc_bunker.Protocol.Validate.{
  NegotiatedLimits, document_info_to_wire, document_info_from_wire, client_negotiate,
  validate_error_response,
}
use doc_bunker.Protocol.Validate.Negotiation.{IsCapped}
use doc_bunker.Protocol.Validate.Conversion.{page_response, document_info_from_wire_iff}
use doc_bunker.Worker.Errors.{error_response, error_response_accepted}
use doc_bunker.Worker.State.{WorkerDocument, Worker}

-- A raster that leaves the worker: a valid page in the frame, or in the shared region with its
-- length in the frame.
abbrev pub IsDelivered : PageRenderedResponse → Type 0
IsDelivered wire =
    (page : RenderedPage) × IsPage page
    × ((wire ≡ page_response wire.document_id wire.page page)
        ⊎ (wire ≡ record (page_response wire.document_id wire.page page) {
          bytes = [];
          shm_len = some (length page.bytes);
        }))

-- What a host may rely on in a response.
abbrev pub IsSafe : Response → Type 0
IsSafe (hello_ok h) =
    (l : NegotiatedLimits) × (client_negotiate (record h { shm_name = none; shm_capacity = none })
      ≡ ok l)
IsSafe (document_opened r) = (i : DocumentInfo) × (document_info_from_wire r.info ≡ ok i)
IsSafe (document_info r) = (i : DocumentInfo) × (document_info_from_wire r.info ≡ ok i)
IsSafe (page_rendered wire) = IsDelivered wire
IsSafe (closed _) = Unit
IsSafe (pong _) = Unit
IsSafe (error e) = validate_error_response e ≡ ok tt

-- An open document has a nonzero id and valid metadata.
abbrev pub IsOpen : {R : Type 0} → ℕ × WorkerDocument R → Type 0
IsOpen (id, doc) = (id ≢ 0) × IsInfo doc.info

pub record IsValid {F R S : Type 0} (w : Worker F R S) : Type 0 where
  pub docs : All IsOpen w.docs
  pub limits : w.handshake_done ≡ true → IsCapped w.limits

-- A step that keeps the invariant and answers safely.
pub record Sound {F R S : Type 0} (step : Response × Worker F R S) : Type 0 where
  pub valid : IsValid step.1
  pub safe : IsSafe step.0

pub info_safe :
    (i : DocumentInfo)
    → IsInfo i
    → (j : DocumentInfo) × (document_info_from_wire (document_info_to_wire i) ≡ ok j)
info_safe i v = (i, (document_info_from_wire_iff (document_info_to_wire i) i).1 (refl, v))

-- An error leaves a valid worker, and the host accepts its message.
pub refused :
    {F R S : Type 0} (code : ErrorCode) (detail : Text) (w : Worker F R S)
    → IsValid w
    → Sound (error_response code detail, w)
unfolding error_response
refused code detail w v = record { valid = v; safe = error_response_accepted code detail }

pub gated-Sound :
    {F R S : Type 0} (done : Bool) (m n : Response × Worker F R S)
    → Sound m
    → Sound n
    → Sound (if not done then m else n)
gated-Sound true m n a b = b
gated-Sound false m n a b = a
