-- ===== src/Worker/Handle.antt =====
-- `Worker` of crates/renderer-worker/src/worker.rs: the state of the worker and `handle`, which
-- takes one request to one response.
pub mod Invariant
pub mod Opening
pub mod Safety
pub mod Answering
pub mod Lifecycle
pub mod Isolation
pub mod InFrame
pub mod Drawing
use doc_bunker.Prelude.{
  ℕ, Bool, true, false, not, Option, none, some, List, [], leb, if◌then◌else◌, Result, ok, err,
  Text, codes, length, to_u32,
}
use doc_bunker.Prelude.Assoc
use native.Mathlib.Decide.{ℕ_discrete}
use doc_bunker.RendererApi.Error.{RenderError}
use doc_bunker.RendererApi.Types.{
  DocumentInfo, RenderOptions, RenderedPage, validate_info, validate_page,
}
use doc_bunker.Protocol.Error.{ProtocolError}
use doc_bunker.Protocol.Message.{
  HelloRequest, HelloOk, OpenDocumentRequest, GetDocumentInfoRequest, RenderPageRequest,
  PageRenderedResponse, CloseDocumentRequest, PingRequest, Request, hello, open_document,
  get_document_info, render_page, close_document, ping, Response, hello_ok, document_opened,
  document_info, page_rendered, closed, pong, ErrorCode,
}
use doc_bunker.Protocol.Validate.{
  NegotiatedLimits, server_negotiate, to_hello_ok, validate_open_document, validate_render_request,
  document_info_to_wire, rendered_page_to_wire,
}
use doc_bunker.Worker.Interfaces.{DocumentRenderer, RendererFactory, PageBufferStore}
use doc_bunker.Worker.State.{WorkerDocument, Worker, find}
use doc_bunker.Worker.Errors.{error_response, error_from_render}

module _ {F R S : Type 0} (renderers : DocumentRenderer R) (factories : RendererFactory F R)
    (stores : PageBufferStore S) where
  abbrev Step : Type 0
  Step = Response × Worker F R S

  advertise : HelloOk → Option (Option S) → Worker F R S → Step
  advertise ok_message (some (some store)) w = (
    hello_ok (record ok_message {
      shm_name = some (stores.name store);
      shm_capacity = some (stores.capacity store);
    }),
    record w { shm_store = some store; shm_factory = none },
  )
  advertise ok_message (some none) w = (hello_ok ok_message, record w { shm_factory = none })
  advertise ok_message none w = (hello_ok ok_message, w)

  greet : HelloRequest → Result ProtocolError NegotiatedLimits → Worker F R S → Step
  unfolding advertise
  greet request (ok limits) w =
      let w' = record w { limits = limits; handshake_done = true } in
      if request.shm_capable
      then advertise (to_hello_ok limits) w.shm_factory w'
      else (hello_ok (to_hello_ok limits), w')
  greet request (err _) w = (
    error_response ErrorCode.protocol_violation (codes "invalid hello"),
    record w { handshake_done = false },
  )

  unfoldable pub on_hello : HelloRequest → Worker F R S → Step
  unfolding greet
  on_hello request w = greet request (server_negotiate request) w

  abbrev pub handshake_required : Response
  handshake_required = error_response ErrorCode.protocol_violation (codes "handshake required")

  unfoldable pub on_ping : PingRequest → Worker F R S → Step
  on_ping request w =
      if not w.handshake_done
      then (handshake_required, w)
      else (pong (record { nonce = request.nonce }), w)

  keep : ℕ → R → DocumentInfo → Result RenderError (Unit {0}) → Worker F R S → Step
  keep id renderer info (err _) w =
      (error_response ErrorCode.invalid_document (codes "invalid document metadata"), w)
  keep id renderer info (ok _) w = (
    document_opened (record { document_id = id; info = document_info_to_wire info }),
    record w {
      docs = Assoc.insert ℕ_discrete id (record { renderer = renderer; info = info }) w.docs;
    },
  )

  inspect : ℕ → R → Result RenderError DocumentInfo → Worker F R S → Step
  unfolding keep
  inspect id renderer (err e) w = (error_from_render e, w)
  inspect id renderer (ok info) w = keep id renderer info (validate_info info) w

  created : ℕ → Result RenderError R × F → Worker F R S → Step
  unfolding inspect
  created id (err e, f) w = (error_from_render e, record w { factory = f })
  created id (ok renderer, f) w =
      inspect id renderer (renderers.info renderer) (record w { factory = f })

  open_unless_open : OpenDocumentRequest → Option (WorkerDocument R) → Worker F R S → Step
  unfolding created
  open_unless_open request (some _) w =
      (error_response ErrorCode.invalid_document (codes "document id already open"), w)
  open_unless_open request none w =
      created request.document_id (factories.create request.bytes w.factory) w

  open_checked : OpenDocumentRequest → Result ProtocolError (Unit {0}) → Worker F R S → Step
  unfolding open_unless_open
  open_checked request (err _) w =
      (error_response ErrorCode.document_too_large (codes "document rejected by limits"), w)
  open_checked request (ok _) w = open_unless_open request (find request.document_id w) w

  unfoldable pub on_open_document : OpenDocumentRequest → Worker F R S → Step
  unfolding open_checked
  on_open_document request w =
      if not w.handshake_done
      then (handshake_required, w)
      else open_checked request (validate_open_document w.limits request) w

  describe : ℕ → Option (WorkerDocument R) → Response
  describe id none = error_response ErrorCode.invalid_document (codes "unknown document")
  describe id (some doc) =
      document_info (record { document_id = id; info = document_info_to_wire doc.info })

  unfoldable pub on_get_document_info : GetDocumentInfoRequest → Worker F R S → Step
  unfolding describe
  on_get_document_info request w =
      if not w.handshake_done
      then (handshake_required, w)
      else (describe request.document_id (find request.document_id w), w)

  stored : PageRenderedResponse → ℕ → Result Text (Unit {0}) × S → PageRenderedResponse × Option S
  stored wire len (ok _, store) = (record wire { shm_len = some len; bytes = [] }, some store)
  stored wire len (err _, store) = (wire, some store)

  share_len : PageRenderedResponse → S → Option ℕ → PageRenderedResponse × Option S
  unfolding stored
  share_len wire store none = (wire, some store)
  share_len wire store (some len) = stored wire len (stores.store wire.bytes store)

  -- The raster goes to the shared region where there is one.
  share : PageRenderedResponse → Option S → PageRenderedResponse × Option S
  unfolding share_len
  share wire none = (wire, none)
  share wire (some store) = share_len wire store (to_u32 (length wire.bytes))

  shared : PageRenderedResponse × Option S → Worker F R S → Step
  shared (wire, store) w = (page_rendered wire, record w { shm_store = store })

  deliver : RenderPageRequest → RenderedPage → Result RenderError (Unit {0}) → Worker F R S → Step
  unfolding share shared
  deliver request page (err _) w =
      (error_response ErrorCode.rendering_failed (codes "renderer produced an invalid page"), w)
  deliver request page (ok _) w =
      let wire = record (rendered_page_to_wire page) {
        document_id = request.document_id;
        page = request.page;
      } in
      shared (share wire w.shm_store) w

  rendered : RenderPageRequest → Result RenderError RenderedPage → Worker F R S → Step
  unfolding deliver
  rendered request (err e) w = (error_from_render e, w)
  rendered request (ok page) w = deliver request page (validate_page page) w

  -- The renderer of the map is changed in place, whatever it returns.
  drawn :
      RenderPageRequest
      → WorkerDocument R
      → Result RenderError RenderedPage × R
      → Worker F R S
      → Step
  unfolding rendered
  drawn request doc (result, renderer) w = rendered request result (record w {
    docs = Assoc.insert ℕ_discrete request.document_id (record doc { renderer = renderer }) w.docs;
  })

  draw : RenderPageRequest → Option (WorkerDocument R) → Worker F R S → Step
  unfolding drawn
  draw request none w = (error_response ErrorCode.invalid_document (codes "unknown document"), w)
  draw request (some doc) w =
      let options : RenderOptions = record {
        target_width = request.target_width;
        target_height = request.target_height;
      } in
      if leb doc.info.page_count request.page
      then (error_response ErrorCode.invalid_document (codes "page out of range"), w)
      else drawn request doc (renderers.render_page request.page options doc.renderer) w

  render_checked : RenderPageRequest → Result ProtocolError (Unit {0}) → Worker F R S → Step
  unfolding draw
  render_checked request (err _) w = (
    error_response ErrorCode.resource_limit_exceeded (codes "render request rejected by limits"),
    w,
  )
  render_checked request (ok _) w = draw request (find request.document_id w) w

  unfoldable pub on_render_page : RenderPageRequest → Worker F R S → Step
  unfolding render_checked
  on_render_page request w =
      if not w.handshake_done
      then (handshake_required, w)
      else render_checked request (validate_render_request w.limits request) w

  close_found : ℕ → Option (WorkerDocument R) → Worker F R S → Step
  close_found id (some _) w =
      (closed (record { document_id = id }), record w { docs = Assoc.remove ℕ_discrete id w.docs })
  close_found id none w = (error_response ErrorCode.invalid_document (codes "unknown document"), w)

  unfoldable pub on_close_document : CloseDocumentRequest → Worker F R S → Step
  unfolding close_found
  on_close_document request w =
      if not w.handshake_done
      then (handshake_required, w)
      else close_found request.document_id (find request.document_id w) w

  -- `Worker::handle`
  unfoldable pub handle : Request → Worker F R S → Step
  handle (hello request) w = on_hello request w
  handle (ping request) w = on_ping request w
  handle (open_document request) w = on_open_document request w
  handle (get_document_info request) w = on_get_document_info request w
  handle (render_page request) w = on_render_page request w
  handle (close_document request) w = on_close_document request w
