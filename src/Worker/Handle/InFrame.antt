-- ===== src/Worker/Handle/InFrame.antt =====
-- crates/renderer-worker/src/worker.rs: where the raster of a response travels.
use doc_bunker.Prelude.{
  ℕ, ◌≡◌, refl, Bool, true, false, not, Option, none, some, leb, if◌then◌else◌, Result, ok, err,
  Result-cases, inl, inr,
}
use doc_bunker.RendererApi.Error.{RenderError}
use doc_bunker.RendererApi.Types.{DocumentInfo, RenderedPage, validate_info, validate_page}
use doc_bunker.Protocol.Error.{ProtocolError}
use doc_bunker.Protocol.Message.{
  HelloRequest, HelloOk, OpenDocumentRequest, RenderPageRequest, Request, hello, open_document,
  get_document_info, render_page, close_document, ping, Response, hello_ok, document_opened,
  document_info, page_rendered, closed, pong, error,
}
use doc_bunker.Protocol.Validate.{
  NegotiatedLimits, server_negotiate, validate_open_document, validate_render_request,
  rendered_page_to_wire,
}
use doc_bunker.Worker.Interfaces.{DocumentRenderer, RendererFactory, PageBufferStore}
use doc_bunker.Worker.Errors.{error_response}
use doc_bunker.Worker.State.{WorkerDocument, Worker, find}
use doc_bunker.Worker.Handle.{
  advertise, greet, on_hello, on_ping, keep, inspect, created, open_unless_open, open_checked,
  on_open_document, describe, on_get_document_info, share, shared, deliver, rendered, drawn, draw,
  render_checked, on_render_page, close_found, on_close_document, handle,
}

abbrev pub IsInFrame : Response → Type 0
IsInFrame (page_rendered wire) = wire.shm_len ≡ none
IsInFrame (hello_ok _) = Unit
IsInFrame (document_opened _) = Unit
IsInFrame (document_info _) = Unit
IsInFrame (closed _) = Unit
IsInFrame (pong _) = Unit
IsInFrame (error _) = Unit

module _ {F R S : Type 0} (renderers : DocumentRenderer R) (factories : RendererFactory F R)
    (stores : PageBufferStore S) where
  if-IsInFrame :
      (b : Bool) (m n : Response × Worker F R S)
      → IsInFrame m.0
      → IsInFrame n.0
      → IsInFrame (if b then m else n).0
  if-IsInFrame true m n a b = a
  if-IsInFrame false m n a b = b

  advertise-IsInFrame :
      (answer : HelloOk) (f : Option (Option S)) (w : Worker F R S)
      → IsInFrame (advertise renderers factories stores answer f w).0
  unfolding advertise
  advertise-IsInFrame answer none w = tt
  advertise-IsInFrame answer (some none) w = tt
  advertise-IsInFrame answer (some (some s)) w = tt

  greet-IsInFrame :
      (request : HelloRequest) (l : Result ProtocolError NegotiatedLimits) (w : Worker F R S)
      → IsInFrame (greet renderers factories stores request l w).0
  unfolding greet error_response
  greet-IsInFrame request (err e) w = tt
  greet-IsInFrame request (ok l) w =
      if-IsInFrame request.shm_capable _ _ (advertise-IsInFrame _ w.shm_factory _) tt

  inspect-IsInFrame :
      (id : ℕ) (renderer : R) (r : Result RenderError DocumentInfo) (w : Worker F R S)
      → IsInFrame (inspect renderers factories stores id renderer r w).0
  unfolding inspect keep error_response
  inspect-IsInFrame id renderer (err e) w = tt
  inspect-IsInFrame id renderer (ok info) w = elim (Result-cases (validate_info info)) [
    | inl (u, e) ↦ rw e tt
    | inr (x, e) ↦ rw e tt
  ]

  open_checked-IsInFrame :
      (request : OpenDocumentRequest) (r : Result ProtocolError (Unit {0})) (w : Worker F R S)
      → IsInFrame (open_checked renderers factories stores request r w).0
  unfolding open_checked open_unless_open created error_response
  open_checked-IsInFrame request (err _) w = tt
  open_checked-IsInFrame request (ok _) w = fresh (find request.document_id w)
    where
      made :
          (m : Result RenderError R × F)
          → IsInFrame (created renderers factories stores request.document_id m w).0
      made (err e, f) = tt
      made (ok r, f) =
          inspect-IsInFrame request.document_id r (renderers.info r) (record w { factory = f })

      fresh :
          (d : Option (WorkerDocument R))
          → IsInFrame (open_unless_open renderers factories stores request d w).0
      fresh (some _) = tt
      fresh none = made (factories.create request.bytes w.factory)

  describe-IsInFrame :
      (id : ℕ) (d : Option (WorkerDocument R))
      → IsInFrame (describe renderers factories stores id d)
  unfolding describe error_response
  describe-IsInFrame id none = tt
  describe-IsInFrame id (some d) = tt

  rendered-IsInFrame :
      (request : RenderPageRequest) (r : Result RenderError RenderedPage) (w : Worker F R S)
      → w.shm_store ≡ none
      → IsInFrame (rendered renderers factories stores request r w).0
  unfolding rendered deliver share shared error_response rendered_page_to_wire
  rendered-IsInFrame request (err e) w h = tt
  rendered-IsInFrame request (ok p) w h = elim (Result-cases (validate_page p)) [
    | inl (u, e) ↦ rw (e, h) refl
    | inr (x, e) ↦ rw e tt
  ]

  draw-IsInFrame :
      (request : RenderPageRequest) (d : Option (WorkerDocument R)) (w : Worker F R S)
      → w.shm_store ≡ none
      → IsInFrame (draw renderers factories stores request d w).0
  unfolding draw drawn error_response
  draw-IsInFrame request none w h = tt
  draw-IsInFrame request (some doc) w h =
      if-IsInFrame (leb doc.info.page_count request.page) _ _ tt
        (rendered-IsInFrame request _ (record w { docs = _ }) h)

  render_checked-IsInFrame :
      (request : RenderPageRequest) (r : Result ProtocolError (Unit {0})) (w : Worker F R S)
      → w.shm_store ≡ none
      → IsInFrame (render_checked renderers factories stores request r w).0
  unfolding render_checked error_response
  render_checked-IsInFrame request (err _) w h = tt
  render_checked-IsInFrame request (ok _) w h =
      draw-IsInFrame request (find request.document_id w) w h

  close_found-IsInFrame :
      (id : ℕ) (d : Option (WorkerDocument R)) (w : Worker F R S)
      → IsInFrame (close_found renderers factories stores id d w).0
  unfolding close_found error_response
  close_found-IsInFrame id (some _) w = tt
  close_found-IsInFrame id none w = tt

  -- Without a shared region, a page that `handle` answers with carries its raster in the frame.
  pub handle-IsInFrame :
      (request : Request) (w : Worker F R S)
      → w.shm_store ≡ none
      → IsInFrame (handle renderers factories stores request w).0
  unfolding handle on_hello on_ping on_get_document_info on_open_document on_render_page
      on_close_document error_response
  handle-IsInFrame (hello r) w h = greet-IsInFrame r (server_negotiate r) w
  handle-IsInFrame (ping r) w h = if-IsInFrame (not w.handshake_done) _ _ tt tt
  handle-IsInFrame (get_document_info r) w h =
      if-IsInFrame (not w.handshake_done) _ _ tt
        (describe-IsInFrame r.document_id (find r.document_id w))
  handle-IsInFrame (open_document r) w h =
      if-IsInFrame (not w.handshake_done) _ _ tt
        (open_checked-IsInFrame r (validate_open_document w.limits r) w)
  handle-IsInFrame (render_page r) w h =
      if-IsInFrame (not w.handshake_done) _ _ tt
        (render_checked-IsInFrame r (validate_render_request w.limits r) w h)
  handle-IsInFrame (close_document r) w h =
      if-IsInFrame (not w.handshake_done) _ _ tt
        (close_found-IsInFrame r.document_id (find r.document_id w) w)
