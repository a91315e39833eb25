-- ===== src/Worker/Handle/Safety.antt =====
-- The invariant of the worker under `Worker::handle` of crates/renderer-worker/src/worker.rs.
use doc_bunker.Prelude.{
  ℕ, ◌≡◌, inl, inr, refl, Bool, true, false, Option, none, some, [], arith, leb, if◌then◌else◌,
  Result, ok, err, Text, length, to_u32, ap, ◌∙◌,
}
use doc_bunker.Prelude.Assoc
use native.Mathlib.Decide.{ℕ_discrete}
use doc_bunker.RendererApi.Error.{RenderError}
use doc_bunker.RendererApi.Types.{RenderedPage, validate_page}
use doc_bunker.RendererApi.Pages.{IsPage, validate_page_iff}
use doc_bunker.Protocol.Error.{ProtocolError}
use doc_bunker.Protocol.Message.{
  GetDocumentInfoRequest, RenderPageRequest, PageRenderedResponse, CloseDocumentRequest, Request,
  hello, open_document, get_document_info, render_page, close_document, ping, Response,
}
use doc_bunker.Protocol.Validate.{rendered_page_to_wire}
use doc_bunker.Protocol.Validate.Conversion.{page_response}
use doc_bunker.Worker.Interfaces.{DocumentRenderer, RendererFactory, PageBufferStore}
use doc_bunker.Worker.State.{WorkerDocument, Worker, find}
use doc_bunker.Worker.Handle.{
  describe, on_get_document_info, stored, share_len, share, deliver, rendered, drawn, draw,
  render_checked, on_render_page, close_found, on_close_document, handle,
}
use doc_bunker.Worker.Handle.Opening.{on_open_document-Sound, on_ping-Sound, on_hello-Sound}
use doc_bunker.Worker.Handle.Invariant.{
  IsDelivered, IsSafe, IsOpen, IsValid, Sound, info_safe, refused, gated-Sound,
}

module _ {F R S : Type 0} (renderers : DocumentRenderer R) (factories : RendererFactory F R)
    (stores : PageBufferStore S) where
  describe-IsSafe :
      (id : ℕ) (d : Option (WorkerDocument R)) (w : Worker F R S)
      → find id w ≡ d
      → IsValid w
      → IsSafe (describe renderers factories stores id d)
  unfolding describe
  describe-IsSafe id none w e v = (refused _ _ w v).safe
  describe-IsSafe id (some doc) w e v =
      info_safe doc.info (Assoc.All-get ℕ_discrete IsOpen id doc w.docs v.docs e).1

  on_get_document_info-Sound :
      (request : GetDocumentInfoRequest) (w : Worker F R S)
      → IsValid w
      → Sound (on_get_document_info renderers factories stores request w)
  unfolding on_get_document_info
  on_get_document_info-Sound request w v =
      gated-Sound w.handshake_done _ _ (refused _ _ w v)
        (record { valid = v; safe = describe-IsSafe request.document_id _ w refl v })

  close_found-Sound :
      (id : ℕ) (d : Option (WorkerDocument R)) (w : Worker F R S)
      → IsValid w
      → Sound (close_found renderers factories stores id d w)
  unfolding close_found
  close_found-Sound id none w v = refused _ _ w v
  close_found-Sound id (some _) w v = record {
    valid = record {
      docs = Assoc.All-remove ℕ_discrete IsOpen id w.docs v.docs;
      limits = v.limits;
    };
    safe = tt;
  }

  on_close_document-Sound :
      (request : CloseDocumentRequest) (w : Worker F R S)
      → IsValid w
      → Sound (on_close_document renderers factories stores request w)
  unfolding on_close_document
  on_close_document-Sound request w v =
      gated-Sound w.handshake_done _ _ (refused _ _ w v) (close_found-Sound _ _ w v)

  stored-IsDelivered :
      (page : RenderedPage) (wire : PageRenderedResponse) (len : ℕ) (r : Result Text (Unit {0}) × S)
      → IsPage page
      → wire ≡ page_response wire.document_id wire.page page
      → len ≡ length page.bytes
      → IsDelivered (stored renderers factories stores wire len r).0
  unfolding stored
  stored-IsDelivered page wire len (err _, store) p e l = (page, p, inl e)
  stored-IsDelivered page wire len (ok _, store) p e l = (
    page,
    p,
    inr (
        ap (λ (x : PageRenderedResponse). record x { bytes = []; shm_len = some len }) e
        ∙ ap
            (λ n. record (page_response wire.document_id wire.page page) {
              bytes = [];
              shm_len = some n;
            })
            l),
  )

  share_len-IsDelivered :
      (page : RenderedPage) (wire : PageRenderedResponse) (store : S) (n : Option ℕ)
      → IsPage page
      → wire ≡ page_response wire.document_id wire.page page
      → to_u32 (length page.bytes) ≡ n
      → IsDelivered (share_len renderers factories stores wire store n).0
  unfolding share_len
  share_len-IsDelivered page wire store none p e l = (page, p, inl e)
  share_len-IsDelivered page wire store (some len) p e l =
      stored-IsDelivered page wire len _ p e (ground arith)

  share-IsDelivered :
      (page : RenderedPage) (id n : ℕ) (store : Option S)
      → IsPage page
      → IsDelivered (share renderers factories stores (page_response id n page) store).0
  unfolding share rendered_page_to_wire
  share-IsDelivered page id n none p = (page, p, inl refl)
  share-IsDelivered page id n (some store) p =
      share_len-IsDelivered page (page_response id n page) store _ p refl refl

  deliver-Sound :
      (request : RenderPageRequest) (page : RenderedPage) (r : Result RenderError (Unit {0}))
      (w : Worker F R S)
      → validate_page page ≡ r
      → IsValid w
      → Sound (deliver renderers factories stores request page r w)
  unfolding deliver
  deliver-Sound request page (err _) w e v = refused _ _ w v
  deliver-Sound request page (ok _) w e v = record {
    valid = record { docs = v.docs; limits = v.limits };
    safe =
        share-IsDelivered page request.document_id request.page w.shm_store
          ((validate_page_iff page).0 e);
  }

  rendered-Sound :
      (request : RenderPageRequest) (r : Result RenderError RenderedPage) (w : Worker F R S)
      → IsValid w
      → Sound (rendered renderers factories stores request r w)
  unfolding rendered
  rendered-Sound request (err e) w v = refused _ _ w v
  rendered-Sound request (ok page) w v = deliver-Sound request page _ w refl v

  drawn-Sound :
      (request : RenderPageRequest) (doc : WorkerDocument R)
      (r : Result RenderError RenderedPage × R) (w : Worker F R S)
      → IsOpen (request.document_id, doc)
      → IsValid w
      → Sound (drawn renderers factories stores request doc r w)
  unfolding drawn
  drawn-Sound request doc (result, renderer) w o v = rendered-Sound request result _ (record {
    docs = Assoc.All-insert ℕ_discrete IsOpen request.document_id _ w.docs o v.docs;
    limits = v.limits;
  })

  if-Sound :
      (b : Bool) (m n : Response × Worker F R S) → Sound m → Sound n → Sound (if b then m else n)
  if-Sound true m n a b = a
  if-Sound false m n a b = b

  draw-Sound :
      (request : RenderPageRequest) (d : Option (WorkerDocument R)) (w : Worker F R S)
      → find request.document_id w ≡ d
      → IsValid w
      → Sound (draw renderers factories stores request d w)
  unfolding draw
  draw-Sound request none w e v = refused _ _ w v
  draw-Sound request (some doc) w e v =
      if-Sound (leb doc.info.page_count request.page) _ _ (refused _ _ w v) (
        drawn-Sound request doc _ w
          (Assoc.All-get ℕ_discrete IsOpen request.document_id doc w.docs v.docs e) v)

  render_checked-Sound :
      (request : RenderPageRequest) (r : Result ProtocolError (Unit {0})) (w : Worker F R S)
      → IsValid w
      → Sound (render_checked renderers factories stores request r w)
  unfolding render_checked
  render_checked-Sound request (err _) w v = refused _ _ w v
  render_checked-Sound request (ok _) w v = draw-Sound request _ w refl v

  on_render_page-Sound :
      (request : RenderPageRequest) (w : Worker F R S)
      → IsValid w
      → Sound (on_render_page renderers factories stores request w)
  unfolding on_render_page
  on_render_page-Sound request w v =
      gated-Sound w.handshake_done _ _ (refused _ _ w v) (render_checked-Sound request _ w v)

  -- On a valid worker, whatever the request and whatever the renderer returns, `handle` leaves a
  -- valid worker and answers with limits that the host negotiates to (the shared region aside),
  -- metadata that the host converts, a valid page in the frame or in the shared region, or an error
  -- that the host accepts.
  pub handle-Sound :
      (request : Request) (w : Worker F R S)
      → IsValid w
      → Sound (handle renderers factories stores request w)
  unfolding handle
  handle-Sound (hello r) w v = on_hello-Sound renderers factories stores r w v
  handle-Sound (ping r) w v = on_ping-Sound renderers factories stores r w v
  handle-Sound (open_document r) w v = on_open_document-Sound renderers factories stores r w v
  handle-Sound (get_document_info r) w v = on_get_document_info-Sound r w v
  handle-Sound (render_page r) w v = on_render_page-Sound r w v
  handle-Sound (close_document r) w v = on_close_document-Sound r w v
