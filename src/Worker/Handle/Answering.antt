-- ===== src/Worker/Handle/Answering.antt =====
-- The response of `Worker::handle` beside its request (crates/renderer-worker/src/worker.rs).
use doc_bunker.Prelude.{◌≡◌, arith}
use doc_bunker.Protocol.Message.{
  Request, hello, open_document, get_document_info, render_page, close_document, ping, Response,
  hello_ok, document_opened, document_info, page_rendered, closed, pong, error,
}
use doc_bunker.Worker.Errors.{error_response}
use doc_bunker.Worker.Interfaces.{DocumentRenderer, RendererFactory, PageBufferStore}
use doc_bunker.Worker.State.{Worker}
use doc_bunker.Worker.Handle.{
  advertise, greet, on_hello, on_ping, keep, inspect, created, open_unless_open, open_checked,
  on_open_document, describe, on_get_document_info, stored, share_len, share, shared, deliver,
  rendered, drawn, draw, render_checked, on_render_page, close_found, on_close_document, handle,
}
use doc_bunker.Worker.Handle.Invariant.{IsValid, Sound}
use doc_bunker.Worker.Handle.Safety.{handle-Sound}

-- An error, or a response of the request's kind with the same document id and the same page or
-- nonce.
abbrev pub Echoes : Request → Response → Type 0
Echoes request (error e) = Unit {0}
Echoes (hello _) (hello_ok _) = Unit {0}
Echoes (open_document q) (document_opened r) = q.document_id ≡ r.document_id
Echoes (get_document_info q) (document_info r) = q.document_id ≡ r.document_id
Echoes (render_page q) (page_rendered r) = (q.document_id ≡ r.document_id) × (q.page ≡ r.page)
Echoes (close_document q) (closed r) = q.document_id ≡ r.document_id
Echoes (ping q) (pong r) = q.nonce ≡ r.nonce
Echoes request response = ⊥

module _ {F R S : Type 0} (renderers : DocumentRenderer R) (factories : RendererFactory F R)
    (stores : PageBufferStore S) where
  handle-Echoes :
      (request : Request) (w : Worker F R S)
      → Echoes request (handle renderers factories stores request w).0
  unfolding handle on_hello greet advertise on_ping on_open_document open_checked open_unless_open
      created inspect keep on_get_document_info describe on_close_document close_found
      error_response on_render_page render_checked draw drawn rendered deliver shared share
      share_len stored
  handle-Echoes (hello r) w = ground arith
  handle-Echoes (ping r) w = ground arith
  handle-Echoes (open_document r) w = ground arith
  handle-Echoes (get_document_info r) w = ground arith
  handle-Echoes (render_page r) w = ground arith
  handle-Echoes (close_document r) w = ground arith

  -- On a valid worker, whatever the request and whatever the renderer returns, `handle` leaves a
  -- valid worker. It answers with an error that the host accepts, or with a response of the request's
  -- kind, for the same document and the same page or nonce, that holds limits to which the host
  -- negotiates (the advertised shared region aside), metadata that the host converts, or a valid page
  -- in the frame or in the shared region.
  pub handle-Answers :
      (request : Request) (w : Worker F R S)
      → IsValid w
      → Sound (handle renderers factories stores request w)
        × Echoes request (handle renderers factories stores request w).0
  handle-Answers request w v =
      (handle-Sound renderers factories stores request w v, handle-Echoes request w)
