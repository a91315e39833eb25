-- ===== src/Worker/Handle/Isolation.antt =====
-- crates/renderer-worker/src/worker.rs: the documents that a request is not about.
use doc_bunker.Prelude.{
  ℕ, ◌≡◌, ◌≢◌, refl, Bool, true, false, not, Option, none, some, arith, leb, if◌then◌else◌, Result,
  ok, err, ap, ◌∙◌,
}
use doc_bunker.Prelude.Assoc
use native.Mathlib.Decide.{ℕ_discrete}
use doc_bunker.RendererApi.Error.{RenderError}
use doc_bunker.RendererApi.Types.{DocumentInfo, RenderedPage, validate_info}
use doc_bunker.Protocol.Error.{ProtocolError}
use doc_bunker.Protocol.Message.{
  HelloRequest, OpenDocumentRequest, RenderPageRequest, Request, hello, open_document,
  get_document_info, render_page, close_document, ping, Response,
}
use doc_bunker.Worker.Interfaces.{DocumentRenderer, RendererFactory, PageBufferStore}
use doc_bunker.Worker.State.{WorkerDocument, Worker, find}
use doc_bunker.Worker.Handle.{
  advertise, greet, on_hello, on_ping, keep, inspect, created, open_unless_open, open_checked,
  on_open_document, on_get_document_info, share, deliver, rendered, drawn, draw, render_checked,
  on_render_page, close_found, on_close_document, handle,
}

-- The document that a request may change.
abbrev pub target : Request → Option ℕ
target (open_document r) = some r.document_id
target (render_page r) = some r.document_id
target (close_document r) = some r.document_id
target _ = none

-- Every other document is as it was, with its metadata and the state of its renderer.
pub record Spares {F R S : Type 0} (id : Option ℕ) (w w' : Worker F R S) : Type 0 where
  pub others : (j : ℕ) → id ≢ some j → find j w' ≡ find j w

Spares-all :
    {F R S : Type 0} (id : Option ℕ) (w w' : Worker F R S) → w'.docs ≡ w.docs → Spares id w w'
Spares-all id w w' e = record { others = λ j _. ap (Assoc.get ℕ_discrete j) e }

Spares-insert :
    {F R S : Type 0} (id : ℕ) (d : WorkerDocument R) (w w' : Worker F R S)
    → w'.docs ≡ Assoc.insert ℕ_discrete id d w.docs
    → Spares (some id) w w'
Spares-insert id d w w' e = record {
  others = λ j n.
      ap (Assoc.get ℕ_discrete j) e
      ∙ Assoc.get-insert_ne ℕ_discrete id j d w.docs (λ q. n (ap some q));
}

Spares-remove :
    {F R S : Type 0} (id : ℕ) (w w' : Worker F R S)
    → w'.docs ≡ Assoc.remove ℕ_discrete id w.docs
    → Spares (some id) w w'
Spares-remove id w w' e = record {
  others = λ j n.
      ap (Assoc.get ℕ_discrete j) e
      ∙ Assoc.get-remove_ne ℕ_discrete id j w.docs (λ q. n (ap some q));
}

module _ {F R S : Type 0} (renderers : DocumentRenderer R) (factories : RendererFactory F R)
    (stores : PageBufferStore S) where
  docs-on_hello :
      (request : HelloRequest) (w : Worker F R S)
      → (on_hello renderers factories stores request w).1.docs ≡ w.docs
  unfolding on_hello greet advertise
  docs-on_hello request w = ground arith

  inspect-Spares :
      (id : ℕ) (renderer : R) (r : Result RenderError DocumentInfo) (w : Worker F R S)
      → Spares (some id) w (inspect renderers factories stores id renderer r w).1
  unfolding inspect
  inspect-Spares id renderer (err e) w = Spares-all _ w w refl
  inspect-Spares id renderer (ok info) w = keep-Spares (validate_info info)
    where
      keep-Spares :
          (r : Result RenderError (Unit {0}))
          → Spares (some id) w (keep renderers factories stores id renderer info r w).1
      keep-Spares (err e) = Spares-all _ w w refl
      keep-Spares (ok _) = Spares-insert id _ w _ refl

  created-Spares :
      (id : ℕ) (made : Result RenderError R × F) (w : Worker F R S)
      → Spares (some id) w (created renderers factories stores id made w).1
  unfolding created
  created-Spares id (err e, f) w = Spares-all _ w _ refl
  created-Spares id (ok renderer, f) w = record {
    others =
        (inspect-Spares id renderer (renderers.info renderer) (record w { factory = f })).others;
  }

  open_checked-Spares :
      (request : OpenDocumentRequest) (r : Result ProtocolError (Unit {0})) (w : Worker F R S)
      → Spares (some request.document_id) w (open_checked renderers factories stores request r w).1
  unfolding open_checked
  open_checked-Spares request (err _) w = Spares-all _ w w refl
  open_checked-Spares request (ok _) w = open_unless-Spares (find request.document_id w)
    where
      open_unless-Spares :
          (d : Option (WorkerDocument R))
          → Spares
              (some request.document_id)
              w
              (open_unless_open renderers factories stores request d w).1
      open_unless-Spares (some _) = Spares-all _ w w refl
      open_unless-Spares none =
          created-Spares request.document_id (factories.create request.bytes w.factory) w

  docs-rendered :
      (request : RenderPageRequest) (r : Result RenderError RenderedPage) (w : Worker F R S)
      → (rendered renderers factories stores request r w).1.docs ≡ w.docs
  unfolding rendered deliver share
  docs-rendered request r w = ground arith

  drawn-Spares :
      (request : RenderPageRequest) (doc : WorkerDocument R)
      (r : Result RenderError RenderedPage × R) (w : Worker F R S)
      → Spares (some request.document_id) w (drawn renderers factories stores request doc r w).1
  unfolding drawn
  drawn-Spares request doc (result, renderer) w =
      Spares-insert request.document_id (record doc { renderer = renderer }) w _
        (docs-rendered request result _)

  if-Spares :
      (id : Option ℕ) (b : Bool) (w : Worker F R S) (m n : Response × Worker F R S)
      → Spares id w m.1
      → Spares id w n.1
      → Spares id w (if b then m else n).1
  if-Spares id true w m n a b = a
  if-Spares id false w m n a b = b

  draw-Spares :
      (request : RenderPageRequest) (d : Option (WorkerDocument R)) (w : Worker F R S)
      → Spares (some request.document_id) w (draw renderers factories stores request d w).1
  unfolding draw
  draw-Spares request none w = Spares-all _ w w refl
  draw-Spares request (some doc) w =
      if-Spares _ (leb doc.info.page_count request.page) w _ _ (Spares-all _ w w refl)
        (drawn-Spares request doc _ w)

  render_checked-Spares :
      (request : RenderPageRequest) (r : Result ProtocolError (Unit {0})) (w : Worker F R S)
      → Spares
          (some request.document_id)
          w
          (render_checked renderers factories stores request r w).1
  unfolding render_checked
  render_checked-Spares request (err _) w = Spares-all _ w w refl
  render_checked-Spares request (ok _) w = draw-Spares request _ w

  close_found-Spares :
      (id : ℕ) (d : Option (WorkerDocument R)) (w : Worker F R S)
      → Spares (some id) w (close_found renderers factories stores id d w).1
  unfolding close_found
  close_found-Spares id none w = Spares-all _ w w refl
  close_found-Spares id (some _) w = Spares-remove id w _ refl

  handle-Spares :
      (request : Request) (w : Worker F R S)
      → Spares (target request) w (handle renderers factories stores request w).1
  unfolding handle on_ping on_get_document_info on_open_document on_render_page on_close_document
  handle-Spares (hello r) w = Spares-all none w _ (docs-on_hello r w)
  handle-Spares (ping r) w =
      if-Spares none (not w.handshake_done) w _ _ (Spares-all none w w refl)
        (Spares-all none w w refl)
  handle-Spares (get_document_info r) w =
      if-Spares none (not w.handshake_done) w _ _ (Spares-all none w w refl)
        (Spares-all none w w refl)
  handle-Spares (open_document r) w =
      if-Spares _ (not w.handshake_done) w _ _ (Spares-all _ w w refl) (open_checked-Spares r _ w)
  handle-Spares (render_page r) w =
      if-Spares _ (not w.handshake_done) w _ _ (Spares-all _ w w refl) (render_checked-Spares r _ w)
  handle-Spares (close_document r) w =
      if-Spares _ (not w.handshake_done) w _ _ (Spares-all _ w w refl) (close_found-Spares _ _ w)

  -- A request changes no document but the one that it opens, draws or closes: every other id leads
  -- to the same metadata and the same renderer state, or to none, as before.
  pub find-handle :
      (request : Request) (j : ℕ) (w : Worker F R S)
      → target request ≢ some j
      → find j (handle renderers factories stores request w).1 ≡ find j w
  find-handle request j w n = (handle-Spares request w).others j n
