-- ===== src/Worker/Handle/Lifecycle.antt =====
-- What `Worker::handle` does to a document from its opening to its closing.
use doc_bunker.Prelude.{
  ℕ, ◌≡◌, inl, inr, true, false, none, some, arith, Result, ok, err, codes, Bool-cases,
  Option-cases, Result-cases,
}
use doc_bunker.Prelude.Assoc
use native.Mathlib.Decide.{ℕ_discrete}
use doc_bunker.RendererApi.Error.{RenderError}
use doc_bunker.RendererApi.Types.{DocumentInfo, validate_info}
use doc_bunker.Protocol.Message.{
  DocumentOpenedResponse, OpenDocumentRequest, CloseDocumentResponse, Request, hello, open_document,
  get_document_info, render_page, close_document, ping, Response, document_opened, document_info,
  closed, ErrorCode,
}
use doc_bunker.Protocol.Validate.{validate_open_document, document_info_to_wire}
use doc_bunker.Worker.Interfaces.{DocumentRenderer, RendererFactory, PageBufferStore}
use doc_bunker.Worker.Errors.{error_response}
use doc_bunker.Worker.State.{WorkerDocument, Worker, find}
use doc_bunker.Worker.Handle.{
  on_ping, inspect, created, open_unless_open, open_checked, on_open_document, describe,
  on_get_document_info, on_render_page, close_found, on_close_document, handle,
}

abbrev pub IsHello : Request → Type 0
IsHello (hello _) = Unit {0}
IsHello _ = ⊥

abbrev pub unknown_document : Response
unknown_document = error_response ErrorCode.invalid_document (codes "unknown document")

module _ {F R S : Type 0} (renderers : DocumentRenderer R) (factories : RendererFactory F R)
    (stores : PageBufferStore S) where
  abbrev run : Request → Worker F R S → Response × Worker F R S
  run = handle renderers factories stores

  -- Before a handshake every request but `Hello` is answered by a protocol violation and changes
  -- nothing.
  pub handle_gated :
      (request : Request) (w : Worker F R S)
      → w.handshake_done ≡ false
      → ¬ IsHello request
      → run request w
        ≡ (error_response ErrorCode.protocol_violation (codes "handshake required"), w)
  unfolding handle on_ping on_open_document on_get_document_info on_render_page on_close_document
  handle_gated (hello r) w e n = absurd (n tt)
  handle_gated (ping r) w e n = simp e
  handle_gated (open_document r) w e n = simp e
  handle_gated (get_document_info r) w e n = simp e
  handle_gated (render_page r) w e n = simp e
  handle_gated (close_document r) w e n = simp e

  -- What a successful opening has checked and done.
  pub record Opened (request : OpenDocumentRequest) (w : Worker F R S) (r : DocumentOpenedResponse)
      (w' : Worker F R S) : Type 0 where
    pub id : r.document_id ≡ request.document_id
    pub fresh : find request.document_id w ≡ none
    pub ready : w.handshake_done ≡ true
    pub still_ready : w'.handshake_done ≡ true
    pub doc : WorkerDocument R
    pub open_now : find request.document_id w' ≡ some doc
    pub info : r.info ≡ document_info_to_wire doc.info
    pub valid : validate_info doc.info ≡ ok tt

  Opened-inspect :
      (request : OpenDocumentRequest) (renderer : R) (i : Result RenderError DocumentInfo)
      (w : Worker F R S) (r : DocumentOpenedResponse) (w' : Worker F R S)
      → find request.document_id w ≡ none
      → w.handshake_done ≡ true
      → inspect renderers factories stores request.document_id renderer i w
        ≡ (document_opened r, w')
      → Opened request w r w'
  unfolding inspect error_response
  Opened-inspect request renderer (err e) w r w' n h q = absurd (ground arith)
  Opened-inspect request renderer (ok info) w r w' n h q =
      elim (Result-cases (validate_info info)) [
        | inr (e, bad) ↦ absurd (ground arith)
        | inl (_, good) ↦ record {
          id = ground arith;
          fresh = n;
          ready = h;
          still_ready = ground arith;
          doc = record { renderer = renderer; info = info };
          open_now = ground (
            arith,
            Assoc.get-insert_self ℕ_discrete request.document_id
                (record { renderer = renderer; info = info }) w.docs,
          );
          info = ground arith;
          valid = ground arith;
        }
      ]

  Opened-created :
      (request : OpenDocumentRequest) (made : Result RenderError R × F) (w : Worker F R S)
      (r : DocumentOpenedResponse) (w' : Worker F R S)
      → find request.document_id w ≡ none
      → w.handshake_done ≡ true
      → created renderers factories stores request.document_id made w ≡ (document_opened r, w')
      → Opened request w r w'
  unfolding created error_response
  Opened-created request (err e, f) w r w' n h q = absurd (ground arith)
  Opened-created request (ok renderer, f) w r w' n h q =
      let o =
        Opened-inspect request renderer (renderers.info renderer) (record w { factory = f }) r w' n
          h q in
      record {
        id = o.id;
        fresh = n;
        ready = h;
        still_ready = o.still_ready;
        doc = o.doc;
        open_now = o.open_now;
        info = o.info;
        valid = o.valid;
      }

  -- A document is opened only after a handshake and only under an id that is not open; it is then
  -- open under that id, with valid metadata, and the response carries exactly these.
  pub handle-Opened :
      (request : OpenDocumentRequest) (w : Worker F R S) (r : DocumentOpenedResponse)
      (w' : Worker F R S)
      → run (open_document request) w ≡ (document_opened r, w')
      → Opened request w r w'
  unfolding handle on_open_document open_checked open_unless_open error_response
  handle-Opened request w r w' q = elim (Bool-cases w.handshake_done) [
    | inr e ↦ absurd (ground arith)
    | inl e ↦ elim (Result-cases (validate_open_document w.limits request)) [
      | inr (x, bad) ↦ absurd (ground arith)
      | inl (_, good) ↦ elim (Option-cases (find request.document_id w)) [
        | inr (d, found) ↦ absurd (ground arith)
        | inl fresh ↦
            Opened-created request (factories.create request.bytes w.factory) w r w' fresh e
              (ground arith)
      ]
    ]
  ]

  -- The metadata of a document that was just opened can be asked for at once: the answer carries
  -- what the opening reported, and asking changes nothing.
  pub get_document_info_after_open :
      (request : OpenDocumentRequest) (w : Worker F R S) (r : DocumentOpenedResponse)
      (w' : Worker F R S)
      → run (open_document request) w ≡ (document_opened r, w')
      → run (get_document_info (record { document_id = request.document_id })) w'
        ≡ (document_info (record { document_id = request.document_id; info = r.info }), w')
  unfolding on_get_document_info describe
  get_document_info_after_open request w r w' q =
      let o = handle-Opened request w r w' q in
      unfold handle in ground (arith, o.still_ready, o.open_now, o.info)

  -- Once the worker has closed a document it no longer holds it: asking for its metadata and closing
  -- it again are refused as an unknown document, and change nothing.
  pub handle_after_close :
      (id : ℕ) (w w' : Worker F R S) (c : CloseDocumentResponse)
      → run (close_document (record { document_id = id })) w ≡ (closed c, w')
      → (run (get_document_info (record { document_id = id })) w' ≡ (unknown_document, w'))
        × (run (close_document (record { document_id = id })) w' ≡ (unknown_document, w'))
        × (find id w' ≡ none)
  unfolding handle on_close_document on_get_document_info close_found describe error_response
  handle_after_close id w w' c q = elim (Bool-cases w.handshake_done) [
    | inr e ↦ absurd (ground arith)
    | inl e ↦ elim (Option-cases (find id w)) [
      | inl n ↦ absurd (ground arith)
      | inr (d, found) ↦
          let gone : find id w' ≡ none =
            ground (arith, Assoc.get-remove_self ℕ_discrete id w.docs) in
          let ready : w'.handshake_done ≡ true = ground arith in (ground arith, ground arith, gone)
    ]
  ]
