-- ===== src/Worker/Tests.antt =====
-- A worker over a renderer that draws one pixel, and the theorems at its requests.
use doc_bunker.Prelude.{ℕ, suc, ◌≡◌, refl, arith, true, false, some, none, [], ◌∷◌, ok, codes}
use doc_bunker.Prelude.Assoc
use native.Mathlib.Decide.{ℕ_discrete}
use doc_bunker.RendererApi.Types.{rgba8888, pdf, RenderedPage, DocumentInfo, validate_info}
use doc_bunker.Protocol.Message.{
  OpenDocumentRequest, DocumentOpenedResponse, Request, open_document, document_opened, render_page,
  close_document, closed, ErrorCode,
}
use doc_bunker.Protocol.Validate.{NegotiatedLimits, validate_open_document, document_info_to_wire}
use doc_bunker.Worker.Interfaces.{DocumentRenderer, RendererFactory, PageBufferStore}
use doc_bunker.Worker.Errors.{error_response}
use doc_bunker.Worker.State.{Worker, find}
use doc_bunker.Worker.Handle.{handle, on_open_document, on_close_document}
use doc_bunker.Worker.Handle.Invariant.{IsValid, Sound}
use doc_bunker.Worker.Handle.Answering.{Echoes, handle-Answers}
use doc_bunker.Worker.Handle.Lifecycle.{handle_gated}
use doc_bunker.Worker.Handle.Isolation.{find-handle}

abbrev one_page : DocumentInfo
one_page = record { page_count = 1; width = 1; height = 1; format = pdf }

abbrev one_pixel : RenderedPage
one_pixel = record {
  width = 1;
  height = 1;
  stride = 4;
  pixel_format = rgba8888;
  bytes = 1 ∷ 2 ∷ 3 ∷ 4 ∷ [];
}

-- The renderer counts its pages, the factory its documents, and the store its rasters.
abbrev renderers : DocumentRenderer ℕ
renderers = record {
  info = λ r. ok one_page;
  render_page = λ page options r. (ok one_pixel, suc r);
}

abbrev factories : RendererFactory ℕ ℕ
factories = record { create = λ bytes f. (ok 0, suc f) }

abbrev stores : PageBufferStore ℕ
stores = record {
  store = λ bytes s. (ok tt, suc s);
  name = λ s. codes "docbunker_pagebuf_1_1.bin";
  capacity = λ s. 64;
}

abbrev limits : NegotiatedLimits
limits = record {
  max_document_size = 5000;
  max_ipc_message = 8192;
  max_page_width = 4096;
  max_page_height = 4096;
  max_pixel_buffer = 67108864;
}

abbrev fresh : Worker ℕ ℕ ℕ
fresh = record {
  factory = 0;
  docs = [];
  limits = limits;
  handshake_done = false;
  shm_store = none;
  shm_factory = some (some 0);
}

abbrev ready : Worker ℕ ℕ ℕ
ready = record {
  factory = 0;
  docs = [];
  limits = limits;
  handshake_done = true;
  shm_store = some 0;
  shm_factory = none;
}

abbrev opened : Worker ℕ ℕ ℕ
opened = record ready { factory = 1; docs = (7, record { renderer = 0; info = one_page }) ∷ [] }

abbrev emptied : Worker ℕ ℕ ℕ
emptied = record opened { docs = [] }

abbrev open_request : OpenDocumentRequest
open_request = record { document_id = 7; bytes = 1 ∷ 2 ∷ [] }

abbrev opened_response : DocumentOpenedResponse
opened_response = record {
  document_id = 7;
  info = record { page_count = 1; width = 1; height = 1; format = 1 };
}

abbrev render_request : Request
render_request =
    render_page (record { document_id = 7; page = 0; target_width = 1; target_height = 1 })

opens :
    handle renderers factories stores (open_document open_request) ready
    ≡ (document_opened opened_response, opened)
unfolding handle on_open_document validate_open_document validate_info document_info_to_wire
    Assoc.get Assoc.insert Assoc.remove
opens = refl

closes :
    handle renderers factories stores (close_document (record { document_id = 7 })) opened
    ≡ (closed (record { document_id = 7 }), emptied)
unfolding handle on_close_document Assoc.get Assoc.remove ℕ_discrete
closes = refl

opened-IsValid : IsValid opened
opened-IsValid = record {
  docs = (
    (
      (λ e. omega (arith, e)),
      record {
        some_page = omega arith;
        count_bound = omega arith;
        width_bound = omega arith;
        height_bound = omega arith;
      },
    ),
    tt,
  );
  limits = λ _. record {
    document = omega arith;
    document_cap = omega arith;
    ipc = omega arith;
    ipc_cap = omega arith;
    width = omega arith;
    width_cap = omega arith;
    height = omega arith;
    height_cap = omega arith;
    pixels = omega arith;
    pixels_cap = omega arith;
  };
}

handle-Answers_example :
    Sound (handle renderers factories stores render_request opened)
    × Echoes render_request (handle renderers factories stores render_request opened).0
handle-Answers_example =
    handle-Answers renderers factories stores render_request opened opened-IsValid

find-handle_example :
    find 8 (handle renderers factories stores render_request opened).1 ≡ find 8 opened
find-handle_example =
    find-handle renderers factories stores render_request 8 opened (λ e. absurd (ground arith))

handle_gated_example :
    handle renderers factories stores render_request fresh
    ≡ (error_response ErrorCode.protocol_violation (codes "handshake required"), fresh)
handle_gated_example = handle_gated renderers factories stores render_request fresh refl (λ e. e)
