-- ===== src/Sandbox/Tests.antt =====
-- The in-process transport over a worker that draws one pixel, and its theorems there.
use doc_bunker.Prelude.{ℕ, suc, ◌≡◌, refl, arith, true, none, [], ◌∷◌, ok, codes}
use doc_bunker.RendererApi.Types.{rgba8888, pdf}
use doc_bunker.Protocol.Message.{Request, render_page}
use doc_bunker.Protocol.Validate.Negotiation.{offered}
use doc_bunker.Worker.Interfaces.{DocumentRenderer, RendererFactory, PageBufferStore}
use doc_bunker.Worker.State.{Worker}
use doc_bunker.Worker.Handle.{handle}
use doc_bunker.Worker.Handle.Invariant.{IsValid}
use doc_bunker.Sandbox.Transport.{InProcessTransport, host_hello, request_check, send}
use doc_bunker.Sandbox.Transport.Delivery.{passed_on, send_lem}

abbrev renderers : DocumentRenderer ℕ
renderers = record {
  info = λ r. ok (record { page_count = 1; width = 1; height = 1; format = pdf });
  render_page = λ page options r. (
    ok (record {
      width = 1;
      height = 1;
      stride = 4;
      pixel_format = rgba8888;
      bytes = 1 ∷ 2 ∷ 3 ∷ 4 ∷ [];
    }),
    suc r,
  );
}

abbrev factories : RendererFactory ℕ ℕ
factories = record { create = λ bytes f. (ok 0, suc f) }

abbrev stores : PageBufferStore ℕ
stores = record {
  store = λ bytes s. (ok tt, suc s);
  name = λ s. codes "docbunker_pagebuf_1_1.bin";
  capacity = λ s. 64;
}

abbrev connected_worker : Worker ℕ ℕ ℕ
connected_worker = record {
  factory = 0;
  docs =
      (
        7,
        record {
          renderer = 0;
          info = record { page_count = 1; width = 1; height = 1; format = pdf };
        },
      )
      ∷ [];
  limits = offered host_hello;
  handshake_done = true;
  shm_store = none;
  shm_factory = none;
}

abbrev transport : InProcessTransport ℕ ℕ ℕ
transport = record { worker = connected_worker; limits = offered host_hello }

abbrev render_request : Request
render_request =
    render_page (record { document_id = 7; page = 0; target_width = 1; target_height = 1 })

connected_worker-IsValid : IsValid connected_worker
connected_worker-IsValid = record {
  docs = (
    (
      (λ e. omega (arith, e)),
      record {
        some_page = omega arith;
        count_bound = omega arith;
        width_bound = omega arith;
        height_bound = omega arith;
      },
    ),
    tt,
  );
  limits = λ _. record {
    document = omega arith;
    document_cap = omega arith;
    ipc = omega arith;
    ipc_cap = omega arith;
    width = omega arith;
    width_cap = omega arith;
    height = omega arith;
    height_cap = omega arith;
    pixels = omega arith;
    pixels_cap = omega arith;
  };
}

send_lem_example :
    send renderers factories stores render_request transport
    ≡ passed_on transport
        (request_check (offered host_hello) render_request)
        (handle renderers factories stores render_request connected_worker)
send_lem_example =
    send_lem renderers factories stores render_request transport refl connected_worker-IsValid refl
