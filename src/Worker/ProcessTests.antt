-- ===== src/Worker/ProcessTests.antt =====
-- The worker process on a stream with one ping, before any handshake.
use doc_bunker.Prelude.{
  ℕ, suc, ◌≡◌, refl, Bool, true, false, none, some, List, [], ◌∷◌, ◌++◌, All, ok, err, arith,
  to_le_bytes, codes,
}
use doc_bunker.RendererApi.Types.{pdf}
use doc_bunker.RendererApi.Error.{rendering_failed}
use doc_bunker.Protocol.Limits.{max_ipc_message}
use doc_bunker.Protocol.Error.{interrupted}
use doc_bunker.Protocol.Message.{Request, Response, ping, pong}
use doc_bunker.Protocol.Payload.{Codec, decode_request, encode_response}
use doc_bunker.Protocol.Stream.{Event, chunk, failure, content, IsClean}
use doc_bunker.Protocol.Framing.Writing.{frame, frames, IsReadable}
use doc_bunker.Worker.Interfaces.{DocumentRenderer, RendererFactory, PageBufferStore}
use doc_bunker.Worker.State.{Worker}
use doc_bunker.Worker.Process.{run}
use doc_bunker.Worker.Errors.{error_response}
use doc_bunker.Worker.Handle.{handle, on_ping}
use doc_bunker.Worker.Process.Serving.{vec_output, Replies, answered, finished, run-frames}

abbrev always : ℕ → Bool
always n = true

abbrev requests : Codec Request
requests = record {
  to_allocvec = λ q. ok [];
  from_bytes = λ bytes. ok (ping (record { nonce = 5 }));
}

abbrev responses : Codec Response
responses = record {
  to_allocvec = λ r. ok (9 ∷ []);
  from_bytes = λ bytes. ok (pong (record { nonce = 5 }));
}

abbrev renderers : DocumentRenderer ℕ
renderers = record {
  info = λ r. ok (record { page_count = 1; width = 1; height = 1; format = pdf });
  render_page = λ page options r. (err rendering_failed, r);
}

abbrev factories : RendererFactory ℕ ℕ
factories = record { create = λ bytes f. (ok 0, suc f) }

abbrev stores : PageBufferStore ℕ
stores = record { store = λ bytes s. (ok tt, s); name = λ s. codes "x"; capacity = λ s. 64 }

abbrev worker : Worker ℕ ℕ ℕ
worker = record {
  factory = 0;
  docs = [];
  limits = record {
    max_document_size = 0;
    max_ipc_message = 0;
    max_page_width = 0;
    max_page_height = 0;
    max_pixel_buffer = 0;
  };
  handshake_done = false;
  shm_store = none;
  shm_factory = none;
}

-- A ping in two portions.
abbrev stream : List Event
stream = chunk (2 ∷ 0 ∷ 0 ∷ []) ∷ failure interrupted ∷ chunk (0 ∷ 2 ∷ 5 ∷ []) ∷ []

abbrev payloads : List (List ℕ)
payloads = (2 ∷ 5 ∷ []) ∷ []

payloads-IsReadable : All (IsReadable always max_ipc_message) payloads
payloads-IsReadable =
    (record { long = omega arith; short = omega arith; reserved = refl; u32 = omega arith }, tt)

stream-IsClean : All IsClean stream
stream-IsClean = ((λ e. cc), (refl, ((λ e. cc), tt)))

stream-content : content stream ≡ frames payloads
unfolding frame to_le_bytes
stream-content = refl

-- The worker refuses a ping before the handshake; its error is the reply.
abbrev reply : List ℕ
reply = 2 ∷ 0x86 ∷ 9 ∷ []

ping_refused :
    Replies requests responses renderers factories stores worker payloads worker (reply ∷ [])
ping_refused = answered (ping (record { nonce = 5 })) decodes encodes (omega arith) rest
  where
    decodes : decode_request requests (2 ∷ 5 ∷ []) ≡ ok (ping (record { nonce = 5 }))
    decodes = unfold decode_request in refl

    encodes :
        encode_response responses
          (handle renderers factories stores (ping (record { nonce = 5 })) worker).0
        ≡ ok reply
    encodes = unfold encode_response handle on_ping error_response in refl

    rest :
        Replies requests responses renderers factories stores
          (handle renderers factories stores (ping (record { nonce = 5 })) worker).1
          []
          worker
          []
    rest = unfold handle on_ping in finished

run-frames_example :
    run vec_output requests responses renderers factories stores always 2 stream (worker, [])
    ≡ some (ok tt, (worker, [] ++ frames (reply ∷ [])))
run-frames_example =
    run-frames requests responses renderers factories stores always payloads stream worker worker []
      (reply ∷ []) payloads-IsReadable stream-IsClean stream-content ping_refused
