-- ===== src/Worker/Process/Serving.antt =====
-- The worker process over a stream of frames.
use doc_bunker.Prelude.{
  ℕ, false, suc, ◌≡◌, ◌≤◌, ◌-◌, ap, sym, ◌∙◌, refl, Bool, some, List, [], ◌∷◌, ◌++◌, All, ok, err,
  length, codes, arith, ltb,
}
use mathlib.Core.List.{append_assoc, append-nil}
use doc_bunker.Protocol.Error.{ProtocolError}
use doc_bunker.Protocol.Limits.{max_ipc_message}
use doc_bunker.Protocol.Message.{Request, Response, error, ErrorCode, code_as_u8}
use doc_bunker.Protocol.Payload.{Codec, decode_request, encode_response}
use doc_bunker.Protocol.Stream.{Event, IsClean, content}
use doc_bunker.Protocol.Framing.Writing.{
  vec_sink, frame, frames, write_frame_vec, IsReadable, ReadsAll, ReadsAll-frames,
}
use doc_bunker.Worker.Interfaces.{DocumentRenderer, RendererFactory, PageBufferStore}
use doc_bunker.Worker.State.{Worker}
use doc_bunker.Worker.Handle.{handle}
use doc_bunker.Worker.Process.{
  Output, respond, send_payload, after_frame, flushed, send_error, handled, decoded, answer,
  continued, received, run,
}

-- A standard output that keeps what is written and never fails.
abbrev pub vec_output : Output (List ℕ)
vec_output = record { sink = vec_sink; flush = λ w. (ok tt, w) }

-- A payload that leaves room for the header of a frame.
abbrev pub Fits : List ℕ → Type 0
Fits reply = length reply ≤ max_ipc_message - 4

-- What the process says of a payload that it cannot decode.
abbrev pub cannot_decode : Response
cannot_decode = error (record {
  code = code_as_u8 ErrorCode.protocol_violation;
  message = codes "cannot decode request";
})

module _ {F R S : Type 0} (requests : Codec Request) (responses : Codec Response)
    (renderers : DocumentRenderer R) (factories : RendererFactory F R)
    (stores : PageBufferStore S) where
  -- The replies to payloads and the worker behind them: `handle` takes the worker from request to
  -- request, and a payload that is no request leaves it alone.
  pub data Replies : Worker F R S → List (List ℕ) → Worker F R S → List (List ℕ) → Type 0 where
    finished : {w : Worker F R S} → Replies w [] w []
    answered :
        {w w' : Worker F R S} {payload reply : List ℕ} {payloads replies : List (List ℕ)}
        (request : Request)
        → decode_request requests payload ≡ ok request
        → encode_response responses (handle renderers factories stores request w).0 ≡ ok reply
        → Fits reply
        → Replies (handle renderers factories stores request w).1 payloads w' replies
        → Replies w (payload ∷ payloads) w' (reply ∷ replies)
    refused :
        {w w' : Worker F R S} {payload reply : List ℕ} {payloads replies : List (List ℕ)}
        (e : ProtocolError)
        → decode_request requests payload ≡ err e
        → encode_response responses cannot_decode ≡ ok reply
        → Fits reply
        → Replies w payloads w' replies
        → Replies w (payload ∷ payloads) w' (reply ∷ replies)

  sent :
      (response : Response) (reply out : List ℕ)
      → encode_response responses response ≡ ok reply
      → Fits reply
      → respond vec_output requests responses response out ≡ (ok tt, out ++ frame reply)
  unfolding respond send_payload after_frame flushed
  sent response reply out e fits =
      let small : ltb (max_ipc_message - 4) (length reply) ≡ false = ground arith in
      let wrote = write_frame_vec max_ipc_message reply out (omega arith) in
      rw (e, wrote, small) refl

  answer-request :
      (w : Worker F R S) (payload reply out : List ℕ) (request : Request)
      → decode_request requests payload ≡ ok request
      → encode_response responses (handle renderers factories stores request w).0 ≡ ok reply
      → Fits reply
      → answer vec_output requests responses renderers factories stores payload (w, out)
        ≡ (ok tt, ((handle renderers factories stores request w).1, out ++ frame reply))
  unfolding answer decoded handled
  answer-request w payload reply out request d c fits = rw (d, sent _ reply out c fits) refl

  answer-garbage :
      (w : Worker F R S) (payload reply out : List ℕ) (e : ProtocolError)
      → decode_request requests payload ≡ err e
      → encode_response responses cannot_decode ≡ ok reply
      → Fits reply
      → answer vec_output requests responses renderers factories stores payload (w, out)
        ≡ (ok tt, (w, out ++ frame reply))
  unfolding answer decoded send_error
  answer-garbage w payload reply out e d c fits = rw (d, sent cannot_decode reply out c fits) refl

  run-replies :
      (reserve : ℕ → Bool) (payloads : List (List ℕ)) (s : List Event) (w w' : Worker F R S)
      (out : List ℕ) (replies : List (List ℕ))
      → ReadsAll reserve max_ipc_message payloads s
      → Replies w payloads w' replies
      → run vec_output requests responses renderers factories stores reserve
          (suc (length payloads))
          s
          (w, out)
        ≡ some (ok tt, (w', out ++ frames replies))
  unfolding run
  run-replies reserve [] s w _ out _ (s', e) finished =
      rw (e, received) (ap (λ o. some (ok tt, (w, o))) (sym (append-nil out)))
  run-replies reserve (payload ∷ payloads) s w w' out _ (s', e, more)
        (answered {reply = reply} {replies = replies} request d c fits rest) =
      rw (e, received, answer-request w payload reply out request d c fits, continued)
        (run-replies reserve payloads s' _ w' (out ++ frame reply) replies more rest
          ∙ ap (λ o. some (ok tt, (w', o))) (append_assoc out (frame reply) (frames replies)))
  run-replies reserve (payload ∷ payloads) s w w' out _ (s', e, more)
        (refused {reply = reply} {replies = replies} f d c fits rest) =
      rw (e, received, answer-garbage w payload reply out f d c fits, continued)
        (run-replies reserve payloads s' w w' (out ++ frame reply) replies more rest
          ∙ ap (λ o. some (ok tt, (w', o))) (append_assoc out (frame reply) (frames replies)))

  -- Over a stream that consists of the frames of readable payloads, in any portions and with any
  -- interruptions, and to an output that takes everything, the process writes exactly the frames of
  -- the replies, in order, and then ends by itself at the end of the stream. The reply to a request
  -- is the response of `handle` to it on the worker that the requests before it left, and the reply
  -- to a payload that is no request is an error, all where the replies can be encoded and fit a
  -- frame.
  pub run-frames :
      (reserve : ℕ → Bool) (payloads : List (List ℕ)) (s : List Event) (w w' : Worker F R S)
      (out : List ℕ) (replies : List (List ℕ))
      → All (IsReadable reserve max_ipc_message) payloads
      → All IsClean s
      → content s ≡ frames payloads
      → Replies w payloads w' replies
      → run vec_output requests responses renderers factories stores reserve
          (suc (length payloads))
          s
          (w, out)
        ≡ some (ok tt, (w', out ++ frames replies))
  run-frames reserve payloads s w w' out replies readable clean same answers =
      run-replies reserve payloads s w w' out replies
        (ReadsAll-frames reserve max_ipc_message payloads s readable clean same) answers
