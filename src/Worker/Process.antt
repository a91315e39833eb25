-- ===== src/Worker/Process.antt =====
-- The worker process (crates/renderer-worker/src/main.rs): the loop that reads a frame, answers it
-- and writes a frame. `expect` of the frame's length is the only panic.
pub mod Serving
use doc_bunker.Prelude.{
  ℕ, zero, suc, Bool, Option, none, some, List, [], ◌∷◌, Result, ok, err, Stop, failed, panicked,
  Text, codes, take,
}
use doc_bunker.Protocol.Error.{ProtocolError, IoError, io}
use doc_bunker.Protocol.Limits.{max_ipc_message, max_string_length}
use doc_bunker.Protocol.Message.{Request, Response, error, ErrorCode, code_as_u8}
use doc_bunker.Protocol.Payload.{Codec, decode_request, encode_response}
use doc_bunker.Protocol.Stream.{Event}
use doc_bunker.Protocol.Framing.{Frame, next_frame, Sink, Written, written, write_frame}
use doc_bunker.Protocol.Framing
use doc_bunker.Worker.Interfaces.{DocumentRenderer, RendererFactory, PageBufferStore}
use doc_bunker.Worker.State.{Worker}
use doc_bunker.Worker.Handle.{handle}

-- The standard output: `write_all` and `flush`.
pub record Output (W : Type 0) : Type 0 where
  pub sink : Sink W
  pub flush : W → Result IoError (Unit {0}) × W

abbrev pub Outcome : Type 0
Outcome = Result (Stop ProtocolError) (Unit {0})

module _ {W : Type 0} (output : Output W) (requests : Codec Request)
    (responses : Codec Response) where
  flushed : Result IoError (Unit {0}) × W → Outcome × W
  flushed (ok _, w) = (ok tt, w)
  flushed (err e, w) = (err (failed (io e)), w)

  after_frame : Written W → Outcome × W
  unfolding flushed
  after_frame (Framing.panicked w) = (err panicked, w)
  after_frame (written (err e) w) = (err (failed e), w)
  after_frame (written (ok _) w) = flushed (output.flush w)

  send_payload : Result ProtocolError (List ℕ) → W → Outcome × W
  unfolding after_frame
  send_payload (err e) w = (err (failed e), w)
  send_payload (ok payload) w = after_frame (write_frame output.sink max_ipc_message payload w)

  unfoldable pub respond : Response → W → Outcome × W
  unfolding send_payload
  respond response w = send_payload (encode_response responses response) w

  unfoldable pub send_error : ErrorCode → Text → W → Outcome × W
  unfolding respond
  send_error code message w =
      respond (error (record { code = code_as_u8 code; message = take max_string_length message }))
        w

  module _ {F R S : Type 0} (renderers : DocumentRenderer R) (factories : RendererFactory F R)
      (stores : PageBufferStore S) where
    -- The state of the process: the worker and its output.
    abbrev pub Running : Type 0
    Running = Worker F R S × W

    handled : Response × Worker F R S → W → Outcome × Running
    unfolding respond
    handled (response, worker) w = let (r, w') = respond response w in (r, (worker, w'))

    decoded : Result ProtocolError Request → Running → Outcome × Running
    unfolding handled send_error
    decoded (err e) (worker, w) =
        let (r, w') = send_error ErrorCode.protocol_violation (codes "cannot decode request") w in
        (r, (worker, w'))
    decoded (ok request) (worker, w) = handled (handle renderers factories stores request worker) w

    -- One payload: its request, the worker's answer and the frame of that.
    unfoldable pub answer : List ℕ → Running → Outcome × Running
    unfolding decoded
    answer payload p = decoded (decode_request requests payload) p

    continued :
        (Running → Option (Outcome × Running)) → Outcome × Running → Option (Outcome × Running)
    continued next (err e, p) = some (err e, p)
    continued next (ok _, p) = next p

    received :
        (List Event → Running → Option (Outcome × Running))
        → Running
        → Option Frame
        → Option (Outcome × Running)
    unfolding continued
    received next p none = none
    received next p (some (ok none, s)) = some (ok tt, p)
    received next p (some (err e, s)) = some (err (failed e), p)
    received next p (some (ok (some payload), s)) = continued (next s) (answer payload p)

    -- `run`. None means that the fuel ran out.
    unfoldable pub run : (ℕ → Bool) → ℕ → List Event → Running → Option (Outcome × Running)
    unfolding received
    run reserve zero s p = none
    run reserve (suc fuel) s p =
        received (λ s' p'. run reserve fuel s' p') p (next_frame reserve max_ipc_message s)
