-- ===== src/Sandbox/Process.antt =====
-- `ProcessTransport` of crates/sandbox/src/process.rs: one exchange with the worker process. The
-- child, the two pipe threads and the clock are the environment: what they answer during one
-- exchange is a value of `Exchange`. The parts of a message that `format!` fills in are left out.
pub mod Exchanges
use doc_bunker.Prelude.{
  ℕ, zero, suc, ◌+◌, ◌-◌, Bool, true, false, ◌||◌, ◌&&◌, not, Option, none, some, List, [], ltb,
  leb, ◌==◌, if◌then◌else◌, Result, ok, err, ◌>>=◌, ◌>>◌, map_err,
}
use doc_bunker.Protocol.Error.{ProtocolError}
use doc_bunker.Protocol.Message.{
  Request, hello, open_document, get_document_info, render_page, close_document, ping, Response,
  hello_ok, document_opened, document_info, page_rendered, closed, pong, error,
}
use doc_bunker.Protocol.Payload.{Codec, encode_request, decode_response}
use doc_bunker.Protocol.Validate.{
  NegotiatedLimits, validate_error_response, validate_document_info, validate_rendered_page,
}
use doc_bunker.Sandbox.Error.{SandboxError, protocol, timeout, worker_crashed, internal}
use doc_bunker.Sandbox.Region.{ShmRegion, normalize_shm}
use doc_bunker.Sandbox.Transport.{discard, request_check}

pub data Child : Type 0 where
  running reaped : Child

-- The two threads are taken and joined by `reap` alone, and are left out with the channel ends.
pub record ProcessTransport : Type 0 where
  pub child : Child
  -- the sending end of the writer's channel
  pub writer : Bool
  pub limits : NegotiatedLimits
  pub timeout : ℕ
  pub shm : Option ShmRegion

-- `mpsc::Receiver::try_recv`, `SyncSender::try_send` and `Receiver::recv_timeout`.
pub data TryRecv : Type 0 where
  received disconnected empty : TryRecv

pub data TrySend : Type 0 where
  sent full disconnected : TrySend

pub data Waited (A : Type 0) : Type 0 where
  arrived : A → Waited A
  late gone : Waited A

-- What the reader thread hands over for one frame: a frame, the end of the stream or an error.
pub data Frame : Type 0 where
  frame : List ℕ → Frame
  end_of_stream read_error : Frame

pub record Exchange : Type 0 where
  pub overflow_before : Bool
  pub pending : TryRecv
  -- the clock, in milliseconds, when the deadline is computed
  pub start : ℕ
  -- the outcome of the n-th `try_send`, and the clock after it
  pub try_send : ℕ → TrySend
  pub clock : ℕ → ℕ
  pub before_write : ℕ
  pub write_result : Waited Bool
  pub before_read : ℕ
  pub frame_result : Waited Frame
  pub overflow_after : Bool
  pub extra : TryRecv

-- `terminate`: the child is killed and reaped, the region's file is removed.
unfoldable pub terminate : ProcessTransport → ProcessTransport
terminate t = record t { child = reaped; writer = false; shm = none }

-- `shutdown` ends with the child reaped as well, by itself or killed after the grace time.
unfoldable pub shutdown : ProcessTransport → ProcessTransport
shutdown t = record t { child = reaped; writer = false; shm = none }

abbrev pub Sent : Type 0
Sent = Result SandboxError Response × ProcessTransport

abbrev pub fail : SandboxError → ProcessTransport → Sent
fail e t = (err e, terminate t)

-- The loop that enqueues the command, from attempt `n`. None means that the fuel ran out; an
-- error ends the exchange.
unfoldable pub enqueue : Exchange → ℕ → ℕ → ℕ → Option (Result SandboxError (Unit {0}))
enqueue x deadline zero n = none
enqueue x deadline (suc fuel) n = elim (x.try_send n) [
  | TrySend.sent ↦ some (ok tt)
  | TrySend.full ↦
      let again = enqueue x deadline fuel (suc n) in
      if leb deadline (x.clock n) then some (err timeout) else again
  | TrySend.disconnected ↦ some (err worker_crashed)
]

-- `remaining`: the time that is left must not be zero.
abbrev pub remaining : ℕ → ℕ → Result SandboxError (Unit {0})
remaining deadline now = if ltb now deadline then ok tt else err timeout

abbrev pub write_outcome : Waited Bool → Result SandboxError (Unit {0})
write_outcome (arrived true) = ok tt
write_outcome (arrived false) = err (internal "worker write error")
write_outcome late = err timeout
write_outcome gone = err worker_crashed

abbrev pub frame_outcome : Waited Frame → Result SandboxError (List ℕ)
frame_outcome (arrived (frame bytes)) = ok bytes
frame_outcome (arrived end_of_stream) = err worker_crashed
frame_outcome (arrived read_error) = err (internal "worker read error")
frame_outcome late = err timeout
frame_outcome gone = err worker_crashed

abbrev pub unmatched : SandboxError
unmatched = internal "worker response does not match request"

abbrev pub matching : Bool → Result SandboxError (Unit {0})
matching b = if b then ok tt else err unmatched

-- `validate_response`
unfoldable pub validate_response :
    NegotiatedLimits → Request → Response → Result SandboxError (Unit {0})
validate_response l request (error e) = map_err protocol (validate_error_response e)
validate_response l (hello _) (hello_ok _) = ok tt
validate_response l (open_document request) (document_opened response) = do
  map_err protocol (discard (validate_document_info l response.info))
  matching (request.document_id == response.document_id)
validate_response l (get_document_info request) (document_info response) = do
  map_err protocol (discard (validate_document_info l response.info))
  matching (request.document_id == response.document_id)
validate_response l (render_page request) (page_rendered response) = do
  map_err protocol (discard (validate_rendered_page l response))
  matching (request.document_id == response.document_id && request.page == response.page)
validate_response l (close_document request) (closed response) =
    matching (request.document_id == response.document_id)
validate_response l (ping request) (pong response) = matching (request.nonce == response.nonce)
validate_response l request response = err unmatched

-- The checks on the state of the channels before anything is sent.
abbrev pub quiet : Bool → TryRecv → Result SandboxError (Unit {0})
quiet true pending = err (internal "worker sent unsolicited responses")
quiet false received = err (internal "worker sent an unsolicited response")
quiet false TryRecv.disconnected = err worker_crashed
quiet false empty = ok tt

abbrev pub no_extra : Bool → TryRecv → Result SandboxError (Unit {0})
no_extra false TryRecv.disconnected = ok tt
no_extra false empty = ok tt
no_extra overflow extra = err (internal "worker sent an unsolicited extra response")

-- The clock of the model has no largest value, so the fallback of `checked_add` is never taken.
abbrev pub deadline_of : Exchange → ProcessTransport → ℕ
deadline_of x t = x.start + t.timeout

module _ (requests : Codec Request) (responses : Codec Response) where
  -- What follows the write, up to the response.
  unfoldable pub receive :
      Exchange → ℕ → NegotiatedLimits → Option ShmRegion → Request → Result SandboxError Response
  receive x deadline limits shm request = do
    remaining deadline x.before_write
    write_outcome x.write_result
    remaining deadline x.before_read
    bytes ← frame_outcome x.frame_result
    wire ← map_err protocol (decode_response responses bytes)
    response ← normalize_shm shm limits.max_pixel_buffer wire
    validate_response limits request response
    no_extra x.overflow_after x.extra
    ok response

  -- Every error from here on terminates the child.
  settle : ProcessTransport → Result SandboxError Response → Sent
  settle t (ok response) = (ok response, t)
  settle t (err e) = fail e t

  after_enqueue :
      Exchange
      → ℕ
      → Request
      → ProcessTransport
      → Option (Result SandboxError (Unit {0}))
      → Option Sent
  unfolding settle
  after_enqueue x deadline request t none = none
  after_enqueue x deadline request t (some (err e)) = some (fail e t)
  after_enqueue x deadline request t (some (ok _)) =
      some (settle t (receive x deadline t.limits t.shm request))

  -- An error of `encode_request` leaves the child alone.
  with_payload :
      ℕ → Exchange → Request → ProcessTransport → Result ProtocolError (List ℕ) → Option Sent
  unfolding after_enqueue
  with_payload fuel x request t (err e) = some (err (protocol e), t)
  with_payload fuel x request t (ok payload) =
      if not t.writer
      then some (fail (internal "transport already closed") t)
      else after_enqueue x (deadline_of x t) request t (enqueue x (deadline_of x t) fuel 0)

  when_quiet :
      ℕ → Exchange → Request → ProcessTransport → Result SandboxError (Unit {0}) → Option Sent
  unfolding with_payload
  when_quiet fuel x request t (err e) = some (fail e t)
  when_quiet fuel x request t (ok _) =
      with_payload fuel x request t (encode_request requests request)

  -- `send_raw`. None means that the fuel of the loop ran out.
  unfoldable pub send_raw : ℕ → Exchange → Request → ProcessTransport → Option Sent
  unfolding when_quiet
  send_raw fuel x request t = when_quiet fuel x request t (quiet x.overflow_before x.pending)

  permitted :
      ℕ → Exchange → Request → ProcessTransport → Result ProtocolError (Unit {0}) → Option Sent
  permitted fuel x request t (err e) = some (err (protocol e), t)
  permitted fuel x request t (ok _) = send_raw fuel x request t

  -- `SandboxTransport::send`
  unfoldable pub send : ℕ → Exchange → Request → ProcessTransport → Option Sent
  unfolding permitted
  send fuel x request t = permitted fuel x request t (request_check t.limits request)
