-- ===== src/Sandbox/Transport.antt =====
-- `InProcessTransport` of crates/sandbox/src/transport.rs: the host's side of one worker.
pub mod Delivery
use doc_bunker.Prelude.{
  ℕ, ◌%◌, ◌^◌, ◌≡◌, refl, arith, Bool, true, false, Option, some, none, List, [], Result, ok, err,
  map_err, ◌>>=◌, ap, sym, ◌∙◌, Result-cases, inl, inr,
}
use doc_bunker.RendererApi.Limits
use doc_bunker.Protocol.Error.{ProtocolError}
use doc_bunker.Protocol.Limits.{protocol_version, max_ipc_message}
use doc_bunker.Protocol.Message.{
  HelloRequest, HelloOk, Request, hello, open_document, get_document_info, render_page,
  close_document, ping, Response, hello_ok, document_opened, document_info, page_rendered, closed,
  pong, error, ErrorCode, internal, code_from_u8,
}
use doc_bunker.Protocol.Validate.{
  NegotiatedLimits, server_negotiate, client_negotiate, to_hello_ok, validate_open_document,
  validate_render_request, validate_error_response, validate_rendered_page, validate_document_info,
}
use doc_bunker.Protocol.Validate.Negotiation.{offered, server_negotiate_iff, handshake_agrees}
use doc_bunker.Worker.Interfaces.{DocumentRenderer, RendererFactory, PageBufferStore}
use doc_bunker.Worker.State.{Worker}
use doc_bunker.Worker.Handle.{handle, on_hello}
use doc_bunker.Sandbox.Error.{SandboxError, protocol, worker_error}

pub record InProcessTransport (F R S : Type 0) : Type 0 where
  pub worker : Worker F R S
  pub limits : NegotiatedLimits

abbrev pub host_hello : HelloRequest
host_hello = record {
  protocol_version = protocol_version;
  max_document_size = Limits.max_document_size % 2 ^ 64;
  max_ipc_message = max_ipc_message % 2 ^ 32;
  shm_capable = false;
}

-- `ErrorCode::try_from(code).unwrap_or(ErrorCode::Internal)`
unfoldable pub unwrap_or_internal : Result (Unit {0}) ErrorCode → ErrorCode
unwrap_or_internal (ok c) = c
unwrap_or_internal (err _) = internal

-- A check whose value is dropped.
abbrev pub discard : {A : Type 0} → Result ProtocolError A → Result ProtocolError (Unit {0})
discard (ok _) = ok tt
discard (err e) = err e

-- What the host checks before it sends a request.
abbrev pub request_check : NegotiatedLimits → Request → Result ProtocolError (Unit {0})
request_check l (open_document request) = validate_open_document l request
request_check l (render_page render) = validate_render_request l render
request_check l _ = ok tt

-- What the host checks before it passes a response on.
abbrev pub response_check : NegotiatedLimits → Response → Result ProtocolError (Unit {0})
response_check l (error e) = validate_error_response e
response_check l (page_rendered page) = discard (validate_rendered_page l page)
response_check l (document_opened opened) = discard (validate_document_info l opened.info)
response_check l (document_info info) = discard (validate_document_info l info.info)
response_check l _ = ok tt

module _ {F R S : Type 0} (renderers : DocumentRenderer R) (factories : RendererFactory F R)
    (stores : PageBufferStore S) where
  agreed :
      Worker F R S
      → Result ProtocolError NegotiatedLimits
      → Result SandboxError (InProcessTransport F R S)
  agreed w (ok l) = ok (record { worker = w; limits = l })
  agreed w (err e) = err (protocol e)

  connected : Response × Worker F R S → Result SandboxError (InProcessTransport F R S)
  unfolding agreed unwrap_or_internal
  connected (hello_ok answer, w) = agreed w (client_negotiate answer)
  connected (error e, w) = err (worker_error (unwrap_or_internal (code_from_u8 e.code)) e.message)
  connected (_, w) = err (SandboxError.internal "unexpected response to hello")

  -- `InProcessTransport::connect`
  unfoldable pub connect : Worker F R S → Result SandboxError (InProcessTransport F R S)
  unfolding connected
  connect w = connected (handle renderers factories stores (hello host_hello) w)

  received :
      InProcessTransport F R S
      → Response
      → Result ProtocolError (Unit {0})
      → Result SandboxError Response × InProcessTransport F R S
  received t response (ok _) = (ok response, t)
  received t response (err e) = (err (protocol e), t)

  answered :
      InProcessTransport F R S
      → Response × Worker F R S
      → Result SandboxError Response × InProcessTransport F R S
  unfolding received
  answered t (response, w) =
      received (record t { worker = w }) response (response_check t.limits response)

  permitted :
      Request
      → InProcessTransport F R S
      → Result ProtocolError (Unit {0})
      → Result SandboxError Response × InProcessTransport F R S
  unfolding answered
  permitted message t (err e) = (err (protocol e), t)
  permitted message t (ok _) = answered t (handle renderers factories stores message t.worker)

  -- `SandboxTransport::send`
  unfoldable pub send :
      Request → InProcessTransport F R S → Result SandboxError Response × InProcessTransport F R S
  unfolding permitted
  send message t = permitted message t (request_check t.limits message)

  agreed_limits : server_negotiate host_hello ≡ ok (offered host_hello)
  agreed_limits = (server_negotiate_iff host_hello (offered host_hello) (omega arith)).1 (
    record { version = refl; document = omega arith; ipc_min = omega arith; ipc_max = omega arith },
    refl,
  )

  -- Whatever the worker's state, the connection succeeds: the worker takes the host's `Hello`, is
  -- then past its handshake, and both sides hold the same limits.
  pub connect_lem :
      (w : Worker F R S)
      → connect w
        ≡ ok (record {
          worker = record w { limits = offered host_hello; handshake_done = true };
          limits = offered host_hello;
        })
  unfolding connect on_hello handle
  connect_lem w = rw agreed_limits (
      ap (agreed (record w { limits = offered host_hello; handshake_done = true }))
        (handshake_agrees host_hello (offered host_hello) agreed_limits))
