-- ===== src/Sandbox/Transport/Delivery.antt =====
-- crates/sandbox/src/transport.rs: what `send` answers over a worker without a shared region.
use doc_bunker.Prelude.{◌≡◌, refl, arith, none, Result, ok, err, inl, inr}
use doc_bunker.RendererApi.Limits
use doc_bunker.Protocol.Error.{ProtocolError}
use doc_bunker.Protocol.Message.{
  PageRenderedResponse, Request, Response, hello_ok, document_opened, document_info, page_rendered,
  closed, pong, error,
}
use doc_bunker.Protocol.Validate.{NegotiatedLimits, validate_rendered_page, validate_document_info}
use doc_bunker.Protocol.Validate.Conversion.{rendered_page_from_wire_iff}
use doc_bunker.Worker.Interfaces.{DocumentRenderer, RendererFactory, PageBufferStore}
use doc_bunker.Worker.State.{Worker}
use doc_bunker.Worker.Handle.{handle}
use doc_bunker.Worker.Handle.Invariant.{IsSafe, IsDelivered, IsValid}
use doc_bunker.Worker.Handle.Safety.{handle-Sound}
use doc_bunker.Worker.Handle.InFrame.{IsInFrame, handle-IsInFrame}
use doc_bunker.Sandbox.Error.{SandboxError, protocol}
use doc_bunker.Sandbox.Transport.{
  InProcessTransport, discard, request_check, response_check, received, answered, permitted, send,
}

page_check :
    (l : NegotiatedLimits) (wire : PageRenderedResponse)
    → l.max_pixel_buffer ≡ Limits.max_pixel_buffer
    → IsDelivered wire
    → wire.shm_len ≡ none
    → discard (validate_rendered_page l wire) ≡ ok tt
unfolding validate_rendered_page
page_check l wire m (page, v, inl e) n =
    ground (arith, (rendered_page_from_wire_iff wire page).1 (e, v), v.bounded, v.filled)
page_check l wire m (page, v, inr e) n = absurd (ground arith)

-- A response that is safe and in its frame passes the host's check.
response_passes :
    (l : NegotiatedLimits) (r : Response)
    → l.max_pixel_buffer ≡ Limits.max_pixel_buffer
    → IsSafe r
    → IsInFrame r
    → response_check l r ≡ ok tt
unfolding validate_document_info
response_passes l (hello_ok h) m s f = refl
response_passes l (document_opened r) m (i, e) f = ground (arith, e)
response_passes l (document_info r) m (i, e) f = ground (arith, e)
response_passes l (page_rendered wire) m s f = page_check l wire m s f
response_passes l (closed _) m s f = refl
response_passes l (pong _) m s f = refl
response_passes l (error e) m s f = s

-- What `send` does, where no response of the worker is refused.
abbrev pub passed_on :
    {F R S : Type 0}
    → InProcessTransport F R S
    → Result ProtocolError (Unit {0})
    → Response × Worker F R S
    → Result SandboxError Response × InProcessTransport F R S
passed_on t (err e) r = (err (protocol e), t)
passed_on t (ok _) r = (ok r.0, record t { worker = r.1 })

module _ {F R S : Type 0} (renderers : DocumentRenderer R) (factories : RendererFactory F R)
    (stores : PageBufferStore S) where
  answered_lem :
      (t : InProcessTransport F R S) (r : Response × Worker F R S)
      → response_check t.limits r.0 ≡ ok tt
      → answered renderers factories stores t r ≡ (ok r.0, record t { worker = r.1 })
  unfolding answered received
  answered_lem t (response, w) e = rw e refl

  permitted_lem :
      (message : Request) (t : InProcessTransport F R S) (c : Result ProtocolError (Unit {0}))
      → t.limits.max_pixel_buffer ≡ Limits.max_pixel_buffer
      → IsValid t.worker
      → t.worker.shm_store ≡ none
      → permitted renderers factories stores message t c
        ≡ passed_on t c (handle renderers factories stores message t.worker)
  unfolding permitted
  permitted_lem message t (err e) m v h = refl
  permitted_lem message t (ok _) m v h =
      answered_lem t (handle renderers factories stores message t.worker) (
        response_passes t.limits _ m
          (handle-Sound renderers factories stores message t.worker v).safe
          (handle-IsInFrame renderers factories stores message t.worker h))

  -- Over a valid worker without a shared region, and under the hard pixel buffer cap, `send`
  -- either refuses a request that fails the host's own checks, and then nothing changes, or
  -- returns the very response of the worker: the host's checks refuse none.
  pub send_lem :
      (message : Request) (t : InProcessTransport F R S)
      → t.limits.max_pixel_buffer ≡ Limits.max_pixel_buffer
      → IsValid t.worker
      → t.worker.shm_store ≡ none
      → send renderers factories stores message t
        ≡ passed_on t
            (request_check t.limits message)
            (handle renderers factories stores message t.worker)
  unfolding send
  send_lem message t m v h = permitted_lem message t (request_check t.limits message) m v h
