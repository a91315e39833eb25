-- ===== src/Sandbox/Process/Exchanges.antt =====
-- One exchange from outside: it ends, and what it leaves behind.
use doc_bunker.Prelude.{
  ℕ, zero, suc, ◌+◌, ◌*◌, ◌≤◌, ◌≡◌, ◌≢◌, ◌↔◌, inl, inr, refl, arith, true, false, Option, none,
  some, List, Result, ok, err, Result-cases, length, Bool-cases,
}
use mathlib.Core.Path.{subst}
use doc_bunker.RendererApi.Types.{DocumentInfo, RenderedPage}
use doc_bunker.Protocol.Error.{ProtocolError}
use doc_bunker.Protocol.Message.{
  Request, hello, open_document, get_document_info, render_page, close_document, ping, Response,
  hello_ok, document_opened, document_info, page_rendered, closed, pong, error,
}
use doc_bunker.Protocol.Payload.{Codec, encode_request}
use doc_bunker.Protocol.Validate.{
  NegotiatedLimits, validate_error_response, document_info_from_wire, rendered_page_from_wire,
  validate_document_info, validate_rendered_page,
}
use doc_bunker.Sandbox.Error.{SandboxError, protocol, internal}
use doc_bunker.Sandbox.Process.{
  ProcessTransport, Exchange, terminate, Sent, enqueue, deadline_of, quiet, validate_response,
  receive, settle, after_enqueue, with_payload, when_quiet, send_raw,
}

-- Between two attempts to enqueue the host sleeps for five milliseconds.
pub record IsTicking (x : Exchange) : Type 0 where
  pub begins : x.start ≤ x.clock 0
  pub sleeps : (n : ℕ) → x.clock n + 5 ≤ x.clock (suc n)

clock_bound : (x : Exchange) (n : ℕ) → IsTicking x → x.start + 5 * n ≤ x.clock n
clock_bound x zero v = omega (arith, v.begins)
clock_bound x (suc n) v = omega (arith, v.sleeps n, clock_bound x n v)

enqueue_total :
    (x : Exchange) (deadline fuel n : ℕ)
    → IsTicking x
    → deadline + 5 ≤ x.start + 5 * (n + fuel)
    → (fuel ≢ 0)
    → enqueue x deadline fuel n ≢ none
unfolding enqueue
enqueue_total x deadline zero n v h z = absurd (z refl)
enqueue_total x deadline (suc zero) n v h z = ground (arith, clock_bound x n v)
enqueue_total x deadline (suc (suc fuel)) n v h z =
    ground (arith, enqueue_total x deadline (suc fuel) (suc n) v (omega arith) (λ e. cc))

module _ (requests : Codec Request) (responses : Codec Response) where
  -- How an exchange can end.
  pub data Ending (request : Request) (t : ProcessTransport) : Sent → Type 0 where
    answered :
        (response : Response)
        → validate_response t.limits request response ≡ ok tt
        → t.writer ≡ true
        → Ending request t (ok response, t)
    ended : (e : SandboxError) → Ending request t (err e, terminate t)
    unsent :
        (e : ProtocolError)
        → encode_request requests request ≡ err e
        → Ending request t (err (protocol e), t)

  receive-valid :
      (x : Exchange) (deadline : ℕ) (t : ProcessTransport) (request : Request) (response : Response)
      → receive requests responses x deadline t.limits t.shm request ≡ ok response
      → validate_response t.limits request response ≡ ok tt
  unfolding receive
  receive-valid x deadline t request response e = ground arith

  settle-Ending :
      (request : Request) (t : ProcessTransport) (r : Result SandboxError Response)
      → t.writer ≡ true
      → ((response : Response)
          → r ≡ ok response
          → validate_response t.limits request response ≡ ok tt)
      → Ending request t (settle requests responses t r)
  unfolding settle
  settle-Ending request t (ok response) w v = answered response (v response refl) w
  settle-Ending request t (err e) w v = ended e

  after_enqueue-Ending :
      (x : Exchange) (deadline : ℕ) (request : Request) (t : ProcessTransport)
      (q : Option (Result SandboxError (Unit {0}))) (s : Sent)
      → t.writer ≡ true
      → after_enqueue requests responses x deadline request t q ≡ some s
      → Ending request t s
  unfolding after_enqueue
  after_enqueue-Ending x deadline request t none s w e = absurd (cc)
  after_enqueue-Ending x deadline request t (some (err f)) s w e =
      let same : (err f, terminate t) ≡ s = cc in subst (Ending request t) same (ended f)
  after_enqueue-Ending x deadline request t (some (ok u)) s w e =
      let same : settle requests responses t
            (receive requests responses x deadline t.limits t.shm request)
          ≡ s =
        cc in
      subst (Ending request t) same (
        settle-Ending request t _ w
          (λ response good. receive-valid x deadline t request response good))

  with_payload-Ending :
      (fuel : ℕ) (x : Exchange) (request : Request) (t : ProcessTransport)
      (p : Result ProtocolError (List ℕ)) (s : Sent)
      → encode_request requests request ≡ p
      → with_payload requests responses fuel x request t p ≡ some s
      → Ending request t s
  unfolding with_payload
  with_payload-Ending fuel x request t (err f) s p e =
      let same : (err (protocol f), t) ≡ s = cc in subst (Ending request t) same (unsent f p)
  with_payload-Ending fuel x request t (ok payload) s p e = elim (Bool-cases t.writer) [
    | inl open_end ↦
        after_enqueue-Ending x (deadline_of x t) request t (enqueue x (deadline_of x t) fuel 0) s
          open_end (simp open_end at e)
    | inr shut ↦
        let e' = simp shut at e in
        let same : (err (internal "transport already closed"), terminate t) ≡ s = cc in
        subst (Ending request t) same (ended _)
  ]

  when_quiet-Ending :
      (fuel : ℕ) (x : Exchange) (request : Request) (t : ProcessTransport)
      (q : Result SandboxError (Unit {0})) (s : Sent)
      → when_quiet requests responses fuel x request t q ≡ some s
      → Ending request t s
  unfolding when_quiet
  when_quiet-Ending fuel x request t (err f) s e =
      let same : (err f, terminate t) ≡ s = cc in subst (Ending request t) same (ended f)
  when_quiet-Ending fuel x request t (ok u) s e =
      with_payload-Ending fuel x request t (encode_request requests request) s refl e

  -- An exchange with the worker process ends in one of three ways. A response is returned only
  -- where it has passed the validation against the request, and the transport, which was open, is
  -- then unchanged. Where the request cannot be encoded, nothing is sent or changed. After every
  -- other error the child is terminated, the writer is closed and the shared region is gone.
  pub send_raw-Ending :
      (fuel : ℕ) (x : Exchange) (request : Request) (t : ProcessTransport) (s : Sent)
      → send_raw requests responses fuel x request t ≡ some s
      → Ending request t s
  unfolding send_raw
  send_raw-Ending fuel x request t s e =
      when_quiet-Ending fuel x request t (quiet x.overflow_before x.pending) s e

  -- With a clock that the sleeps advance, the loop that enqueues the request ends by the deadline:
  -- as many rounds as five-millisecond steps fit the timeout, and one more, are enough.
  pub send_raw_total :
      (fuel : ℕ) (x : Exchange) (request : Request) (t : ProcessTransport)
      → IsTicking x
      → t.timeout + 5 ≤ 5 * fuel
      → (s : Sent) × (send_raw requests responses fuel x request t ≡ some s)
  unfolding send_raw
  send_raw_total fuel x request t v h = when_quiet_total (quiet x.overflow_before x.pending)
    where
      queued :
          (q : Option (Result SandboxError (Unit {0})))
          → q ≢ none
          → (s : Sent) × (after_enqueue requests responses x (deadline_of x t) request t q ≡ some s)
      queued none n = absurd (n refl)
      queued (some (err f)) n = (_, refl)
      queued (some (ok u)) n = (_, refl)

      payload_total :
          (p : Result ProtocolError (List ℕ))
          → (s : Sent) × (with_payload requests responses fuel x request t p ≡ some s)
      payload_total (err f) = (_, refl)
      payload_total (ok payload) = elim (Bool-cases t.writer) [
        | inl open_end ↦ simp open_end (
            queued (enqueue x (deadline_of x t) fuel 0) (
              enqueue_total x (deadline_of x t) fuel 0 v (omega arith) (λ z. absurd (omega arith))))
        | inr shut ↦ simp shut (_, refl)
      ]

      when_quiet_total :
          (q : Result SandboxError (Unit {0}))
          → (s : Sent) × (when_quiet requests responses fuel x request t q ≡ some s)
      when_quiet_total (err f) = (_, refl)
      when_quiet_total (ok u) = payload_total (encode_request requests request)

  closed_fails :
      (request : Request) (t : ProcessTransport) (s : Sent)
      → t.writer ≡ false
      → Ending request t s
      → (e : SandboxError) × (s.0 ≡ err e)
  closed_fails request t s shut (answered response v w) = absurd (cc)
  closed_fails request t s shut (ended e) = (e, refl)
  closed_fails request t s shut (unsent e p) = (protocol e, refl)

  -- Once terminated, a transport answers no request any more, whatever the worker, its pipes and
  -- the clock do: every later exchange ends in an error.
  pub send_raw-terminate :
      (fuel : ℕ) (x : Exchange) (request : Request) (t : ProcessTransport) (s : Sent)
      → send_raw requests responses fuel x request (terminate t) ≡ some s
      → (e : SandboxError) × (s.0 ≡ err e)
  send_raw-terminate fuel x request t s e =
      closed_fails request (terminate t) s (unfold terminate in refl)
        (send_raw-Ending fuel x request (terminate t) s e)

-- What an answer to a request is.
abbrev pub Answers : NegotiatedLimits → Request → Response → Type 0
Answers l request (error e) = validate_error_response e ≡ ok tt
Answers l (hello _) (hello_ok _) = Unit {0}
Answers l (open_document q) (document_opened r) =
    (q.document_id ≡ r.document_id)
    × (info : DocumentInfo) × (document_info_from_wire r.info ≡ ok info)
Answers l (get_document_info q) (document_info r) =
    (q.document_id ≡ r.document_id)
    × (info : DocumentInfo) × (document_info_from_wire r.info ≡ ok info)
Answers l (render_page q) (page_rendered r) =
    (q.document_id ≡ r.document_id)
    × (q.page ≡ r.page)
    × (p : RenderedPage) × (rendered_page_from_wire r ≡ ok p)
    × (length p.bytes ≤ l.max_pixel_buffer)
Answers l (close_document q) (closed r) = q.document_id ≡ r.document_id
Answers l (ping q) (pong r) = q.nonce ≡ r.nonce
Answers l _ _ = ⊥

validate_response_sound :
    (l : NegotiatedLimits) (q : Request) (r : Response)
    → validate_response l q r ≡ ok tt
    → Answers l q r
unfolding validate_response validate_document_info validate_rendered_page
validate_response_sound l (open_document q) (document_opened r) e =
    elim (Result-cases (document_info_from_wire r.info)) [
      | inl (i, good) ↦ (ground arith, i, good)
      | inr (f, bad) ↦ absurd (ground arith)
    ]
validate_response_sound l (get_document_info q) (document_info r) e =
    elim (Result-cases (document_info_from_wire r.info)) [
      | inl (i, good) ↦ (ground arith, i, good)
      | inr (f, bad) ↦ absurd (ground arith)
    ]
validate_response_sound l (render_page q) (page_rendered r) e =
    elim (Result-cases (rendered_page_from_wire r)) [
      | inl (p, good) ↦ (ground arith, ground arith, p, good, ground arith)
      | inr (f, bad) ↦ absurd (ground arith)
    ]
validate_response_sound l q (error r) e = ground arith
validate_response_sound l q r e = ground arith

validate_response_complete :
    (l : NegotiatedLimits) (q : Request) (r : Response)
    → Answers l q r
    → validate_response l q r ≡ ok tt
unfolding validate_response validate_document_info validate_rendered_page
validate_response_complete l (open_document q) (document_opened r) (same, i, good) = ground arith
validate_response_complete l q (error r) h = ground arith
validate_response_complete l q r h = ground arith

-- The host accepts a response exactly when it is an error report that is in order, or answers the
-- very request: the kind and the document id agree, the page or the nonce agrees, the metadata and
-- the page are valid, and the raster is within the negotiated size.
pub validate_response_iff :
    (l : NegotiatedLimits) (q : Request) (r : Response)
    → (validate_response l q r ≡ ok tt) ↔ Answers l q r
validate_response_iff l q r = (validate_response_sound l q r, validate_response_complete l q r)
