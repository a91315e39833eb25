-- ===== src/Worker/Handle/Opening.antt =====
-- The invariant of the worker under `on_hello`, `on_ping` and `on_open_document` of
-- crates/renderer-worker/src/worker.rs.
use doc_bunker.Prelude.{
  ℕ, ◌≡◌, ◌≢◌, refl, Bool, true, false, Option, none, some, if◌then◌else◌, Result, ok, err,
}
use doc_bunker.Prelude.Assoc
use native.Mathlib.Decide.{ℕ_discrete}
use doc_bunker.RendererApi.Error.{RenderError}
use doc_bunker.RendererApi.Types.{DocumentInfo, validate_info}
use doc_bunker.RendererApi.Pages.{validate_info_iff}
use doc_bunker.Protocol.Error.{ProtocolError}
use doc_bunker.Protocol.Message.{
  HelloRequest, HelloOk, OpenDocumentRequest, PingRequest, Response, hello_ok,
}
use doc_bunker.Protocol.Validate.{
  NegotiatedLimits, server_negotiate, to_hello_ok, validate_open_document, client_negotiate,
}
use doc_bunker.Protocol.Validate.Negotiation.{
  server_negotiate-IsCapped, handshake_agrees, validate_open_document_iff,
}
use doc_bunker.Worker.Interfaces.{DocumentRenderer, RendererFactory, PageBufferStore}
use doc_bunker.Worker.State.{WorkerDocument, Worker}
use doc_bunker.Worker.Handle.{
  advertise, greet, on_hello, on_ping, keep, inspect, created, open_unless_open, open_checked,
  on_open_document,
}
use doc_bunker.Worker.Handle.Invariant.{
  IsSafe, IsOpen, IsValid, Sound, info_safe, refused, gated-Sound,
}

module _ {F R S : Type 0} (renderers : DocumentRenderer R) (factories : RendererFactory F R)
    (stores : PageBufferStore S) where
  keep-Sound :
      (id : ℕ) (renderer : R) (info : DocumentInfo) (r : Result RenderError (Unit {0}))
      (w : Worker F R S)
      → id ≢ 0
      → validate_info info ≡ r
      → IsValid w
      → Sound (keep renderers factories stores id renderer info r w)
  unfolding keep
  keep-Sound id renderer info (err e) w n q v = refused _ _ w v
  keep-Sound id renderer info (ok _) w n q v =
      let i = (validate_info_iff info).0 q in
      record {
        valid = record {
          docs = Assoc.All-insert ℕ_discrete IsOpen id _ w.docs (n, i) v.docs;
          limits = v.limits;
        };
        safe = info_safe info i;
      }

  inspect-Sound :
      (id : ℕ) (renderer : R) (r : Result RenderError DocumentInfo) (w : Worker F R S)
      → id ≢ 0
      → IsValid w
      → Sound (inspect renderers factories stores id renderer r w)
  unfolding inspect
  inspect-Sound id renderer (err e) w n v = refused _ _ w v
  inspect-Sound id renderer (ok info) w n v = keep-Sound id renderer info _ w n refl v

  -- The factory is no part of the invariant.
  IsValid-factory : (f : F) (w : Worker F R S) → IsValid w → IsValid (record w { factory = f })
  IsValid-factory f w v = record { docs = v.docs; limits = v.limits }

  created-Sound :
      (id : ℕ) (r : Result RenderError R × F) (w : Worker F R S)
      → id ≢ 0
      → IsValid w
      → Sound (created renderers factories stores id r w)
  unfolding created
  created-Sound id (err e, f) w n v = refused _ _ _ (IsValid-factory f w v)
  created-Sound id (ok renderer, f) w n v = inspect-Sound id renderer _ _ n (IsValid-factory f w v)

  open_unless_open-Sound :
      (request : OpenDocumentRequest) (d : Option (WorkerDocument R)) (w : Worker F R S)
      → request.document_id ≢ 0
      → IsValid w
      → Sound (open_unless_open renderers factories stores request d w)
  unfolding open_unless_open
  open_unless_open-Sound request (some _) w n v = refused _ _ w v
  open_unless_open-Sound request none w n v = created-Sound _ _ w n v

  open_checked-Sound :
      (request : OpenDocumentRequest) (r : Result ProtocolError (Unit {0})) (w : Worker F R S)
      → validate_open_document w.limits request ≡ r
      → IsValid w
      → Sound (open_checked renderers factories stores request r w)
  unfolding open_checked
  open_checked-Sound request (err _) w q v = refused _ _ w v
  open_checked-Sound request (ok _) w q v =
      open_unless_open-Sound request _ w ((validate_open_document_iff w.limits request).0 q).0 v

  pub on_open_document-Sound :
      (request : OpenDocumentRequest) (w : Worker F R S)
      → IsValid w
      → Sound (on_open_document renderers factories stores request w)
  unfolding on_open_document
  on_open_document-Sound request w v =
      gated-Sound w.handshake_done _ _ (refused _ _ w v) (open_checked-Sound request _ w refl v)

  pub on_ping-Sound :
      (request : PingRequest) (w : Worker F R S)
      → IsValid w
      → Sound (on_ping renderers factories stores request w)
  unfolding on_ping
  on_ping-Sound request w v =
      gated-Sound w.handshake_done _ _ (refused _ _ w v) (record { valid = v; safe = tt })

  -- The greeting depends on the limits alone, but for the shared region.
  greeting_safe :
      (request : HelloRequest) (limits : NegotiatedLimits)
      → server_negotiate request ≡ ok limits
      → (l : NegotiatedLimits) × (client_negotiate
            (record (to_hello_ok limits) { shm_name = none; shm_capacity = none })
          ≡ ok l)
  unfolding to_hello_ok
  greeting_safe request limits e = (limits, handshake_agrees request limits e)

  greeted :
      (request : HelloRequest) (limits : NegotiatedLimits) (w : Worker F R S)
      → server_negotiate request ≡ ok limits
      → IsValid w
      → IsValid (record w { limits = limits; handshake_done = true })
  greeted request limits w e v = record {
    docs = v.docs;
    limits = λ _. server_negotiate-IsCapped request limits e;
  }

  advertise-Sound :
      (h : HelloOk) (f : Option (Option S)) (w : Worker F R S)
      → IsSafe (hello_ok h)
      → IsValid w
      → Sound (advertise renderers factories stores h f w)
  unfolding advertise
  advertise-Sound h none w q v = record { valid = v; safe = q }
  advertise-Sound h (some none) w q v = record {
    valid = record { docs = v.docs; limits = v.limits };
    safe = q;
  }
  advertise-Sound h (some (some store)) w q v = record {
    valid = record { docs = v.docs; limits = v.limits };
    safe = q;
  }

  if-Sound :
      (b : Bool) (m n : Response × Worker F R S) → Sound m → Sound n → Sound (if b then m else n)
  if-Sound true m n a b = a
  if-Sound false m n a b = b

  greet-Sound :
      (request : HelloRequest) (r : Result ProtocolError NegotiatedLimits) (w : Worker F R S)
      → server_negotiate request ≡ r
      → IsValid w
      → Sound (greet renderers factories stores request r w)
  unfolding greet
  greet-Sound request (err _) w e v = refused _ _ _ (record { docs = v.docs; limits = λ q. cc })
  greet-Sound request (ok limits) w e v =
      let safe = greeting_safe request limits e in
      if-Sound request.shm_capable _ _ (advertise-Sound _ _ _ safe (greeted request limits w e v))
        (record { valid = greeted request limits w e v; safe = safe })

  pub on_hello-Sound :
      (request : HelloRequest) (w : Worker F R S)
      → IsValid w
      → Sound (on_hello renderers factories stores request w)
  unfolding on_hello
  on_hello-Sound request w v = greet-Sound request _ w refl v
