-- ===== src/Sandbox/Handshake/Ready.antt =====
-- The transport that a handshake with the worker process leaves.
use doc_bunker.Prelude.{
  ℕ, zero, suc, ◌+◌, ◌≤◌, ◌<◌, ap, ◌∙◌, ◌≡◌, refl, Bool, true, false, Option, none, some, arith,
  ltb, Result, ok, err, Text, Bool-cases, inl, inr,
}
use doc_bunker.Protocol.Error.{ProtocolError}
use doc_bunker.Protocol.Message.{HelloOk, Request, hello, Response, hello_ok}
use doc_bunker.Protocol.Payload.{Codec}
use doc_bunker.Protocol.Validate.{NegotiatedLimits, client_negotiate}
use doc_bunker.Protocol.Validate.Negotiation.{IsCapped, client_negotiate-Accepts}
use doc_bunker.Sandbox.Error.{SandboxError}
use doc_bunker.Sandbox.Region.{ShmRegion}
use doc_bunker.Sandbox.Process.{ProcessTransport, Exchange, Sent, send_raw, terminate}
use doc_bunker.Sandbox.Process.Exchanges.{
  Ending, answered, ended, unsent, send_raw-Ending, IsTicking, send_raw_total,
}
use doc_bunker.Sandbox.Handshake.{
  RegionFile, attempts, open_region, len_or_zero, hello_request, spawned, with_file, opened,
  with_region, negotiated, greeted, rounds, from_child_io,
}

-- A file that one of the attempts to open the region gave.
abbrev pub IsTried : (ℕ → Option RegionFile) → RegionFile → Type 0
IsTried attempt file = (n : ℕ) × (n < attempts) × (attempt n ≡ some file)

open_region-some :
    (attempt : ℕ → Option RegionFile) (left n : ℕ) (file : RegionFile)
    → open_region attempt left n ≡ some file
    → (i : ℕ) × (i < n + left) × (attempt i ≡ some file)
unfolding open_region
open_region-some attempt zero n file e = absurd (cc)
open_region-some attempt (suc left) n file e =
    go (attempt n) refl e (λ q. open_region-some attempt left (suc n) file q)
  where
    go :
        (o : Option RegionFile)
        → attempt n ≡ o
        → elim o [ some f ↦ some f | none ↦ open_region attempt left (suc n) ] ≡ some file
        → (open_region attempt left (suc n) ≡ some file
            → (i : ℕ) × (i < suc n + left) × (attempt i ≡ some file))
        → (i : ℕ) × (i < n + suc left) × (attempt i ≡ some file)
    go (some f) at q again = (n, omega arith, at ∙ q)
    go none at q again = let (i, less, here) = again q in (i, omega (arith, less), here)

-- Capped limits, and a shared region only over the file of one of the attempts, which is regular and
-- has at least the region's capacity.
pub record IsReady (attempt : ℕ → Option RegionFile) (t : ProcessTransport) : Type 0 where
  pub capped : IsCapped t.limits
  pub backed :
      (region : ShmRegion)
      → t.shm ≡ some region
      → (file : RegionFile) × IsTried attempt file
        × (region.read_at ≡ file.read_at)
        × (file.is_file ≡ some true)
        × (region.capacity ≤ len_or_zero file.len)

with_file-IsReady :
    (attempt : ℕ → Option RegionFile) (capacity : ℕ) (t u : ProcessTransport) (file : RegionFile)
    (b : Option Bool)
    → IsTried attempt file
    → IsCapped t.limits
    → file.is_file ≡ b
    → with_file capacity t file b ≡ ok u
    → IsReady attempt u
unfolding with_file
with_file-IsReady attempt capacity t u file none a k s e = absurd (cc)
with_file-IsReady attempt capacity t u file (some false) a k s e = absurd (cc)
with_file-IsReady attempt capacity t u file (some true) a k s e =
    elim (Bool-cases (ltb (len_or_zero file.len) capacity)) [
      | inl small ↦ absurd (let e' = rw small at e in cc)
      | inr large ↦ record {
        capped = ground arith;
        backed = λ region r.
            let same : region ≡ record { read_at = file.read_at; capacity = capacity } =
              ground arith in
            (
              file,
              a,
              ap (λ (q : ShmRegion). q.read_at) same,
              s,
              let c = ap (λ (q : ShmRegion). q.capacity) same in ground arith,
            );
      }
    ]

opened-IsReady :
    (attempt : ℕ → Option RegionFile) (capacity : ℕ) (t u : ProcessTransport)
    (file : Option RegionFile)
    → open_region attempt attempts 0 ≡ file
    → IsCapped t.limits
    → opened capacity t file ≡ ok u
    → IsReady attempt u
unfolding opened
opened-IsReady attempt capacity t u none o k e = absurd (cc)
opened-IsReady attempt capacity t u (some file) o k e =
    with_file-IsReady attempt capacity t u file _ (open_region-some attempt attempts 0 file o) k
      refl e

bare-IsReady :
    (attempt : ℕ → Option RegionFile) (t u : ProcessTransport)
    → IsCapped t.limits
    → t.shm ≡ none
    → ◌≡◌ {A = Result SandboxError ProcessTransport} (ok t) (ok u)
    → IsReady attempt u
bare-IsReady attempt t u k n e = record {
  capped = ground arith;
  backed = λ region r. absurd (ground arith);
}

with_region-IsReady :
    (attempt : ℕ → Option RegionFile) (name : Option Text) (capacity : Option ℕ)
    (t u : ProcessTransport)
    → IsCapped t.limits
    → t.shm ≡ none
    → with_region attempt name capacity t ≡ ok u
    → IsReady attempt u
unfolding with_region
with_region-IsReady attempt (some name) (some c) t u k n e = opened-IsReady attempt c t u _ refl k e
with_region-IsReady attempt none c t u k n e = bare-IsReady attempt t u k n e
with_region-IsReady attempt (some name) none t u k n e = bare-IsReady attempt t u k n e

negotiated-IsReady :
    (attempt : ℕ → Option RegionFile) (answer : HelloOk) (r : Result ProtocolError NegotiatedLimits)
    (t u : ProcessTransport)
    → client_negotiate answer ≡ r
    → t.shm ≡ none
    → negotiated attempt answer r t ≡ ok u
    → IsReady attempt u
unfolding negotiated
negotiated-IsReady attempt answer (err f) t u c n e = absurd (cc)
negotiated-IsReady attempt answer (ok l) t u c n e =
    with_region-IsReady attempt _ _ _ u (client_negotiate-Accepts answer l c).capped n e

greeted-IsReady :
    (attempt : ℕ → Option RegionFile) (r : Result SandboxError Response) (t u : ProcessTransport)
    → t.shm ≡ none
    → greeted attempt (r, t) ≡ ok u
    → IsReady attempt u
unfolding greeted
greeted-IsReady attempt (err f) t u n e = absurd (cc)
greeted-IsReady attempt (ok (hello_ok answer)) t u n e =
    negotiated-IsReady attempt answer _ t u refl n e
greeted-IsReady attempt (ok r) t u n e = absurd (cc)

module _ (requests : Codec Request) (responses : Codec Response) where
  shm_absent :
      (request : Request) (t : ProcessTransport) (s : Sent)
      → t.shm ≡ none
      → Ending requests responses request t s
      → s.1.shm ≡ none
  unfolding terminate
  shm_absent request t s n (answered r v w) = n
  shm_absent request t s n (ended e) = refl
  shm_absent request t s n (unsent e p) = n

  -- A handshake that succeeds leaves a transport whose limits are nonzero and within the hard caps,
  -- and whose shared region, if it has one, reads the file that one of the four attempts opened: a
  -- regular file of at least the region's capacity.
  pub from_child_io-IsReady :
      (x : Exchange) (attempt : ℕ → Option RegionFile) (wall_clock : ℕ) (shm_capable : Bool)
      (t : ProcessTransport)
      → from_child_io requests responses x attempt wall_clock shm_capable ≡ some (ok t)
      → IsReady attempt t
  unfolding from_child_io
  from_child_io-IsReady x attempt wall_clock shm_capable t e =
      ready
        (send_raw requests responses (rounds (spawned wall_clock)) x
          (hello (hello_request shm_capable)) (spawned wall_clock))
        refl e
    where
      ready :
          (q : Option Sent)
          → send_raw requests responses
              (rounds (spawned wall_clock))
              x
              (hello (hello_request shm_capable))
              (spawned wall_clock)
            ≡ q
          → elim q [ none ↦ none | some answer ↦ some (greeted attempt answer) ] ≡ some (ok t)
          → IsReady attempt t
      ready none same e = absurd (cc)
      ready (some (r, u)) same e =
          greeted-IsReady attempt r u t
            (shm_absent (hello (hello_request shm_capable)) (spawned wall_clock) (r, u)
              (unfold spawned in refl) (send_raw-Ending requests responses _ x _ _ _ same))
            (ground arith)

  -- With a clock that the sleeps advance, the handshake ends, in a transport or an error, whatever
  -- the worker does.
  pub from_child_io_total :
      (x : Exchange) (attempt : ℕ → Option RegionFile) (wall_clock : ℕ) (shm_capable : Bool)
      → IsTicking x
      → (r : Result SandboxError ProcessTransport) × (from_child_io requests responses x attempt
            wall_clock shm_capable
          ≡ some r)
  unfolding from_child_io spawned
  from_child_io_total x attempt wall_clock shm_capable v =
      let (s, e) =
        send_raw_total requests responses (rounds (spawned wall_clock)) x
          (hello (hello_request shm_capable)) (spawned wall_clock) v (omega arith) in
      (greeted attempt s, rw (e, from_child_io) refl)
