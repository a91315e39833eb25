-- ===== src/Sandbox/Handshake.antt =====
-- `ProcessTransport::from_child_io` of crates/sandbox/src/process.rs, and the transport that the
-- session uses: a process with what its environment answers, exchange by exchange. On an error the
-- transport is dropped, which terminates the child.
pub mod Ready
use doc_bunker.Prelude.{
  ℕ, zero, suc, ◌+◌, ◌*◌, ◌/◌, ◌%◌, ◌^◌, ◌≤◌, ◌<◌, ◌≡◌, refl, Bool, true, false, Option, none, some,
  List, arith, ltb, if◌then◌else◌, Result, ok, err, Text, Bool-cases, Option-cases, Result-cases,
  inl, inr,
}
use doc_bunker.RendererApi.Limits
use doc_bunker.Protocol.Error.{ProtocolError}
use doc_bunker.Protocol.Limits.{protocol_version, max_ipc_message}
use doc_bunker.Protocol.Message.{
  HelloRequest, HelloOk, Request, hello, Response, hello_ok, document_opened, document_info,
  page_rendered, closed, pong, error, code_from_u8,
}
use doc_bunker.Protocol.Payload.{Codec}
use doc_bunker.Protocol.Validate.{NegotiatedLimits, client_negotiate}
use doc_bunker.Protocol.Validate.Negotiation.{IsCapped, client_negotiate-Accepts}
use doc_bunker.Sandbox.Error.{SandboxError, protocol, internal, timeout}
use doc_bunker.Sandbox.Region.{ShmRegion}
use doc_bunker.Sandbox.Process.{
  Child, running, ProcessTransport, Exchange, Sent, send_raw, send, terminate, shutdown, fail,
}
use doc_bunker.Sandbox.Session.{Transport, worker_refused}

-- The file behind an advertised name: whether it is a regular file and its length, none where the
-- metadata cannot be read.
pub record RegionFile : Type 0 where
  pub is_file : Option Bool
  pub len : Option ℕ
  pub read_at : ℕ → ℕ → Option (List ℕ)

-- Opening is tried `left` times in all; the argument says what the n-th attempt answers.
unfoldable pub open_region : (ℕ → Option RegionFile) → ℕ → ℕ → Option RegionFile
open_region attempt zero n = none
open_region attempt (suc left) n = elim (attempt n) [
  | some file ↦ some file
  | none ↦ open_region attempt left (suc n)
]

abbrev pub attempts : ℕ
attempts = 4

unfoldable pub hello_request : Bool → HelloRequest
hello_request shm_capable = record {
  protocol_version = protocol_version;
  max_document_size = Limits.max_document_size % 2 ^ 64;
  max_ipc_message = max_ipc_message % 2 ^ 32;
  shm_capable = shm_capable;
}

unfoldable pub spawned : ℕ → ProcessTransport
spawned wall_clock = record {
  child = running;
  writer = true;
  limits = record {
    max_document_size = 0;
    max_ipc_message = 0;
    max_page_width = 0;
    max_page_height = 0;
    max_pixel_buffer = 0;
  };
  timeout = wall_clock;
  shm = none;
}

-- `unwrap_or`
abbrev pub len_or_zero : Option ℕ → ℕ
len_or_zero none = 0
len_or_zero (some n) = n

abbrev pub unusable : SandboxError
unusable = internal "worker advertised an unusable shm region"

abbrev pub invalid : SandboxError
invalid = internal "worker advertised an invalid shm region"

with_file : ℕ → ProcessTransport → RegionFile → Option Bool → Result SandboxError ProcessTransport
with_file capacity t file none = err unusable
with_file capacity t file (some false) = err invalid
with_file capacity t file (some true) =
    if ltb (len_or_zero file.len) capacity
    then err invalid
    else ok (record t { shm = some (record { read_at = file.read_at; capacity = capacity }) })

opened : ℕ → ProcessTransport → Option RegionFile → Result SandboxError ProcessTransport
unfolding with_file
opened capacity t none = err unusable
opened capacity t (some file) = with_file capacity t file file.is_file

unfoldable pub with_region :
    (ℕ → Option RegionFile)
    → Option Text
    → Option ℕ
    → ProcessTransport
    → Result SandboxError ProcessTransport
unfolding opened
with_region attempt (some name) (some capacity) t =
    opened capacity t (open_region attempt attempts 0)
with_region attempt name capacity t = ok t

negotiated :
    (ℕ → Option RegionFile)
    → HelloOk
    → Result ProtocolError NegotiatedLimits
    → ProcessTransport
    → Result SandboxError ProcessTransport
unfolding with_region
negotiated attempt answer (err e) t = err (SandboxError.protocol e)
negotiated attempt answer (ok limits) t =
    with_region attempt answer.shm_name answer.shm_capacity (record t { limits = limits })

greeted : (ℕ → Option RegionFile) → Sent → Result SandboxError ProcessTransport
unfolding negotiated worker_refused
greeted attempt (err e, t) = err e
greeted attempt (ok (hello_ok answer), t) = negotiated attempt answer (client_negotiate answer) t
greeted attempt (ok (error e), t) = err (worker_refused e)
greeted attempt (ok _, t) = err (internal "unexpected response to hello")

-- Rounds of the loop in `send_raw` that are always enough.
abbrev pub rounds : ProcessTransport → ℕ
rounds t = t.timeout / 5 + 2

module _ (requests : Codec Request) (responses : Codec Response) where
  -- The handshake. None means that the fuel of the exchange ran out.
  unfoldable pub from_child_io :
      Exchange → (ℕ → Option RegionFile) → ℕ → Bool → Option (Result SandboxError ProcessTransport)
  unfolding greeted
  from_child_io x attempt wall_clock shm_capable =
      elim (send_raw requests responses (rounds (spawned wall_clock)) x
        (hello (hello_request shm_capable)) (spawned wall_clock)) [
          | none ↦ none
          | some answer ↦ some (greeted attempt answer)
        ]

-- A process with the environment of each exchange to come.
pub record Hosted : Type 0 where
  pub process : ProcessTransport
  pub environment : ℕ → Exchange
  pub count : ℕ

module _ (requests : Codec Request) (responses : Codec Response) where
  -- The fuel does not run out where the clock ticks; the case is an error all the same.
  abbrev host : Hosted → Option Sent → Result SandboxError Response × Hosted
  host h none = (err timeout, record h { process = terminate h.process; count = suc h.count })
  host h (some (r, t)) = (r, record h { process = t; count = suc h.count })

  unfoldable pub hosted : Transport Hosted
  hosted = record {
    send = λ request h.
        host h
          (send requests responses (rounds h.process) (h.environment h.count) request h.process);
    shutdown = λ h. record h { process = shutdown h.process };
    terminate = λ h. record h { process = terminate h.process };
  }
