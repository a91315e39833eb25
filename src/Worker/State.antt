-- ===== src/Worker/State.antt =====
-- The state of `Worker` of crates/renderer-worker/src/worker.rs.
use doc_bunker.Prelude.{ℕ, Bool, false, Option, none, List, []}
use doc_bunker.Prelude.Assoc
use native.Mathlib.Decide.{ℕ_discrete}
use doc_bunker.RendererApi.Types.{DocumentInfo}
use doc_bunker.Protocol.Validate.{NegotiatedLimits}

pub record WorkerDocument (R : Type 0) : Type 0 where
  pub renderer : R
  pub info : DocumentInfo

-- A shared-memory factory is called once at most, so it is the answer of that call.
pub record Worker (F R S : Type 0) : Type 0 where
  pub factory : F
  pub docs : List (ℕ × WorkerDocument R)
  pub limits : NegotiatedLimits
  pub handshake_done : Bool
  pub shm_store : Option S
  pub shm_factory : Option (Option S)

-- `Worker::with_shm_factory`; `Worker::new` is the case of no factory.
unfoldable pub with_shm_factory : {F R S : Type 0} → F → Option (Option S) → Worker F R S
with_shm_factory factory shm_factory = record {
  factory = factory;
  docs = [];
  limits = record {
    max_document_size = 0;
    max_ipc_message = 0;
    max_page_width = 0;
    max_page_height = 0;
    max_pixel_buffer = 0;
  };
  handshake_done = false;
  shm_store = none;
  shm_factory = shm_factory;
}

-- The documents of the map, by id.
abbrev pub find : {F R S : Type 0} → ℕ → Worker F R S → Option (WorkerDocument R)
find id w = Assoc.get ℕ_discrete id w.docs
