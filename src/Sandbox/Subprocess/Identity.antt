-- ===== src/Sandbox/Subprocess/Identity.antt =====
-- The sessions of the subprocess backend by their ids.
use doc_bunker.Prelude.{
  ℕ, ◌+◌, ◌^◌, ◌≤◌, ◌<◌, ◌≡◌, ◌≢◌, refl, Option, none, some, List, [], ◌∷◌, arith, Result, ok, err,
  Bool-cases, inl, inr, ◌∙◌, length, ltb, ◌||◌, String,
}
use doc_bunker.Prelude.Assoc
use mathlib.Core.Logic.{ite}
use native.Mathlib.Decide.{ℕ_discrete}
use doc_bunker.RendererApi.Types.{DocumentInfo, RenderOptions}
use doc_bunker.Sandbox.Error.{SandboxError}
use doc_bunker.Sandbox.Config.{SandboxConfig}
use doc_bunker.Sandbox.Backend.{SandboxSession}
use doc_bunker.Sandbox.Session.{Transport, WorkerSession}
use doc_bunker.Sandbox.Subprocess.{
  SubprocessSession, SubprocessBackend, increment, admitted, configured, start_session, put, sent,
  document_into, send_document, info_from, get_document_info, page_from, render_page, closed_state,
  close_session,
}

-- The id is in use no longer, and the counter is past it.
pub record IsRetired {T : Type 0} (id : ℕ) (b : SubprocessBackend T) : Type 0 where
  pub absent : Assoc.get ℕ_discrete id b.sessions ≡ none
  pub passed : id ≤ b.next_session_id

-- One call of the backend, without its answer.
pub data Call : Type 0 where
  starting : SandboxConfig → Call
  sending : SandboxSession → List ℕ → Call
  asking : SandboxSession → ℕ → Call
  rendering : SandboxSession → ℕ → ℕ → RenderOptions → Call
  closing : SandboxSession → Call

other :
    {T : Type 0} (id k : ℕ) (state : SubprocessSession T) (b : SubprocessBackend T)
    → Assoc.get ℕ_discrete k b.sessions ≡ some state
    → IsRetired id b
    → k ≢ id
other id k state b found v = λ e. let a = v.absent in absurd (cc)

module _ {T : Type 0} (transports : Transport T) (spawn : ℕ → ℕ → Result SandboxError T) where
  unfoldable pub after : Call → SubprocessBackend T → SubprocessBackend T
  after (starting config) b = (start_session transports spawn config b).1
  after (sending s bytes) b = (send_document transports spawn s bytes b).2
  after (asking s id) b = (get_document_info transports spawn s id b).2
  after (rendering s id page options) b = (render_page transports spawn s id page options b).2
  after (closing s) b = (close_session transports spawn s b).1

  put-IsRetired :
      (id k : ℕ) (state : SubprocessSession T) (w : WorkerSession T) (b : SubprocessBackend T)
      → Assoc.get ℕ_discrete k b.sessions ≡ some state
      → IsRetired id b
      → IsRetired id (put transports spawn k state w b)
  put-IsRetired id k state w b found v = record {
    absent =
        Assoc.get-insert_ne ℕ_discrete k id (record state { worker = w }) b.sessions
          (other id k state b found v)
        ∙ v.absent;
    passed = v.passed;
  }

  sent-IsRetired :
      (id k d : ℕ) (state : SubprocessSession T)
      (r : Result SandboxError DocumentInfo × WorkerSession T) (b : SubprocessBackend T)
      → Assoc.get ℕ_discrete k b.sessions ≡ some state
      → IsRetired id b
      → IsRetired id (sent transports spawn k d state r b).1
  unfolding sent
  sent-IsRetired id k d state (err e, w) b found v = put-IsRetired id k state w b found v
  sent-IsRetired id k d state (ok i, w) b found v = put-IsRetired id k state w b found v

  document_into-IsRetired :
      (id k : ℕ) (bytes : List ℕ) (s : Option (SubprocessSession T)) (b : SubprocessBackend T)
      → Assoc.get ℕ_discrete k b.sessions ≡ s
      → IsRetired id b
      → IsRetired id (document_into transports spawn k bytes s b).1
  unfolding document_into
  document_into-IsRetired id k bytes none b found v = v
  document_into-IsRetired id k bytes (some state) b found v =
      elim (Bool-cases (ltb state.config.max_document_size (length bytes))) [
        | inl large ↦ rw large v
        | inr small ↦ rw small (
            sent-IsRetired id k _ state _
              (record b { next_document_id = increment b.next_document_id }) found
              (record { absent = v.absent; passed = v.passed }))
      ]

  info_from-IsRetired :
      (id k d : ℕ) (s : Option (SubprocessSession T)) (b : SubprocessBackend T)
      → Assoc.get ℕ_discrete k b.sessions ≡ s
      → IsRetired id b
      → IsRetired id (info_from transports spawn k d s b).1
  unfolding info_from
  info_from-IsRetired id k d none b found v = v
  info_from-IsRetired id k d (some state) b found v = put-IsRetired id k state _ b found v

  page_from-IsRetired :
      (id k d page : ℕ) (options : RenderOptions) (s : Option (SubprocessSession T))
      (b : SubprocessBackend T)
      → Assoc.get ℕ_discrete k b.sessions ≡ s
      → IsRetired id b
      → IsRetired id (page_from transports spawn k d page options s b).1
  unfolding page_from
  page_from-IsRetired id k d page options none b found v = v
  page_from-IsRetired id k d page options (some state) b found v =
      elim (Bool-cases (
        ltb state.config.max_page_width options.target_width
        || ltb state.config.max_page_height options.target_height)) [
          | inl large ↦ rw large v
          | inr small ↦ rw small (put-IsRetired id k state _ b found v)
        ]

  closed_state-IsRetired :
      (id k : ℕ) (s : Option (SubprocessSession T)) (b : SubprocessBackend T)
      → IsRetired id b
      → IsRetired id (closed_state transports spawn k s b).1
  unfolding closed_state
  closed_state-IsRetired id k none b v = v
  closed_state-IsRetired id k (some state) b v = record {
    absent = Assoc.get-remove ℕ_discrete k id b.sessions ∙ gone (ℕ_discrete k id) v.absent;
    passed = v.passed;
  }
    where
      gone :
          (d : Dec (k ≡ id))
          → Assoc.get ℕ_discrete id b.sessions ≡ none
          → ite d none (Assoc.get ℕ_discrete id b.sessions) ≡ none
      gone (yes e) h = refl
      gone (no e) h = h

  admitted-IsRetired :
      (id k : ℕ) (config : SandboxConfig) (r : Result SandboxError T) (b : SubprocessBackend T)
      → k ≢ id
      → IsRetired id b
      → IsRetired id (admitted transports spawn config k r b).1
  unfolding admitted
  admitted-IsRetired id k config (err e) b n v = v
  admitted-IsRetired id k config (ok t) b n v = record {
    absent = Assoc.get-insert_ne ℕ_discrete k id _ b.sessions n ∙ v.absent;
    passed = v.passed;
  }

  configured-IsRetired :
      (id : ℕ) (config : SandboxConfig) (r : Result String (Unit {0})) (b : SubprocessBackend T)
      → b.next_session_id + 1 < 2 ^ 64
      → IsRetired id b
      → IsRetired id (configured transports spawn config r b).1
  unfolding configured
  configured-IsRetired id config (err msg) b room v = v
  configured-IsRetired id config (ok u) b room v =
      admitted-IsRetired id (increment b.next_session_id) config
        (spawn (increment b.next_session_id) config.operation_timeout)
        (record b { next_session_id = increment b.next_session_id })
        (let p = v.passed in λ e. omega arith)
        (record { absent = v.absent; passed = let p = v.passed in omega arith })

  after-IsRetired :
      (id : ℕ) (c : Call) (b : SubprocessBackend T)
      → b.next_session_id + 1 < 2 ^ 64
      → IsRetired id b
      → IsRetired id (after c b)
  unfolding after start_session send_document get_document_info render_page close_session
  after-IsRetired id (starting config) b room v = configured-IsRetired id config _ b room v
  after-IsRetired id (sending s bytes) b room v = document_into-IsRetired id s.id bytes _ b refl v
  after-IsRetired id (asking s d) b room v = info_from-IsRetired id s.id d _ b refl v
  after-IsRetired id (rendering s d page options) b room v =
      page_from-IsRetired id s.id d page options _ b refl v
  after-IsRetired id (closing s) b room v = closed_state-IsRetired id s.id _ b v

  -- A call raises the session counter by one at most.
  abbrev IsSmall : SubprocessBackend T → SubprocessBackend T → Type 0
  IsSmall b b' = b'.next_session_id ≤ b.next_session_id + 1

  sent-IsSmall :
      (k d : ℕ) (state : SubprocessSession T)
      (r : Result SandboxError DocumentInfo × WorkerSession T) (a b : SubprocessBackend T)
      → b.next_session_id ≡ a.next_session_id
      → IsSmall a (sent transports spawn k d state r b).1
  unfolding sent
  sent-IsSmall k d state (err e, w) a b h = omega arith
  sent-IsSmall k d state (ok i, w) a b h = omega arith

  started-IsSmall :
      (config : SandboxConfig) (r : Result String (Unit {0})) (b : SubprocessBackend T)
      → IsSmall b (configured transports spawn config r b).1
  unfolding configured
  started-IsSmall config (err msg) b = omega arith
  started-IsSmall config (ok u) b =
      small (spawn (increment b.next_session_id) config.operation_timeout)
    where
      small :
          (r : Result SandboxError T)
          → IsSmall b
              (admitted transports spawn config
                (increment b.next_session_id)
                r
                (record b { next_session_id = increment b.next_session_id })).1
      small (err e) = omega arith
      small (ok t) = omega arith

  document_into-IsSmall :
      (k : ℕ) (bytes : List ℕ) (s : Option (SubprocessSession T)) (b : SubprocessBackend T)
      → IsSmall b (document_into transports spawn k bytes s b).1
  unfolding document_into
  document_into-IsSmall k bytes none b = omega arith
  document_into-IsSmall k bytes (some state) b =
      elim (Bool-cases (ltb state.config.max_document_size (length bytes))) [
        | inl large ↦ rw large (omega arith)
        | inr small ↦ rw small (
            sent-IsSmall k _ state _ b
              (record b { next_document_id = increment b.next_document_id }) refl)
      ]

  page_from-IsSmall :
      (k d page : ℕ) (options : RenderOptions) (s : Option (SubprocessSession T))
      (b : SubprocessBackend T)
      → IsSmall b (page_from transports spawn k d page options s b).1
  unfolding page_from
  page_from-IsSmall k d page options none b = omega arith
  page_from-IsSmall k d page options (some state) b = ground arith

  info_from-IsSmall :
      (k d : ℕ) (s : Option (SubprocessSession T)) (b : SubprocessBackend T)
      → IsSmall b (info_from transports spawn k d s b).1
  unfolding info_from
  info_from-IsSmall k d none b = omega arith
  info_from-IsSmall k d (some state) b = omega arith

  closed_state-IsSmall :
      (k : ℕ) (s : Option (SubprocessSession T)) (b : SubprocessBackend T)
      → IsSmall b (closed_state transports spawn k s b).1
  unfolding closed_state
  closed_state-IsSmall k none b = omega arith
  closed_state-IsSmall k (some state) b = omega arith

  after-IsSmall : (c : Call) (b : SubprocessBackend T) → IsSmall b (after c b)
  unfolding after start_session send_document get_document_info render_page close_session
  after-IsSmall (starting config) b = started-IsSmall config _ b
  after-IsSmall (sending s bytes) b = document_into-IsSmall s.id bytes _ b
  after-IsSmall (asking s d) b = info_from-IsSmall s.id d _ b
  after-IsSmall (rendering s d page options) b = page_from-IsSmall s.id d page options _ b
  after-IsSmall (closing s) b = closed_state-IsSmall s.id _ b

  unfoldable pub after_all : List Call → SubprocessBackend T → SubprocessBackend T
  unfolding after
  after_all [] b = b
  after_all (c ∷ cs) b = after_all cs (after c b)

  -- A session id that was given up stays so: after any calls, fewer than the counter has room for,
  -- no session has that id again, so the old handle reaches nobody else's session.
  pub after_all-IsRetired :
      (id : ℕ) (cs : List Call) (b : SubprocessBackend T)
      → b.next_session_id + length cs + 1 < 2 ^ 64
      → IsRetired id b
      → IsRetired id (after_all cs b)
  unfolding after_all
  after_all-IsRetired id [] b room v = v
  after_all-IsRetired id (c ∷ cs) b room v =
      after_all-IsRetired id cs (after c b) (omega (arith, after-IsSmall c b))
        (after-IsRetired id c b (omega arith) v)
