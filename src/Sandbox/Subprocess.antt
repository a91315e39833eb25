-- ===== src/Sandbox/Subprocess.antt =====
-- `SubprocessBackend` of crates/sandbox/src/process_backend.rs: sessions with a worker each. What
-- `ProcessTransport::spawn` answers, by the session's id and its timeout, is a parameter.
pub mod Identity
use doc_bunker.Prelude.{
  ℕ, ◌+◌, ◌%◌, ◌^◌, Bool, not, ◌||◌, Option, none, some, List, [], ◌∷◌, ltb, if◌then◌else◌, length,
  String, Result, ok, err, ◌>>=◌, map_err,
}
use doc_bunker.Prelude.Assoc
use native.Mathlib.Decide.{ℕ_discrete}
use doc_bunker.RendererApi.Error.{document_too_large, resource_limit_exceeded}
use doc_bunker.RendererApi.Types.{DocumentInfo, RenderOptions, RenderedPage}
use doc_bunker.Sandbox.Error.{SandboxError, render, invalid_session, backend_unsupported, internal}
use doc_bunker.Sandbox.Config.{SandboxConfig, validate_config}
use doc_bunker.Sandbox.Backend.{SandboxSession, SandboxBackend, subprocess}
use doc_bunker.Sandbox.Session
use doc_bunker.Sandbox.Session.{
  Transport, WorkerSession, document_info_of, render_page_of, close_all_documents,
}

pub record SubprocessSession (T : Type 0) : Type 0 where
  pub config : SandboxConfig
  pub worker : WorkerSession T

pub record SubprocessBackend (T : Type 0) : Type 0 where
  pub next_session_id : ℕ
  pub next_document_id : ℕ
  pub sessions : List (ℕ × SubprocessSession T)
  -- the transports of the sessions that were closed, after their shutdown
  pub ended : List T

unfoldable pub new : {T : Type 0} → SubprocessBackend T
new = record { next_session_id = 0; next_document_id = 0; sessions = []; ended = [] }

abbrev pub increment : ℕ → ℕ
increment n = (n + 1) % 2 ^ 64

-- Whether the binary is a file is the argument.
unfoldable pub initialize :
    {T : Type 0} → Bool → SubprocessBackend T → Result SandboxError (Unit {0}) × SubprocessBackend T
initialize is_file b =
    if not is_file
    then (err (backend_unsupported "renderer worker binary not found"), b)
    else (ok tt, b)

module _ {T : Type 0} (transports : Transport T) (spawn : ℕ → ℕ → Result SandboxError T) where
  abbrev Backend : Type 0
  Backend = SubprocessBackend T

  admitted :
      SandboxConfig
      → ℕ
      → Result SandboxError T
      → Backend
      → Result SandboxError SandboxSession × Backend
  admitted config id (err e) b = (err e, b)
  admitted config id (ok transport) b = (
    ok (record { id = id; kind = subprocess }),
    record b {
      sessions =
          Assoc.insert ℕ_discrete id
            (record { config = config; worker = record { transport = transport; docs = [] } })
            b.sessions;
    },
  )

  configured :
      SandboxConfig
      → Result String (Unit {0})
      → Backend
      → Result SandboxError SandboxSession × Backend
  unfolding admitted
  configured config (err msg) b = (err (internal msg), b)
  configured config (ok _) b =
      let id = increment b.next_session_id in
      admitted config id (spawn id config.operation_timeout) (record b { next_session_id = id })

  unfoldable pub start_session :
      SandboxConfig → Backend → Result SandboxError SandboxSession × Backend
  unfolding configured
  start_session config b = configured config (validate_config config) b

  -- The session of the map is changed in place.
  abbrev put : ℕ → SubprocessSession T → WorkerSession T → Backend → Backend
  put id state worker b = record b {
    sessions = Assoc.insert ℕ_discrete id (record state { worker = worker }) b.sessions;
  }

  sent :
      ℕ
      → ℕ
      → SubprocessSession T
      → Result SandboxError DocumentInfo × WorkerSession T
      → Backend
      → Result SandboxError ℕ × Backend
  sent session id state (err e, worker) b = (err e, put session state worker b)
  sent session id state (ok _, worker) b = (ok id, put session state worker b)

  document_into :
      ℕ → List ℕ → Option (SubprocessSession T) → Backend → Result SandboxError ℕ × Backend
  unfolding sent
  document_into session bytes none b = (err invalid_session, b)
  document_into session bytes (some state) b =
      if ltb state.config.max_document_size (length bytes)
      then (err (render document_too_large), b)
      else let id = increment b.next_document_id in
        sent session id state (Session.send_document transports bytes id state.worker)
          (record b { next_document_id = id })

  unfoldable pub send_document :
      SandboxSession → List ℕ → Backend → Result SandboxError ℕ × SandboxSession × Backend
  unfolding document_into
  send_document session bytes b =
      let (r, b') = document_into session.id bytes (Assoc.get ℕ_discrete session.id b.sessions) b in
      (r, session, b')

  info_from :
      ℕ → ℕ → Option (SubprocessSession T) → Backend → Result SandboxError DocumentInfo × Backend
  info_from session id none b = (err invalid_session, b)
  info_from session id (some state) b =
      let (r, worker) = document_info_of transports id state.worker in
      (r, put session state worker b)

  unfoldable pub get_document_info :
      SandboxSession → ℕ → Backend → Result SandboxError DocumentInfo × SandboxSession × Backend
  unfolding info_from
  get_document_info session id b =
      let (r, b') = info_from session.id id (Assoc.get ℕ_discrete session.id b.sessions) b in
      (r, session, b')

  page_from :
      ℕ
      → ℕ
      → ℕ
      → RenderOptions
      → Option (SubprocessSession T)
      → Backend
      → Result SandboxError RenderedPage × Backend
  page_from session id page options none b = (err invalid_session, b)
  page_from session id page options (some state) b =
      if ltb state.config.max_page_width options.target_width
        || ltb state.config.max_page_height options.target_height
      then (err (render resource_limit_exceeded), b)
      else let (r, worker) = render_page_of transports id page options state.worker in
        (r, put session state worker b)

  unfoldable pub render_page :
      SandboxSession
      → ℕ
      → ℕ
      → RenderOptions
      → Backend
      → Result SandboxError RenderedPage × SandboxSession × Backend
  unfolding page_from
  render_page session id page options b =
      let (r, b') =
        page_from session.id id page options (Assoc.get ℕ_discrete session.id b.sessions) b in
      (r, session, b')

  closed_state :
      ℕ → Option (SubprocessSession T) → Backend → Result SandboxError (Unit {0}) × Backend
  closed_state id none b = (err invalid_session, b)
  closed_state id (some state) b =
      let worker = close_all_documents transports state.worker in
      (
        ok tt,
        record b {
          sessions = Assoc.remove ℕ_discrete id b.sessions;
          ended = transports.shutdown worker.transport ∷ b.ended;
        },
      )

  unfoldable pub close_session : SandboxSession → Backend → Result SandboxError (Unit {0}) × Backend
  unfolding closed_state
  close_session session b = closed_state session.id (Assoc.get ℕ_discrete session.id b.sessions) b

  unfoldable pub subprocess_backend : Bool → SandboxBackend Backend
  subprocess_backend is_file = record {
    initialize = initialize is_file;
    start_session = start_session;
    send_document = send_document;
    get_document_info = get_document_info;
    render_page = render_page;
    close_session = close_session;
  }
