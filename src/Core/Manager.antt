-- ===== src/Core/Manager.antt =====
-- crates/core/src/manager.rs: the sessions of the open documents, one sandbox each, over any
-- backend. The mutex only orders the calls; a poisoned one answers every call with an error.
pub mod Sessions
pub mod Showing
pub mod Lifecycle
pub mod Histories
use doc_bunker.Prelude.{
  ℕ, ◌+◌, ◌%◌, ◌^◌, Bool, true, false, not, Option, none, some, List, [], ◌∷◌, ltb, leb, ◌==◌,
  if◌then◌else◌, length, Result, ok, err, map_err, ok_or, ◌>>=◌,
}
use doc_bunker.Prelude.Assoc
use mathlib.Core.Option
use native.Mathlib.Decide.{ℕ_discrete}
use doc_bunker.RendererApi.Error.{RenderError}
use doc_bunker.RendererApi.Limits.{validate_render_target}
use doc_bunker.RendererApi.Types.{DocumentInfo, RenderOptions, RenderedPage, validate_page}
use doc_bunker.Sandbox.Error.{SandboxError}
use doc_bunker.Sandbox.Config.{default_config}
use doc_bunker.Sandbox.Backend.{SandboxSession, SandboxBackend}
use doc_bunker.Core.Error.{
  DocBunkerError, from_render, from_sandbox, invalid_document, resource_limit_exceeded,
  no_document_open, invalid_page, internal_error,
}
use doc_bunker.Core.Cache.{CacheKey, PageCache, default_capacity, get, put, remove_document}
use doc_bunker.Core.Cache

abbrev pub max_open_documents : ℕ
max_open_documents = 4

pub record DocumentHandle : Type 0 where
  pub session : ℕ
  pub document : ℕ

pub record OpenDocument : Type 0 where
  pub session : SandboxSession
  pub document_id : ℕ
  pub info : DocumentInfo

pub record Inner (B : Type 0) : Type 0 where
  pub backend : B
  pub sessions : List (ℕ × OpenDocument)
  pub cache : PageCache
  pub next_id : ℕ

pub record DocumentManager (B : Type 0) : Type 0 where
  pub poisoned : Bool
  pub inner : Inner B

-- The answer of a call and the state that it leaves.
abbrev pub Answer : Type 0 → Type 0 → Type 0
Answer B A = Result DocBunkerError A × Inner B

-- `Option::filter` on the document id of the handle.
same_document : ℕ → Option OpenDocument → Option OpenDocument
same_document document none = none
same_document document (some o) = if o.document_id == document then some o else none

unfoldable pub find_open : {B : Type 0} → DocumentHandle → Inner B → Option OpenDocument
unfolding same_document
find_open handle i = same_document handle.document (Assoc.get ℕ_discrete handle.session i.sessions)

abbrev pub cache_key : DocumentHandle → ℕ → RenderOptions → CacheKey
cache_key handle page options = record {
  document = handle.document;
  page = page;
  width = options.target_width;
  height = options.target_height;
}

-- `validate_render_options`
unfoldable pub validate_render_options : RenderOptions → Result DocBunkerError (Unit {0})
validate_render_options o =
    map_err from_render (validate_render_target o.target_width o.target_height)

module _ {B : Type 0} (backends : SandboxBackend B) where
  -- The cleanup of a session that is half open; the answer of the backend is ignored.
  abandon : SandboxSession → SandboxError → Inner B → Answer B DocumentHandle
  abandon session e i =
      (err (from_sandbox e), record i { backend = (backends.close_session session i.backend).1 })

  register : SandboxSession → ℕ → DocumentInfo → Inner B → Answer B DocumentHandle
  register session document_id info i =
      let id = (i.next_id + 1) % 2 ^ 64 in
      (
        ok (record { session = id; document = document_id }),
        record i {
          next_id = id;
          sessions =
              Assoc.insert ℕ_discrete id
                (record { session = session; document_id = document_id; info = info }) i.sessions;
        },
      )

  informed :
      ℕ → Result SandboxError DocumentInfo × SandboxSession × B → Inner B → Answer B DocumentHandle
  unfolding abandon register
  informed document_id (err e, session, b) i = abandon session e (record i { backend = b })
  informed document_id (ok info, session, b) i =
      register session document_id info (record i { backend = b })

  sent : Result SandboxError ℕ × SandboxSession × B → Inner B → Answer B DocumentHandle
  unfolding informed abandon
  sent (err e, session, b) i = abandon session e (record i { backend = b })
  sent (ok document_id, session, b) i =
      informed document_id (backends.get_document_info session document_id b)
        (record i { backend = b })

  started : List ℕ → Result SandboxError SandboxSession × B → Inner B → Answer B DocumentHandle
  unfolding sent
  started bytes (err e, b) i = (err (from_sandbox e), record i { backend = b })
  started bytes (ok session, b) i =
      sent (backends.send_document session bytes b) (record i { backend = b })

  -- `open`, once the lock is held
  open_locked : List ℕ → Inner B → Answer B DocumentHandle
  unfolding started
  open_locked bytes i =
      if leb max_open_documents (length i.sessions)
      then (err resource_limit_exceeded, i)
      else started bytes (backends.start_session default_config i.backend) i

  -- `open`; a poisoned lock is found before anything changes.
  unfoldable pub open_document :
      List ℕ → DocumentManager B → Result DocBunkerError DocumentHandle × DocumentManager B
  unfolding open_locked
  open_document [] m = (err invalid_document, m)
  open_document (b ∷ bytes) m =
      let r = open_locked (b ∷ bytes) m.inner in
      if m.poisoned then (err internal_error, m) else (r.0, record m { inner = r.1 })

  unfoldable pub get_document_info :
      DocumentHandle → DocumentManager B → Result DocBunkerError DocumentInfo
  get_document_info handle m =
      if m.poisoned
      then err internal_error
      else ok_or no_document_open (Option.map (λ o. o.info) (find_open handle m.inner))

  -- The page that the backend returned is validated again, then stored.
  admit : CacheKey → RenderedPage → Result RenderError (Unit {0}) → Inner B → Answer B RenderedPage
  admit key p (err e) i = (err (from_render e), i)
  admit key p (ok _) i = (ok p, record i { cache = put key p i.cache })

  -- The session is a copy, so what the backend makes of it is dropped.
  rendered :
      CacheKey
      → Result SandboxError RenderedPage × SandboxSession × B
      → Inner B
      → Answer B RenderedPage
  unfolding admit
  rendered key (err e, session, b) i = (err (from_sandbox e), record i { backend = b })
  rendered key (ok p, session, b) i = admit key p (validate_page p) (record i { backend = b })

  cached :
      CacheKey
      → OpenDocument
      → ℕ
      → RenderOptions
      → Option RenderedPage × PageCache
      → Inner B
      → Answer B RenderedPage
  unfolding rendered
  cached key o page options (some p, cache) i = (ok p, record i { cache = cache })
  cached key o page options (none, cache) i =
      rendered key (backends.render_page o.session o.document_id page options i.backend)
        (record i { cache = cache })

  render_open :
      DocumentHandle → ℕ → RenderOptions → Option OpenDocument → Inner B → Answer B RenderedPage
  unfolding cached
  render_open handle page options none i = (err no_document_open, i)
  render_open handle page options (some o) i =
      if leb o.info.page_count page
      then (err invalid_page, i)
      else cached (cache_key handle page options) o page options
          (get (cache_key handle page options) i.cache) i

  render_checked :
      DocumentHandle
      → ℕ
      → RenderOptions
      → Result DocBunkerError (Unit {0})
      → DocumentManager B
      → Result DocBunkerError RenderedPage × DocumentManager B
  unfolding render_open
  render_checked handle page options (err e) m = (err e, m)
  render_checked handle page options (ok _) m =
      let r = render_open handle page options (find_open handle m.inner) m.inner in
      if m.poisoned then (err internal_error, m) else (r.0, record m { inner = r.1 })

  unfoldable pub render_page :
      DocumentHandle
      → ℕ
      → RenderOptions
      → DocumentManager B
      → Result DocBunkerError RenderedPage × DocumentManager B
  unfolding render_checked
  render_page handle page options m =
      render_checked handle page options (validate_render_options options) m

  torn_down : Result SandboxError (Unit {0}) × B → Inner B → Answer B (Unit {0})
  torn_down (r, b) i = (map_err from_sandbox r, record i { backend = b })

  close_open : DocumentHandle → Option OpenDocument → Inner B → Answer B (Unit {0})
  unfolding torn_down
  close_open handle none i = (err no_document_open, i)
  close_open handle (some o) i = torn_down (backends.close_session o.session i.backend) (record i {
    sessions = Assoc.remove ℕ_discrete handle.session i.sessions;
    cache = remove_document handle.document i.cache;
  })

  unfoldable pub close :
      DocumentHandle → DocumentManager B → Result DocBunkerError (Unit {0}) × DocumentManager B
  unfolding close_open
  close handle m =
      let r = close_open handle (find_open handle m.inner) m.inner in
      if m.poisoned then (err internal_error, m) else (r.0, record m { inner = r.1 })

  -- `DocumentManager::new`
  initialized : Result SandboxError (Unit {0}) × B → Result DocBunkerError (DocumentManager B)
  initialized (err e, b) = err (from_sandbox e)
  initialized (ok _, b) = ok (record {
    poisoned = false;
    inner = record { backend = b; sessions = []; cache = Cache.new default_capacity; next_id = 0 };
  })

  unfoldable pub new : B → Result DocBunkerError (DocumentManager B)
  unfolding initialized
  new backend = initialized (backends.initialize backend)

  -- `Drop`: every session of the map is closed, whatever the backend answers.
  unfoldable pub close_all : List (ℕ × OpenDocument) → B → B
  close_all [] b = b
  close_all ((id, o) ∷ sessions) b = close_all sessions (backends.close_session o.session b).1
