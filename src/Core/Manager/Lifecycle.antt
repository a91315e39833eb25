-- ===== src/Core/Manager/Lifecycle.antt =====
-- crates/core/src/manager.rs: the sessions that each call opens, keeps and closes.
use doc_bunker.Prelude.{
  ℕ, ◌+◌, ◌%◌, ◌^◌, ◌≡◌, ◌≢◌, refl, ap, sym, ◌∙◌, false, Option, none, some, List, [], ◌∷◌, leb,
  length, arith, Result, ok, err, Result-cases, Bool-cases, inl, inr,
}
use doc_bunker.Prelude.Assoc
use native.Mathlib.Decide.{ℕ_discrete}
use doc_bunker.RendererApi.Types.{DocumentInfo, RenderOptions, RenderedPage, validate_page}
use doc_bunker.Sandbox.Error.{SandboxError}
use doc_bunker.Sandbox.Config.{default_config}
use doc_bunker.Sandbox.Backend.{SandboxSession, SandboxBackend}
use doc_bunker.Core.Error.{no_document_open}
use doc_bunker.Core.Cache.{CacheKey, PageCache, get}
use doc_bunker.Core.Manager.{
  max_open_documents, DocumentHandle, OpenDocument, Inner, DocumentManager, Answer, same_document,
  find_open, cache_key, validate_render_options, abandon, register, informed, sent, started,
  open_locked, open_document, get_document_info, admit, rendered, cached, render_open,
  render_checked, render_page, torn_down, close_open, close,
}

module _ {B : Type 0} where
  -- What `open` makes of the manager: a new session that is found under its handle, the others as
  -- they were; or, on an error, no session and nothing forgotten.
  abbrev pub IsOpening : Inner B → Answer B DocumentHandle → Type 0
  IsOpening i (ok h, j) =
      ((o : OpenDocument) × (find_open h j ≡ some o)
        × (j.sessions ≡ Assoc.insert ℕ_discrete h.session o i.sessions))
      × (h.session ≡ (i.next_id + 1) % 2 ^ 64)
      × (j.next_id ≡ h.session)
      × (j.cache ≡ i.cache)
  IsOpening i (err e, j) = (j.sessions ≡ i.sessions) × (j.next_id ≡ i.next_id) × (j.cache ≡ i.cache)

same_document_same :
    (d : ℕ) (o : OpenDocument) → o.document_id ≡ d → same_document d (some o) ≡ some o
unfolding same_document
same_document_same d o e = ground arith

module _ {B : Type 0} (backends : SandboxBackend B) where
  register-IsOpening :
      (s : SandboxSession) (id : ℕ) (info : DocumentInfo) (i : Inner B)
      → IsOpening i (register backends s id info i)
  unfolding register find_open
  register-IsOpening s id info i = (
    (
      record { session = s; document_id = id; info = info },
      ap (same_document id)
            (Assoc.get-insert_self ℕ_discrete ((i.next_id + 1) % 2 ^ 64) _ i.sessions)
          ∙ same_document_same id (record { session = s; document_id = id; info = info }) refl,
      refl,
    ),
    refl,
    refl,
    refl,
  )

  informed-IsOpening :
      (id : ℕ) (r : Result SandboxError DocumentInfo × SandboxSession × B) (i : Inner B)
      → IsOpening i (informed backends id r i)
  unfolding informed abandon find_open register
  informed-IsOpening id (err e, s, b) i = (refl, refl, refl)
  informed-IsOpening id (ok info, s, b) i = register-IsOpening s id info (record i { backend = b })

  sent-IsOpening :
      (r : Result SandboxError ℕ × SandboxSession × B) (i : Inner B)
      → IsOpening i (sent backends r i)
  unfolding sent abandon find_open
  sent-IsOpening (err e, s, b) i = (refl, refl, refl)
  sent-IsOpening (ok id, s, b) i =
      informed-IsOpening id (backends.get_document_info s id b) (record i { backend = b })

  started-IsOpening :
      (bytes : List ℕ) (r : Result SandboxError SandboxSession × B) (i : Inner B)
      → IsOpening i (started backends bytes r i)
  unfolding started find_open
  started-IsOpening bytes (err e, b) i = (refl, refl, refl)
  started-IsOpening bytes (ok s, b) i =
      sent-IsOpening (backends.send_document s bytes b) (record i { backend = b })

  open_locked-IsOpening :
      (bytes : List ℕ) (i : Inner B) → IsOpening i (open_locked backends bytes i)
  unfolding open_locked
  open_locked-IsOpening bytes i = elim (Bool-cases (leb max_open_documents (length i.sessions))) [
    | inl t ↦ rw t (refl, refl, refl)
    | inr t ↦ rw t (started-IsOpening bytes (backends.start_session default_config i.backend) i)
  ]

  -- Whatever the backend answers, `open` either returns a handle, under which a document is then
  -- open in a session of the next id, beside the sessions that were open before; or it fails and
  -- the sessions and the id counter are as they were. The page cache is untouched in both cases.
  pub open_document-IsOpening :
      (bytes : List ℕ) (m : DocumentManager B)
      → let r = open_document backends bytes m in IsOpening m.inner (r.0, r.1.inner)
  unfolding open_document
  open_document-IsOpening [] m = (refl, refl, refl)
  open_document-IsOpening (b ∷ bytes) m = elim (Bool-cases m.poisoned) [
    | inl t ↦ rw t (refl, refl, refl)
    | inr t ↦ rw t (open_locked-IsOpening (b ∷ bytes) m.inner)
  ]

  -- A render changes no session.
  rendered-sessions :
      (k : CacheKey) (r : Result SandboxError RenderedPage × SandboxSession × B) (i : Inner B)
      → (rendered backends k r i).1.sessions ≡ i.sessions
  unfolding rendered admit
  rendered-sessions k (err e, s, b) i = refl
  rendered-sessions k (ok p, s, b) i = elim (Result-cases (validate_page p)) [
    | inl (u, e) ↦ rw e
    | inr (x, e) ↦ rw e
  ]

  cached-sessions :
      (k : CacheKey) (o : OpenDocument) (page : ℕ) (options : RenderOptions)
      (r : Option RenderedPage × PageCache) (i : Inner B)
      → (cached backends k o page options r i).1.sessions ≡ i.sessions
  unfolding cached
  cached-sessions k o page options (some p, c) i = refl
  cached-sessions k o page options (none, c) i =
      rendered-sessions k (backends.render_page o.session o.document_id page options i.backend)
        (record i { cache = c })

  render_open-sessions :
      (handle : DocumentHandle) (page : ℕ) (options : RenderOptions) (o : Option OpenDocument)
      (i : Inner B)
      → (render_open backends handle page options o i).1.sessions ≡ i.sessions
  unfolding render_open
  render_open-sessions handle page options none i = refl
  render_open-sessions handle page options (some o) i =
      let k = cache_key handle page options in
      elim (Bool-cases (leb o.info.page_count page)) [
        | inl t ↦ rw t
        | inr t ↦ rw t (cached-sessions k o page options (get k i.cache) i)
      ]

  pub render_page-sessions :
      (handle : DocumentHandle) (page : ℕ) (options : RenderOptions) (m : DocumentManager B)
      → (render_page backends handle page options m).1.inner.sessions ≡ m.inner.sessions
  unfolding render_page render_checked
  render_page-sessions handle page options m =
      elim (Result-cases (validate_render_options options)) [
        | inl (u, e) ↦ elim (Bool-cases m.poisoned) [
          | inl t ↦ rw (e, t)
          | inr t ↦
              rw (e, t)
                (render_open-sessions handle page options (find_open handle m.inner) m.inner)
        ]
        | inr (x, e) ↦ rw e
      ]

  close_open-sessions :
      (h k : DocumentHandle) (o : Option OpenDocument) (i : Inner B)
      → find_open h i ≡ o
      → (find_open h (close_open backends h o i).1 ≡ none)
        × (k.session ≢ h.session → find_open k (close_open backends h o i).1 ≡ find_open k i)
  unfolding close_open torn_down find_open same_document
  close_open-sessions h k none i e = (e, λ n. refl)
  close_open-sessions h k (some o) i e = (
    ap (same_document h.document) (Assoc.get-remove_self ℕ_discrete h.session i.sessions),
    λ n.
        ap (same_document k.document)
          (Assoc.get-remove_ne ℕ_discrete h.session k.session i.sessions (λ q. n (sym q))),
  )

  -- After `close` on a manager whose lock is not poisoned no document is open under that handle.
  pub find_open-close :
      (h : DocumentHandle) (m : DocumentManager B)
      → m.poisoned ≡ false
      → find_open h (close backends h m).1.inner ≡ none
  unfolding close
  find_open-close h m s = rw s (close_open-sessions h h (find_open h m.inner) m.inner refl).0

  -- `close` leaves the documents of all other sessions open as they were.
  pub find_open-close_ne :
      (h k : DocumentHandle) (m : DocumentManager B)
      → k.session ≢ h.session
      → find_open k (close backends h m).1.inner ≡ find_open k m.inner
  unfolding close
  find_open-close_ne h k m n = elim (Bool-cases m.poisoned) [
    | inl t ↦ rw t
    | inr t ↦ rw t ((close_open-sessions h k (find_open h m.inner) m.inner refl).1 n)
  ]

  -- A handle without a document is refused by every call, and nothing changes.
  no_document_open_lem :
      (h : DocumentHandle) (page : ℕ) (options : RenderOptions) (m : DocumentManager B)
      → m.poisoned ≡ false
      → find_open h m.inner ≡ none
      → validate_render_options options ≡ ok tt
      → (get_document_info backends h m ≡ err no_document_open)
        × (render_page backends h page options m ≡ (err no_document_open, m))
        × (close backends h m ≡ (err no_document_open, m))
  unfolding get_document_info render_page render_checked render_open close close_open
  no_document_open_lem h page options m s f v = (rw (s, f), rw (v, s, f) refl, rw (s, f) refl)

  close-poisoned :
      (h : DocumentHandle) (m : DocumentManager B)
      → m.poisoned ≡ false
      → (close backends h m).1.poisoned ≡ false
  unfolding close
  close-poisoned h m s = rw s

  -- After `close` on a manager whose lock is not poisoned, `get_document_info`, `render_page`
  -- with an acceptable target and a second `close` under that handle fail with `NoDocumentOpen`,
  -- and the latter two change nothing.
  pub after_close :
      (h : DocumentHandle) (page : ℕ) (options : RenderOptions) (m : DocumentManager B)
      → m.poisoned ≡ false
      → validate_render_options options ≡ ok tt
      → let n = (close backends h m).1 in
        (get_document_info backends h n ≡ err no_document_open)
        × (render_page backends h page options n ≡ (err no_document_open, n))
        × (close backends h n ≡ (err no_document_open, n))
  after_close h page options m s v =
      no_document_open_lem h page options (close backends h m).1 (close-poisoned h m s)
        (find_open-close h m s) v
