-- ===== src/Core/Manager/Sessions.antt =====
-- crates/core/src/manager.rs: what a call keeps of the manager's state, and which pages it shows.
use doc_bunker.Prelude.{
  ℕ, zero, suc, ◌+◌, ◌%◌, ◌^◌, ◌≤◌, ◌<◌, ◌≡◌, Bool, Option, none, some, List, [], ◌∷◌, leb, length,
  take, All, arith, Result, ok, err, Bool-cases, inl, inr,
}
use doc_bunker.Prelude.Assoc
use mathlib.Core.Path.{subst}
use native.Mathlib.Decide.{ℕ_discrete}
use doc_bunker.RendererApi.Types.{DocumentInfo, RenderedPage}
use doc_bunker.RendererApi.Pages.{IsPage}
use doc_bunker.Sandbox.Error.{SandboxError}
use doc_bunker.Sandbox.Config.{default_config}
use doc_bunker.Sandbox.Backend.{SandboxSession, SandboxBackend}
use doc_bunker.Core.Error.{DocBunkerError}
use doc_bunker.Core.Cache.{CacheKey, retain, default_capacity}
use doc_bunker.Core.Cache.Recency.{Recent, lookup, forget}
use doc_bunker.Core.Cache.Eviction.{Refines}
use doc_bunker.Core.Cache.Refinement.{new-Refines, touched, remove_document-Refines}
use doc_bunker.Core.Manager.{
  max_open_documents, DocumentHandle, OpenDocument, Inner, DocumentManager, find_open, abandon,
  register, informed, sent, started, open_locked, open_document, torn_down, close_open, close,
  initialized, new,
}

abbrev pub AllPages : Recent → Type 0
AllPages = All (λ e. IsPage e.1)

-- At most four sessions, and a cache of at most three pages that stands for valid ones.
pub record IsSound {B : Type 0} (i : Inner B) : Type 0 where
  pub within : length i.sessions ≤ max_open_documents
  pub pages : Recent
  pub refines : Refines default_capacity i.cache pages
  pub valid : AllPages pages

pub AllPages-take : (n : ℕ) (l : Recent) → AllPages l → AllPages (take n l)
AllPages-take zero l h = tt
AllPages-take (suc n) [] h = tt
AllPages-take (suc n) (e ∷ l) h = (h.0, AllPages-take n l h.1)

AllPages-retain :
    (f : CacheKey × RenderedPage → Bool) (l : Recent) → AllPages l → AllPages (retain f l)
unfolding retain
AllPages-retain f [] h = tt
AllPages-retain f (e ∷ l) h = elim (Bool-cases (f e)) [
  | inl t ↦ rw t (h.0, AllPages-retain f l h.1)
  | inr t ↦ rw t (AllPages-retain f l h.1)
]

length-remove :
    {V : Type 0} (k : ℕ) (m : List (ℕ × V)) → length (Assoc.remove ℕ_discrete k m) ≤ length m
unfolding Assoc.remove
length-remove k [] = omega arith
length-remove k (e ∷ m) = ground (arith, length-remove k m)

pub AllPages-touched :
    (k : CacheKey) (o : Option RenderedPage) (l : Recent)
    → lookup k l ≡ o
    → AllPages l
    → AllPages (touched k o l)
AllPages-touched k none l e h = h
AllPages-touched k (some p) l e h = (Assoc.All-get _ _ k p l h e, Assoc.All-remove _ _ k l h)

-- The invariant says nothing of the backend.
pub with_backend :
    {B : Type 0} (b : B) (i : Inner B) → IsSound i → IsSound (record i { backend = b })
with_backend b i h = record {
  within = h.within;
  pages = h.pages;
  refines = h.refines;
  valid = h.valid;
}

module _ {B : Type 0} (backends : SandboxBackend B) where
  register_keeps :
      (s : SandboxSession) (id : ℕ) (info : DocumentInfo) (i : Inner B)
      → IsSound i
      → length i.sessions < max_open_documents
      → IsSound (register backends s id info i).1
  unfolding register Assoc.insert
  register_keeps s id info i h b = record {
    within = omega (arith, b, length-remove ((i.next_id + 1) % 2 ^ 64) i.sessions);
    pages = h.pages;
    refines = h.refines;
    valid = h.valid;
  }

  informed_keeps :
      (id : ℕ) (r : Result SandboxError DocumentInfo × SandboxSession × B) (i : Inner B)
      → IsSound i
      → length i.sessions < max_open_documents
      → IsSound (informed backends id r i).1
  unfolding informed abandon
  informed_keeps id (err e, s, b) i h l = with_backend _ i h
  informed_keeps id (ok info, s, b) i h l =
      register_keeps s id info (record i { backend = b }) (with_backend b i h) l

  sent_keeps :
      (r : Result SandboxError ℕ × SandboxSession × B) (i : Inner B)
      → IsSound i
      → length i.sessions < max_open_documents
      → IsSound (sent backends r i).1
  unfolding sent abandon
  sent_keeps (err e, s, b) i h l = with_backend _ i h
  sent_keeps (ok id, s, b) i h l =
      informed_keeps id (backends.get_document_info s id b) (record i { backend = b })
        (with_backend b i h) l

  started_keeps :
      (bytes : List ℕ) (r : Result SandboxError SandboxSession × B) (i : Inner B)
      → IsSound i
      → length i.sessions < max_open_documents
      → IsSound (started backends bytes r i).1
  unfolding started
  started_keeps bytes (err e, b) i h l = with_backend b i h
  started_keeps bytes (ok s, b) i h l =
      sent_keeps (backends.send_document s bytes b) (record i { backend = b }) (with_backend b i h)
        l

  open_locked_keeps :
      (bytes : List ℕ) (i : Inner B) → IsSound i → IsSound (open_locked backends bytes i).1
  unfolding open_locked
  open_locked_keeps bytes i h = elim (Bool-cases (leb max_open_documents (length i.sessions))) [
    | inl t ↦ rw t h
    | inr t ↦
        rw t
          (started_keeps bytes (backends.start_session default_config i.backend) i h (ground arith))
  ]

  -- From a sound state (at most four sessions, and a cache that implements an ideal list of at
  -- most three valid pages), `open` leaves a sound state, whatever the backend answers.
  pub open_document-IsSound :
      (bytes : List ℕ) (m : DocumentManager B)
      → IsSound m.inner
      → IsSound (open_document backends bytes m).1.inner
  unfolding open_document
  open_document-IsSound [] m h = h
  open_document-IsSound (b ∷ bytes) m h = elim (Bool-cases m.poisoned) [
    | inl t ↦ rw t h
    | inr t ↦ rw t (open_locked_keeps (b ∷ bytes) m.inner h)
  ]

  close_open_keeps :
      (handle : DocumentHandle) (o : Option OpenDocument) (i : Inner B)
      → IsSound i
      → IsSound (close_open backends handle o i).1
  unfolding close_open torn_down
  close_open_keeps handle none i h = h
  close_open_keeps handle (some o) i h = record {
    within = omega (arith, h.within, length-remove handle.session i.sessions);
    pages = forget handle.document h.pages;
    refines = remove_document-Refines default_capacity handle.document i.cache h.pages h.refines;
    valid = AllPages-retain _ h.pages h.valid;
  }

  -- From a sound state, `close` leaves a sound state.
  pub close-IsSound :
      (handle : DocumentHandle) (m : DocumentManager B)
      → IsSound m.inner
      → IsSound (close backends handle m).1.inner
  unfolding close
  close-IsSound handle m h = elim (Bool-cases m.poisoned) [
    | inl t ↦ rw t h
    | inr t ↦ rw t (close_open_keeps handle (find_open handle m.inner) m.inner h)
  ]

  initialized-IsSound :
      (r : Result SandboxError (Unit {0}) × B) (m : DocumentManager B)
      → initialized backends r ≡ ok m
      → IsSound m.inner
  unfolding initialized
  initialized-IsSound (err x, b) m e = absurd cc
  initialized-IsSound (ok _, b) m e =
      subst (λ n. IsSound n.inner) (first m e)
        (record {
          within = omega arith;
          pages = [];
          refines = new-Refines default_capacity;
          valid = tt;
        })
    where
      first :
          {x : DocumentManager B} (y : DocumentManager B)
          → ◌≡◌ {A = Result DocBunkerError (DocumentManager B)} (ok x) (ok y)
          → x ≡ y
      first y q = cc

  -- A manager that `new` returns is in a sound state.
  pub new-IsSound :
      (backend : B) (m : DocumentManager B) → new backends backend ≡ ok m → IsSound m.inner
  unfolding new
  new-IsSound backend m e = initialized-IsSound (backends.initialize backend) m e
