-- ===== src/Core/Manager/Histories.antt =====
-- crates/core/src/manager.rs: the manager after any calls.
use doc_bunker.Prelude.{ℕ, ◌≡◌, List, [], ◌∷◌, ok}
use doc_bunker.RendererApi.Types.{RenderOptions}
use doc_bunker.Sandbox.Backend.{SandboxBackend}
use doc_bunker.Core.Manager.{
  DocumentHandle, DocumentManager, open_document, render_page, close, new,
}
use doc_bunker.Core.Manager.Sessions.{IsSound, open_document-IsSound, close-IsSound, new-IsSound}
use doc_bunker.Core.Manager.Showing.{render_page-IsSound}

-- The calls that can change the manager's state.
pub data Call : Type 0 where
  opening : List ℕ → Call
  rendering : DocumentHandle → ℕ → RenderOptions → Call
  closing : DocumentHandle → Call

module _ {B : Type 0} (backends : SandboxBackend B) where
  abbrev pub after : Call → DocumentManager B → DocumentManager B
  after (opening bytes) m = (open_document backends bytes m).1
  after (rendering handle page options) m = (render_page backends handle page options m).1
  after (closing handle) m = (close backends handle m).1

  abbrev pub after_all : List Call → DocumentManager B → DocumentManager B
  after_all [] m = m
  after_all (c ∷ cs) m = after_all cs (after c m)

  after-IsSound : (c : Call) (m : DocumentManager B) → IsSound m.inner → IsSound (after c m).inner
  after-IsSound (opening bytes) m h = open_document-IsSound backends bytes m h
  after-IsSound (rendering handle page options) m h =
      render_page-IsSound backends handle page options m h
  after-IsSound (closing handle) m h = close-IsSound backends handle m h

  after_all-IsSound :
      (cs : List Call) (m : DocumentManager B) → IsSound m.inner → IsSound (after_all cs m).inner
  after_all-IsSound [] m h = h
  after_all-IsSound (c ∷ cs) m h = after_all-IsSound cs (after c m) (after-IsSound c m h)

  -- Over any backend, a new manager and each state that calls lead to from it has at most four
  -- sessions and a cache that stands for at most three pages, all valid.
  pub new-after_all-IsSound :
      (backend : B) (m : DocumentManager B) (cs : List Call)
      → new backends backend ≡ ok m
      → IsSound (after_all cs m).inner
  new-after_all-IsSound backend m cs e = after_all-IsSound cs m (new-IsSound backends backend m e)
