-- ===== src/Core/Manager/Showing.antt =====
-- crates/core/src/manager.rs: the pages that `render_page` shows, and the state that it leaves.
use doc_bunker.Prelude.{
  ℕ, ◌≡◌, refl, sym, ◌∙◌, Option, none, some, leb, Result, ok, err, Result-cases, Bool-cases, inl,
  inr,
}
use doc_bunker.Prelude.Assoc
use mathlib.Core.Path.{subst}
use doc_bunker.RendererApi.Types.{RenderOptions, RenderedPage, validate_page}
use doc_bunker.RendererApi.Pages.{IsPage, validate_page_iff}
use doc_bunker.Sandbox.Error.{SandboxError}
use doc_bunker.Sandbox.Backend.{SandboxSession, SandboxBackend}
use doc_bunker.Core.Error.{DocBunkerError}
use doc_bunker.Core.Cache.{CacheKey, PageCache, get, default_capacity}
use doc_bunker.Core.Cache.Recency.{lookup, use_key, insert_page}
use doc_bunker.Core.Cache.Refinement.{touched, get-Refines, put-Refines}
use doc_bunker.Core.Manager.{
  DocumentHandle, OpenDocument, Inner, DocumentManager, find_open, cache_key,
  validate_render_options, admit, rendered, cached, render_open, render_checked, render_page,
}
use doc_bunker.Core.Manager.Sessions.{IsSound, AllPages-take, AllPages-touched, with_backend}

module _ {B : Type 0} (backends : SandboxBackend B) where
  -- What a render leaves, and the page that it shows.
  abbrev pub Shows : Result DocBunkerError RenderedPage × Inner B → Type 0
  Shows r = IsSound r.1 × ((p : RenderedPage) → r.0 ≡ ok p → IsPage p)

  same-IsPage :
      (p q : RenderedPage)
      → IsPage p
      → ◌≡◌ {A = Result DocBunkerError RenderedPage} (ok p) (ok q)
      → IsPage q
  same-IsPage p q h e = let f : p ≡ q = cc in subst IsPage f h

  rendered-Shows :
      (k : CacheKey) (r : Result SandboxError RenderedPage × SandboxSession × B) (i : Inner B)
      → IsSound i
      → Shows (rendered backends k r i)
  unfolding rendered admit
  rendered-Shows k (err e, s, b) i h = (with_backend b i h, λ p q. cc)
  rendered-Shows k (ok p, s, b) i h = elim (Result-cases (validate_page p)) [
    | inl (u, e) ↦
        let v = (validate_page_iff p).0 e in
        rw e (
          record {
            within = h.within;
            pages = insert_page default_capacity k p h.pages;
            refines = put-Refines default_capacity k p i.cache h.pages h.refines;
            valid =
                AllPages-take 3 (use_key k p h.pages) (v, Assoc.All-remove _ _ k h.pages h.valid);
          },
          λ q. same-IsPage p q v,
        )
    | inr (x, e) ↦ rw e (with_backend b i h, λ p q. cc)
  ]

  cached-Shows :
      (k : CacheKey) (o : OpenDocument) (page : ℕ) (options : RenderOptions)
      (r : Option RenderedPage × PageCache) (i : Inner B)
      → IsSound (record i { cache = r.1 })
      → ((p : RenderedPage) → r.0 ≡ some p → IsPage p)
      → Shows (cached backends k o page options r i)
  unfolding cached
  cached-Shows k o page options (some p, c) i h v = (h, λ q. same-IsPage p q (v p refl))
  cached-Shows k o page options (none, c) i h v = rendered-Shows k _ (record i { cache = c }) h

  render_open-Shows :
      (handle : DocumentHandle) (page : ℕ) (options : RenderOptions) (o : Option OpenDocument)
      (i : Inner B)
      → IsSound i
      → Shows (render_open backends handle page options o i)
  unfolding render_open
  render_open-Shows handle page options none i h = (h, λ p q. cc)
  render_open-Shows handle page options (some o) i h =
      let k = cache_key handle page options in
      let g = get-Refines default_capacity k i.cache h.pages h.refines in
      elim (Bool-cases (leb o.info.page_count page)) [
        | inl t ↦ rw t (h, λ p q. cc)
        | inr t ↦ rw t (
            cached-Shows k o page options (get k i.cache) i
              (record {
                within = h.within;
                pages = touched k (lookup k h.pages) h.pages;
                refines = g.1;
                valid = AllPages-touched k (lookup k h.pages) h.pages refl h.valid;
              })
              (λ p e. Assoc.All-get _ _ k p h.pages h.valid (sym g.0 ∙ e)))
      ]

  render_page-Shows :
      (handle : DocumentHandle) (page : ℕ) (options : RenderOptions) (m : DocumentManager B)
      → IsSound m.inner
      → IsSound (render_page backends handle page options m).1.inner
        × ((p : RenderedPage) → (render_page backends handle page options m).0 ≡ ok p → IsPage p)
  unfolding render_page render_checked
  render_page-Shows handle page options m h =
      elim (Result-cases (validate_render_options options)) [
        | inl (u, e) ↦ elim (Bool-cases m.poisoned) [
          | inl t ↦ rw (e, t) (h, λ p q. cc)
          | inr t ↦
              rw (e, t) (render_open-Shows handle page options (find_open handle m.inner) m.inner h)
        ]
        | inr (x, e) ↦ rw e (h, λ p q. cc)
      ]

  -- From a sound state, `render_page` leaves a sound state, whatever the backend draws.
  pub render_page-IsSound :
      (handle : DocumentHandle) (page : ℕ) (options : RenderOptions) (m : DocumentManager B)
      → IsSound m.inner
      → IsSound (render_page backends handle page options m).1.inner
  render_page-IsSound handle page options m h = (render_page-Shows handle page options m h).0

  -- In a sound state, a page that `render_page` returns is valid, whether it comes from the backend
  -- or from the cache.
  pub render_page-IsPage :
      (handle : DocumentHandle) (page : ℕ) (options : RenderOptions) (m : DocumentManager B)
      (p : RenderedPage)
      → IsSound m.inner
      → (render_page backends handle page options m).0 ≡ ok p
      → IsPage p
  render_page-IsPage handle page options m p h = (render_page-Shows handle page options m h).1 p
