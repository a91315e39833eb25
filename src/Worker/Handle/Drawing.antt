-- ===== src/Worker/Handle/Drawing.antt =====
-- A render request that every check lets through.
use doc_bunker.Prelude.{
  ℕ, ◌<◌, ◌≡◌, refl, true, Option, none, some, arith, ok, err, Result, Text, leb, false,
}
use doc_bunker.Prelude.Assoc
use native.Mathlib.Decide.{ℕ_discrete}
use doc_bunker.RendererApi.Types.{RenderedPage, validate_page}
use doc_bunker.Protocol.Message.{
  RenderPageRequest, render_page, PageRenderedResponse, page_rendered,
}
use doc_bunker.Protocol.Validate.{rendered_page_to_wire, validate_render_request}
use doc_bunker.Worker.Interfaces.{DocumentRenderer, RendererFactory, PageBufferStore}
use doc_bunker.Worker.State.{WorkerDocument, Worker, find}
use doc_bunker.Worker.Handle.{
  stored, share_len, share, deliver, drawn, rendered, render_checked, draw, on_render_page, handle,
}

-- The response shows the page under the request's ids, with the size of the page.
pub record Shows (request : RenderPageRequest) (page : RenderedPage) (wire : PageRenderedResponse)
    : Type 0 where
  pub document : wire.document_id ≡ request.document_id
  pub number : wire.page ≡ request.page
  pub wide : wire.width ≡ page.width
  pub high : wire.height ≡ page.height

module _ {F R S : Type 0} (renderers : DocumentRenderer R) (factories : RendererFactory F R)
    (stores : PageBufferStore S) where
  stored-Shows :
      (request : RenderPageRequest) (page : RenderedPage) (wire : PageRenderedResponse) (n : ℕ)
      (r : Result Text (Unit {0}) × S)
      → Shows request page wire
      → Shows request page (stored renderers factories stores wire n r).0
  unfolding stored
  stored-Shows request page wire n (ok _, store) h = ground arith
  stored-Shows request page wire n (err _, store) h = h

  share_len-Shows :
      (request : RenderPageRequest) (page : RenderedPage) (wire : PageRenderedResponse) (store : S)
      (n : Option ℕ)
      → Shows request page wire
      → Shows request page (share_len renderers factories stores wire store n).0
  unfolding share_len
  share_len-Shows request page wire store none h = h
  share_len-Shows request page wire store (some n) h = stored-Shows request page wire n _ h

  share-Shows :
      (request : RenderPageRequest) (page : RenderedPage) (wire : PageRenderedResponse)
      (store : Option S)
      → Shows request page wire
      → Shows request page (share renderers factories stores wire store).0
  unfolding share
  share-Shows request page wire none h = h
  share-Shows request page wire (some store) h = share_len-Shows request page wire store _ h

  deliver-Shows :
      (request : RenderPageRequest) (page : RenderedPage) (w : Worker F R S)
      → (wire : PageRenderedResponse) × ((deliver renderers factories stores request page
            (ok tt)
            w).0
          ≡ page_rendered wire)
        × Shows request page wire
  unfolding deliver rendered_page_to_wire
  deliver-Shows request page w = (
    _,
    refl,
    share-Shows request page _ w.shm_store
        (record { document = refl; number = refl; wide = refl; high = refl }),
  )

  -- A render request after the handshake that passes the negotiated limits, for a page of an open
  -- document that the renderer draws validly, is answered by that page, at its own size and under
  -- the request's ids.
  pub handle-Shows :
      (request : RenderPageRequest) (doc : WorkerDocument R) (page : RenderedPage) (r : R)
      (w : Worker F R S)
      → w.handshake_done ≡ true
      → validate_render_request w.limits request ≡ ok tt
      → find request.document_id w ≡ some doc
      → request.page < doc.info.page_count
      → renderers.render_page request.page
          (record { target_width = request.target_width; target_height = request.target_height })
          doc.renderer
        ≡ (ok page, r)
      → validate_page page ≡ ok tt
      → (wire : PageRenderedResponse) × ((handle renderers factories stores
            (render_page request)
            w).0
          ≡ page_rendered wire)
        × Shows request page wire
  unfolding handle on_render_page
  handle-Shows request doc page r w done valid found within drew good =
      let in_range : leb doc.info.page_count request.page ≡ false = ground arith in
      rw (done, valid, render_checked, found, draw, in_range, drew, drawn, rendered, good)
        (deliver-Shows request page (record w {
          docs = Assoc.insert ℕ_discrete request.document_id (record doc { renderer = r }) w.docs;
        }))
