-- ===== src/Image/Serving.antt =====
-- The worker (crates/renderer-worker/src/worker.rs) over the image renderer
-- (crates/renderer-image/src/image.rs).
use doc_bunker.Prelude.{ℕ, ◌≡◌, ◌≢◌, true, some, ok, arith, refl, ◌∙◌}
use doc_bunker.RendererApi.Types.{RenderOptions, RenderedPage}
use doc_bunker.RendererApi.Limits.{IsTarget}
use doc_bunker.RendererApi.Pages.{validate_page_iff}
use doc_bunker.Protocol.Message.{
  RenderPageRequest, render_page, PageRenderedResponse, page_rendered,
}
use doc_bunker.Protocol.Validate.{NegotiatedLimits}
use doc_bunker.Protocol.Validate.Negotiation.{IsCapped, IsRenderable, validate_render_request_iff}
use doc_bunker.Worker.Interfaces.{RendererFactory, PageBufferStore}
use doc_bunker.Worker.State.{WorkerDocument, Worker, find}
use doc_bunker.Worker.Handle.{handle}
use doc_bunker.Worker.Handle.Drawing.{handle-Shows}
use doc_bunker.Image.Renderer
use doc_bunker.Image.Renderer.{ImageRenderer, image_renderer}
use doc_bunker.Image.Renderer.Decoding.{IsOpened}
use doc_bunker.Image.Renderer.Rendering.{render_page-IsPage}

target : (l : NegotiatedLimits) (w h : ℕ) → IsCapped l → IsRenderable l w h → IsTarget w h
target l w h c r = ground arith

drawn :
    (n : ℕ) (options : RenderOptions) (r : ImageRenderer) (p : RenderedPage)
    → n ≡ 0
    → Renderer.render_page 0 options r ≡ ok p
    → image_renderer.render_page n options r ≡ (ok p, r)
unfolding image_renderer
drawn n options r p first e = rw (first, e) refl

module _ {F S : Type 0} (factories : RendererFactory F ImageRenderer)
    (stores : PageBufferStore S) where
  -- After the handshake, every render request for page 0 of an open image, at a size within the
  -- negotiated limits, is answered by a page of exactly that size: neither the renderer nor the
  -- checks of the worker can refuse it.
  pub image_served :
      (request : RenderPageRequest) (doc : WorkerDocument ImageRenderer)
      (w : Worker F ImageRenderer S)
      → w.handshake_done ≡ true
      → IsCapped w.limits
      → request.document_id ≢ 0
      → request.page ≡ 0
      → IsRenderable w.limits request.target_width request.target_height
      → find request.document_id w ≡ some doc
      → IsOpened doc.renderer
      → doc.info ≡ doc.renderer.info
      → (wire : PageRenderedResponse) × ((handle image_renderer factories stores
            (render_page request)
            w).0
          ≡ page_rendered wire)
        × (wire.width ≡ request.target_width)
        × (wire.height ≡ request.target_height)
  image_served request doc w done capped id first fits found opened same =
      let options : RenderOptions = record {
        target_width = request.target_width;
        target_height = request.target_height;
      } in
      let (p, e, valid, wide, high) =
        render_page-IsPage doc.renderer options opened
          (target w.limits request.target_width request.target_height capped fits) in
      let (wire, answer, shows) =
        handle-Shows image_renderer factories stores request doc p doc.renderer w done
          ((validate_render_request_iff w.limits request capped).1 (id, fits)) found
          (let one = opened.one_page in ground arith)
          (drawn request.page options doc.renderer p first e) ((validate_page_iff p).1 valid) in
      (wire, answer, shows.wide ∙ wide, shows.high ∙ high)
