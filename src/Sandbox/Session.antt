-- ===== src/Sandbox/Session.antt =====
-- `WorkerSession` of crates/sandbox/src/process.rs over any transport with `send`, `shutdown` and
-- `terminate`.
pub mod Documents
use doc_bunker.Prelude.{
  ℕ, Bool, Option, none, some, List, [], ◌∷◌, map, Result, ok, err, ◌>>=◌, ◌>>◌, map_err,
}
use doc_bunker.Prelude.Assoc
use native.Mathlib.Decide.{ℕ_discrete}
use doc_bunker.RendererApi.Types.{DocumentInfo, RenderOptions, RenderedPage, validate_page}
use doc_bunker.Protocol.Message.{
  Request, open_document, get_document_info, render_page, close_document, Response, document_opened,
  document_info, page_rendered, closed, error, ErrorResponse, code_from_u8,
}
use doc_bunker.Protocol.Validate.{document_info_from_wire, rendered_page_from_wire}
use doc_bunker.Sandbox.Error.{
  SandboxError, protocol, render, unknown_document, worker_error, internal,
}
use doc_bunker.Sandbox.Transport.{unwrap_or_internal}

pub record Transport (T : Type 0) : Type 0 where
  pub send : Request → T → Result SandboxError Response × T
  pub shutdown : T → T
  pub terminate : T → T

pub record WorkerSession (T : Type 0) : Type 0 where
  pub transport : T
  pub docs : List (ℕ × DocumentInfo)

unfoldable pub worker_refused : ErrorResponse → SandboxError
worker_refused e = worker_error (unwrap_or_internal (code_from_u8 e.code)) e.message

unfoldable pub opened_info : Result SandboxError Response → Result SandboxError DocumentInfo
unfolding worker_refused
opened_info (err e) = err e
opened_info (ok (document_opened opened)) = map_err protocol (document_info_from_wire opened.info)
opened_info (ok (error e)) = err (worker_refused e)
opened_info (ok _) = err (internal "unexpected response to open document")

unfoldable pub described_info : Result SandboxError Response → Result SandboxError DocumentInfo
unfolding worker_refused
described_info (err e) = err e
described_info (ok (document_info info)) = map_err protocol (document_info_from_wire info.info)
described_info (ok (error e)) = err (worker_refused e)
described_info (ok _) = err (internal "unexpected response to get document info")

unfoldable pub rendered_page : Result SandboxError Response → Result SandboxError RenderedPage
unfolding worker_refused
rendered_page (err e) = err e
rendered_page (ok (page_rendered rendered)) = do
  page ← map_err protocol (rendered_page_from_wire rendered)
  map_err render (validate_page page)
  ok page
rendered_page (ok (error e)) = err (worker_refused e)
rendered_page (ok _) = err (internal "unexpected response to render page")

module _ {T : Type 0} (transports : Transport T) where
  abbrev Session : Type 0
  Session = WorkerSession T

  -- The info is remembered under its id where there is one.
  remembered :
      ℕ → Result SandboxError DocumentInfo → Session → Result SandboxError DocumentInfo × Session
  remembered id (err e) s = (err e, s)
  remembered id (ok info) s = (ok info, record s { docs = Assoc.insert ℕ_discrete id info s.docs })

  unfoldable pub send_document : List ℕ → ℕ → Session → Result SandboxError DocumentInfo × Session
  unfolding remembered opened_info
  send_document bytes id s =
      let (response, t) =
        transports.send (open_document (record { document_id = id; bytes = bytes })) s.transport in
      remembered id (opened_info response) (record s { transport = t })

  described : ℕ → Option DocumentInfo → Session → Result SandboxError DocumentInfo × Session
  unfolding remembered described_info
  described id none s = (err unknown_document, s)
  described id (some _) s =
      let (response, t) =
        transports.send (get_document_info (record { document_id = id })) s.transport in
      remembered id (described_info response) (record s { transport = t })

  unfoldable pub document_info_of : ℕ → Session → Result SandboxError DocumentInfo × Session
  unfolding described
  document_info_of id s = described id (Assoc.get ℕ_discrete id s.docs) s

  unfoldable pub render_page_of :
      ℕ → ℕ → RenderOptions → Session → Result SandboxError RenderedPage × Session
  unfolding rendered_page
  render_page_of id page options s =
      let (response, t) =
        transports.send
          (render_page (record {
            document_id = id;
            page = page;
            target_width = options.target_width;
            target_height = options.target_height;
          }))
          s.transport in
      (rendered_page response, record s { transport = t })

  closing : Result SandboxError Response × T → (Session → Session) → Session → Session
  closing (err _, t) next s = record s { transport = t }
  closing (ok _, t) next s = next (record s { transport = t })

  -- The loop of `close_all_documents`: an error of the transport ends it, and the map is then kept.
  close_each : List ℕ → Session → Session
  unfolding closing
  close_each [] s = record s { docs = [] }
  close_each (id ∷ ids) s =
      closing (transports.send (close_document (record { document_id = id })) s.transport)
        (λ s'. close_each ids s') s

  unfoldable pub close_all_documents : Session → Session
  unfolding close_each
  close_all_documents s = close_each (map (λ d. d.0) s.docs) s
