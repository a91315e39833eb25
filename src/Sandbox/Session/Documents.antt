-- ===== src/Sandbox/Session/Documents.antt =====
-- The trust boundary of a session: what it hands on, whatever the transport answers.
use doc_bunker.Prelude.{
  ℕ, ◌≡◌, refl, ap, Option, none, some, List, [], ◌∷◌, All, arith, Result, ok, err, Result-cases,
  inl, inr,
}
use doc_bunker.Prelude.Assoc
use native.Mathlib.Decide.{ℕ_discrete}
use doc_bunker.RendererApi.Types.{DocumentInfo, RenderOptions, RenderedPage}
use doc_bunker.RendererApi.Pages.{IsPage, IsInfo}
use doc_bunker.Protocol.Message.{Response, document_opened, document_info, page_rendered}
use doc_bunker.Protocol.Validate.{rendered_page_from_wire}
use doc_bunker.Protocol.Validate.Conversion.{
  document_info_from_wire_iff, rendered_page_from_wire_iff,
}
use doc_bunker.Sandbox.Error.{SandboxError, unknown_document}
use doc_bunker.Sandbox.Session.{
  Transport, WorkerSession, opened_info, described_info, rendered_page, remembered, send_document,
  described, document_info_of, render_page_of, closing, close_each, close_all_documents,
}

rendered_page-IsPage :
    (r : Result SandboxError Response) (page : RenderedPage)
    → rendered_page r ≡ ok page
    → IsPage page
unfolding rendered_page
rendered_page-IsPage (err e) page h = absurd (cc)
rendered_page-IsPage (ok (page_rendered wire)) page h =
    elim (Result-cases (rendered_page_from_wire wire)) [
      | inl (p, good) ↦ ground (arith, (rendered_page_from_wire_iff wire p).0 good)
      | inr (e, bad) ↦ absurd (ground arith)
    ]
rendered_page-IsPage (ok r) page h = absurd (cc)

opened_info-IsInfo :
    (r : Result SandboxError Response) (info : DocumentInfo) → opened_info r ≡ ok info → IsInfo info
unfolding opened_info
opened_info-IsInfo (err e) info h = absurd (cc)
opened_info-IsInfo (ok (document_opened o)) info h =
    ((document_info_from_wire_iff o.info info).0 (ground arith)).1
opened_info-IsInfo (ok r) info h = absurd (cc)

described_info-IsInfo :
    (r : Result SandboxError Response) (info : DocumentInfo)
    → described_info r ≡ ok info
    → IsInfo info
unfolding described_info
described_info-IsInfo (err e) info h = absurd (cc)
described_info-IsInfo (ok (document_info o)) info h =
    ((document_info_from_wire_iff o.info info).0 (ground arith)).1
described_info-IsInfo (ok r) info h = absurd (cc)

-- The calls of a session, without their answers.
pub data Call : Type 0 where
  sending : List ℕ → ℕ → Call
  asking : ℕ → Call
  rendering : ℕ → ℕ → RenderOptions → Call
  close_all : Call

-- Every document that a session remembers has valid metadata.
abbrev pub IsTrusted : {T : Type 0} → WorkerSession T → Type 0
IsTrusted s = All (λ d. IsInfo d.1) s.docs

module _ {T : Type 0} (transports : Transport T) where
  -- A page that a session returns is valid, whatever the transport answers: there is no
  -- assumption on the worker at all.
  pub render_page_of-IsPage :
      (id page : ℕ) (options : RenderOptions) (s s' : WorkerSession T) (p : RenderedPage)
      → render_page_of transports id page options s ≡ (ok p, s')
      → IsPage p
  unfolding render_page_of
  render_page_of-IsPage id page options s s' p e = rendered_page-IsPage _ p (ap (λ r. r.0) e)

  remembered-IsTrusted :
      (id : ℕ) (r : Result SandboxError DocumentInfo) (s : WorkerSession T)
      → ((info : DocumentInfo) → r ≡ ok info → IsInfo info)
      → IsTrusted s
      → IsTrusted (remembered transports id r s).1
  unfolding remembered
  remembered-IsTrusted id (err e) s v k = k
  remembered-IsTrusted id (ok info) s v k =
      Assoc.All-insert ℕ_discrete (λ d. IsInfo d.1) id info s.docs (v info refl) k

  closing-IsTrusted :
      (r : Result SandboxError Response × T) (rest : WorkerSession T → WorkerSession T)
      (s : WorkerSession T)
      → ((s' : WorkerSession T) → IsTrusted s' → IsTrusted (rest s'))
      → IsTrusted s
      → IsTrusted (closing transports r rest s)
  unfolding closing
  closing-IsTrusted (err e, t) rest s v k = k
  closing-IsTrusted (ok r, t) rest s v k = v _ k

  close_each-IsTrusted :
      (ids : List ℕ) (s : WorkerSession T) → IsTrusted s → IsTrusted (close_each transports ids s)
  unfolding close_each
  close_each-IsTrusted [] s k = tt
  close_each-IsTrusted (id ∷ ids) s k =
      closing-IsTrusted _ (λ s'. close_each transports ids s') s
        (λ s' k'. close_each-IsTrusted ids s' k') k

  described-IsTrusted :
      (id : ℕ) (d : Option DocumentInfo) (s : WorkerSession T)
      → IsTrusted s
      → IsTrusted (described transports id d s).1
  unfolding described
  described-IsTrusted id none s k = k
  described-IsTrusted id (some i) s k =
      remembered-IsTrusted id _ _ (λ info e. described_info-IsInfo _ info e) k

  unfoldable pub after : Call → WorkerSession T → WorkerSession T
  unfolding send_document document_info_of render_page_of close_all_documents
  after (sending bytes id) s = (send_document transports bytes id s).1
  after (asking id) s = (document_info_of transports id s).1
  after (rendering id page options) s = (render_page_of transports id page options s).1
  after close_all s = close_all_documents transports s

  after-IsTrusted : (c : Call) (s : WorkerSession T) → IsTrusted s → IsTrusted (after c s)
  unfolding after
  after-IsTrusted (sending bytes id) s k =
      remembered-IsTrusted id _ _ (λ info e. opened_info-IsInfo _ info e) k
  after-IsTrusted (asking id) s k = described-IsTrusted id _ s k
  after-IsTrusted (rendering id page options) s k = k
  after-IsTrusted close_all s k = close_each-IsTrusted _ s k

  unfoldable pub after_all : List Call → WorkerSession T → WorkerSession T
  unfolding after
  after_all [] s = s
  after_all (c ∷ cs) s = after_all cs (after c s)

  -- After any calls on a session over any transport, every document that the session remembers has
  -- valid metadata: page count, sizes and format within the limits.
  pub after_all-IsTrusted :
      (cs : List Call) (s : WorkerSession T) → IsTrusted s → IsTrusted (after_all cs s)
  unfolding after_all
  after_all-IsTrusted [] s k = k
  after_all-IsTrusted (c ∷ cs) s k = after_all-IsTrusted cs (after c s) (after-IsTrusted c s k)

  -- Metadata of an id that the session does not remember is refused before the transport is used.
  pub document_info_of_unknown :
      (id : ℕ) (s : WorkerSession T)
      → Assoc.get ℕ_discrete id s.docs ≡ none
      → document_info_of transports id s ≡ (err unknown_document, s)
  unfolding document_info_of
  document_info_of_unknown id s e = rw (e, described) refl
