-- ===== src/Sandbox/SessionTests.antt =====
-- The reader thread, the sessions and the subprocess backend at concrete values.
use doc_bunker.Prelude.{ℕ, suc, ◌≡◌, refl, true, false, none, [], ◌∷◌, ok, arith}
use doc_bunker.Prelude.Assoc
use doc_bunker.RendererApi.Types.{
  RenderOptions, RenderedPage, rgba8888, validate_page, pixel_format_from_u8,
}
use doc_bunker.RendererApi.Pages.{IsPage}
use doc_bunker.Protocol.Message.{page_rendered}
use doc_bunker.Protocol.Validate.{rendered_page_from_wire}
use doc_bunker.Sandbox.Config.{default_config}
use doc_bunker.Sandbox.Backend.{subprocess}
use doc_bunker.Sandbox.Process.{frame}
use doc_bunker.Sandbox.Reader.{
  Pipe, here, next, thread, thread_step, read_next, try_send, fresh, IsOrdered, Reach-IsOrdered,
}
use doc_bunker.Sandbox.Session.{Transport, WorkerSession, render_page_of}
use doc_bunker.Sandbox.Session.Documents.{render_page_of-IsPage}
use doc_bunker.Sandbox.Subprocess.{SubprocessBackend}
use doc_bunker.Sandbox.Subprocess.Identity
use doc_bunker.Sandbox.Subprocess.Identity.{IsRetired, starting, closing, after_all-IsRetired}

-- Two frames before the host takes one: the second is dropped, then the flag goes up.
abbrev two_frames : Pipe
two_frames = fresh (frame [] ∷ frame [] ∷ [])

abbrev after_thread : Pipe → Pipe
after_thread p = thread_step p.phase p

abbrev flooded : Pipe
flooded = after_thread (after_thread (after_thread two_frames))

Reach-IsOrdered_example : IsOrdered (frame [] ∷ frame [] ∷ []) flooded
Reach-IsOrdered_example = Reach-IsOrdered (frame [] ∷ frame [] ∷ []) flooded (
    next (next (next here (thread two_frames)) (thread (after_thread two_frames)))
      (thread (after_thread (after_thread two_frames))))

-- Between the two steps the frame is lost and the flag is down.
not_yet_flagged : (after_thread (after_thread two_frames)).overflow ≡ false
unfolding thread_step read_next try_send fresh
not_yet_flagged = refl

flooded_flagged : flooded.overflow ≡ true
unfolding thread_step read_next try_send fresh
flooded_flagged = refl

-- A transport that answers every request with a page of one pixel.
abbrev pixels : Transport ℕ
pixels = record {
  send = λ request t. (
    ok (
        page_rendered (record {
          document_id = 1;
          page = 0;
          width = 1;
          height = 1;
          stride = 4;
          pixel_format = 1;
          bytes = 1 ∷ 2 ∷ 3 ∷ 4 ∷ [];
          shm_len = none;
        })),
    suc t,
  );
  shutdown = λ t. t;
  terminate = λ t. t;
}

abbrev session : WorkerSession ℕ
session = record { transport = 0; docs = [] }

abbrev options : RenderOptions
options = record { target_width = 1; target_height = 1 }

abbrev one_pixel : RenderedPage
one_pixel = record {
  width = 1;
  height = 1;
  stride = 4;
  pixel_format = rgba8888;
  bytes = 1 ∷ 2 ∷ 3 ∷ 4 ∷ [];
}

renders :
    render_page_of pixels 1 0 options session ≡ (ok one_pixel, record session { transport = 1 })
unfolding render_page_of rendered_page_from_wire validate_page pixel_format_from_u8
renders = refl

render_page_of-IsPage_example : IsPage one_pixel
render_page_of-IsPage_example =
    render_page_of-IsPage pixels 1 0 options session (record session { transport = 1 }) one_pixel
      renders

-- The backend after its first session was closed.
abbrev closed_once : SubprocessBackend ℕ
closed_once = record { next_session_id = 1; next_document_id = 0; sessions = []; ended = 0 ∷ [] }

one-IsRetired : IsRetired 1 closed_once
unfolding Assoc.get
one-IsRetired = record { absent = refl; passed = omega arith }

after_all-IsRetired_example : IsRetired 1 (
    Identity.after_all pixels
      (λ id t. ok 0)
      (starting default_config ∷ closing (record { id = 2; kind = subprocess }) ∷ [])
      closed_once)
after_all-IsRetired_example =
    after_all-IsRetired pixels (λ id t. ok 0) 1
      (starting default_config ∷ closing (record { id = 2; kind = subprocess }) ∷ []) closed_once
      (omega arith) one-IsRetired
