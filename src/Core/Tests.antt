-- ===== src/Core/Tests.antt =====
-- The page cache and the manager on a few pages, over a backend that counts its sessions.
use doc_bunker.Prelude.{
  ◌*◌, List, true, length, ℕ, suc, ◌≡◌, refl, arith, false, none, [], ◌∷◌, ok, err,
}
use doc_bunker.Prelude.Assoc
use native.Mathlib.Decide.{ℕ_discrete}
use doc_bunker.RendererApi.Types.{
  rgba8888, pdf, RenderedPage, RenderOptions, DocumentInfo, validate_page,
}
use doc_bunker.RendererApi.Pages.{IsPage}
use doc_bunker.RendererApi.Limits.{validate_render_target_iff}
use doc_bunker.Sandbox.Backend.{SandboxBackend, mock}
use doc_bunker.Core.Error.{no_document_open}
use doc_bunker.Core.Cache.{CacheKey, PageCache, new, get, put}
use doc_bunker.Core.Cache.Recency.{Recent, lookup, insert_page}
use doc_bunker.Core.Cache.Eviction.{Refines}
use doc_bunker.Core.Cache.Refinement.{new-Refines, touched, get-Refines, put-Refines}
use doc_bunker.Core.Manager.{
  DocumentHandle, OpenDocument, Inner, DocumentManager, find_open, validate_render_options,
  open_document, get_document_info, render_page, close,
}
use doc_bunker.Core.Manager
use doc_bunker.Core.Manager.Sessions.{IsSound, new-IsSound}
use doc_bunker.Core.Manager.Showing.{render_page-IsPage}
use doc_bunker.Core.Imaging.{packed, copy_rows, copy_row, HoldsRows, packed-HoldsRows}
use doc_bunker.Core.Io.{OpenFile, read_document_file}
use doc_bunker.Core.Manager.Histories.{
  opening, rendering, closing, after_all, new-after_all-IsSound,
}
use doc_bunker.Core.Manager.Lifecycle.{
  IsOpening, open_document-IsOpening, render_page-sessions, find_open-close, after_close,
}

abbrev one_pixel : RenderedPage
one_pixel = record {
  width = 1;
  height = 1;
  stride = 4;
  pixel_format = rgba8888;
  bytes = 1 ∷ 2 ∷ 3 ∷ 4 ∷ [];
}

abbrev first_page : CacheKey
first_page = record { document = 1; page = 0; width = 1; height = 1 }

abbrev second_page : CacheKey
second_page = record { document = 1; page = 1; width = 1; height = 1 }

abbrev one_entry : PageCache
one_entry = put first_page one_pixel (new 1)

abbrev one_recent : Recent
one_recent = insert_page 1 first_page one_pixel []

one_entry-Refines : Refines 1 one_entry one_recent
one_entry-Refines = put-Refines 1 first_page one_pixel (new 1) [] (new-Refines 1)

put-Refines_example :
    Refines 1 (put second_page one_pixel one_entry) (insert_page 1 second_page one_pixel one_recent)
put-Refines_example = put-Refines 1 second_page one_pixel one_entry one_recent one_entry-Refines

get-Refines_example :
    ((get first_page one_entry).0 ≡ lookup first_page one_recent)
    × Refines 1
        (get first_page one_entry).1
        (touched first_page (lookup first_page one_recent) one_recent)
get-Refines_example = get-Refines 1 first_page one_entry one_recent one_entry-Refines

abbrev one_page : DocumentInfo
one_page = record { page_count = 1; width = 1; height = 1; format = pdf }

abbrev backends : SandboxBackend ℕ
backends = record {
  initialize = λ b. (ok tt, b);
  start_session = λ config b. (ok (record { id = b; kind = mock }), suc b);
  send_document = λ s bytes b. (ok b, s, b);
  get_document_info = λ s d b. (ok one_page, s, b);
  render_page = λ s d page options b. (ok one_pixel, s, b);
  close_session = λ s b. (ok tt, b);
}

abbrev started : DocumentManager ℕ
started = record {
  poisoned = false;
  inner = record { backend = 0; sessions = []; cache = new 3; next_id = 0 };
}

abbrev handle : DocumentHandle
handle = record { session = 1; document = 1 }

abbrev other_handle : DocumentHandle
other_handle = record { session = 2; document = 1 }

abbrev one_open : DocumentManager ℕ
one_open = record started {
  inner = record {
    backend = 1;
    sessions =
        (1, record { session = record { id = 0; kind = mock }; document_id = 1; info = one_page })
        ∷ [];
    cache = new 3;
    next_id = 1;
  };
}

abbrev options : RenderOptions
options = record { target_width = 1; target_height = 1 }

opens : open_document backends (1 ∷ 2 ∷ []) started ≡ (ok handle, one_open)
unfolding open_document Assoc.insert Assoc.remove
opens = refl

started-new : Manager.new backends 0 ≡ ok started
unfolding Manager.new
started-new = refl

started-IsSound : IsSound started.inner
started-IsSound = new-IsSound backends 0 started started-new

one_open-IsSound : IsSound one_open.inner
one_open-IsSound = record { within = omega arith; pages = []; refines = new-Refines 3; valid = tt }

options-accepted : validate_render_options options ≡ ok tt
unfolding validate_render_options
options-accepted = ground (arith, (validate_render_target_iff 1 1).1 (omega arith))

renders : (render_page backends handle 0 options one_open).0 ≡ ok one_pixel
unfolding render_page find_open Assoc.get ℕ_discrete new get validate_page
renders = ground (arith, options-accepted)

render_page-IsPage_example : IsPage one_pixel
render_page-IsPage_example =
    render_page-IsPage backends handle 0 options one_open one_pixel one_open-IsSound renders

open_document-IsOpening_example : IsOpening started.inner (
  (open_document backends (1 ∷ 2 ∷ []) started).0,
  (open_document backends (1 ∷ 2 ∷ []) started).1.inner,
)
open_document-IsOpening_example = open_document-IsOpening backends (1 ∷ 2 ∷ []) started

find_open-close_example : find_open handle (close backends handle one_open).1.inner ≡ none
find_open-close_example = find_open-close backends handle one_open refl

render_page-sessions_example :
    (render_page backends handle 0 options one_open).1.inner.sessions ≡ one_open.inner.sessions
render_page-sessions_example = render_page-sessions backends handle 0 options one_open

after_close_example :
    let n = (close backends handle one_open).1 in
    (get_document_info backends handle n ≡ err no_document_open)
    × (render_page backends handle 0 options n ≡ (err no_document_open, n))
    × (close backends handle n ≡ (err no_document_open, n))
after_close_example = after_close backends handle 0 options one_open refl options-accepted

new-after_all-IsSound_example :
    IsSound
      (after_all backends
        (opening (1 ∷ []) ∷ rendering handle 0 options ∷ closing handle ∷ [])
        started).inner
new-after_all-IsSound_example =
    new-after_all-IsSound backends 0 started
      (opening (1 ∷ []) ∷ rendering handle 0 options ∷ closing handle ∷ []) started-new

-- A row of four bytes, padded to six.
abbrev padded : RenderedPage
padded = record {
  width = 1;
  height = 2;
  stride = 6;
  pixel_format = rgba8888;
  bytes = 1 ∷ 2 ∷ 3 ∷ 4 ∷ 0 ∷ 0 ∷ 5 ∷ 6 ∷ 7 ∷ 8 ∷ 0 ∷ 0 ∷ [];
}

packs : packed padded ≡ ok (1 ∷ 2 ∷ 3 ∷ 4 ∷ 5 ∷ 6 ∷ 7 ∷ 8 ∷ [])
unfolding packed copy_rows copy_row
packs = refl

packed-HoldsRows_example :
    (out : List ℕ) × (packed padded ≡ ok out)
    × (length out ≡ 2 * (1 * 4))
    × HoldsRows padded.bytes 6 (1 * 4) 0 2 out
packed-HoldsRows_example = packed-HoldsRows padded (omega arith)

abbrev file_bytes : List ℕ
file_bytes = 1 ∷ 2 ∷ 3 ∷ []

abbrev small_file : OpenFile
small_file = record { is_file = ok true; len = 2; contents = ok file_bytes }

reads : read_document_file (ok small_file) 3 ≡ ok file_bytes
unfolding read_document_file
reads = refl
