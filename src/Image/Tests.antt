-- ===== src/Image/Tests.antt =====
-- Runs of the image renderer on a picture of one pixel, and its theorems there.
use doc_bunker.Prelude.{
  ℕ, suc, ◌*◌, ◌≡◌, ◌≢◌, refl, true, none, some, List, [], ◌∷◌, ok, err, panicked, length, codes,
  arith, starts_with,
}
use doc_bunker.RendererApi.Types.{png}
use doc_bunker.RendererApi.Detect.{detect, png_signature}
use doc_bunker.RendererApi.Limits.{validate_document_size}
use doc_bunker.Protocol.Message.{
  RenderPageRequest, render_page, PageRenderedResponse, page_rendered,
}
use doc_bunker.Worker.Interfaces.{RendererFactory, PageBufferStore}
use doc_bunker.Worker.State.{Worker, find}
use doc_bunker.Prelude.Assoc
use native.Mathlib.Decide.{ℕ_discrete}
use doc_bunker.Worker.Handle.{handle}
use doc_bunker.Image.Scaling.{scale_rgba, step, rows}
use doc_bunker.RendererApi.Limits.{pixel_buffer_size}
use doc_bunker.Image.Scaling.Bounds.{Within}
use doc_bunker.Image.Scaling.Results.{scale_rgba-Within, scale_rgba_never_panics}
use doc_bunker.Image.Renderer.{
  ImageRenderer, Decoders, rgba, decode, decode_png, to_rgba, validate_dims, open_image,
  image_renderer,
}
use doc_bunker.Image.Renderer.Decoding.{ReturnBytes, IsOpened, open_image-IsOpened}
use doc_bunker.Image.Serving.{image_served}

abbrev two_pixels : List ℕ
two_pixels = 0 ∷ 100 ∷ 7 ∷ 255 ∷ 200 ∷ 100 ∷ 9 ∷ 255 ∷ []

abbrev lowest : ℕ → ℕ
lowest c = 0

abbrev highest : ℕ → ℕ
highest c = 255

-- The middle pixel is the mean of its neighbours, and the picture stays opaque.
widened :
    scale_rgba two_pixels 2 1 3 1
    ≡ ok (0 ∷ 100 ∷ 7 ∷ 255 ∷ 100 ∷ 100 ∷ 8 ∷ 255 ∷ 200 ∷ 100 ∷ 9 ∷ 255 ∷ [])
unfolding scale_rgba step rows pixel_buffer_size
widened = refl

scale_rgba-Within_example :
    (out : List ℕ) × (scale_rgba two_pixels 2 1 3 1 ≡ ok out)
    × (length out ≡ 3 * 1 * 4)
    × Within lowest highest out
scale_rgba-Within_example =
    scale_rgba-Within two_pixels 2 1 3 1 lowest highest (omega arith) (omega arith) (omega arith)
      (omega arith) (omega arith) (omega arith) refl (omega arith) (omega arith) (λ c. omega arith)
      (omega arith)

scale_rgba_never_panics_example : scale_rgba two_pixels 2 1 3 1 ≢ err panicked
scale_rgba_never_panics_example =
    scale_rgba_never_panics two_pixels 2 1 3 1 (omega arith) (omega arith) (omega arith)
      (omega arith) (omega arith)

abbrev picture : List ℕ
picture = 1 ∷ 2 ∷ 3 ∷ 255 ∷ []

-- A png package that sees one pixel in every file.
abbrev decoders : Decoders
decoders = record {
  archive = λ s. none;
  png_info = λ s. some (1, 1, rgba);
  png_frame = λ s. some picture;
  jpeg_info = λ s. none;
  jpeg_decode = λ s. none;
  webp_features = λ s. none;
  webp_decode = λ s. none;
  image_dimensions = λ f s. none;
  image_decode = λ f s. none;
}

decoders-ReturnBytes : ReturnBytes decoders
decoders-ReturnBytes = record {
  png_bytes = λ s p e. ground arith;
  jpeg_bytes = λ s p e. absurd (cc);
  webp_bytes = λ s p n e. absurd (cc);
  image_bytes = λ f s p w h e. absurd (cc);
}

abbrev opened : ImageRenderer
opened = record {
  info = record { page_count = 1; width = 1; height = 1; format = png };
  rgba = record { width = 1; height = 1; bytes = picture };
}

opens : open_image decoders png_signature ≡ ok opened
unfolding open_image validate_document_size detect decode decode_png to_rgba validate_dims
    pixel_buffer_size starts_with
opens = refl

open_image-IsOpened_example : IsOpened opened
open_image-IsOpened_example =
    open_image-IsOpened decoders png_signature opened decoders-ReturnBytes opens

abbrev factories : RendererFactory ℕ ImageRenderer
factories = record { create = λ bytes f. (ok opened, suc f) }

abbrev stores : PageBufferStore ℕ
stores = record {
  store = λ bytes s. (ok tt, suc s);
  name = λ s. codes "docbunker_pagebuf_1_1.bin";
  capacity = λ s. 64;
}

abbrev worker : Worker ℕ ImageRenderer ℕ
worker = record {
  factory = 0;
  docs = (7, record { renderer = opened; info = opened.info }) ∷ [];
  limits = record {
    max_document_size = 5000;
    max_ipc_message = 8192;
    max_page_width = 4096;
    max_page_height = 4096;
    max_pixel_buffer = 67108864;
  };
  handshake_done = true;
  shm_store = none;
  shm_factory = none;
}

abbrev request : RenderPageRequest
request = record { document_id = 7; page = 0; target_width = 3; target_height = 2 }

opened-IsOpened : IsOpened opened
opened-IsOpened = open_image-IsOpened decoders png_signature opened decoders-ReturnBytes opens

found : find 7 worker ≡ some (record { renderer = opened; info = opened.info })
unfolding Assoc.get ℕ_discrete
found = refl

image_served_example :
    (wire : PageRenderedResponse) × ((handle image_renderer factories stores
        (render_page request)
        worker).0
      ≡ page_rendered wire)
    × (wire.width ≡ 3)
    × (wire.height ≡ 2)
image_served_example =
    image_served factories stores request (record { renderer = opened; info = opened.info }) worker
      refl (omega arith) (λ e. cc) refl (omega arith) found opened-IsOpened refl
