-- ===== src/Protocol/Tests.antt =====
-- Runs of crates/protocol on small frames and messages, and the theorems at concrete values.
use doc_bunker.Prelude.{
  ℕ, ◌≡◌, ◌↔◌, refl, arith, Bool, true, some, List, [], ◌∷◌, Result, ok, err, codes, All,
  to_le_bytes, from_le_bytes,
}
use doc_bunker.Protocol.Error.{interrupted}
use doc_bunker.Protocol.Message.{
  HelloRequest, HelloOk, RenderPageRequest, PageRenderedResponse, Request, Response, hello,
  open_document, get_document_info, render_page, close_document, ping, pong,
}
use doc_bunker.Protocol.ShmName.{is_valid_shm_name}
use doc_bunker.Protocol.ShmName.Grammar.{IsShmName, is_valid_shm_name_iff}
use doc_bunker.Protocol.Validate.{
  NegotiatedLimits, validate_hello_request, validate_hello_ok, server_negotiate, client_negotiate,
  to_hello_ok,
}
use doc_bunker.Protocol.Validate.Negotiation.{offered, IsCapped, handshake_agrees}
use doc_bunker.Protocol.Validate.Conversion.{page_response}
use doc_bunker.RendererApi.Types.{rgba8888, RenderedPage}
use doc_bunker.Protocol.Payload.{Codec, encode_request, decode_request}
use doc_bunker.Protocol.Payload.Laws.{IsInverse}
use doc_bunker.Protocol.Stream.{fill, Event, chunk, failure, IsClean, content}
use doc_bunker.Protocol.Framing.{next_frame}
use doc_bunker.Protocol.Framing.Reading.{verdict, IsBehind, next_frame_lem}
use doc_bunker.Protocol.Framing.Writing.{frame, frames, IsReadable, ReadsAll, ReadsAll-frames}

-- A frame of two bytes and the start of the next one, in three portions.
abbrev portions : List Event
portions =
    chunk (2 ∷ 0 ∷ []) ∷ failure interrupted ∷ chunk (0 ∷ 0 ∷ 8 ∷ []) ∷ chunk (9 ∷ 7 ∷ []) ∷ []

abbrev always : ℕ → Bool
always _ = true

portions_read : next_frame always 1024 portions ≡ some (ok (some (8 ∷ 9 ∷ [])), chunk (7 ∷ []) ∷ [])
unfolding next_frame fill from_le_bytes
portions_read = refl

portions-IsClean : All IsClean portions
portions-IsClean = ((λ e. cc), (refl, ((λ e. cc), ((λ e. cc), tt))))

next_frame_lem_example :
    (s : List Event) × (next_frame always 1024 portions
      ≡ some (verdict always 1024 (content portions), s))
    × All IsClean s
    × IsBehind 4 (content portions) (verdict always 1024 (content portions)) s
next_frame_lem_example = next_frame_lem always 1024 portions portions-IsClean

abbrev two_frames : List Event
two_frames =
    chunk (2 ∷ 0 ∷ 0 ∷ [])
    ∷ chunk (0 ∷ 8 ∷ 9 ∷ 3 ∷ 0 ∷ [])
    ∷ failure interrupted
    ∷ chunk (0 ∷ 0 ∷ 5 ∷ 6 ∷ 7 ∷ [])
    ∷ []

two_payloads-IsReadable : All (IsReadable always 1024) ((8 ∷ 9 ∷ []) ∷ (5 ∷ 6 ∷ 7 ∷ []) ∷ [])
two_payloads-IsReadable = (
  record { long = omega arith; short = omega arith; reserved = refl; u32 = omega arith },
  (record { long = omega arith; short = omega arith; reserved = refl; u32 = omega arith }, tt),
)

two_frames-content : content two_frames ≡ frames ((8 ∷ 9 ∷ []) ∷ (5 ∷ 6 ∷ 7 ∷ []) ∷ [])
unfolding frame to_le_bytes
two_frames-content = refl

two_frames-IsClean : All IsClean two_frames
two_frames-IsClean = ((λ e. cc), ((λ e. cc), (refl, ((λ e. cc), tt))))

ReadsAll-frames_example : ReadsAll always 1024 ((8 ∷ 9 ∷ []) ∷ (5 ∷ 6 ∷ 7 ∷ []) ∷ []) two_frames
ReadsAll-frames_example =
    ReadsAll-frames always 1024 ((8 ∷ 9 ∷ []) ∷ (5 ∷ 6 ∷ 7 ∷ []) ∷ []) two_frames
      two_payloads-IsReadable two_frames-IsClean two_frames-content

is_valid_shm_name_iff_example :
    (is_valid_shm_name (codes "docbunker_pagebuf_12_3.bin") ≡ true)
    ↔ IsShmName (codes "docbunker_pagebuf_12_3.bin")
is_valid_shm_name_iff_example = is_valid_shm_name_iff (codes "docbunker_pagebuf_12_3.bin")

region_name_accepted : is_valid_shm_name (codes "docbunker_pagebuf_12_3.bin") ≡ true
region_name_accepted =
    (is_valid_shm_name_iff (codes "docbunker_pagebuf_12_3.bin")).1
      (codes "12", codes "3", ((λ e. cc), omega arith), ((λ e. cc), omega arith), refl)

abbrev host_hello : HelloRequest
host_hello = record {
  protocol_version = 2;
  max_document_size = 5000;
  max_ipc_message = 8192;
  shm_capable = true;
}

abbrev agreed : NegotiatedLimits
agreed = offered host_hello

host_hello_accepted : server_negotiate host_hello ≡ ok agreed
unfolding server_negotiate validate_hello_request
host_hello_accepted = refl

handshake_agrees_example : client_negotiate (to_hello_ok agreed) ≡ ok agreed
handshake_agrees_example = handshake_agrees host_hello agreed host_hello_accepted

-- The answer of a worker with a shared region.
abbrev shared_answer : HelloOk
shared_answer = record {
  protocol_version = 2;
  max_document_size = 5000;
  max_ipc_message = 8192;
  max_page_width = 4096;
  max_page_height = 4096;
  max_pixel_buffer = 67108864;
  shm_name = some (codes "docbunker_pagebuf_12_3.bin");
  shm_capacity = some 67108864;
}

shared_answer_accepted : client_negotiate shared_answer ≡ ok agreed
unfolding client_negotiate validate_hello_ok
shared_answer_accepted = ground (arith, region_name_accepted)

agreed-IsCapped : IsCapped agreed
agreed-IsCapped = record {
  document = omega arith;
  document_cap = omega arith;
  ipc = omega arith;
  ipc_cap = omega arith;
  width = omega arith;
  width_cap = omega arith;
  height = omega arith;
  height_cap = omega arith;
  pixels = omega arith;
  pixels_cap = omega arith;
}

abbrev square_request : RenderPageRequest
square_request = record { document_id = 1; page = 0; target_width = 64; target_height = 64 }

abbrev pixel_page : RenderedPage
pixel_page = record {
  width = 1;
  height = 1;
  stride = 4;
  pixel_format = rgba8888;
  bytes = 1 ∷ 2 ∷ 3 ∷ 4 ∷ [];
}

abbrev pixel_wire : PageRenderedResponse
pixel_wire = page_response 1 0 pixel_page

-- A codec of one message each, in place of postcard.
to_ping : Request → Result ℕ (List ℕ)
to_ping (ping r) = ok (r.nonce ∷ [])
to_ping _ = err 0

from_ping : List ℕ → Result ℕ Request
from_ping (n ∷ []) = ok (ping (record { nonce = n }))
from_ping _ = err 1

from_pong : List ℕ → Result ℕ Response
from_pong (n ∷ []) = ok (pong (record { nonce = n }))
from_pong _ = err 1

abbrev pings : Codec Request
pings = record { to_allocvec = to_ping; from_bytes = from_ping }

abbrev pongs : Codec Response
pongs = record { to_allocvec = λ _. err 0; from_bytes = from_pong }

pings-IsInverse : IsInverse pings
unfolding to_ping from_ping
pings-IsInverse (ping r) body e = ground arith
pings-IsInverse (hello r) body e = cc
pings-IsInverse (open_document r) body e = cc
pings-IsInverse (get_document_info r) body e = cc
pings-IsInverse (render_page r) body e = cc
pings-IsInverse (close_document r) body e = cc

ping_written : encode_request pings (ping (record { nonce = 7 })) ≡ ok (2 ∷ 5 ∷ 7 ∷ [])
unfolding encode_request to_ping
ping_written = refl

ping_read : decode_request pings (2 ∷ 5 ∷ 7 ∷ []) ≡ ok (ping (record { nonce = 7 }))
unfolding decode_request from_ping
ping_read = refl
