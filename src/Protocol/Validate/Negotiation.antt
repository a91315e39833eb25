-- ===== src/Protocol/Validate/Negotiation.antt =====
-- crates/protocol/src/validate.rs: the handshake and the checks under negotiated limits.
use doc_bunker.Prelude.{
  ℕ, ◌*◌, ◌^◌, ◌≤◌, ◌<◌, ◌≡◌, ◌≢◌, ◌↔◌, min, Option, none, some, true, arith, ok, length, byte_len,
  Text,
}
use doc_bunker.RendererApi.Limits
use doc_bunker.RendererApi.Limits.{pixel_buffer_size_lem}
use doc_bunker.Protocol.Limits.{max_ipc_message, min_ipc_message, max_string_length}
use doc_bunker.Protocol.Message.{HelloRequest, HelloOk, OpenDocumentRequest, RenderPageRequest}
use doc_bunker.Protocol.ShmName.{is_valid_shm_name}
use doc_bunker.Protocol.Validate.{
  NegotiatedLimits, validate_hello_request, validate_hello_ok, server_negotiate, client_negotiate,
  to_hello_ok, check_shm, validate_open_document, validate_render_request,
}

-- A `Hello` that a worker takes.
pub record IsHello (c : HelloRequest) : Type 0 where
  pub version : c.protocol_version ≡ 2
  pub document : 0 < c.max_document_size
  pub ipc_min : min_ipc_message ≤ c.max_ipc_message
  pub ipc_max : c.max_ipc_message ≤ max_ipc_message

-- The limits that the worker then works with.
abbrev pub offered : HelloRequest → NegotiatedLimits
offered c = record {
  max_document_size = min c.max_document_size Limits.max_document_size;
  max_ipc_message = c.max_ipc_message;
  max_page_width = Limits.max_page_width;
  max_page_height = Limits.max_page_height;
  max_pixel_buffer = Limits.max_pixel_buffer;
}

-- Limits that both sides may rely on: nonzero, and none above its hard cap.
pub record IsCapped (l : NegotiatedLimits) : Type 0 where
  pub document : 0 < l.max_document_size
  pub document_cap : l.max_document_size ≤ Limits.max_document_size
  pub ipc : min_ipc_message ≤ l.max_ipc_message
  pub ipc_cap : l.max_ipc_message ≤ max_ipc_message
  pub width : 0 < l.max_page_width
  pub width_cap : l.max_page_width ≤ Limits.max_page_width
  pub height : 0 < l.max_page_height
  pub height_cap : l.max_page_height ≤ Limits.max_page_height
  pub pixels : 0 < l.max_pixel_buffer
  pub pixels_cap : l.max_pixel_buffer ≤ Limits.max_pixel_buffer

-- A worker accepts a `Hello` with a 64-bit document size exactly when its version is 2, the
-- document size is not 0 and the message size lies between 4096 and the frame cap; it then works
-- with the smaller document size of the two sides, the host's message size and the hard page caps.
pub server_negotiate_iff :
    (c : HelloRequest) (l : NegotiatedLimits)
    → c.max_document_size < 2 ^ 64
    → (server_negotiate c ≡ ok l) ↔ (IsHello c × (l ≡ offered c))
unfolding server_negotiate validate_hello_request
server_negotiate_iff c l h = (λ e. (ground arith, ground arith), λ v. ground arith)

pub server_negotiate-IsCapped :
    (c : HelloRequest) (l : NegotiatedLimits) → server_negotiate c ≡ ok l → IsCapped l
unfolding server_negotiate validate_hello_request
server_negotiate-IsCapped c l e = ground arith

-- What a host learns from a `HelloOk` that it accepts: capped limits, as advertised, and
-- a shared region that is either absent or has a valid name and a capacity within the pixel cap.
pub record Accepts (h : HelloOk) (l : NegotiatedLimits) : Type 0 where
  pub capped : IsCapped l
  pub version : h.protocol_version ≡ 2
  pub document : l.max_document_size ≡ h.max_document_size
  pub ipc : l.max_ipc_message ≡ h.max_ipc_message
  pub width : l.max_page_width ≡ h.max_page_width
  pub height : l.max_page_height ≡ h.max_page_height
  pub pixels : l.max_pixel_buffer ≡ h.max_pixel_buffer

abbrev pub IsRegion : Option Text → Option ℕ → Type 0
IsRegion (some name) (some capacity) =
    (is_valid_shm_name name ≡ true)
    × (byte_len name ≤ max_string_length)
    × (0 < capacity)
    × (capacity ≤ Limits.max_pixel_buffer)
IsRegion none none = Unit
IsRegion _ _ = ⊥

-- The limits that a host derives from a `HelloOk` that it accepts are those advertised, none of
-- them is 0 or above its hard cap, and the version is 2.
pub client_negotiate-Accepts :
    (h : HelloOk) (l : NegotiatedLimits) → client_negotiate h ≡ ok l → Accepts h l
unfolding client_negotiate validate_hello_ok
client_negotiate-Accepts h l e = ground arith

region :
    (name : Option Text) (capacity : Option ℕ)
    → check_shm name capacity ≡ ok tt
    → IsRegion name capacity
unfolding check_shm
region none none e = tt
region none (some c) e = cc
region (some n) none e = cc
region (some n) (some c) e = ground arith

-- A `HelloOk` that a host accepts advertises no shared region, or one with a valid name of at
-- most 256 bytes and a capacity from 1 to the pixel buffer cap; never a name or a capacity alone.
pub client_negotiate-IsRegion :
    (h : HelloOk) (l : NegotiatedLimits)
    → client_negotiate h ≡ ok l
    → IsRegion h.shm_name h.shm_capacity
unfolding client_negotiate validate_hello_ok
client_negotiate-IsRegion h l e = region h.shm_name h.shm_capacity (ground arith)

capped_agrees : (l : NegotiatedLimits) → IsCapped l → client_negotiate (to_hello_ok l) ≡ ok l
unfolding client_negotiate validate_hello_ok to_hello_ok
capped_agrees l k = ground arith

-- The host accepts the `HelloOk` that an accepting worker builds, and derives the very limits that
-- the worker works with.
pub handshake_agrees :
    (c : HelloRequest) (l : NegotiatedLimits)
    → server_negotiate c ≡ ok l
    → client_negotiate (to_hello_ok l) ≡ ok l
handshake_agrees c l e = capped_agrees l (server_negotiate-IsCapped c l e)

-- An `OpenDocument` request passes exactly with an id other than 0 and a document of at most the
-- negotiated size.
pub validate_open_document_iff :
    (l : NegotiatedLimits) (req : OpenDocumentRequest)
    → (validate_open_document l req ≡ ok tt)
      ↔ ((req.document_id ≢ 0) × (length req.bytes ≤ l.max_document_size))
unfolding validate_open_document
validate_open_document_iff l req = (λ e. ground arith, λ h. ground arith)

-- A render target within the limits.
pub record IsRenderable (l : NegotiatedLimits) (w h : ℕ) : Type 0 where
  pub width : 0 < w
  pub height : 0 < h
  pub width_max : w ≤ l.max_page_width
  pub height_max : h ≤ l.max_page_height
  pub pixels : w * h * 4 ≤ l.max_pixel_buffer

-- Under capped limits a `RenderPage` request passes exactly with an id other than 0 and a target
-- that is not empty, no side above the page limits, and a raster within the pixel limit.
pub validate_render_request_iff :
    (l : NegotiatedLimits) (req : RenderPageRequest)
    → IsCapped l
    → (validate_render_request l req ≡ ok tt)
      ↔ ((req.document_id ≢ 0) × IsRenderable l req.target_width req.target_height)
unfolding validate_render_request
validate_render_request_iff l req k = (
  λ e. ground (arith, pixel_buffer_size_lem req.target_width req.target_height 4),
  λ h. ground (arith, pixel_buffer_size_lem req.target_width req.target_height 4),
)
