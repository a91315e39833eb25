-- ===== src/Protocol/Payload/Laws.antt =====
-- crates/protocol/src/framing.rs: encoding and decoding of payloads, in both directions.
use doc_bunker.Prelude.{ℕ, ◌≡◌, ◌≢◌, ◌↔◌, List, [], ◌∷◌, arith, ok, Result-cases, inl, inr}
use doc_bunker.Protocol.Message.{Request, Response}
use doc_bunker.Protocol.Payload.{
  Codec, request_discriminator, response_discriminator, encode_request, encode_response,
  decode_request, decode_response,
}

-- Postcard's documented round trip.
abbrev pub IsInverse : {A : Type 0} → Codec A → Type 0
IsInverse {A} c =
    (message : A) (body : List ℕ) → c.to_allocvec message ≡ ok body → c.from_bytes body ≡ ok message

-- If postcard reads back what it writes, a request is decoded from its own payload.
pub decode-encode_request :
    (c : Codec Request) (req : Request) (payload : List ℕ)
    → IsInverse c
    → encode_request c req ≡ ok payload
    → decode_request c payload ≡ ok req
unfolding encode_request decode_request
decode-encode_request c req payload inverse e = elim (Result-cases (c.to_allocvec req)) [
  | inl (body, w) ↦ ground (arith, inverse req body w)
  | inr (x, w) ↦ ground arith
]

pub decode-encode_response :
    (c : Codec Response) (resp : Response) (payload : List ℕ)
    → IsInverse c
    → encode_response c resp ≡ ok payload
    → decode_response c payload ≡ ok resp
unfolding encode_response decode_response
decode-encode_response c resp payload inverse e = elim (Result-cases (c.to_allocvec resp)) [
  | inl (body, w) ↦ ground (arith, inverse resp body w)
  | inr (x, w) ↦ ground arith
]

decode_request_sound :
    (c : Codec Request) (req : Request) (payload : List ℕ)
    → decode_request c payload ≡ ok req
    → (body : List ℕ) × (payload ≡ 2 ∷ request_discriminator req ∷ body)
      × (c.from_bytes body ≡ ok req)
unfolding decode_request
decode_request_sound c req [] e = cc
decode_request_sound c req (v ∷ []) e = cc
decode_request_sound c req (v ∷ d ∷ body) e = elim (Result-cases (c.from_bytes body)) [
  | inl (r, w) ↦ (body, ground arith, ground arith)
  | inr (x, w) ↦ absurd (ground arith)
]

decode_response_sound :
    (c : Codec Response) (resp : Response) (payload : List ℕ)
    → decode_response c payload ≡ ok resp
    → (body : List ℕ) × (payload ≡ 2 ∷ response_discriminator resp ∷ body)
      × (c.from_bytes body ≡ ok resp)
unfolding decode_response
decode_response_sound c resp [] e = cc
decode_response_sound c resp (v ∷ []) e = cc
decode_response_sound c resp (v ∷ d ∷ body) e = elim (Result-cases (c.from_bytes body)) [
  | inl (r, w) ↦ (body, ground arith, ground arith)
  | inr (x, w) ↦ absurd (ground arith)
]

discriminators_ne :
    (req : Request) (resp : Response) → request_discriminator req ≢ response_discriminator resp
discriminators_ne req resp = ground arith

-- A payload decodes to a request exactly when it is version 2, the discriminator of that request
-- and a body that postcard reads as that request.
pub decode_request_iff :
    (c : Codec Request) (payload : List ℕ) (req : Request)
    → (decode_request c payload ≡ ok req) ↔ (
        (body : List ℕ) × (payload ≡ 2 ∷ request_discriminator req ∷ body)
        × (c.from_bytes body ≡ ok req))
unfolding decode_request
decode_request_iff c payload req =
    (decode_request_sound c req payload, λ h. rw h.1 (ground (arith, h.2)))

-- No payload is both a request and a response: their discriminators lie on the two sides of 0x80.
pub payloads_disjoint :
    (c : Codec Request) (d : Codec Response) (payload : List ℕ) (req : Request) (resp : Response)
    → decode_request c payload ≡ ok req
    → decode_response d payload ≢ ok resp
payloads_disjoint c d payload req resp e f =
    let (body, p, _) = decode_request_sound c req payload e in
    let (body', q, _) = decode_response_sound d resp payload f in
    ground (arith, discriminators_ne req resp)
