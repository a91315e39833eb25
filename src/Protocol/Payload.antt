-- ===== src/Protocol/Payload.antt =====
-- The payloads of crates/protocol/src/framing.rs: version, discriminator and body. The body is
-- written and read by the postcard crate, which is a parameter.
pub mod Laws
use doc_bunker.Prelude.{ℕ, List, [], ◌∷◌, not, ◌==◌, if◌then◌else◌, Result, ok, err, ◌>>=◌, map_err}
use doc_bunker.Protocol.Error.{
  ProtocolError, frame_too_small, invalid_version, invalid_discriminator, serialization,
}
use doc_bunker.Protocol.Limits.{protocol_version}
use doc_bunker.Protocol.Message.{
  Request, hello, open_document, get_document_info, render_page, close_document, ping, Response,
  hello_ok, document_opened, document_info, page_rendered, closed, pong, error,
}

-- `postcard::to_allocvec` and `postcard::from_bytes` at one type; an error is a number.
pub record Codec (A : Type 0) : Type 0 where
  pub to_allocvec : A → Result ℕ (List ℕ)
  pub from_bytes : List ℕ → Result ℕ A

abbrev pub request_discriminator : Request → ℕ
request_discriminator (hello _) = 0x00
request_discriminator (open_document _) = 0x01
request_discriminator (get_document_info _) = 0x02
request_discriminator (render_page _) = 0x03
request_discriminator (close_document _) = 0x04
request_discriminator (ping _) = 0x05

abbrev pub response_discriminator : Response → ℕ
response_discriminator (hello_ok _) = 0x80
response_discriminator (document_opened _) = 0x81
response_discriminator (document_info _) = 0x82
response_discriminator (page_rendered _) = 0x83
response_discriminator (closed _) = 0x84
response_discriminator (pong _) = 0x85
response_discriminator (error _) = 0x86

split_payload : List ℕ → Result ProtocolError (ℕ × List ℕ)
split_payload (version ∷ discriminator ∷ body) =
    if not (version == protocol_version) then err invalid_version else ok (discriminator, body)
split_payload _ = err frame_too_small

encode_payload : {A : Type 0} → Codec A → ℕ → A → Result ProtocolError (List ℕ)
encode_payload c discriminator message = do
  body ← map_err serialization (c.to_allocvec message)
  ok (protocol_version ∷ discriminator ∷ body)

unfoldable pub encode_request : Codec Request → Request → Result ProtocolError (List ℕ)
unfolding encode_payload
encode_request c req = encode_payload c (request_discriminator req) req

unfoldable pub encode_response : Codec Response → Response → Result ProtocolError (List ℕ)
unfolding encode_payload
encode_response c resp = encode_payload c (response_discriminator resp) resp

unfoldable pub decode_request : Codec Request → List ℕ → Result ProtocolError Request
unfolding split_payload
decode_request c payload = do
  (discriminator, body) ← split_payload payload
  request ← map_err serialization (c.from_bytes body)
  if not (discriminator == request_discriminator request)
      then err invalid_discriminator
      else ok request

unfoldable pub decode_response : Codec Response → List ℕ → Result ProtocolError Response
unfolding split_payload
decode_response c payload = do
  (discriminator, body) ← split_payload payload
  response ← map_err serialization (c.from_bytes body)
  if not (discriminator == response_discriminator response)
      then err invalid_discriminator
      else ok response
