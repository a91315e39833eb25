-- ===== src/Worker/Errors.antt =====
-- `Worker::error` and `Worker::error_from_render` of crates/renderer-worker/src/worker.rs.
use doc_bunker.Prelude.{
  ℕ, ◌+◌, ◌≤◌, ◌≡◌, refl, [], ◌∷◌, ◌++◌, arith, ltb, if◌then◌else◌, Text, codes, len_utf8, byte_len,
  ok, Bool-cases, inl, inr,
}
use doc_bunker.RendererApi.Error.{
  RenderError, unsupported_format, document_too_large, invalid_document, password_protected,
  rendering_failed, timeout, resource_limit_exceeded, internal,
}
use doc_bunker.Protocol.Limits.{max_string_length}
use doc_bunker.Protocol.Message.{ErrorCode, code_as_u8, Response, error, code_from_u8_iff}
use doc_bunker.Protocol.Validate.{validate_error_response}

-- The loop over the characters of the detail; `used` is the length of the message so far.
truncate_from : ℕ → Text → Text
truncate_from used [] = []
truncate_from used (c ∷ s) =
    if ltb max_string_length (used + len_utf8 c)
    then []
    else c ∷ truncate_from (used + len_utf8 c) s

unfoldable pub truncate : Text → Text
unfolding truncate_from
truncate = truncate_from 0

unfoldable pub error_response : ErrorCode → Text → Response
error_response code detail = error (record { code = code_as_u8 code; message = truncate detail })

-- The message that `#[error]` of crates/renderer-api/src/error.rs gives each variant.
abbrev pub render_error_text : RenderError → Text
render_error_text unsupported_format = codes "unsupported document format"
render_error_text document_too_large = codes "document exceeds the maximum allowed size"
render_error_text invalid_document = codes "invalid or corrupt document"
render_error_text password_protected = codes "document is password protected"
render_error_text rendering_failed = codes "rendering failed"
render_error_text timeout = codes "operation timed out"
render_error_text resource_limit_exceeded = codes "resource limit exceeded"
render_error_text (internal detail) = codes "internal renderer error: " ++ detail

abbrev pub render_error_code : RenderError → ErrorCode
render_error_code unsupported_format = ErrorCode.unsupported_format
render_error_code document_too_large = ErrorCode.document_too_large
render_error_code invalid_document = ErrorCode.invalid_document
render_error_code password_protected = ErrorCode.password_protected
render_error_code rendering_failed = ErrorCode.rendering_failed
render_error_code timeout = ErrorCode.timeout
render_error_code resource_limit_exceeded = ErrorCode.resource_limit_exceeded
render_error_code (internal _) = ErrorCode.internal

abbrev pub error_from_render : RenderError → Response
error_from_render e = error_response (render_error_code e) (render_error_text e)

-- What is left out of a truncated text.
abbrev pub IsCut : Text → Text → Type 0
IsCut s t = (rest : Text) × (t ≡ s ++ rest)

truncate_from-le :
    (used : ℕ) (s : Text)
    → used ≤ max_string_length
    → used + byte_len (truncate_from used s) ≤ max_string_length
unfolding truncate_from
truncate_from-le used [] h = omega arith
truncate_from-le used (c ∷ s) h = ground (arith, truncate_from-le (used + len_utf8 c) s)

truncate_from-IsCut : (used : ℕ) (s : Text) → IsCut (truncate_from used s) s
unfolding truncate_from
truncate_from-IsCut used [] = ([], refl)
truncate_from-IsCut used (c ∷ s) = elim (Bool-cases (ltb max_string_length (used + len_utf8 c))) [
  | inl e ↦ (c ∷ s, ground arith)
  | inr e ↦ let (rest, q) = truncate_from-IsCut (used + len_utf8 c) s in (rest, ground arith)
]

truncate_from_fits :
    (used : ℕ) (s : Text) → used + byte_len s ≤ max_string_length → truncate_from used s ≡ s
unfolding truncate_from
truncate_from_fits used [] h = refl
truncate_from_fits used (c ∷ s) h = ground (arith, truncate_from_fits (used + len_utf8 c) s)

-- Whatever the detail, the host accepts the error response that the worker builds from it.
pub error_response_accepted :
    (code : ErrorCode) (detail : Text)
    → validate_error_response (record { code = code_as_u8 code; message = truncate detail }) ≡ ok tt
unfolding validate_error_response truncate
error_response_accepted code detail =
    ground (arith, (code_from_u8_iff (code_as_u8 code) code).1 refl, truncate_from-le 0 detail)

-- The message of an error response is a prefix of the detail and fits 256 bytes.
pub truncate_lem :
    (detail : Text)
    → IsCut (truncate detail) detail × (byte_len (truncate detail) ≤ max_string_length)
unfolding truncate
truncate_lem detail = (truncate_from-IsCut 0 detail, omega (arith, truncate_from-le 0 detail))

-- A detail of at most 256 bytes is not cut.
pub truncate_fits : (detail : Text) → byte_len detail ≤ max_string_length → truncate detail ≡ detail
unfolding truncate
truncate_fits detail h = truncate_from_fits 0 detail (omega arith)
