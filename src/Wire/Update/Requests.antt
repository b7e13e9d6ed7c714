-- ===== src/Wire/Update/Requests.antt =====
-- crates/renee-wire/src/update.rs: the enumeration and the fetch request.
pub mod RoundTrip
use renee.Prelude.{
  ℕ, zero, suc, ◌++◌, Bool, ◌==◌, if◌then◌else◌, length, Option, none, some, [], ◌∷◌, Result, ok,
  err, ltb,
}
use renee.Bytes.{Bytes, to_be}
use renee.Types.{identifier_length}
use renee.Wire.Limits.{max_application_payload_length}
use renee.Wire.Decoder
use renee.Wire.Decoder.{Decoding, pure, lift, ◌>>=◌}
use renee.Wire.Capability.{encode_authority}
use renee.Wire.Update.{
  UpdateCodecError, truncated, trailing_bytes, invalid_discriminant, empty_encrypted_payload,
  record_too_long, EnumerateStart, start_origin, continue, after_tail, EnumerateRequest,
  FetchRequest, enumeration_continuation_length, take_array, take_authority,
}

unfoldable pub cursor_length : Option Bytes → Result UpdateCodecError ℕ
cursor_length none = ok 0
cursor_length (some cursor) =
    if length cursor == enumeration_continuation_length
    then ok enumeration_continuation_length
    else err UpdateCodecError.invalid_cursor

abbrev pub mode_of : EnumerateStart → ℕ
mode_of start_origin = 0
mode_of (continue cursor) = 1
mode_of (after_tail cursor) = 2

abbrev pub cursor_of : EnumerateStart → Option Bytes
cursor_of start_origin = none
cursor_of (continue cursor) = some cursor
cursor_of (after_tail cursor) = some cursor

abbrev pub cursor_bytes : Option Bytes → Bytes
cursor_bytes none = []
cursor_bytes (some cursor) = cursor

unfoldable pub encode_enumerate_request : EnumerateRequest → Result UpdateCodecError Bytes
unfolding cursor_length
encode_enumerate_request r = elim (cursor_length (cursor_of r.start)) [
  | err e ↦ err e
  | ok n ↦ ok (
      encode_authority r.authority
      ++ (r.document_id ++ (mode_of r.start ∷ (to_be 2 n ++ cursor_bytes (cursor_of r.start)))))
]

-- The `match` on the mode.
unfoldable pub take_start : ℕ → ℕ → Decoding UpdateCodecError EnumerateStart
take_start zero zero = pure start_origin
take_start zero n = lift (err UpdateCodecError.invalid_cursor)
take_start (suc zero) n = do cursor ← take_array n; pure (continue cursor)
take_start (suc (suc zero)) n = do cursor ← take_array n; pure (after_tail cursor)
take_start _ n = lift (err invalid_discriminant)

take_enumerate_request : Decoding UpdateCodecError EnumerateRequest
take_enumerate_request = do
  authority ← take_authority
  document_id ← take_array identifier_length
  mode ← Decoder.take_word truncated 1
  n ← Decoder.take_word truncated 2
  start ← take_start mode n
  pure (record { authority = authority; document_id = document_id; start = start })

unfoldable pub decode_enumerate_request : Bytes → Result UpdateCodecError EnumerateRequest
unfolding take_enumerate_request
decode_enumerate_request payload = Decoder.complete trailing_bytes take_enumerate_request payload

unfoldable pub encode_fetch_request : FetchRequest → Bytes
encode_fetch_request r = encode_authority r.authority ++ (r.document_id ++ r.update_id)

take_fetch_request : Decoding UpdateCodecError FetchRequest
take_fetch_request = do
  authority ← take_authority
  document_id ← take_array identifier_length
  update_id ← take_array identifier_length
  pure (record { authority = authority; document_id = document_id; update_id = update_id })

unfoldable pub decode_fetch_request : Bytes → Result UpdateCodecError FetchRequest
unfolding take_fetch_request
decode_fetch_request payload = Decoder.complete trailing_bytes take_fetch_request payload

unfoldable pub encode_fetch_response : Bytes → Result UpdateCodecError Bytes
encode_fetch_response [] = err empty_encrypted_payload
encode_fetch_response (b ∷ bs) =
    if ltb max_application_payload_length (length (b ∷ bs))
    then err record_too_long
    else ok (b ∷ bs)

unfoldable pub decode_fetch_response : Bytes → Result UpdateCodecError Bytes
decode_fetch_response [] = err empty_encrypted_payload
decode_fetch_response (b ∷ bs) = ok (b ∷ bs)
