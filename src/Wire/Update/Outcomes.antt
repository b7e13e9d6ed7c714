-- ===== src/Wire/Update/Outcomes.antt =====
-- crates/renee-wire/src/update.rs: the one-byte responses and errors.
use renee.Prelude.{◌≡◌, ◌↔◌, ◌==◌, if◌then◌else◌, [], ◌∷◌, Result, ok, err, arith}
use renee.Bytes.{Bytes}
use renee.Wire.Update.{
  AcceptUpdateOutcome, UpdateErrorCode, UpdateCodecError, trailing_bytes, invalid_discriminant,
}

unfoldable pub encode_accept_response : AcceptUpdateOutcome → Bytes
encode_accept_response AcceptUpdateOutcome.inserted = 0 ∷ []
encode_accept_response AcceptUpdateOutcome.already_present = 1 ∷ []

unfoldable pub decode_accept_response : Bytes → Result UpdateCodecError AcceptUpdateOutcome
decode_accept_response (b ∷ []) =
    if b == 0
    then ok AcceptUpdateOutcome.inserted
    else if b == 1
    then ok AcceptUpdateOutcome.already_present
    else err invalid_discriminant
decode_accept_response _ = err trailing_bytes

unfoldable pub encode_update_error : UpdateErrorCode → Bytes
encode_update_error UpdateErrorCode.malformed = 0 ∷ []
encode_update_error UpdateErrorCode.identifier_conflict = 1 ∷ []
encode_update_error UpdateErrorCode.not_found = 2 ∷ []
encode_update_error UpdateErrorCode.not_negotiated = 3 ∷ []
encode_update_error UpdateErrorCode.invalid_cursor = 4 ∷ []
encode_update_error UpdateErrorCode.counter_exhausted = 5 ∷ []
encode_update_error UpdateErrorCode.authorization_denied = 6 ∷ []
encode_update_error UpdateErrorCode.backpressure = 7 ∷ []
encode_update_error UpdateErrorCode.invalid_loro_metadata = 8 ∷ []
encode_update_error UpdateErrorCode.invalid_or_expired_continuation = 9 ∷ []
encode_update_error UpdateErrorCode.limit_exceeded = 10 ∷ []
encode_update_error UpdateErrorCode.retired_document = 11 ∷ []

unfoldable pub decode_update_error : Bytes → Result UpdateCodecError UpdateErrorCode
decode_update_error (b ∷ []) =
    if b == 0
    then ok UpdateErrorCode.malformed
    else if b == 1
    then ok UpdateErrorCode.identifier_conflict
    else if b == 2
    then ok UpdateErrorCode.not_found
    else if b == 3
    then ok UpdateErrorCode.not_negotiated
    else if b == 4
    then ok UpdateErrorCode.invalid_cursor
    else if b == 5
    then ok UpdateErrorCode.counter_exhausted
    else if b == 6
    then ok UpdateErrorCode.authorization_denied
    else if b == 7
    then ok UpdateErrorCode.backpressure
    else if b == 8
    then ok UpdateErrorCode.invalid_loro_metadata
    else if b == 9
    then ok UpdateErrorCode.invalid_or_expired_continuation
    else if b == 10
    then ok UpdateErrorCode.limit_exceeded
    else if b == 11
    then ok UpdateErrorCode.retired_document
    else err invalid_discriminant
decode_update_error _ = err trailing_bytes

-- An update error is decoded from its own byte, and from no other payload.
decode_update_error_iff :
    (bs : Bytes) (c : UpdateErrorCode)
    → (decode_update_error bs ≡ ok c) ↔ (bs ≡ encode_update_error c)
unfolding decode_update_error encode_update_error
decode_update_error_iff bs UpdateErrorCode.malformed = ground arith
decode_update_error_iff bs UpdateErrorCode.identifier_conflict = ground arith
decode_update_error_iff bs UpdateErrorCode.not_found = ground arith
decode_update_error_iff bs UpdateErrorCode.not_negotiated = ground arith
decode_update_error_iff bs UpdateErrorCode.invalid_cursor = ground arith
decode_update_error_iff bs UpdateErrorCode.counter_exhausted = ground arith
decode_update_error_iff bs UpdateErrorCode.authorization_denied = ground arith
decode_update_error_iff bs UpdateErrorCode.backpressure = ground arith
decode_update_error_iff bs UpdateErrorCode.invalid_loro_metadata = ground arith
decode_update_error_iff bs UpdateErrorCode.invalid_or_expired_continuation = ground arith
decode_update_error_iff bs UpdateErrorCode.limit_exceeded = ground arith
decode_update_error_iff bs UpdateErrorCode.retired_document = ground arith
