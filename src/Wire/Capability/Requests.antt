-- ===== src/Wire/Capability/Requests.antt =====
-- crates/renee-wire/src/capability.rs: the requests, written and read.
pub mod RoundTrip
pub mod Canonical
use renee.Prelude.{
  ℕ, ◌++◌, Bool, true, false, not, ◌||◌, ltb, if◌then◌else◌, length, [], ◌∷◌, Option, none, some,
  Result, ok, err, ◌+◌,
}
use renee.Bytes.{Bytes, to_be, from_be}
use renee.Types.{identifier_length, secret_length}
use renee.Types.Operations.{OperationSet, from_bits, is_empty}
use renee.Wire.Limits.{
  max_application_payload_length, max_update_record_length, capability_authority_length,
}
use renee.Wire.Decoder
use renee.Wire.Decoder.{Decoding, pure, lift, ◌>>=◌}
use renee.Wire.Capability.{
  CapabilityAuthority, CreateDocumentRequest, AuthorizedUpdateRequest, GrantCapabilityRequest,
  RevokeCapabilityRequest, CapabilityCodecError, truncated, trailing_bytes, invalid_discriminant,
  payload_too_long, encode_authority, encode_create_authority, take_array, take_authority,
  take_create_authority,
}

unfoldable pub encode_create_document_request : CreateDocumentRequest → Bytes
encode_create_document_request r =
    encode_create_authority r.create_authority
    ++ (r.request_id ++ (r.document_id ++ encode_authority r.root))

take_create_document_request : Decoding CapabilityCodecError CreateDocumentRequest
take_create_document_request = do
  create_authority ← take_create_authority
  request_id ← take_array identifier_length
  document_id ← take_array identifier_length
  root ← take_authority
  pure (record {
    create_authority = create_authority;
    request_id = request_id;
    document_id = document_id;
    root = root;
  })

unfoldable pub decode_create_document_request :
    Bytes → Result CapabilityCodecError CreateDocumentRequest
unfolding take_create_document_request
decode_create_document_request encoded =
    Decoder.complete trailing_bytes take_create_document_request encoded

unfoldable pub encode_authorized_update_request :
    AuthorizedUpdateRequest → Result CapabilityCodecError Bytes
encode_authorized_update_request r =
    if ltb max_update_record_length (length r.encoded_record)
    then err payload_too_long
    else if ltb max_application_payload_length
        (capability_authority_length + length r.encoded_record)
    then err payload_too_long
    else ok (encode_authority r.authority ++ r.encoded_record)

-- The record is what is left; it is neither empty nor too long.
abbrev with_record :
    CapabilityAuthority → Bytes → Result CapabilityCodecError AuthorizedUpdateRequest
with_record authority [] = err truncated
with_record authority (b ∷ bs) =
    if ltb max_update_record_length (length (b ∷ bs))
    then err payload_too_long
    else ok (record { authority = authority; encoded_record = b ∷ bs })

unfoldable pub decode_authorized_update_request :
    Bytes → Result CapabilityCodecError AuthorizedUpdateRequest
decode_authorized_update_request encoded = elim (take_authority encoded) [
  | err e ↦ err e
  | ok (authority, remaining) ↦ with_record authority remaining
]

unfoldable pub encode_grant_capability_request : GrantCapabilityRequest → Bytes
encode_grant_capability_request r =
    r.document_id
    ++ (encode_authority r.issuer
        ++ (r.request_id ++ (encode_authority r.descendant ++ to_be 2 r.operations.bits)))

-- `OperationSet::from_bits(bits).filter(nonempty).ok_or(InvalidDiscriminant)`.
unfoldable pub operations_of : ℕ → Result CapabilityCodecError OperationSet
operations_of bits = elim (from_bits bits) [
  | none ↦ err invalid_discriminant
  | some operations ↦ if is_empty operations then err invalid_discriminant else ok operations
]

take_grant_capability_request : Decoding CapabilityCodecError GrantCapabilityRequest
take_grant_capability_request = do
  document_id ← take_array identifier_length
  issuer ← take_authority
  request_id ← take_array identifier_length
  descendant ← take_authority
  bits ← Decoder.take_word truncated 2
  operations ← lift (operations_of bits)
  pure (record {
    document_id = document_id;
    issuer = issuer;
    request_id = request_id;
    descendant = descendant;
    operations = operations;
  })

unfoldable pub decode_grant_capability_request :
    Bytes → Result CapabilityCodecError GrantCapabilityRequest
unfolding take_grant_capability_request
decode_grant_capability_request encoded =
    Decoder.complete trailing_bytes take_grant_capability_request encoded

unfoldable pub encode_revoke_capability_request : RevokeCapabilityRequest → Bytes
encode_revoke_capability_request r =
    r.document_id ++ (encode_authority r.issuer ++ (r.request_id ++ r.target_capability_id))

take_revoke_capability_request : Decoding CapabilityCodecError RevokeCapabilityRequest
take_revoke_capability_request = do
  document_id ← take_array identifier_length
  issuer ← take_authority
  request_id ← take_array identifier_length
  target_capability_id ← take_array identifier_length
  pure (record {
    document_id = document_id;
    issuer = issuer;
    request_id = request_id;
    target_capability_id = target_capability_id;
  })

unfoldable pub decode_revoke_capability_request :
    Bytes → Result CapabilityCodecError RevokeCapabilityRequest
unfolding take_revoke_capability_request
decode_revoke_capability_request encoded =
    Decoder.complete trailing_bytes take_revoke_capability_request encoded
