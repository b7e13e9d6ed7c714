-- ===== src/Wire/Capability/Requests/RoundTrip.antt =====
-- Requests of crates/renee-wire/src/capability.rs, encoded and then decoded.
use renee.Prelude.{
  ℕ, ◌≤◌, ◌<◌, ◌^◌, ◌≡◌, ◌≢◌, refl, [], ◌∷◌, ◌++◌, append_assoc, append-nil, length, ok, arith, ◌↔◌,
  some,
}
use renee.Bytes.{Bytes, to_be}
use renee.Types.{IsArray, identifier_length, secret_length}
use renee.Types.Operations.{OperationSet, is_empty, from_bits}
use renee.Types.Operations.Attenuation.{IsCanonical, from_bits_iff}
use renee.Wire.Limits.{max_update_record_length}
use renee.Wire.Decoder.Reads.{take-append_ok, take_word_last, complete_ok}
use renee.Wire.Capability.{
  CapabilityAuthority, CreateAuthority, CreateDocumentRequest, AuthorizedUpdateRequest,
  GrantCapabilityRequest, RevokeCapabilityRequest, truncated, trailing_bytes, encode_authority,
  encode_create_authority, take_array, take_authority, take_create_authority, IsAuthority,
  IsCreateAuthority,
}
use renee.Wire.Capability.Requests.{
  encode_create_document_request, take_create_document_request, decode_create_document_request,
  encode_authorized_update_request, decode_authorized_update_request, with_record,
  encode_grant_capability_request, operations_of, take_grant_capability_request,
  decode_grant_capability_request, encode_revoke_capability_request, take_revoke_capability_request,
  decode_revoke_capability_request,
}

take_array_ok :
    (n : ℕ) (xs rest : Bytes) → length xs ≡ n → take_array n (xs ++ rest) ≡ ok (xs, rest)
unfolding take_array
take_array_ok n xs rest h = take-append_ok truncated n xs rest h

pub take_authority_ok :
    (a : CapabilityAuthority) (rest : Bytes)
    → IsAuthority a
    → take_authority (encode_authority a ++ rest) ≡ ok (a, rest)
unfolding take_authority encode_authority
take_authority_ok a rest h = rw append_assoc (
    cc (
      take_array_ok identifier_length a.capability_id (a.authenticator ++ rest) h.0.0,
      take_array_ok secret_length a.authenticator rest h.1.0,
    ))

take_create_authority_ok :
    (a : CreateAuthority) (rest : Bytes)
    → IsCreateAuthority a
    → take_create_authority (encode_create_authority a ++ rest) ≡ ok (a, rest)
unfolding take_create_authority encode_create_authority
take_create_authority_ok a rest h = rw append_assoc (
    cc (
      take_array_ok identifier_length a.create_authority_id (a.authenticator ++ rest) h.0.0,
      take_array_ok secret_length a.authenticator rest h.1.0,
    ))

take_authority_last :
    (a : CapabilityAuthority) → IsAuthority a → take_authority (encode_authority a) ≡ ok (a, [])
take_authority_last a h = rw append-nil at (take_authority_ok a [] h)

take_array_last : (n : ℕ) (xs : Bytes) → length xs ≡ n → take_array n xs ≡ ok (xs, [])
take_array_last n xs h = rw append-nil at (take_array_ok n xs [] h)

-- What the types of the fields promise.
pub record IsCreateDocumentRequest (r : CreateDocumentRequest) : Type 0 where
  pub create_authority : IsCreateAuthority r.create_authority
  pub request_id : IsArray identifier_length r.request_id
  pub document_id : IsArray identifier_length r.document_id
  pub root : IsAuthority r.root

-- A create request whose identifiers and secrets have their lengths is decoded as it was.
decode-encode_create_document_request :
    (r : CreateDocumentRequest)
    → IsCreateDocumentRequest r
    → decode_create_document_request (encode_create_document_request r) ≡ ok r
unfolding decode_create_document_request encode_create_document_request
decode-encode_create_document_request r v =
    let tail = r.document_id ++ encode_authority r.root in
    complete_ok trailing_bytes take_create_document_request _ (
      cc (
        take_create_authority_ok r.create_authority (r.request_id ++ tail) v.create_authority,
        take_array_ok identifier_length r.request_id tail v.request_id.0,
        take_array_ok identifier_length r.document_id (encode_authority r.root) v.document_id.0,
        take_authority_last r.root v.root,
      ))

pub record IsGrantCapabilityRequest (r : GrantCapabilityRequest) : Type 0 where
  pub document_id : IsArray identifier_length r.document_id
  pub issuer : IsAuthority r.issuer
  pub request_id : IsArray identifier_length r.request_id
  pub descendant : IsAuthority r.descendant
  pub operations : IsCanonical r.operations
  pub nonempty : r.operations.bits ≢ 0

operations_of_inversion :
    (b : ℕ) (s : OperationSet) → operations_of b ≡ ok s → (from_bits b ≡ some s) × (s.bits ≢ 0)
unfolding operations_of is_empty
operations_of_inversion b s e = ground arith

-- The bits of a grant name a canonical set that is not empty.
pub operations_of_iff :
    (b : ℕ) (s : OperationSet)
    → b < 2 ^ 16
    → (operations_of b ≡ ok s) ↔ ((s.bits ≡ b) × IsCanonical s × (s.bits ≢ 0))
unfolding operations_of is_empty
operations_of_iff b s h = (
  λ e.
      let (found, live) = operations_of_inversion b s e in
      let (same, canonical) = (from_bits_iff b s h).0 found in (same, canonical, live),
  λ v. ground (arith, (from_bits_iff b s h).1 (v.0, v.1)),
)

-- A grant request whose identifiers and secrets have their lengths, and whose operation set is
-- canonical and not empty, is decoded as it was.
pub decode-encode_grant_capability_request :
    (r : GrantCapabilityRequest)
    → IsGrantCapabilityRequest r
    → decode_grant_capability_request (encode_grant_capability_request r) ≡ ok r
unfolding decode_grant_capability_request encode_grant_capability_request
decode-encode_grant_capability_request r v =
    let bits = to_be 2 r.operations.bits in
    let tail2 = encode_authority r.descendant ++ bits in
    let tail1 = r.request_id ++ tail2 in
    complete_ok trailing_bytes take_grant_capability_request _ (
      cc (
        take_array_ok identifier_length r.document_id (encode_authority r.issuer ++ tail1)
            v.document_id.0,
        take_authority_ok r.issuer tail1 v.issuer,
        take_array_ok identifier_length r.request_id tail2 v.request_id.0,
        take_authority_ok r.descendant bits v.descendant,
        take_word_last truncated 2 r.operations.bits (omega (arith, v.operations)),
        (operations_of_iff r.operations.bits r.operations (omega (arith, v.operations))).1
            (refl, v.operations, v.nonempty),
      ))

pub record IsRevokeCapabilityRequest (r : RevokeCapabilityRequest) : Type 0 where
  pub document_id : IsArray identifier_length r.document_id
  pub issuer : IsAuthority r.issuer
  pub request_id : IsArray identifier_length r.request_id
  pub target_capability_id : IsArray identifier_length r.target_capability_id

-- A revoke request whose identifiers and secret have their lengths is decoded as it was.
decode-encode_revoke_capability_request :
    (r : RevokeCapabilityRequest)
    → IsRevokeCapabilityRequest r
    → decode_revoke_capability_request (encode_revoke_capability_request r) ≡ ok r
unfolding decode_revoke_capability_request encode_revoke_capability_request
decode-encode_revoke_capability_request r v =
    let tail = r.request_id ++ r.target_capability_id in
    complete_ok trailing_bytes take_revoke_capability_request _ (
      cc (
        take_array_ok identifier_length r.document_id (encode_authority r.issuer ++ tail)
            v.document_id.0,
        take_authority_ok r.issuer tail v.issuer,
        take_array_ok identifier_length r.request_id r.target_capability_id v.request_id.0,
        take_array_last identifier_length r.target_capability_id v.target_capability_id.0,
      ))

with_record_ok :
    (a : CapabilityAuthority) (bs : Bytes)
    → bs ≢ []
    → length bs ≤ max_update_record_length
    → with_record a bs ≡ ok (record { authority = a; encoded_record = bs })
with_record_ok a [] n h = absurd (n refl)
with_record_ok a (b ∷ bs) n h = ground arith

-- An update request with an authority of its length, whose record is neither empty nor above 4,024
-- bytes, is encoded, and decoded as it was.
decode-encode_authorized_update_request :
    (r : AuthorizedUpdateRequest)
    → IsAuthority r.authority
    → r.encoded_record ≢ []
    → length r.encoded_record ≤ max_update_record_length
    → (bs : Bytes) × (encode_authorized_update_request r ≡ ok bs)
      × (decode_authorized_update_request bs ≡ ok r)
unfolding decode_authorized_update_request encode_authorized_update_request
decode-encode_authorized_update_request r v nonempty fits =
    (encode_authority r.authority ++ r.encoded_record, ground arith, decoded)
  where
    decoded :
        decode_authorized_update_request (encode_authority r.authority ++ r.encoded_record) ≡ ok r
    decoded = cc (
      take_authority_ok r.authority r.encoded_record v,
      with_record_ok r.authority r.encoded_record nonempty fits,
    )
