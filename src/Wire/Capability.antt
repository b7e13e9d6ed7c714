-- ===== src/Wire/Capability.antt =====
-- crates/renee-wire/src/capability.rs: the payloads of the document-capability messages.
pub mod Requests
pub mod Outcomes
use renee.Prelude.{ℕ, ◌++◌}
use renee.Bytes.{Bytes}
use renee.Types.{
  DocumentId, CapabilityId, CreateAuthorityId, RequestId, Authenticator, IsArray, identifier_length,
  secret_length,
}
use renee.Types.Operations.{OperationSet}
use renee.Wire.Decoder
use renee.Wire.Decoder.{Decoding, pure, ◌>>=◌}

-- The message types.
abbrev pub create_document : ℕ
create_document = 20

abbrev pub create_document_response : ℕ
create_document_response = 21

abbrev pub capability_error : ℕ
capability_error = 22

abbrev pub grant_capability : ℕ
grant_capability = 23

abbrev pub grant_capability_response : ℕ
grant_capability_response = 24

abbrev pub revoke_capability : ℕ
revoke_capability = 25

abbrev pub revoke_capability_response : ℕ
revoke_capability_response = 26

pub record CapabilityAuthority : Type 0 where
  pub capability_id : CapabilityId
  pub authenticator : Authenticator

pub record CreateAuthority : Type 0 where
  pub create_authority_id : CreateAuthorityId
  pub authenticator : Authenticator

pub record CreateDocumentRequest : Type 0 where
  pub create_authority : CreateAuthority
  pub request_id : RequestId
  pub document_id : DocumentId
  pub root : CapabilityAuthority

pub record AuthorizedUpdateRequest : Type 0 where
  pub authority : CapabilityAuthority
  pub encoded_record : Bytes

pub record GrantCapabilityRequest : Type 0 where
  pub document_id : DocumentId
  pub issuer : CapabilityAuthority
  pub request_id : RequestId
  pub descendant : CapabilityAuthority
  pub operations : OperationSet

pub record RevokeCapabilityRequest : Type 0 where
  pub document_id : DocumentId
  pub issuer : CapabilityAuthority
  pub request_id : RequestId
  pub target_capability_id : CapabilityId

pub data CapabilityCodecError : Type 0 where
  truncated trailing_bytes invalid_discriminant payload_too_long : CapabilityCodecError

unfoldable pub encode_authority : CapabilityAuthority → Bytes
encode_authority a = a.capability_id ++ a.authenticator

unfoldable pub encode_create_authority : CreateAuthority → Bytes
encode_create_authority a = a.create_authority_id ++ a.authenticator

unfoldable pub take_array : ℕ → Decoding CapabilityCodecError Bytes
take_array n = Decoder.take truncated n

unfoldable pub take_authority : Decoding CapabilityCodecError CapabilityAuthority
take_authority = do
  capability_id ← take_array identifier_length
  authenticator ← take_array secret_length
  pure (record { capability_id = capability_id; authenticator = authenticator })

unfoldable pub take_create_authority : Decoding CapabilityCodecError CreateAuthority
take_create_authority = do
  create_authority_id ← take_array identifier_length
  authenticator ← take_array secret_length
  pure (record { create_authority_id = create_authority_id; authenticator = authenticator })

-- What the Rust array types promise of the fields.
abbrev pub IsAuthority : CapabilityAuthority → Type 0
IsAuthority a = IsArray identifier_length a.capability_id × IsArray secret_length a.authenticator

abbrev pub IsCreateAuthority : CreateAuthority → Type 0
IsCreateAuthority a =
    IsArray identifier_length a.create_authority_id × IsArray secret_length a.authenticator
