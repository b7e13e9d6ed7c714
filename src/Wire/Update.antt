-- ===== src/Wire/Update.antt =====
-- crates/renee-wire/src/update.rs: the payloads of the update messages.
pub mod Records
pub mod Subscriptions
pub mod Requests
pub mod Outcomes
pub mod Versions
pub mod Pages
pub mod Responses
use renee.Prelude.{ℕ, ◌++◌, ◌+◌, ◌-◌}
use renee.Bytes.{Bytes}
use renee.Types.{DocumentId, UpdateId, identifier_length, secret_length}
use renee.Wire.Limits.{max_application_payload_length}
use renee.Wire.Decoder
use renee.Wire.Decoder.{Decoding, pure, ◌>>=◌}
use renee.Wire.Capability.{CapabilityAuthority}

abbrev pub range_length : ℕ
range_length = 16

abbrev pub record_fixed_length : ℕ
record_fixed_length = 50

abbrev pub enumeration_continuation_length : ℕ
enumeration_continuation_length = 32

abbrev pub max_enumerable_metadata_length : ℕ
max_enumerable_metadata_length =
    max_application_payload_length - (1 + 2 + enumeration_continuation_length + 2)

pub data AcceptUpdateOutcome : Type 0 where
  inserted already_present : AcceptUpdateOutcome

pub data UpdateErrorCode : Type 0 where
  malformed identifier_conflict not_found not_negotiated : UpdateErrorCode
  invalid_cursor counter_exhausted authorization_denied backpressure : UpdateErrorCode
  invalid_loro_metadata invalid_or_expired_continuation limit_exceeded : UpdateErrorCode
  retired_document : UpdateErrorCode

abbrev pub UpdateSubscriptionId : Type 0
UpdateSubscriptionId = Bytes

pub record SubscribeUpdatesRequest : Type 0 where
  pub authority : CapabilityAuthority
  pub document_id : DocumentId

pub record UpdateNotification : Type 0 where
  pub subscription_id : UpdateSubscriptionId
  pub update_id : UpdateId

pub data EnumerateStart : Type 0 where
  start_origin : EnumerateStart
  continue after_tail : Bytes → EnumerateStart

pub record EnumerateRequest : Type 0 where
  pub authority : CapabilityAuthority
  pub document_id : DocumentId
  pub start : EnumerateStart

pub record FetchRequest : Type 0 where
  pub authority : CapabilityAuthority
  pub document_id : DocumentId
  pub update_id : UpdateId

pub data UpdateCodecError : Type 0 where
  truncated trailing_bytes invalid_record_magic unsupported_record_version : UpdateCodecError
  unsupported_loro_profile invalid_loro_metadata record_too_long : UpdateCodecError
  metadata_too_long empty_encrypted_payload invalid_discriminant : UpdateCodecError
  invalid_cursor integer_out_of_range unsupported_subscription_version : UpdateCodecError

unfoldable pub take_array : ℕ → Decoding UpdateCodecError Bytes
take_array n = Decoder.take UpdateCodecError.truncated n

unfoldable pub take_authority : Decoding UpdateCodecError CapabilityAuthority
take_authority = do
  capability_id ← take_array identifier_length
  authenticator ← take_array secret_length
  pure (record { capability_id = capability_id; authenticator = authenticator })
