-- ===== src/Wire/Update/Subscriptions.antt =====
-- crates/renee-wire/src/update.rs: the payloads of the subscription messages, each with the version of
-- its schema in front.
pub mod RoundTrip
use renee.Prelude.{ℕ, ◌++◌, Bool, ◌||◌, ◌==◌, Result}
use renee.Bytes.{Bytes, to_be}
use renee.Types.{identifier_length}
use renee.Wire.Decoder
use renee.Wire.Decoder.{Decoding, pure, check, ◌>>=◌, ◌>>◌}
use renee.Wire.Capability.{encode_authority}
use renee.Wire.Update.{
  UpdateCodecError, truncated, trailing_bytes, unsupported_subscription_version,
  SubscribeUpdatesRequest, UpdateNotification, UpdateSubscriptionId, take_array, take_authority,
}

abbrev pub subscription_payload_version : ℕ
subscription_payload_version = 1

unfoldable pub take_subscription_version : Decoding UpdateCodecError (Unit {0})
take_subscription_version = do
  version ← Decoder.take_word truncated 2
  check (version == subscription_payload_version) unsupported_subscription_version
  pure tt

unfoldable pub encode_subscribe_updates_request : SubscribeUpdatesRequest → Bytes
encode_subscribe_updates_request r =
    to_be 2 subscription_payload_version ++ (encode_authority r.authority ++ r.document_id)

take_subscribe_updates_request : Decoding UpdateCodecError SubscribeUpdatesRequest
take_subscribe_updates_request = do
  take_subscription_version
  authority ← take_authority
  document_id ← take_array identifier_length
  pure (record { authority = authority; document_id = document_id })

unfoldable pub decode_subscribe_updates_request :
    Bytes → Result UpdateCodecError SubscribeUpdatesRequest
unfolding take_subscribe_updates_request
decode_subscribe_updates_request payload =
    Decoder.complete trailing_bytes take_subscribe_updates_request payload

unfoldable pub encode_update_notification : UpdateNotification → Bytes
encode_update_notification n =
    to_be 2 subscription_payload_version ++ (n.subscription_id ++ n.update_id)

take_update_notification : Decoding UpdateCodecError UpdateNotification
take_update_notification = do
  take_subscription_version
  subscription_id ← take_array identifier_length
  update_id ← take_array identifier_length
  pure (record { subscription_id = subscription_id; update_id = update_id })

unfoldable pub decode_update_notification : Bytes → Result UpdateCodecError UpdateNotification
unfolding take_update_notification
decode_update_notification payload =
    Decoder.complete trailing_bytes take_update_notification payload

unfoldable pub encode_subscription_identity : UpdateSubscriptionId → Bytes
encode_subscription_identity id = to_be 2 subscription_payload_version ++ id

take_subscription_identity : Decoding UpdateCodecError UpdateSubscriptionId
take_subscription_identity = do
  take_subscription_version
  subscription_id ← take_array identifier_length
  pure subscription_id

-- It reads an acknowledgement, an overflow, an invalidation and a cancellation alike.
unfoldable pub decode_subscription_identity : Bytes → Result UpdateCodecError UpdateSubscriptionId
unfolding take_subscription_identity
decode_subscription_identity payload =
    Decoder.complete trailing_bytes take_subscription_identity payload

unfoldable pub is_update_subscription_event : ℕ → Bool
is_update_subscription_event message_type =
    message_type == 19 || message_type == 20 || message_type == 23
