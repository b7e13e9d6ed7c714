-- ===== src/Wire/Update/Subscriptions/RoundTrip.antt =====
-- Subscription messages of crates/renee-wire/src/update.rs, encoded and then decoded.
use renee.Prelude.{◌≡◌, ◌++◌, append_assoc, ok, arith}
use renee.Bytes.{Bytes, to_be}
use renee.Types.{IsArray, identifier_length, secret_length}
use renee.Wire.Decoder.Reads.{take-append_ok, take_ok, take_word_ok, complete_ok}
use renee.Wire.Capability.{CapabilityAuthority, IsAuthority, encode_authority}
use renee.Wire.Update.{
  truncated, trailing_bytes, SubscribeUpdatesRequest, UpdateNotification, UpdateSubscriptionId,
  take_array, take_authority,
}
use renee.Wire.Update.Subscriptions.{
  take_subscription_version, take_subscribe_updates_request, encode_subscribe_updates_request,
  decode_subscribe_updates_request, take_update_notification, encode_update_notification,
  decode_update_notification, take_subscription_identity, encode_subscription_identity,
  decode_subscription_identity,
}

pub take_authority_ok :
    (a : CapabilityAuthority) (rest : Bytes)
    → IsAuthority a
    → take_authority (encode_authority a ++ rest) ≡ ok (a, rest)
unfolding take_authority encode_authority take_array
take_authority_ok a rest h = rw append_assoc (
    cc (
      take-append_ok truncated identifier_length a.capability_id (a.authenticator ++ rest) h.0.0,
      take-append_ok truncated secret_length a.authenticator rest h.1.0,
    ))

take_version_ok : (rest : Bytes) → take_subscription_version (to_be 2 1 ++ rest) ≡ ok (tt, rest)
unfolding take_subscription_version
take_version_ok rest = cc (take_word_ok truncated 2 1 rest (omega arith))

-- A subscribe request with an identifier and an authority of their lengths is decoded as it was.
decode-encode_subscribe_updates_request :
    (r : SubscribeUpdatesRequest)
    → IsAuthority r.authority
    → IsArray identifier_length r.document_id
    → decode_subscribe_updates_request (encode_subscribe_updates_request r) ≡ ok r
unfolding decode_subscribe_updates_request encode_subscribe_updates_request take_array
decode-encode_subscribe_updates_request r a d =
    complete_ok trailing_bytes take_subscribe_updates_request _ (
      cc (
        take_version_ok (encode_authority r.authority ++ r.document_id),
        take_authority_ok r.authority r.document_id a,
        take_ok truncated identifier_length r.document_id d.0,
      ))

-- A notification whose two identifiers have their lengths is decoded as it was.
decode-encode_update_notification :
    (n : UpdateNotification)
    → IsArray identifier_length n.subscription_id
    → IsArray identifier_length n.update_id
    → decode_update_notification (encode_update_notification n) ≡ ok n
unfolding decode_update_notification encode_update_notification take_array
decode-encode_update_notification n s u = complete_ok trailing_bytes take_update_notification _ (
    cc (
      take_version_ok (n.subscription_id ++ n.update_id),
      take-append_ok truncated identifier_length n.subscription_id n.update_id s.0,
      take_ok truncated identifier_length n.update_id u.0,
    ))

-- A subscription identity is decoded as it was.
decode-encode_subscription_identity :
    (id : UpdateSubscriptionId)
    → IsArray identifier_length id
    → decode_subscription_identity (encode_subscription_identity id) ≡ ok id
unfolding decode_subscription_identity encode_subscription_identity take_array
decode-encode_subscription_identity id h =
    complete_ok trailing_bytes take_subscription_identity _
      (cc (take_version_ok id, take_ok truncated identifier_length id h.0))
