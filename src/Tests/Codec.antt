-- ===== src/Tests/Codec.antt =====
-- The codecs at concrete messages.
use renee.Prelude.{
  ℕ, ◌+◌, ◌≡◌, ◌≢◌, ◌≤◌, ◌<◌, ◌++◌, refl, some, [], ◌∷◌, ok, arith, length, replicate,
  length-replicate, &&-true, ◌&&◌, Bool, true, ltb, ltb→lt, zero, suc,
}
use renee.Bytes.{Bytes, IsBytes, to_be, to_le, from_be, from_le, bytes_eq}
use renee.Wire.Decoder
use renee.Wire.Slices.{get_range}
use renee.Types.{IsArray, identifier_length, secret_length}
use renee.Types.LoroRange.{LoroRange, operation_count, max_update_operations}
use renee.Types.LoroRange
use renee.Types.PublicLoroRanges.{PublicLoroRanges, check_ranges, out_of_order, checked_add}
use renee.Types.PublicLoroRanges
use renee.Types.PublicLoroRanges.Canonical.{total_operations}
use renee.Types.ImmutableUpdate.{ImmutableUpdate}
use renee.Wire.Envelope.{Envelope, encode_body, decode_body, copy_array}
use renee.Wire.Envelope.RoundTrip.{IsEnvelope, body_canonical}
use renee.Wire.Frame.{write_body, read_body}
use renee.Wire.Frame.Stream.{read_body-write_body}
use renee.Wire.Greeting.{is_utf8}
use renee.Wire.Capability.{
  CapabilityAuthority, CreateDocumentRequest, AuthorizedUpdateRequest, GrantCapabilityRequest,
  IsAuthority, encode_authority,
}
use renee.Wire.Capability.Requests.{encode_grant_capability_request}
use renee.Wire.Capability.Requests.RoundTrip.{
  IsGrantCapabilityRequest, decode-encode_grant_capability_request,
}
use renee.Wire.Capability.Requests.Canonical.{grant_capability_canonical}
use renee.Wire.Update.{EnumerateRequest, continue, take_array}
use renee.Wire.Update.Records.{
  encode_update_record, decode_update_record, record_bytes, take_update_record, encode_ranges,
  take_range, take_ranges, ensure_metadata_is_enumerable, metadata_encoded_length,
}
use renee.Wire.Update.Records.RoundTrip.{IsUpdate, decode-encode_update_record}
use renee.Wire.Update.Records.Canonical.{encode-decode_update_record}

replicate-IsBytes : (n b : ℕ) → b < 256 → IsBytes (replicate n b)
replicate-IsBytes zero b h = tt
replicate-IsBytes (suc n) b h = (h, replicate-IsBytes n b h)

array : (n b : ℕ) → b < 256 → IsArray n (replicate n b)
array n b h = (length-replicate n b, replicate-IsBytes n b h)

all_bytes : Bytes → Bool
all_bytes [] = true
all_bytes (b ∷ bs) = ltb b 256 && all_bytes bs

all_bytes-IsBytes : (bs : Bytes) → all_bytes bs ≡ true → IsBytes bs
unfolding all_bytes
all_bytes-IsBytes [] h = tt
all_bytes-IsBytes (b ∷ bs) h =
    let (one, rest) = &&-true (ltb b 256) (all_bytes bs) h in
    (ltb→lt b 256 one, all_bytes-IsBytes bs rest)

abbrev identifier : ℕ → Bytes
identifier b = replicate identifier_length b

abbrev secret : ℕ → Bytes
secret b = replicate secret_length b

abbrev authority : CapabilityAuthority
authority = record { capability_id = identifier 1; authenticator = secret 2 }

authority-IsAuthority : IsAuthority authority
authority-IsAuthority =
    (array identifier_length 1 (omega arith), array secret_length 2 (omega arith))

abbrev envelope : Envelope
envelope = record {
  correlation_id = identifier 3;
  message_type = 10;
  payload = 1 ∷ 2 ∷ [];
  version = 0;
}

envelope-IsEnvelope : IsEnvelope envelope
envelope-IsEnvelope = record {
  correlation_id = array 16 3 (omega arith);
  message_type = omega arith;
  payload = (omega arith, (omega arith, tt));
  version = omega arith;
}

abbrev body : Bytes
body = b'R' ∷ b'N' ∷ b'E' ∷ b'0' ∷ 0 ∷ 0 ∷ 0 ∷ 10 ∷ (identifier 3 ++ (1 ∷ 2 ∷ []))

body-IsBytes : IsBytes body
unfolding all_bytes
body-IsBytes = all_bytes-IsBytes body refl

body_decoded : decode_body body ≡ ok envelope
unfolding decode_body copy_array get_range from_be from_le bytes_eq
body_decoded = refl

body_canonical_example : (encode_body envelope ≡ ok body) × IsEnvelope envelope
body_canonical_example = body_canonical body envelope body-IsBytes body_decoded

read_body-write_body_example :
    (frame : Bytes) × (write_body (1 ∷ 2 ∷ []) ≡ ok frame)
    × (length frame ≡ 2 + 4)
    × (read_body (frame ++ (9 ∷ [])) ≡ ok (some (1 ∷ 2 ∷ []), 9 ∷ []))
read_body-write_body_example = read_body-write_body (1 ∷ 2 ∷ []) (9 ∷ []) (omega arith)

is_utf8_text : is_utf8 (b'v' ∷ b'0' ∷ []) ≡ true
unfolding is_utf8
is_utf8_text = refl

abbrev create_request : CreateDocumentRequest
create_request = record {
  create_authority = record { create_authority_id = identifier 1; authenticator = secret 2 };
  request_id = identifier 3;
  document_id = identifier 4;
  root = authority;
}

abbrev grant_request : GrantCapabilityRequest
grant_request = record {
  document_id = identifier 4;
  issuer = authority;
  request_id = identifier 3;
  descendant = authority;
  operations = record { bits = 3 };
}

grant_request-IsGrant : IsGrantCapabilityRequest grant_request
grant_request-IsGrant = record {
  document_id = array identifier_length 4 (omega arith);
  issuer = authority-IsAuthority;
  request_id = array identifier_length 3 (omega arith);
  descendant = authority-IsAuthority;
  operations = omega arith;
  nonempty = λ e. omega arith;
}

encoded-IsBytes : IsBytes (encode_grant_capability_request grant_request)
unfolding all_bytes encode_grant_capability_request encode_authority to_be to_le
encoded-IsBytes = all_bytes-IsBytes (encode_grant_capability_request grant_request) refl

grant_capability_canonical_example :
    (encode_grant_capability_request grant_request ≡ encode_grant_capability_request grant_request)
    × IsGrantCapabilityRequest grant_request
grant_capability_canonical_example =
    grant_capability_canonical (encode_grant_capability_request grant_request) grant_request
      encoded-IsBytes (decode-encode_grant_capability_request grant_request grant_request-IsGrant)

abbrev update_request : AuthorizedUpdateRequest
update_request = record { authority = authority; encoded_record = 1 ∷ [] }

abbrev pub ranges : PublicLoroRanges
ranges = record { ranges = (record { end_counter = 2; peer_id = 5; start_counter = 0 }) ∷ [] }

abbrev pub update : ImmutableUpdate
update = record {
  document_id = identifier 4;
  encrypted_payload = 7 ∷ 8 ∷ [];
  public_loro_ranges = ranges;
  update_id = identifier 6;
}

two_operations : total_operations ranges.ranges ≤ max_update_operations
unfolding operation_count
two_operations = omega arith

pub update-IsUpdate : IsUpdate update
update-IsUpdate = record {
  document_id = array identifier_length 4 (omega arith);
  update_id = array identifier_length 6 (omega arith);
  ranges = record {
    nonempty = λ e. ground arith;
    few = omega arith;
    ascending = (tt, tt);
    bounded = two_operations;
  };
  valid = (
    record {
      nonempty = omega arith;
      in_range = omega arith;
      bounded = omega arith;
      peer_fits = omega arith;
    },
    tt,
  );
  payload = (omega arith, (omega arith, tt));
}

decode-encode_update_record_example :
    (bs : Bytes) × (encode_update_record update ≡ ok bs) × (decode_update_record bs ≡ ok update)
decode-encode_update_record_example =
    decode-encode_update_record update update-IsUpdate (λ e. omega arith) (omega arith)

record_bytes-IsBytes : IsBytes (record_bytes update)
unfolding all_bytes record_bytes encode_ranges to_be to_le
record_bytes-IsBytes = all_bytes-IsBytes (record_bytes update) refl

pub record_decoded : decode_update_record (record_bytes update) ≡ ok update
unfolding decode_update_record take_update_record take_array Decoder.take Decoder.take_word
    Decoder.complete Decoder.finish from_be from_le to_be to_le record_bytes encode_ranges
    take_range take_ranges LoroRange.new operation_count PublicLoroRanges.new check_ranges
    out_of_order checked_add bytes_eq ensure_metadata_is_enumerable metadata_encoded_length
record_decoded = refl

encode-decode_update_record_example :
    (encode_update_record update ≡ ok (record_bytes update))
    × IsUpdate update
    × (length update.encrypted_payload ≢ 0)
encode-decode_update_record_example =
    encode-decode_update_record (record_bytes update) update record_bytes-IsBytes record_decoded

abbrev page_request : EnumerateRequest
page_request = record {
  authority = authority;
  document_id = identifier 4;
  start = continue (replicate 32 7);
}
