-- ===== src/Wire/Update/Records.antt =====
-- crates/renee-wire/src/update.rs: the record of one immutable update, written and read. A length in
-- memory is below 2^63 there, so that no `checked_add` or `checked_mul` of these sums fails.
pub mod RoundTrip
pub mod Canonical
use renee.Prelude.{
  ℕ, zero, suc, ◌+◌, ◌*◌, ◌^◌, ◌++◌, Bool, not, ◌||◌, ltb, ◌==◌, if◌then◌else◌, length, List, [],
  ◌∷◌, Result, ok, err, map_err,
}
use renee.Bytes.{Bytes, to_be, bytes_eq}
use renee.Texts.{ascii}
use renee.Types.{identifier_length}
use renee.Types.LoroRange.{LoroRange, max_loro_peers}
use renee.Types.LoroRange
use renee.Types.PublicLoroRanges.{PublicLoroRanges}
use renee.Types.PublicLoroRanges
use renee.Types.ImmutableUpdate.{ImmutableUpdate, UpdateMetadata}
use renee.Wire.Limits.{max_update_record_length}
use renee.Wire.Decoder
use renee.Wire.Decoder.{Decoding, pure, lift, check, ◌>>=◌, ◌>>◌}
use renee.Wire.Update.{
  UpdateCodecError, truncated, trailing_bytes, invalid_record_magic, unsupported_record_version,
  unsupported_loro_profile, invalid_loro_metadata, record_too_long, metadata_too_long,
  empty_encrypted_payload, integer_out_of_range, range_length, record_fixed_length,
  max_enumerable_metadata_length, take_array,
}

abbrev pub record_magic : Bytes
record_magic = ascii "CARBREC" ++ (0 ∷ [])

abbrev pub encode_range : LoroRange → Bytes
encode_range r = to_be 8 r.peer_id ++ (to_be 4 r.start_counter ++ to_be 4 r.end_counter)

-- `append_ranges`.
unfoldable pub encode_ranges : List LoroRange → Bytes
encode_ranges [] = []
encode_ranges (r ∷ rs) = encode_range r ++ encode_ranges rs

unfoldable pub take_range : Decoding UpdateCodecError LoroRange
take_range = do
  peer_id ← Decoder.take_word truncated 8
  start_counter ← Decoder.take_word truncated 4
  end_counter ← Decoder.take_word truncated 4
  r ← lift (map_err (λ _. invalid_loro_metadata) (LoroRange.new peer_id start_counter end_counter))
  pure r

-- The loop over `0..range_count`.
unfoldable pub take_ranges : ℕ → Decoding UpdateCodecError (List LoroRange)
take_ranges zero = pure []
take_ranges (suc n) = do r ← take_range; rs ← take_ranges n; pure (r ∷ rs)

unfoldable pub metadata_encoded_length : UpdateMetadata → ℕ
metadata_encoded_length m =
    identifier_length + 2 + length m.public_loro_ranges.ranges * range_length + 4

unfoldable pub ensure_metadata_is_enumerable : ImmutableUpdate → Result UpdateCodecError (Unit {0})
ensure_metadata_is_enumerable u =
    if not (ltb (length u.encrypted_payload) (2 ^ 32))
    then err integer_out_of_range
    else if ltb max_enumerable_metadata_length (
        metadata_encoded_length (record {
          encrypted_payload_length = length u.encrypted_payload;
          public_loro_ranges = u.public_loro_ranges;
          update_id = u.update_id;
        }))
    then err metadata_too_long
    else ok tt

unfoldable pub take_update_record : Decoding UpdateCodecError ImmutableUpdate
take_update_record = do
  magic ← take_array 8
  check (bytes_eq magic record_magic) invalid_record_magic
  version ← Decoder.take_word truncated 2
  check (version == 1) unsupported_record_version
  profile ← Decoder.take_word truncated 2
  check (profile == 1) unsupported_loro_profile
  document_id ← take_array identifier_length
  update_id ← take_array identifier_length
  range_count ← Decoder.take_word truncated 2
  check (not (range_count == 0 || ltb max_loro_peers range_count)) invalid_loro_metadata
  ranges ← take_ranges range_count
  public_loro_ranges ← lift (map_err (λ _. invalid_loro_metadata) (PublicLoroRanges.new ranges))
  payload_length ← Decoder.take_word truncated 4
  check (not (payload_length == 0)) empty_encrypted_payload
  encrypted_payload ← take_array payload_length
  pure (record {
    document_id = document_id;
    encrypted_payload = encrypted_payload;
    public_loro_ranges = public_loro_ranges;
    update_id = update_id;
  })

abbrev ensured : Result UpdateCodecError ImmutableUpdate → Result UpdateCodecError ImmutableUpdate
ensured (err e) = err e
ensured (ok u) = elim (ensure_metadata_is_enumerable u) [ err e ↦ err e | ok _ ↦ ok u ]

unfoldable pub decode_update_record : Bytes → Result UpdateCodecError ImmutableUpdate
decode_update_record encoded =
    if ltb max_update_record_length (length encoded)
    then err record_too_long
    else ensured (Decoder.complete trailing_bytes take_update_record encoded)

unfoldable pub record_bytes : ImmutableUpdate → Bytes
record_bytes u =
    record_magic
    ++ (to_be 2 1
        ++ (to_be 2 1
            ++ (u.document_id
                ++ (u.update_id
                    ++ (to_be 2 (length u.public_loro_ranges.ranges)
                        ++ (encode_ranges u.public_loro_ranges.ranges
                            ++ (to_be 4 (length u.encrypted_payload) ++ u.encrypted_payload)))))))

unfoldable pub encode_update_record : ImmutableUpdate → Result UpdateCodecError Bytes
encode_update_record u = elim (ensure_metadata_is_enumerable u) [
  | err e ↦ err e
  | ok _ ↦
      if not (ltb (length u.public_loro_ranges.ranges) (2 ^ 16))
        || not (ltb (length u.encrypted_payload) (2 ^ 32))
      then err integer_out_of_range
      else if length u.encrypted_payload == 0
      then err empty_encrypted_payload
      else if ltb max_update_record_length (
          record_fixed_length
          + length u.public_loro_ranges.ranges * range_length
          + length u.encrypted_payload)
      then err record_too_long
      else ok (record_bytes u)
]
