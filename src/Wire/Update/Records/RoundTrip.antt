-- ===== src/Wire/Update/Records/RoundTrip.antt =====
-- Update records of crates/renee-wire/src/update.rs, encoded and then decoded.
use renee.Prelude.{
  ◌+◌, ◌*◌, ◌≤◌, ◌≡◌, ◌≢◌, refl, true, false, not, ◌||◌, ltb, ◌==◌, length, length-append, List, [],
  ◌∷◌, ◌++◌, append_assoc, All, ok, arith,
}
use renee.Bytes.{Bytes, IsBytes, to_be}
use renee.Bytes.Words.{bytes_eq_refl, length-to_be}
use renee.Types.{IsArray, identifier_length}
use renee.Types.LoroRange.{LoroRange, max_loro_peers, new_of_IsValid}
use renee.Types.LoroRange
use renee.Types.PublicLoroRanges.Canonical.{new-IsCanonical_iff}
use renee.Types.PublicLoroRanges.Canonical
use renee.Types.ImmutableUpdate.{ImmutableUpdate}
use renee.Wire.Limits.{max_update_record_length}
use renee.Wire.Decoder.Reads.{take-append_ok, take_ok, take_word_ok, complete_ok}
use renee.Wire.Update.{truncated, trailing_bytes, record_fixed_length, range_length, take_array}
use renee.Wire.Update.Records.{
  record_magic, encode_range, encode_ranges, take_range, take_ranges, take_update_record,
  ensure_metadata_is_enumerable, metadata_encoded_length, record_bytes, encode_update_record,
  decode_update_record,
}

take_range_ok :
    (r : LoroRange) (rest : Bytes)
    → LoroRange.IsValid r
    → take_range (encode_range r ++ rest) ≡ ok (r, rest)
unfolding take_range
take_range_ok r rest v =
    let tail = to_be 4 r.end_counter ++ rest in
    rw append_assoc (
      rw append_assoc (
        cc (
          take_word_ok truncated 8 r.peer_id (to_be 4 r.start_counter ++ tail)
              (omega (arith, v.peer_fits)),
          take_word_ok truncated 4 r.start_counter tail (omega (arith, v.nonempty, v.in_range)),
          take_word_ok truncated 4 r.end_counter rest (omega (arith, v.in_range)),
          new_of_IsValid r v,
        )))

pub take_ranges_ok :
    (rs : List LoroRange) (rest : Bytes)
    → All LoroRange.IsValid rs
    → take_ranges (length rs) (encode_ranges rs ++ rest) ≡ ok (rs, rest)
unfolding take_ranges encode_ranges
take_ranges_ok [] rest v = refl
take_ranges_ok (r ∷ rs) rest v =
    rw (append_assoc (encode_range r) (encode_ranges rs) rest)
      (cc (take_range_ok r (encode_ranges rs ++ rest) v.0, take_ranges_ok rs rest v.1))

length-encode_ranges : (rs : List LoroRange) → length (encode_ranges rs) ≡ length rs * range_length
unfolding encode_ranges
length-encode_ranges [] = refl
length-encode_ranges (r ∷ rs) = omega (
  arith,
  length-append (encode_range r) (encode_ranges rs),
  length-append (to_be 8 r.peer_id) (to_be 4 r.start_counter ++ to_be 4 r.end_counter),
  length-append (to_be 4 r.start_counter) (to_be 4 r.end_counter),
  length-to_be 8 r.peer_id,
  length-to_be 4 r.start_counter,
  length-to_be 4 r.end_counter,
  length-encode_ranges rs,
)

pub canonical_count :
    (rs : List LoroRange)
    → Canonical.IsCanonical rs
    → (not (length rs == 0 || ltb max_loro_peers (length rs))) ≡ true
canonical_count [] c = absurd (c.nonempty refl)
canonical_count (r ∷ rs) c = ground (arith, c.few)

-- What the types of an update's fields promise: the ranges are those that their constructors accept.
pub record IsUpdate (u : ImmutableUpdate) : Type 0 where
  pub document_id : IsArray identifier_length u.document_id
  pub update_id : IsArray identifier_length u.update_id
  pub ranges : Canonical.IsCanonical u.public_loro_ranges.ranges
  pub valid : All LoroRange.IsValid u.public_loro_ranges.ranges
  pub payload : IsBytes u.encrypted_payload

-- The length of a record, which the source calls `encoded_length`.
pub length-record_bytes :
    (u : ImmutableUpdate)
    → IsUpdate u
    → length (record_bytes u)
      ≡ record_fixed_length
        + length u.public_loro_ranges.ranges * range_length
        + length u.encrypted_payload
unfolding record_bytes
length-record_bytes u v =
    let rs = u.public_loro_ranges.ranges in
    let p = to_be 4 (length u.encrypted_payload) ++ u.encrypted_payload in
    let counted = to_be 2 (length rs) ++ (encode_ranges rs ++ p) in
    omega (
      arith,
      length-append record_magic
          (to_be 2 1 ++ (to_be 2 1 ++ (u.document_id ++ (u.update_id ++ counted)))),
      length-append (to_be 2 1) (to_be 2 1 ++ (u.document_id ++ (u.update_id ++ counted))),
      length-append (to_be 2 1) (u.document_id ++ (u.update_id ++ counted)),
      length-append u.document_id (u.update_id ++ counted),
      length-append u.update_id counted,
      length-append (to_be 2 (length rs)) (encode_ranges rs ++ p),
      length-append (encode_ranges rs) p,
      length-append (to_be 4 (length u.encrypted_payload)) u.encrypted_payload,
      length-to_be 2 1,
      length-to_be 2 (length rs),
      length-to_be 4 (length u.encrypted_payload),
      length-encode_ranges rs,
      v.document_id.0,
      v.update_id.0,
    )

module _ (u : ImmutableUpdate) (v : IsUpdate u) (nonempty : length u.encrypted_payload ≢ 0)
    (fits : record_fixed_length
        + length u.public_loro_ranges.ranges * range_length
        + length u.encrypted_payload
      ≤ max_update_record_length) where
  count_ok :
      (not (
        length u.public_loro_ranges.ranges == 0
        || ltb max_loro_peers (length u.public_loro_ranges.ranges)))
      ≡ true
  count_ok = canonical_count u.public_loro_ranges.ranges v.ranges

  taken : take_update_record (record_bytes u) ≡ ok (u, [])
  unfolding take_update_record record_bytes take_array
  taken =
      let rs = u.public_loro_ranges.ranges in
      let counted =
        to_be 2 (length rs)
        ++ (encode_ranges rs ++ (to_be 4 (length u.encrypted_payload) ++ u.encrypted_payload)) in
      let named = u.document_id ++ (u.update_id ++ counted) in
      let pay : (not (length u.encrypted_payload == 0)) ≡ true = ground arith in
      cc (
        take-append_ok truncated 8 record_magic (to_be 2 1 ++ (to_be 2 1 ++ named)) refl,
        bytes_eq_refl record_magic,
        take_word_ok truncated 2 1 (to_be 2 1 ++ named) (omega arith),
        take_word_ok truncated 2 1 named (omega arith),
        take-append_ok truncated identifier_length u.document_id (u.update_id ++ counted)
            v.document_id.0,
        take-append_ok truncated identifier_length u.update_id counted v.update_id.0,
        take_word_ok truncated 2 (length rs)
            (encode_ranges rs ++ (to_be 4 (length u.encrypted_payload) ++ u.encrypted_payload))
            (omega (arith, v.ranges.few)),
        count_ok,
        take_ranges_ok rs (to_be 4 (length u.encrypted_payload) ++ u.encrypted_payload) v.valid,
        (new-IsCanonical_iff rs u.public_loro_ranges).1 (refl, v.ranges),
        take_word_ok truncated 4 (length u.encrypted_payload) u.encrypted_payload
            (omega (arith, fits)),
        pay,
        take_ok truncated (length u.encrypted_payload) u.encrypted_payload refl,
      )

  -- An update within the limit of 4,024 bytes is enumerable.
  enumerable : ensure_metadata_is_enumerable u ≡ ok tt
  unfolding ensure_metadata_is_enumerable metadata_encoded_length
  enumerable = ground arith

  pub encodes : encode_update_record u ≡ ok (record_bytes u)
  unfolding encode_update_record
  encodes = let few = v.ranges.few in ground (arith, enumerable)

  -- An update whose fields hold what their types promise, with a payload, and with a record of at
  -- most 4,024 bytes, is encoded, and its record is decoded as the update was.
  pub decode-encode_update_record :
      (bs : Bytes) × (encode_update_record u ≡ ok bs) × (decode_update_record bs ≡ ok u)
  unfolding decode_update_record
  decode-encode_update_record = (
    record_bytes u,
    encodes,
    (let short : ltb max_update_record_length (length (record_bytes u)) ≡ false =
          ground (arith, length-record_bytes u v) in
        cc (
          short,
          complete_ok trailing_bytes take_update_record (record_bytes u) taken,
          enumerable,
        )),
  )
