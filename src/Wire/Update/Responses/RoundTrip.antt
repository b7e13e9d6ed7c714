-- ===== src/Wire/Update/Responses/RoundTrip.antt =====
-- The pages of crates/renee-wire/src/update.rs, encoded and then decoded.
use renee.Prelude.{
  ℕ, ◌<◌, ◌≡◌, refl, sym, inl, inr, Bool, true, false, not, ltb, ◌==◌, length, List, [], ◌∷◌, ◌++◌,
  All, Option, none, some, ok, arith, Result-cases, ◌^◌, if◌then◌else◌,
}
use renee.Bytes.{Bytes, to_be}
use renee.Types.{IsArray, identifier_length}
use renee.Types.LoroRange
use renee.Types.PublicLoroRanges.Canonical.{new-IsCanonical_iff}
use renee.Types.PublicLoroRanges.Canonical
use renee.Types.ImmutableUpdate.{UpdateMetadata}
use renee.Wire.Limits.{max_application_payload_length}
use renee.Wire.Decoder.Reads.{take-append_ok, take_word_ok, complete_ok}
use renee.Wire.Update.{truncated, trailing_bytes, take_array, enumeration_continuation_length}
use renee.Wire.Update.Records.{encode_ranges}
use renee.Wire.Update.Records.RoundTrip.{take_ranges_ok, canonical_count}
use renee.Wire.Update.Requests.{cursor_length, cursor_bytes}
use renee.Wire.Update.Requests.RoundTrip.{take_byte_ok}
use renee.Wire.Update.Pages.{
  EnumerateResponse, VectorBackfillResponse, encode_metadata, encode_page, checked_vector_cursor,
  vector_cursor_length, is_some, eq_bool,
}
use renee.Wire.Update.Responses.{
  take_metadata, take_updates, take_flag, take_cursor, contradicts_updates, take_enumerate_response,
  encode_enumerate_response, decode_enumerate_response, take_vector_backfill_response,
  encode_vector_backfill_response, decode_vector_backfill_response,
}

-- What the types of an entry's fields promise.
pub record IsMetadata (m : UpdateMetadata) : Type 0 where
  pub update_id : IsArray identifier_length m.update_id
  pub ranges : Canonical.IsCanonical m.public_loro_ranges.ranges
  pub valid : All LoroRange.IsValid m.public_loro_ranges.ranges
  pub payload : m.encrypted_payload_length < 2 ^ 32

abbrev pub metadata_bytes : UpdateMetadata → Bytes → Bytes
metadata_bytes m rest =
    let rs = m.public_loro_ranges.ranges in
    m.update_id
    ++ (to_be 2 (length rs) ++ (encode_ranges rs ++ (to_be 4 m.encrypted_payload_length ++ rest)))

take_metadata_ok :
    (m : UpdateMetadata) (rest : Bytes)
    → IsMetadata m
    → take_metadata (metadata_bytes m rest) ≡ ok (m, rest)
unfolding take_metadata take_array
take_metadata_ok m rest v =
    let rs = m.public_loro_ranges.ranges in
    let sized = to_be 4 m.encrypted_payload_length ++ rest in
    cc (
      take-append_ok truncated identifier_length m.update_id
          (to_be 2 (length rs) ++ (encode_ranges rs ++ sized)) v.update_id.0,
      take_word_ok truncated 2 (length rs) (encode_ranges rs ++ sized)
          (omega (arith, v.ranges.few)),
      canonical_count rs v.ranges,
      take_ranges_ok rs sized v.valid,
      (new-IsCanonical_iff rs m.public_loro_ranges).1 (refl, v.ranges),
      take_word_ok truncated 4 m.encrypted_payload_length rest (omega (arith, v.payload)),
    )

encode_metadata_suc :
    (m : UpdateMetadata) (ms : List UpdateMetadata) {bs : Bytes}
    → encode_metadata (m ∷ ms) ≡ ok bs
    → (rest : Bytes) × (encode_metadata ms ≡ ok rest) × (metadata_bytes m rest ≡ bs)
unfolding encode_metadata
encode_metadata_suc m ms h = elim (Result-cases (encode_metadata ms)) [
  | inl (rest, e) ↦ (rest, e, ground arith)
  | inr (x, e) ↦ ground arith
]

take_updates_ok :
    (ms : List UpdateMetadata) (bs : Bytes)
    → All IsMetadata ms
    → encode_metadata ms ≡ ok bs
    → take_updates (length ms) bs ≡ ok (ms, [])
unfolding take_updates encode_metadata
take_updates_ok [] bs v h = cc
take_updates_ok (m ∷ ms) bs v h =
    let (rest, e, shape) = encode_metadata_suc m ms h in
    rw (sym shape) (cc (take_metadata_ok m rest v.0, take_updates_ok ms rest v.1 e))

abbrev pub page_bytes : Bool → ℕ → Option Bytes → List UpdateMetadata → Bytes → Bytes
page_bytes has_more n next_cursor updates metadata =
    (if has_more then 1 else 0)
    ∷ (to_be 2 n ++ (cursor_bytes next_cursor ++ (to_be 2 (length updates) ++ metadata)))

encode_page_parts :
    (has_more : Bool) (n : ℕ) (c : Option Bytes) (ms : List UpdateMetadata) {bs : Bytes}
    → encode_page has_more n c ms ≡ ok bs
    → (metadata : Bytes) × (encode_metadata ms ≡ ok metadata)
      × (page_bytes has_more n c ms metadata ≡ bs)
      × (ltb max_application_payload_length (length bs) ≡ false)
unfolding encode_page
encode_page_parts has_more n c ms h = elim (Result-cases (encode_metadata ms)) [
  | inl (metadata, e) ↦ (metadata, e, ground arith, ground arith)
  | inr (x, e) ↦ ground arith
]

take_flag_ok :
    (has_more : Bool) (rest : Bytes)
    → take_flag (if has_more then 1 else 0) rest ≡ ok (has_more, rest)
unfolding take_flag
take_flag_ok true rest = refl
take_flag_ok false rest = refl

flag_small : (has_more : Bool) → (if has_more then 1 else 0) < 256
flag_small true = omega arith
flag_small false = omega arith

take_cursor_ok :
    (c : Option Bytes) (rest : Bytes) {n : ℕ}
    → cursor_length c ≡ ok n
    → (n < 256 ^ 2)
      × (take_cursor enumeration_continuation_length n (cursor_bytes c ++ rest) ≡ ok (c, rest))
unfolding cursor_length take_cursor take_array
take_cursor_ok none rest h = ground arith
take_cursor_ok (some c) rest h =
    let sized : length c ≡ 32 = ground arith in
    ground (arith, take-append_ok truncated 32 c rest sized)

encode_enumerate_parts :
    (r : EnumerateResponse) {bs : Bytes}
    → encode_enumerate_response r ≡ ok bs
    → (contradicts_updates r.has_more r.next_cursor (not (length r.updates == 0)) ≡ false)
      × (length r.updates < 2 ^ 16)
      × ((n : ℕ) × (cursor_length r.next_cursor ≡ ok n)
          × (encode_page r.has_more n r.next_cursor r.updates ≡ ok bs))
unfolding encode_enumerate_response
encode_enumerate_parts r h = elim (Result-cases (cursor_length r.next_cursor)) [
  | inl (n, e) ↦ ground arith
  | inr (x, e) ↦ ground arith
]

enumerate_taken :
    (r : EnumerateResponse) (n : ℕ) (metadata : Bytes)
    → All IsMetadata r.updates
    → contradicts_updates r.has_more r.next_cursor (not (length r.updates == 0)) ≡ false
    → length r.updates < 2 ^ 16
    → cursor_length r.next_cursor ≡ ok n
    → encode_metadata r.updates ≡ ok metadata
    → take_enumerate_response (page_bytes r.has_more n r.next_cursor r.updates metadata)
      ≡ ok (r, [])
unfolding take_enumerate_response
enumerate_taken r n metadata v consistent few sized e =
    let counted = to_be 2 (length r.updates) ++ metadata in
    let taken = take_cursor_ok r.next_cursor counted sized in
    cc (
      take_byte_ok (if r.has_more then 1 else 0)
          (to_be 2 n ++ (cursor_bytes r.next_cursor ++ counted)) (flag_small r.has_more),
      take_flag_ok r.has_more (to_be 2 n ++ (cursor_bytes r.next_cursor ++ counted)),
      take_word_ok truncated 2 n (cursor_bytes r.next_cursor ++ counted) taken.0,
      taken.1,
      take_word_ok truncated 2 (length r.updates) metadata (omega (arith, few)),
      consistent,
      take_updates_ok r.updates metadata v e,
    )

-- A page of an enumeration that is encoded, with the metadata of its updates as their types promise,
-- is decoded as the page was.
pub decode-encode_enumerate_response :
    (r : EnumerateResponse) (bs : Bytes)
    → All IsMetadata r.updates
    → encode_enumerate_response r ≡ ok bs
    → decode_enumerate_response bs ≡ ok r
unfolding decode_enumerate_response
decode-encode_enumerate_response r bs v h =
    let (consistent, few, (n, sized, page)) = encode_enumerate_parts r h in
    let (metadata, e, shape, short) = encode_page_parts r.has_more n r.next_cursor r.updates page in
    let taken : take_enumerate_response bs ≡ ok (r, []) =
      rw (sym shape) (enumerate_taken r n metadata v consistent few sized e) in
    cc (short, complete_ok trailing_bytes take_enumerate_response bs taken)

encode_vector_parts :
    (r : VectorBackfillResponse) {bs : Bytes}
    → encode_vector_backfill_response r ≡ ok bs
    → (eq_bool r.has_more (is_some r.next_cursor) ≡ true)
      × (length r.updates < 2 ^ 16)
      × ((n : ℕ) × (checked_vector_cursor r.next_cursor ≡ ok n)
          × (encode_page r.has_more n r.next_cursor r.updates ≡ ok bs))
unfolding encode_vector_backfill_response
encode_vector_parts r h = elim (Result-cases (checked_vector_cursor r.next_cursor)) [
  | inl (n, e) ↦ ground arith
  | inr (x, e) ↦ ground arith
]

take_vector_cursor_ok :
    (c : Option Bytes) (rest : Bytes) {n : ℕ}
    → checked_vector_cursor c ≡ ok n
    → (n < 256 ^ 2) × (take_cursor vector_cursor_length n (cursor_bytes c ++ rest) ≡ ok (c, rest))
unfolding checked_vector_cursor take_cursor take_array
take_vector_cursor_ok none rest h = ground arith
take_vector_cursor_ok (some c) rest h =
    let sized : length c ≡ 32 = ground arith in
    ground (arith, take-append_ok truncated 32 c rest sized)

vector_taken :
    (r : VectorBackfillResponse) (n : ℕ) (metadata : Bytes)
    → All IsMetadata r.updates
    → eq_bool r.has_more (is_some r.next_cursor) ≡ true
    → length r.updates < 2 ^ 16
    → checked_vector_cursor r.next_cursor ≡ ok n
    → encode_metadata r.updates ≡ ok metadata
    → take_vector_backfill_response (page_bytes r.has_more n r.next_cursor r.updates metadata)
      ≡ ok (r, [])
unfolding take_vector_backfill_response
vector_taken r n metadata v consistent few sized e =
    let counted = to_be 2 (length r.updates) ++ metadata in
    let taken = take_vector_cursor_ok r.next_cursor counted sized in
    cc (
      take_byte_ok (if r.has_more then 1 else 0)
          (to_be 2 n ++ (cursor_bytes r.next_cursor ++ counted)) (flag_small r.has_more),
      take_flag_ok r.has_more (to_be 2 n ++ (cursor_bytes r.next_cursor ++ counted)),
      take_word_ok truncated 2 n (cursor_bytes r.next_cursor ++ counted) taken.0,
      taken.1,
      take_word_ok truncated 2 (length r.updates) metadata (omega (arith, few)),
      consistent,
      take_updates_ok r.updates metadata v e,
    )

-- A page of a vector backfill that is encoded, with the metadata of its updates as their types
-- promise, is decoded as the page was.
decode-encode_vector_backfill_response :
    (r : VectorBackfillResponse) (bs : Bytes)
    → All IsMetadata r.updates
    → encode_vector_backfill_response r ≡ ok bs
    → decode_vector_backfill_response bs ≡ ok r
unfolding decode_vector_backfill_response
decode-encode_vector_backfill_response r bs v h =
    let (consistent, few, (n, sized, page)) = encode_vector_parts r h in
    let (metadata, e, shape, short) = encode_page_parts r.has_more n r.next_cursor r.updates page in
    let taken : take_vector_backfill_response bs ≡ ok (r, []) =
      rw (sym shape) (vector_taken r n metadata v consistent few sized e) in
    cc (short, complete_ok trailing_bytes take_vector_backfill_response bs taken)
