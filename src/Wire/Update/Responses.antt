-- ===== src/Wire/Update/Responses.antt =====
-- crates/renee-wire/src/update.rs: the codecs of the pages of an enumeration and of a vector backfill.
pub mod RoundTrip
use renee.Prelude.{
  ℕ, zero, suc, ◌^◌, Bool, true, false, not, ◌&&◌, ◌||◌, ◌==◌, ltb, if◌then◌else◌, length, Option,
  none, some, List, [], ◌∷◌, Result, ok, err, map_err,
}
use renee.Bytes.{Bytes}
use renee.Types.{identifier_length}
use renee.Types.LoroRange.{max_loro_peers}
use renee.Types.PublicLoroRanges
use renee.Types.ImmutableUpdate.{UpdateMetadata}
use renee.Wire.Decoder
use renee.Wire.Decoder.{Decoding, pure, lift, check, ◌>>=◌, ◌>>◌}
use renee.Wire.Update.{
  UpdateCodecError, truncated, invalid_discriminant, invalid_cursor, integer_out_of_range,
  invalid_loro_metadata, enumeration_continuation_length, take_array,
}
use renee.Wire.Update.Records.{take_ranges}
use renee.Wire.Update.Requests.{cursor_length}
use renee.Wire.Update.Pages.{
  EnumerateResponse, VectorBackfillResponse, vector_cursor_length, checked_vector_cursor, is_some,
  eq_bool, encode_page, decode_bounded,
}

-- The flags and the cursor that an enumeration page never has together.
unfoldable pub contradicts_updates : Bool → Option Bytes → Bool → Bool
contradicts_updates has_more next_cursor has_updates =
    has_more && not has_updates || not (eq_bool (is_some next_cursor) has_updates)

unfoldable pub encode_enumerate_response : EnumerateResponse → Result UpdateCodecError Bytes
unfolding cursor_length encode_page contradicts_updates
encode_enumerate_response r =
    if contradicts_updates r.has_more r.next_cursor (not (length r.updates == 0))
    then err invalid_cursor
    else if not (ltb (length r.updates) (2 ^ 16))
    then err integer_out_of_range
    else elim (cursor_length r.next_cursor) [
      | err e ↦ err e
      | ok n ↦ encode_page r.has_more n r.next_cursor r.updates
    ]

unfoldable pub encode_vector_backfill_response :
    VectorBackfillResponse → Result UpdateCodecError Bytes
unfolding checked_vector_cursor encode_page
encode_vector_backfill_response r =
    if not (eq_bool r.has_more (is_some r.next_cursor))
    then err invalid_cursor
    else if not (ltb (length r.updates) (2 ^ 16))
    then err integer_out_of_range
    else elim (checked_vector_cursor r.next_cursor) [
      | err e ↦ err e
      | ok n ↦ encode_page r.has_more n r.next_cursor r.updates
    ]

-- The `match` on the first byte.
unfoldable pub take_flag : ℕ → Decoding UpdateCodecError Bool
take_flag zero = pure false
take_flag (suc zero) = pure true
take_flag (suc (suc _)) = lift (err invalid_discriminant)

-- The `match` on the length of the cursor, whose allowed length is `allowed` if it is not zero.
unfoldable pub take_cursor : ℕ → ℕ → Decoding UpdateCodecError (Option Bytes)
take_cursor allowed zero = pure none
take_cursor allowed (suc n) =
    if suc n == allowed
    then (do cursor ← take_array (suc n); pure (some cursor))
    else lift (err invalid_cursor)

unfoldable pub take_metadata : Decoding UpdateCodecError UpdateMetadata
take_metadata = do
  update_id ← take_array identifier_length
  range_count ← Decoder.take_word truncated 2
  check (not (range_count == 0 || ltb max_loro_peers range_count)) invalid_loro_metadata
  ranges ← take_ranges range_count
  public_loro_ranges ← lift (map_err (λ _. invalid_loro_metadata) (PublicLoroRanges.new ranges))
  encrypted_payload_length ← Decoder.take_word truncated 4
  pure (record {
    encrypted_payload_length = encrypted_payload_length;
    public_loro_ranges = public_loro_ranges;
    update_id = update_id;
  })

-- The loop over the entries of a page.
unfoldable pub take_updates : ℕ → Decoding UpdateCodecError (List UpdateMetadata)
unfolding take_metadata
take_updates zero = pure []
take_updates (suc count) = do
  metadata ← take_metadata
  rest ← take_updates count
  pure (metadata ∷ rest)

unfoldable pub take_enumerate_response : Decoding UpdateCodecError EnumerateResponse
unfolding take_flag take_cursor contradicts_updates take_updates
take_enumerate_response = do
  flag ← Decoder.take_word truncated 1
  has_more ← take_flag flag
  n ← Decoder.take_word truncated 2
  next_cursor ← take_cursor enumeration_continuation_length n
  count ← Decoder.take_word truncated 2
  check (not (contradicts_updates has_more next_cursor (not (count == 0)))) invalid_cursor
  updates ← take_updates count
  pure (record { has_more = has_more; next_cursor = next_cursor; updates = updates })

unfoldable pub decode_enumerate_response : Bytes → Result UpdateCodecError EnumerateResponse
unfolding take_enumerate_response
decode_enumerate_response payload = decode_bounded take_enumerate_response payload

unfoldable pub take_vector_backfill_response : Decoding UpdateCodecError VectorBackfillResponse
unfolding take_flag take_cursor take_updates
take_vector_backfill_response = do
  flag ← Decoder.take_word truncated 1
  has_more ← take_flag flag
  n ← Decoder.take_word truncated 2
  next_cursor ← take_cursor vector_cursor_length n
  check (eq_bool has_more (is_some next_cursor)) invalid_cursor
  count ← Decoder.take_word truncated 2
  updates ← take_updates count
  pure (record { has_more = has_more; next_cursor = next_cursor; updates = updates })

unfoldable pub decode_vector_backfill_response :
    Bytes → Result UpdateCodecError VectorBackfillResponse
unfolding take_vector_backfill_response
decode_vector_backfill_response payload = decode_bounded take_vector_backfill_response payload
