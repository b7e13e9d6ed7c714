-- ===== src/Tests/Pages.antt =====
-- A page of updates on the wire, for the theorems of Wire/Update/Responses.
use renee.Prelude.{◌≡◌, refl, true, some, [], ◌∷◌, ok, arith, replicate}
use renee.Bytes.{Bytes, to_be, to_le}
use renee.Types.ImmutableUpdate.{UpdateMetadata}
use renee.Wire.Update.Records.{encode_ranges}
use renee.Wire.Update.Requests.{cursor_length}
use renee.Wire.Update.Pages.{EnumerateResponse, encode_metadata, encode_page}
use renee.Wire.Update.Responses.{
  contradicts_updates, encode_enumerate_response, decode_enumerate_response,
}
use renee.Wire.Update.Responses.RoundTrip.{
  IsMetadata, metadata_bytes, page_bytes, decode-encode_enumerate_response,
}
use renee.Tests.Codec.{update, update-IsUpdate}

abbrev entry : UpdateMetadata
entry = record {
  encrypted_payload_length = 2;
  public_loro_ranges = update.public_loro_ranges;
  update_id = update.update_id;
}

entry-IsMetadata : IsMetadata entry
entry-IsMetadata = record {
  update_id = update-IsUpdate.update_id;
  ranges = update-IsUpdate.ranges;
  valid = update-IsUpdate.valid;
  payload = omega arith;
}

abbrev page : EnumerateResponse
page = record { has_more = true; next_cursor = some (replicate 32 9); updates = entry ∷ [] }

abbrev page_payload : Bytes
page_payload = page_bytes true 32 (some (replicate 32 9)) (entry ∷ []) (metadata_bytes entry [])

page_encoded : encode_enumerate_response page ≡ ok page_payload
unfolding encode_enumerate_response contradicts_updates cursor_length encode_page encode_metadata
    encode_ranges to_be to_le
page_encoded = refl

decode-encode_enumerate_response_example : decode_enumerate_response page_payload ≡ ok page
decode-encode_enumerate_response_example =
    decode-encode_enumerate_response page page_payload (entry-IsMetadata, tt) page_encoded
