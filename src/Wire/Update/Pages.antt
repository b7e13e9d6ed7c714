-- ===== src/Wire/Update/Pages.antt =====
-- crates/renee-wire/src/update.rs: the vector-backfill request, and the pages of an enumeration and
-- of a vector backfill.
use renee.Prelude.{
  ℕ, zero, suc, ◌+◌, ◌*◌, ◌^◌, ◌++◌, Bool, true, false, not, ◌==◌, ltb, if◌then◌else◌, length,
  Option, none, some, List, [], ◌∷◌, Result, ok, err,
}
use renee.Bytes.{Bytes, to_be}
use renee.Types.{DocumentId, identifier_length}
use renee.Types.LoroRange.{max_loro_peers}
use renee.Types.LoroOplogVersion.{LoroOplogVersion}
use renee.Types.ImmutableUpdate.{UpdateMetadata}
use renee.Wire.Limits.{max_application_payload_length}
use renee.Wire.Decoder
use renee.Wire.Decoder.{Decoding, pure, lift, check, ◌>>=◌, ◌>>◌}
use renee.Wire.Capability.{CapabilityAuthority, encode_authority}
use renee.Wire.Update.{
  UpdateCodecError, truncated, trailing_bytes, invalid_cursor, integer_out_of_range,
  invalid_loro_metadata, record_too_long, unsupported_loro_profile, take_array, take_authority,
}
use renee.Wire.Update.Records.{encode_ranges}
use renee.Wire.Update.Requests.{cursor_length, cursor_bytes}
use renee.Wire.Update.Versions.{
  encode_loro_oplog_version, decode_loro_oplog_version, oplog_version_header_length,
  oplog_version_entry_length,
}

abbrev pub vector_cursor_length : ℕ
vector_cursor_length = 32

abbrev pub vector_backfill_payload_version : ℕ
vector_backfill_payload_version = 1

pub data VectorBackfillStart : Type 0 where
  pass_origin : VectorBackfillStart
  pass_continue : Bytes → VectorBackfillStart

pub record VectorBackfillRequest : Type 0 where
  pub authority : CapabilityAuthority
  pub document_id : DocumentId
  pub oplog_version : LoroOplogVersion
  pub start : VectorBackfillStart

pub record EnumerateResponse : Type 0 where
  pub has_more : Bool
  pub next_cursor : Option Bytes
  pub updates : List UpdateMetadata

pub record VectorBackfillResponse : Type 0 where
  pub has_more : Bool
  pub next_cursor : Option Bytes
  pub updates : List UpdateMetadata

abbrev pub is_some : {A : Type 0} → Option A → Bool
is_some none = false
is_some (some _) = true

abbrev pub eq_bool : Bool → Bool → Bool
eq_bool true b = b
eq_bool false b = not b

-- `payload`, where it fits one body.
abbrev pub bounded : Bytes → Result UpdateCodecError Bytes
bounded payload =
    if ltb max_application_payload_length (length payload) then err record_too_long else ok payload

-- The `match` on the cursor of a vector backfill.
unfoldable pub checked_vector_cursor : Option Bytes → Result UpdateCodecError ℕ
checked_vector_cursor none = ok 0
checked_vector_cursor (some cursor) =
    if length cursor == vector_cursor_length then ok vector_cursor_length else err invalid_cursor

abbrev pub vector_mode_of : VectorBackfillStart → ℕ
vector_mode_of pass_origin = 0
vector_mode_of (pass_continue cursor) = 1

abbrev pub vector_cursor_of : VectorBackfillStart → Option Bytes
vector_cursor_of pass_origin = none
vector_cursor_of (pass_continue cursor) = some cursor

unfoldable pub vector_request_bytes : VectorBackfillRequest → ℕ → Bytes → Bytes
vector_request_bytes r n encoded_version =
    to_be 2 vector_backfill_payload_version
    ++ (encode_authority r.authority
        ++ (r.document_id
            ++ (vector_mode_of r.start
                ∷ (to_be 2 n
                    ++ (cursor_bytes (vector_cursor_of r.start)
                        ++ (to_be 2 (length encoded_version) ++ encoded_version))))))

unfoldable pub encode_vector_backfill_request :
    VectorBackfillRequest → Result UpdateCodecError Bytes
unfolding checked_vector_cursor vector_request_bytes
encode_vector_backfill_request r = elim (checked_vector_cursor (vector_cursor_of r.start)) [
  | err e ↦ err e
  | ok n ↦
      let encoded_version = encode_loro_oplog_version r.oplog_version in
      if not (ltb (length encoded_version) (2 ^ 16))
      then err integer_out_of_range
      else bounded (vector_request_bytes r n encoded_version)
]

-- The `match` on the mode and the length of the cursor.
unfoldable pub take_vector_start : ℕ → ℕ → Decoding UpdateCodecError VectorBackfillStart
take_vector_start zero zero = pure pass_origin
take_vector_start (suc zero) n = do cursor ← take_array n; pure (pass_continue cursor)
take_vector_start _ n = lift (err invalid_cursor)

unfoldable pub take_vector_backfill_request : Decoding UpdateCodecError VectorBackfillRequest
unfolding take_vector_start
take_vector_backfill_request = do
  version ← Decoder.take_word truncated 2
  check (version == vector_backfill_payload_version) unsupported_loro_profile
  authority ← take_authority
  document_id ← take_array identifier_length
  mode ← Decoder.take_word truncated 1
  n ← Decoder.take_word truncated 2
  start ← take_vector_start mode n
  vector_length ← Decoder.take_word truncated 2
  check
      (not (
        ltb (oplog_version_header_length + max_loro_peers * oplog_version_entry_length)
          vector_length))
      invalid_loro_metadata
  encoded_version ← take_array vector_length
  oplog_version ← lift (decode_loro_oplog_version encoded_version)
  pure (record {
    authority = authority;
    document_id = document_id;
    oplog_version = oplog_version;
    start = start;
  })

abbrev pub decode_bounded :
    {A : Type 0} → Decoding UpdateCodecError A → Bytes → Result UpdateCodecError A
decode_bounded m payload =
    if ltb max_application_payload_length (length payload)
    then err record_too_long
    else Decoder.complete trailing_bytes m payload

unfoldable pub decode_vector_backfill_request :
    Bytes → Result UpdateCodecError VectorBackfillRequest
unfolding take_vector_backfill_request
decode_vector_backfill_request payload = decode_bounded take_vector_backfill_request payload

unfoldable pub vector_backfill_response_base_length : Option Bytes → Result UpdateCodecError ℕ
unfolding checked_vector_cursor
vector_backfill_response_base_length cursor = elim (checked_vector_cursor cursor) [
  | err e ↦ err e
  | ok n ↦ ok (1 + 2 + n + 2)
]

unfoldable pub enumerate_response_base_length : Option Bytes → Result UpdateCodecError ℕ
unfolding cursor_length
enumerate_response_base_length cursor = elim (cursor_length cursor) [
  | err e ↦ err e
  | ok n ↦ ok (1 + 2 + n + 2)
]

-- The loop over the metadata of a page.
unfoldable pub encode_metadata : List UpdateMetadata → Result UpdateCodecError Bytes
encode_metadata [] = ok []
encode_metadata (metadata ∷ rest) =
    let ranges = metadata.public_loro_ranges.ranges in
    let encoded_rest = encode_metadata rest in
    if not (ltb (length ranges) (2 ^ 16)) then err integer_out_of_range else elim encoded_rest [
      | err e ↦ err e
      | ok bytes ↦ ok (
          metadata.update_id
          ++ (to_be 2 (length ranges)
              ++ (encode_ranges ranges ++ (to_be 4 metadata.encrypted_payload_length ++ bytes))))
    ]

-- A page after its checks: the flag, the cursor, the count and the metadata.
unfoldable pub encode_page :
    Bool → ℕ → Option Bytes → List UpdateMetadata → Result UpdateCodecError Bytes
unfolding encode_metadata
encode_page has_more n next_cursor updates = elim (encode_metadata updates) [
  | err e ↦ err e
  | ok metadata ↦ bounded (
      (if has_more then 1 else 0)
      ∷ (to_be 2 n ++ (cursor_bytes next_cursor ++ (to_be 2 (length updates) ++ metadata))))
]
