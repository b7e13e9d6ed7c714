-- ===== src/Wire/Update/Versions.antt =====
-- crates/renee-wire/src/update.rs: the durable encoding of a Loro oplog version.
use renee.Prelude.{
  ℕ, zero, suc, ◌+◌, ◌*◌, ◌-◌, ◌^◌, ◌++◌, not, ◌||◌, ltb, ◌==◌, if◌then◌else◌, length, take, drop,
  none, some, List, [], ◌∷◌, Result, ok, err, map_err,
}
use renee.Bytes.{Bytes, to_be, from_be, bytes_eq}
use renee.Texts.{ascii}
use renee.Types.LoroRange.{max_loro_peers}
use renee.Types.LoroOplogVersion.{LoroOplogVersion, LoroOplogVersionEntry, entry_new}
use renee.Types.LoroOplogVersion
use renee.Wire.Slices.{get_range}
use renee.Wire.Update.{UpdateCodecError, invalid_loro_metadata}

abbrev pub oplog_version_magic : Bytes
oplog_version_magic = ascii "CARBVV" ++ (0 ∷ 0 ∷ [])

abbrev pub oplog_version_format_version : ℕ
oplog_version_format_version = 1

abbrev pub oplog_version_header_length : ℕ
oplog_version_header_length = 12

abbrev pub oplog_version_entry_length : ℕ
oplog_version_entry_length = 12

unfoldable pub encode_entries : List LoroOplogVersionEntry → Bytes
encode_entries [] = []
encode_entries (e ∷ es) = to_be 8 e.peer_id ++ (to_be 4 e.end_counter ++ encode_entries es)

-- `u16::try_from(count).unwrap_or(u16::MAX)`.
abbrev pub entry_count_of : ℕ → ℕ
entry_count_of n = if ltb n (2 ^ 16) then n else 2 ^ 16 - 1

unfoldable pub encode_loro_oplog_version : LoroOplogVersion → Bytes
unfolding encode_entries
encode_loro_oplog_version v =
    oplog_version_magic
    ++ (to_be 2 oplog_version_format_version
        ++ (to_be 2 (entry_count_of (length v.entries)) ++ encode_entries v.entries))

-- The loop over the chunks of 12 bytes, of which there are `count`.
unfoldable pub decode_entries : ℕ → Bytes → Result UpdateCodecError (List LoroOplogVersionEntry)
decode_entries zero encoded = ok []
decode_entries (suc count) encoded =
    let chunk = take oplog_version_entry_length encoded in
    elim (entry_new (from_be (take 8 chunk)) (from_be (drop 8 chunk))) [
      | err e ↦ err invalid_loro_metadata
      | ok entry ↦ elim (decode_entries count (drop oplog_version_entry_length encoded)) [
        | err e ↦ err e
        | ok entries ↦ ok (entry ∷ entries)
      ]
    ]

-- `u16::from_be_bytes(encoded.get(low..high)…)`.
abbrev pub header_word : ℕ → ℕ → Bytes → Result UpdateCodecError ℕ
header_word low high encoded = elim (get_range low high encoded) [
  | none ↦ err invalid_loro_metadata
  | some bs ↦ ok (from_be bs)
]

abbrev pub decode_counted : ℕ → ℕ → Bytes → Result UpdateCodecError LoroOplogVersion
decode_counted format_version entry_count encoded =
    if not (format_version == oplog_version_format_version)
      || ltb max_loro_peers entry_count
      || not
          (length encoded == oplog_version_header_length + entry_count * oplog_version_entry_length)
    then err invalid_loro_metadata
    else elim (decode_entries entry_count (drop oplog_version_header_length encoded)) [
      | err e ↦ err e
      | ok entries ↦ map_err (λ _. invalid_loro_metadata) (LoroOplogVersion.new entries)
    ]

unfoldable pub decode_loro_oplog_version : Bytes → Result UpdateCodecError LoroOplogVersion
unfolding decode_entries
decode_loro_oplog_version encoded =
    if ltb (length encoded) oplog_version_header_length
      || not (bytes_eq (take 8 encoded) oplog_version_magic)
    then err invalid_loro_metadata
    else elim (header_word 8 10 encoded) [
      | err e ↦ err e
      | ok format_version ↦ elim (header_word 10 12 encoded) [
        | err e ↦ err e
        | ok entry_count ↦ decode_counted format_version entry_count encoded
      ]
    ]
