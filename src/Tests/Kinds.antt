-- ===== src/Tests/Kinds.antt =====
-- Operation sets and Loro metadata.
use renee.Prelude.{◌≡◌, ◌↔◌, ◌≢◌, refl, true, [], ◌∷◌, ok, arith}
use renee.Types.Operations.{OperationSet, full, allows}
use renee.Types.Operations.Attenuation.{Includes, allows_iff}
use renee.Types.PublicLoroRanges.{PublicLoroRanges}
use renee.Types.PublicLoroRanges
use renee.Types.PublicLoroRanges.Canonical.{new-IsCanonical_iff}
use renee.Types.PublicLoroRanges.Canonical
use renee.Types.LoroOplogVersion.{
  LoroOplogVersion, LoroOplogVersionEntry, end_counter_for, check_entries,
}
use renee.Types.LoroOplogVersion
use renee.Types.LoroOplogVersion.{entry_new}
use renee.Bytes.{to_be, to_le, from_be, from_le, bytes_eq}
use renee.Wire.Slices.{get_range}
use renee.Wire.Update.Versions.{
  encode_loro_oplog_version, encode_entries, decode_loro_oplog_version, decode_entries,
}
use renee.Types.LoroOplogVersion.Search.{scan, end_counter_for-eq-scan}

abbrev read_update : OperationSet
read_update = record { bits = 3 }

abbrev two_ranges : PublicLoroRanges
two_ranges = record {
  ranges =
      (record { end_counter = 2; peer_id = 5; start_counter = 0 })
      ∷ (record { end_counter = 9; peer_id = 6; start_counter = 4 })
      ∷ [];
}

abbrev two_entries : LoroOplogVersion
two_entries = record {
  entries =
      (record { end_counter = 2; peer_id = 5 }) ∷ (record { end_counter = 9; peer_id = 6 }) ∷ [];
}

new_entries : LoroOplogVersion.new two_entries.entries ≡ ok two_entries
unfolding LoroOplogVersion.new check_entries
new_entries = refl

allows_iff_example :
    (allows full read_update ≡ true) ↔ ((read_update.bits ≢ 0) × Includes full read_update)
allows_iff_example = allows_iff full read_update (omega arith) (omega arith)

new-IsCanonical_iff_example :
    (PublicLoroRanges.new two_ranges.ranges ≡ ok two_ranges)
    ↔ ((two_ranges.ranges ≡ two_ranges.ranges) × Canonical.IsCanonical two_ranges.ranges)
new-IsCanonical_iff_example = new-IsCanonical_iff two_ranges.ranges two_ranges

end_counter_for-eq-scan_example : end_counter_for two_entries 6 ≡ scan two_entries.entries 6
end_counter_for-eq-scan_example =
    end_counter_for-eq-scan two_entries.entries two_entries 6 new_entries

version_read_back :
    decode_loro_oplog_version (encode_loro_oplog_version two_entries) ≡ ok two_entries
unfolding decode_loro_oplog_version decode_entries encode_loro_oplog_version encode_entries
    entry_new LoroOplogVersion.new check_entries get_range to_be to_le from_be from_le bytes_eq
version_read_back = refl
