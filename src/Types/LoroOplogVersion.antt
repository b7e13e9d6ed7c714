-- ===== src/Types/LoroOplogVersion.antt =====
-- crates/renee-types/src/lib.rs: `LoroOplogVersion`, the covered prefix of each peer.
pub mod Search
use renee.Prelude.{
  ℕ, zero, suc, ◌+◌, ◌-◌, ◌/◌, Bool, false, ltb, leb, ◌==◌, if◌then◌else◌, length, Option, none,
  some, List, [], ◌∷◌, Result, ok, err, get_elem?,
}
use renee.Types.LoroRange.{
  LoroMetadataError, too_many_peers, counter_out_of_range, non_canonical_peer_order,
  zero_version_counter, max_loro_peers, max_loro_counter,
}
use renee.Types.PublicLoroRanges.{out_of_order}

pub record LoroOplogVersionEntry : Type 0 where
  pub end_counter : ℕ
  pub peer_id : ℕ

unfoldable pub entry_new : ℕ → ℕ → Result LoroMetadataError LoroOplogVersionEntry
entry_new peer_id end_counter =
    if end_counter == 0
    then err zero_version_counter
    else if ltb max_loro_counter end_counter
    then err counter_out_of_range
    else ok (record { end_counter = end_counter; peer_id = peer_id })

pub record LoroOplogVersion : Type 0 where
  pub entries : List LoroOplogVersionEntry

-- The loop of `new`.
unfoldable pub check_entries :
    Option ℕ → List LoroOplogVersionEntry → Result LoroMetadataError (Unit {0})
unfolding out_of_order
check_entries previous_peer [] = ok tt
check_entries previous_peer (e ∷ rest) =
    if out_of_order previous_peer e.peer_id
    then err non_canonical_peer_order
    else check_entries (some e.peer_id) rest

unfoldable pub new : List LoroOplogVersionEntry → Result LoroMetadataError LoroOplogVersion
unfolding check_entries
new entries =
    if ltb max_loro_peers (length entries)
    then err too_many_peers
    else elim (check_entries none entries) [
      | err e ↦ err e
      | ok _ ↦ ok (record { entries = entries })
    ]

-- `slice::binary_search_by_key`: the loop halves `size` and keeps `base`; fuel `size` is enough.
unfoldable pub search_base : ℕ → List LoroOplogVersionEntry → ℕ → ℕ → ℕ → ℕ
search_base zero entries peer_id base size = base
search_base (suc fuel) entries peer_id base size =
    let mid = base + size / 2 in
    let next : ℕ = elim (get_elem? entries mid) [
      | none ↦ base
      | some e ↦ if ltb peer_id e.peer_id then base else mid
    ] in
    let rest = search_base fuel entries peer_id next (size - size / 2) in
    if ltb 1 size then rest else base

unfoldable pub end_counter_for : LoroOplogVersion → ℕ → ℕ
unfolding search_base
end_counter_for v peer_id =
    let n = length v.entries in
    elim (get_elem? v.entries (search_base n v.entries peer_id 0 n)) [
      | none ↦ 0
      | some e ↦ if e.peer_id == peer_id then e.end_counter else 0
    ]
