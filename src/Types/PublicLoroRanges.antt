-- ===== src/Types/PublicLoroRanges.antt =====
-- crates/renee-types/src/lib.rs: `PublicLoroRanges`, the ranges of one update, checked in one pass.
pub mod Canonical
use renee.Prelude.{
  ℕ, ◌+◌, ◌^◌, Bool, false, ltb, leb, if◌then◌else◌, length, Option, none, some, List, [], ◌∷◌,
  Result, ok, err,
}
use renee.Types.LoroRange.{
  LoroRange, operation_count, LoroMetadataError, is_empty, too_many_peers, too_many_operations,
  non_canonical_peer_order, max_loro_peers, max_update_operations,
}

pub record PublicLoroRanges : Type 0 where
  pub ranges : List LoroRange

-- `u32::checked_add`.
unfoldable pub checked_add : ℕ → ℕ → Option ℕ
checked_add a b = if ltb (a + b) (2 ^ 32) then some (a + b) else none

-- `previous_peer.is_some_and(|peer| peer >= peer_id)`.
unfoldable pub out_of_order : Option ℕ → ℕ → Bool
out_of_order none peer_id = false
out_of_order (some peer) peer_id = leb peer_id peer

-- The loop of `new`, over what is left of the ranges.
unfoldable pub check_ranges : Option ℕ → ℕ → List LoroRange → Result LoroMetadataError (Unit {0})
unfolding out_of_order checked_add
check_ranges previous_peer count [] = ok tt
check_ranges previous_peer count (r ∷ rest) =
    if out_of_order previous_peer r.peer_id
    then err non_canonical_peer_order
    else elim (checked_add count (operation_count r)) [
      | none ↦ err too_many_operations
      | some total ↦
          if ltb max_update_operations total
          then err too_many_operations
          else check_ranges (some r.peer_id) total rest
    ]

unfoldable pub new : List LoroRange → Result LoroMetadataError PublicLoroRanges
unfolding check_ranges
new [] = err is_empty
new (r ∷ rest) =
    if ltb max_loro_peers (length (r ∷ rest))
    then err too_many_peers
    else elim (check_ranges none 0 (r ∷ rest)) [
      | err e ↦ err e
      | ok _ ↦ ok (record { ranges = r ∷ rest })
    ]
