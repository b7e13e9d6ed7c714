-- ===== src/Types/LoroRange.antt =====
-- crates/renee-types/src/lib.rs: `LoroRange`, the limits of the Loro profile, and the errors of the
-- public Loro metadata. Peers are u64, counters u32.
use renee.Prelude.{
  ℕ, ◌-◌, ◌^◌, ◌≤◌, ◌<◌, ◌≡◌, ◌||◌, ltb, leb, if◌then◌else◌, Result, ok, err, arith,
}

abbrev pub max_loro_peers : ℕ
max_loro_peers = 256

abbrev pub max_loro_counter : ℕ
max_loro_counter = 0x7fff_ffff

abbrev pub max_update_operations : ℕ
max_update_operations = 0x0010_0000

pub data LoroMetadataError : Type 0 where
  is_empty too_many_peers counter_out_of_range empty_or_reversed_range : LoroMetadataError
  too_many_operations non_canonical_peer_order zero_version_counter : LoroMetadataError

pub record LoroRange : Type 0 where
  pub end_counter : ℕ
  pub peer_id : ℕ
  pub start_counter : ℕ

unfoldable pub new : ℕ → ℕ → ℕ → Result LoroMetadataError LoroRange
new peer_id start_counter end_counter =
    if ltb max_loro_counter start_counter || ltb max_loro_counter end_counter
    then err counter_out_of_range
    else if leb end_counter start_counter
    then err empty_or_reversed_range
    else if ltb max_update_operations (end_counter - start_counter)
    then err too_many_operations
    else ok (record { end_counter = end_counter; peer_id = peer_id; start_counter = start_counter })

unfoldable pub operation_count : LoroRange → ℕ
operation_count r = r.end_counter - r.start_counter

-- A range that `new` makes: not empty, within the counters, of at most 2^20 operations.
pub record IsValid (r : LoroRange) : Type 0 where
  pub nonempty : r.start_counter < r.end_counter
  pub in_range : r.end_counter ≤ max_loro_counter
  pub bounded : r.end_counter - r.start_counter ≤ max_update_operations
  pub peer_fits : r.peer_id < 2 ^ 64

pub new-IsValid : (p s e : ℕ) {r : LoroRange} → p < 2 ^ 64 → new p s e ≡ ok r → IsValid r
unfolding new
new-IsValid p s e h q = ground arith

-- A valid range is what `new` makes of its parts.
pub new_of_IsValid :
    (r : LoroRange) → IsValid r → new r.peer_id r.start_counter r.end_counter ≡ ok r
unfolding new
new_of_IsValid r v = ground arith

-- `new` keeps the three numbers.
pub new_parts :
    (p s e : ℕ) {r : LoroRange}
    → new p s e ≡ ok r
    → (r.peer_id ≡ p) × (r.start_counter ≡ s) × (r.end_counter ≡ e)
unfolding new
new_parts p s e h = ground arith

operation_count_le : (r : LoroRange) → IsValid r → operation_count r ≤ max_update_operations
unfolding operation_count
operation_count_le r v = v.bounded
