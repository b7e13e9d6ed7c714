-- ===== src/Stored/Updates/Exceeding.antt =====
-- crates/renee-stored/src/store.rs: the updates that have an operation beyond a version.
use renee.Prelude.{◌<◌, ◌≡◌, refl, inl, inr, true, ltb, ltb→lt, Bool-cases, List, [], ◌∷◌, arith}
use renee.Types.ImmutableUpdate.{ImmutableUpdate}
use renee.Types.LoroRange.{LoroRange}
use renee.Types.LoroOplogVersion.{LoroOplogVersion, end_counter_for}
use renee.Maps.{Member}
use renee.Stored.Updates.Pages.{any_beyond}

-- An update has an operation that the version does not have.
abbrev pub Exceeds : LoroOplogVersion → ImmutableUpdate → Type 0
Exceeds version u =
    (r : LoroRange) × Member r u.public_loro_ranges.ranges
    × (end_counter_for version r.peer_id < r.end_counter)

pub any_beyond_sound :
    (version : LoroOplogVersion) (rs : List LoroRange)
    → any_beyond version rs ≡ true
    → (r : LoroRange) × Member r rs × (end_counter_for version r.peer_id < r.end_counter)
unfolding any_beyond
any_beyond_sound version [] h = absurd (ground arith)
any_beyond_sound version (r ∷ rs) h =
    elim (Bool-cases (ltb (end_counter_for version r.peer_id) r.end_counter)) [
      | inl here ↦ (r, inl refl, ltb→lt (end_counter_for version r.peer_id) r.end_counter here)
      | inr other ↦
          let (q, among, more) = any_beyond_sound version rs (ground (arith, h, other)) in
          (q, inr among, more)
    ]

pub any_beyond_complete :
    (version : LoroOplogVersion) (rs : List LoroRange) (r : LoroRange)
    → Member r rs
    → end_counter_for version r.peer_id < r.end_counter
    → any_beyond version rs ≡ true
unfolding any_beyond
any_beyond_complete version [] r m h = absurd m
any_beyond_complete version (q ∷ rs) r (inl same) h =
    let here : end_counter_for version q.peer_id < q.end_counter = rw (← same) h in ground arith
any_beyond_complete version (q ∷ rs) r (inr m) h =
    ground (arith, any_beyond_complete version rs r m h)
