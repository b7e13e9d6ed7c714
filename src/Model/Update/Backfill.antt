-- ===== src/Model/Update/Backfill.antt =====
-- `vector_backfill` of crates/renee-model/src/lib.rs against the window that it selects from.
use renee.Prelude.{
  ◌<◌, ◌≡◌, ◌↔◌, refl, true, Bool-cases, inl, inr, ltb, ltb→lt, lt→ltb, Option, some, List, [], ◌∷◌,
  arith,
}
use mathlib.Core.Path.{subst}
use renee.Types.{DocumentId}
use renee.Types.AcceptanceSequence.{AcceptanceSequence}
use renee.Types.LoroRange.{LoroRange}
use renee.Types.LoroOplogVersion.{LoroOplogVersion, end_counter_for}
use renee.Types.ImmutableUpdate.{UpdateMetadata}
use renee.Maps.{Member}
use renee.Model.Update.{UpdateModel, any_beyond, select_beyond, acceptance_window, vector_backfill}

-- A range that ends beyond what the version covers of its peer.
abbrev pub HasBeyond : LoroOplogVersion → List LoroRange → Type 0
HasBeyond v rs = (r : LoroRange) × Member r rs × (end_counter_for v r.peer_id < r.end_counter)

any_beyond_sound :
    (v : LoroOplogVersion) (rs : List LoroRange) → any_beyond v rs ≡ true → HasBeyond v rs
unfolding any_beyond
any_beyond_sound v [] h = absurd (ground arith)
any_beyond_sound v (r ∷ rs) h =
    elim (Bool-cases (ltb (end_counter_for v r.peer_id) r.end_counter)) [
      | inl here ↦ (r, inl refl, ltb→lt (end_counter_for v r.peer_id) r.end_counter here)
      | inr later ↦
          let (s, among, beyond) = any_beyond_sound v rs (ground arith) in (s, inr among, beyond)
    ]

any_beyond_complete :
    (v : LoroOplogVersion) (rs : List LoroRange) (r : LoroRange)
    → Member r rs
    → end_counter_for v r.peer_id < r.end_counter
    → any_beyond v rs ≡ true
unfolding any_beyond
any_beyond_complete v [] r m h = absurd m
any_beyond_complete v (s ∷ rs) r (inl same) h =
    let covered : end_counter_for v s.peer_id < s.end_counter =
      subst (λ x. end_counter_for v x.peer_id < x.end_counter) same h in
    rw (lt→ltb (end_counter_for v s.peer_id) s.end_counter covered)
any_beyond_complete v (s ∷ rs) r (inr later) h =
    let rest = any_beyond_complete v rs r later h in
    elim (Bool-cases (ltb (end_counter_for v s.peer_id) s.end_counter)) [
      | inl here ↦ rw here
      | inr not_here ↦ rw (not_here, rest)
    ]

select_beyond_sound :
    (v : LoroOplogVersion) (es : List (AcceptanceSequence × UpdateMetadata))
    (e : AcceptanceSequence × UpdateMetadata)
    → Member e (select_beyond v es)
    → Member e es × (any_beyond v e.1.public_loro_ranges.ranges ≡ true)
unfolding select_beyond
select_beyond_sound v [] e m = absurd m
select_beyond_sound v ((s, metadata) ∷ es) e m =
    elim (Bool-cases (any_beyond v metadata.public_loro_ranges.ranges)) [
      | inl beyond ↦ elim (rw beyond at m) [
        | inl same ↦ (inl same, rw same beyond)
        | inr later ↦
            let (among, selected) = select_beyond_sound v es e later in (inr among, selected)
      ]
      | inr covered ↦
          let (among, selected) = select_beyond_sound v es e (rw covered at m) in
          (inr among, selected)
    ]

select_beyond_complete :
    (v : LoroOplogVersion) (es : List (AcceptanceSequence × UpdateMetadata))
    (e : AcceptanceSequence × UpdateMetadata)
    → Member e es
    → any_beyond v e.1.public_loro_ranges.ranges ≡ true
    → Member e (select_beyond v es)
unfolding select_beyond
select_beyond_complete v [] e m h = absurd m
select_beyond_complete v ((s, metadata) ∷ es) e (inl same) h =
    let beyond : any_beyond v metadata.public_loro_ranges.ranges ≡ true = rw same at h in
    rw beyond (inl same)
select_beyond_complete v ((s, metadata) ∷ es) e (inr later) h =
    let rest = select_beyond_complete v es e later h in
    elim (Bool-cases (any_beyond v metadata.public_loro_ranges.ranges)) [
      | inl beyond ↦ rw beyond (inr rest)
      | inr covered ↦ rw covered rest
    ]

-- Where a document's acceptance window is a list, vector backfill is the list of just those of its
-- entries that have a range ending beyond what the version covers of the range's peer.
pub vector_backfill_iff :
    (m : UpdateModel) (d : DocumentId) (v : LoroOplogVersion) (after : Option AcceptanceSequence)
    (terminal : AcceptanceSequence) (es : List (AcceptanceSequence × UpdateMetadata))
    → acceptance_window m d after terminal ≡ some es
    → (fs : List (AcceptanceSequence × UpdateMetadata)) × (vector_backfill m d v after terminal
        ≡ some fs)
      × ((e : AcceptanceSequence × UpdateMetadata)
          → Member e fs ↔ (Member e es × HasBeyond v e.1.public_loro_ranges.ranges))
unfolding vector_backfill
vector_backfill_iff m d v after terminal es window = (
  select_beyond v es,
  rw window,
  λ e. (
    λ among.
        let (inside, beyond) = select_beyond_sound v es e among in
        (inside, any_beyond_sound v e.1.public_loro_ranges.ranges beyond),
    λ h.
        select_beyond_complete v es e h.0
          (any_beyond_complete v e.1.public_loro_ranges.ranges h.1.0 h.1.1 h.1.2),
  ),
)
