-- ===== src/Model/Update.antt =====
-- crates/renee-model/src/lib.rs: `UpdateModel`. `BTreeSet<u64>` is a map into the unit type. A slice of
-- the acceptance order is `none` where `BTreeMap::range` panics.
pub mod Equality
pub mod Accepting
pub mod Ordering
pub mod Backfill
use renee.Prelude.{
  ℕ, suc, ◌+◌, ◌-◌, ◌^◌, Bool, true, false, not, ◌&&◌, ◌||◌, ltb, leb, if◌then◌else◌, Option, none,
  some, List, [], ◌∷◌, map, length,
}
use mathlib.Core.Option
use renee.Prelude
use renee.Bytes.{Bytes, bytes_eq}
use renee.Types.{DocumentId, UpdateId}
use renee.Types.AcceptanceSequence.{AcceptanceSequence, origin, first, checked_next}
use renee.Types.LoroRange.{LoroRange, max_loro_peers}
use renee.Types.PublicLoroRanges.{PublicLoroRanges}
use renee.Types.LoroOplogVersion.{LoroOplogVersion, end_counter_for}
use renee.Types.ImmutableUpdate.{ImmutableUpdate, UpdateMetadata}
use renee.Maps.{BTreeMap, get, contains_key, insert}
use renee.Maps.Keys.{nat_key, bytes_key, pair_key}

pub data AcceptOutcome : Type 0 where
  inserted already_present identifier_conflict counter_exhausted : AcceptOutcome
  limit_exceeded : AcceptOutcome

pub record AcceptedUpdate : Type 0 where
  pub sequence : AcceptanceSequence
  pub update : ImmutableUpdate

abbrev pub BTreeSet : Type 0
BTreeSet = BTreeMap ℕ (Unit {0})

pub record UpdateModel : Type 0 where
  pub acceptance_order : BTreeMap (DocumentId × AcceptanceSequence) UpdateId
  pub document_peers : BTreeMap DocumentId BTreeSet
  pub next_sequences : BTreeMap DocumentId AcceptanceSequence
  pub updates : BTreeMap (DocumentId × UpdateId) AcceptedUpdate

abbrev pub default : UpdateModel
default = record { acceptance_order = []; document_peers = []; next_sequences = []; updates = [] }

-- The derived `==`.
unfoldable pub ranges_eq : List LoroRange → List LoroRange → Bool
ranges_eq [] [] = true
ranges_eq (r ∷ rs) (s ∷ ss) =
    Prelude.◌==◌ r.end_counter s.end_counter
    && (Prelude.◌==◌ r.peer_id s.peer_id
        && (Prelude.◌==◌ r.start_counter s.start_counter && ranges_eq rs ss))
ranges_eq _ _ = false

unfoldable pub update_eq : ImmutableUpdate → ImmutableUpdate → Bool
update_eq a b =
    bytes_eq a.document_id b.document_id
    && (bytes_eq a.encrypted_payload b.encrypted_payload
        && (ranges_eq a.public_loro_ranges.ranges b.public_loro_ranges.ranges
            && bytes_eq a.update_id b.update_id))

abbrev pub unwrap_or : {A : Type 0} → A → Option A → A
unwrap_or a none = a
unwrap_or a (some b) = b

abbrev pub next_sequence_of : UpdateModel → DocumentId → AcceptanceSequence
next_sequence_of m document_id = unwrap_or first (get document_id m.next_sequences)

abbrev pub peers_of : UpdateModel → DocumentId → BTreeSet
peers_of m document_id = unwrap_or [] (get document_id m.document_peers)

-- The ranges whose peer the document does not have yet.
unfoldable pub additional_peer_count : BTreeSet → List LoroRange → ℕ
additional_peer_count peers [] = 0
additional_peer_count peers (r ∷ rs) =
    if contains_key r.peer_id peers
    then additional_peer_count peers rs
    else suc (additional_peer_count peers rs)

unfoldable pub extend : List LoroRange → BTreeSet → BTreeSet
extend [] peers = peers
extend (r ∷ rs) peers = extend rs (insert r.peer_id tt peers)

-- The end of `accept`, once the next sequence is known.
unfoldable pub accept_at :
    UpdateModel
    → ImmutableUpdate
    → AcceptanceSequence
    → AcceptanceSequence
    → AcceptOutcome × UpdateModel
accept_at m update sequence next_sequence =
    let document_id = update.document_id in
    let peers = peers_of m document_id in
    if ltb max_loro_peers
      (length peers + additional_peer_count peers update.public_loro_ranges.ranges)
    then (AcceptOutcome.limit_exceeded, m)
    else (
      AcceptOutcome.inserted,
      record {
        acceptance_order = insert (document_id, sequence) update.update_id m.acceptance_order;
        document_peers =
            insert document_id (extend update.public_loro_ranges.ranges peers) m.document_peers;
        next_sequences = insert document_id next_sequence m.next_sequences;
        updates =
            insert (document_id, update.update_id) (record { sequence = sequence; update = update })
              m.updates;
      },
    )

unfoldable pub accept : UpdateModel → ImmutableUpdate → AcceptOutcome × UpdateModel
accept m update = elim (get (update.document_id, update.update_id) m.updates) [
  | some existing ↦ (
    if update_eq existing.update update
        then AcceptOutcome.already_present
        else AcceptOutcome.identifier_conflict,
    m,
  )
  | none ↦
      let sequence = next_sequence_of m update.document_id in
      elim (checked_next sequence) [
        | none ↦ (AcceptOutcome.counter_exhausted, m)
        | some next_sequence ↦ accept_at m update sequence next_sequence
      ]
]

unfoldable pub fetch : UpdateModel → DocumentId → UpdateId → Option Bytes
fetch m document_id update_id =
    Option.map (λ a. a.update.encrypted_payload) (get (document_id, update_id) m.updates)

unfoldable pub acceptance_sequence : UpdateModel → DocumentId → UpdateId → Option AcceptanceSequence
acceptance_sequence m document_id update_id =
    Option.map (λ a. a.sequence) (get (document_id, update_id) m.updates)

-- The entries of a document whose sequences are above `low` and at most `high`, in their order.
unfoldable pub range :
    DocumentId
    → AcceptanceSequence
    → AcceptanceSequence
    → BTreeMap (DocumentId × AcceptanceSequence) UpdateId
    → List (AcceptanceSequence × UpdateId)
range document_id low high [] = []
range document_id low high (((d, s), id) ∷ rest) =
    let others = range document_id low high rest in
    if bytes_eq d document_id && (ltb low s && leb s high) then (s, id) ∷ others else others

abbrev pub last : List (AcceptanceSequence × UpdateId) → Option AcceptanceSequence
last [] = none
last (e ∷ []) = some e.0
last (e ∷ (f ∷ es)) = last (f ∷ es)

-- `Included(FIRST)` is what lies above the origin.
unfoldable pub high_water_sequence : UpdateModel → DocumentId → Option AcceptanceSequence
unfolding range
high_water_sequence m document_id = last (range document_id origin (2 ^ 64 - 1) m.acceptance_order)

unfoldable pub metadata_of : ImmutableUpdate → UpdateMetadata
metadata_of u = record {
  encrypted_payload_length =
      if ltb (length u.encrypted_payload) (2 ^ 32) then length u.encrypted_payload else 2 ^ 32 - 1;
  public_loro_ranges = u.public_loro_ranges;
  update_id = u.update_id;
}

-- The `filter_map`.
unfoldable pub window_entries :
    UpdateModel
    → DocumentId
    → List (AcceptanceSequence × UpdateId)
    → List (AcceptanceSequence × UpdateMetadata)
unfolding metadata_of
window_entries m document_id [] = []
window_entries m document_id ((s, id) ∷ es) = elim (get (document_id, id) m.updates) [
  | none ↦ window_entries m document_id es
  | some accepted ↦ (s, metadata_of accepted.update) ∷ window_entries m document_id es
]

-- `enumerate` is this function.
unfoldable pub acceptance_window :
    UpdateModel
    → DocumentId
    → Option AcceptanceSequence
    → AcceptanceSequence
    → Option (List (AcceptanceSequence × UpdateMetadata))
unfolding range window_entries
acceptance_window m document_id after terminal_sequence =
    let low = unwrap_or origin after in
    if ltb terminal_sequence low
    then none
    else some
        (window_entries m document_id (range document_id low terminal_sequence m.acceptance_order))

unfoldable pub any_beyond : LoroOplogVersion → List LoroRange → Bool
any_beyond version [] = false
any_beyond version (r ∷ rs) =
    ltb (end_counter_for version r.peer_id) r.end_counter || any_beyond version rs

unfoldable pub select_beyond :
    LoroOplogVersion
    → List (AcceptanceSequence × UpdateMetadata)
    → List (AcceptanceSequence × UpdateMetadata)
unfolding any_beyond
select_beyond version [] = []
select_beyond version ((s, metadata) ∷ es) =
    let others = select_beyond version es in
    if any_beyond version metadata.public_loro_ranges.ranges then (s, metadata) ∷ others else others

unfoldable pub vector_backfill :
    UpdateModel
    → DocumentId
    → LoroOplogVersion
    → Option AcceptanceSequence
    → AcceptanceSequence
    → Option (List (AcceptanceSequence × UpdateMetadata))
unfolding acceptance_window select_beyond
vector_backfill m document_id oplog_version after terminal_sequence =
    Option.map (select_beyond oplog_version)
      (acceptance_window m document_id after terminal_sequence)
