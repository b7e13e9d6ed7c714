-- ===== src/Stored/Updates.antt =====
-- crates/renee-stored/src/store.rs: `accept_internal` with the rows that it inserts, and
-- `fetch_authorized`. The notification that follows an insertion is in Stored/Broker.antt.
pub mod Pages
pub mod Windows
pub mod Exceeding
pub mod Progress
pub mod Advancing
pub mod Fetching
use renee.Prelude.{
  ℕ, ◌+◌, Bool, true, false, not, ◌&&◌, ◌||◌, ltb, if◌then◌else◌, length, Option, none, some, List,
  [], ◌∷◌, Result, ok, err,
}
use renee.Prelude
use renee.Bytes.{Bytes, bytes_eq}
use renee.Types.{DocumentId, CapabilityId, UpdateId, Authenticator}
use renee.Types.AcceptanceSequence.{AcceptanceSequence, first, checked_next}
use renee.Types.LoroRange.{LoroRange, max_loro_peers}
use renee.Types.ImmutableUpdate.{ImmutableUpdate}
use renee.Types.Operations.{Operation}
use renee.Wire.Update.Records.{decode_update_record}
use renee.Maps.{BTreeMap, get, contains_key, insert}
use renee.Maps.Keys.{bytes_key, nat_key, pair_key}
use renee.Stored.Tables.{
  StoreError, sqlite, corrupt, Tables, UpdateRow, RangeRow, ◌>>=◌, insert_row, count_where,
}
use renee.Stored.Authority.{authorize}

pub data StoreAcceptOutcome : Type 0 where
  inserted already_present identifier_conflict counter_exhausted : StoreAcceptOutcome
  limit_exceeded authorization_denied : StoreAcceptOutcome

pub data StoreReadOutcome (A : Type 0) : Type 0 where
  authorized : A → StoreReadOutcome A
  denied : StoreReadOutcome A

abbrev pub Peers : Type 0
Peers = BTreeMap (DocumentId × ℕ) (Unit {0})

-- The loop over the ranges, with `INSERT OR IGNORE`: `none` where the count passes the limit.
unfoldable pub insert_peers : DocumentId → ℕ → List LoroRange → Peers → Option Peers
insert_peers document_id peer_count [] peers = some peers
insert_peers document_id peer_count (r ∷ rs) peers =
    elim (contains_key (document_id, r.peer_id) peers) [
      | true ↦
          if ltb max_loro_peers peer_count
          then none
          else insert_peers document_id peer_count rs peers
      | false ↦
          if ltb max_loro_peers (peer_count + 1)
          then none
          else insert_peers document_id (peer_count + 1) rs
              (insert (document_id, r.peer_id) tt peers)
    ]

-- `none` is the answer `false`.
unfoldable pub insert_document_loro_peers : Tables → ImmutableUpdate → Option Peers
unfolding insert_peers
insert_document_loro_peers t update =
    let peer_count = count_where (λ k _. bytes_eq k.0 update.document_id) t.document_loro_peers in
    if ltb max_loro_peers peer_count
    then none
    else insert_peers update.document_id peer_count update.public_loro_ranges.ranges
        t.document_loro_peers

-- `insert_update_ranges`.
unfoldable pub insert_ranges :
    DocumentId
    → UpdateId
    → List LoroRange
    → BTreeMap ((DocumentId × UpdateId) × ℕ) RangeRow
    → Result StoreError (BTreeMap ((DocumentId × UpdateId) × ℕ) RangeRow)
insert_ranges document_id update_id [] rows = ok rows
insert_ranges document_id update_id (r ∷ rs) rows =
    insert_row ((document_id, update_id), r.peer_id)
      (record { start_counter = r.start_counter; end_counter = r.end_counter }) rows
    >>= λ more. insert_ranges document_id update_id rs more

unfoldable pub sequence_taken :
    DocumentId → AcceptanceSequence → BTreeMap (DocumentId × UpdateId) UpdateRow → Bool
sequence_taken document_id sequence [] = false
sequence_taken document_id sequence (((d, _), row) ∷ rows) =
    (bytes_eq d document_id && Prelude.◌==◌ row.acceptance_sequence sequence)
    || sequence_taken document_id sequence rows

-- `INSERT INTO updates`, whose acceptance sequences are unique in a document.
unfoldable pub insert_update :
    DocumentId
    → UpdateId
    → UpdateRow
    → BTreeMap (DocumentId × UpdateId) UpdateRow
    → Result StoreError (BTreeMap (DocumentId × UpdateId) UpdateRow)
unfolding sequence_taken
insert_update document_id update_id row rows =
    if sequence_taken document_id row.acceptance_sequence rows
    then err sqlite
    else insert_row (document_id, update_id) row rows

-- The insertions of `accept_internal`, for a sequence and the one that follows it.
unfoldable pub insert_accepted :
    Tables
    → Peers
    → ImmutableUpdate
    → Bytes
    → AcceptanceSequence
    → AcceptanceSequence
    → Result StoreError Tables
insert_accepted t peers update encoded_record sequence following = do
  updates ←
      insert_update update.document_id update.update_id
        (record { acceptance_sequence = sequence; encoded_record = encoded_record }) t.updates
  ranges ←
      insert_ranges update.document_id update.update_id update.public_loro_ranges.ranges
        t.update_loro_ranges
  ok (record t {
    document_acceptance_sequences =
        insert update.document_id following t.document_acceptance_sequences;
    document_loro_peers = peers;
    updates = updates;
    update_loro_ranges = ranges;
  })

abbrev pub next_sequence_of : Tables → DocumentId → AcceptanceSequence
next_sequence_of t document_id = elim (get document_id t.document_acceptance_sequences) [
  | none ↦ first
  | some n ↦ n
]

-- `accept_internal`, from the authorization on.
unfoldable pub accept_authorized :
    Tables → ImmutableUpdate → Bytes → Result StoreError (StoreAcceptOutcome × Tables)
accept_authorized t update encoded_record =
    elim (get (update.document_id, update.update_id) t.updates) [
      | some existing ↦ ok (
        if bytes_eq existing.encoded_record encoded_record
            then StoreAcceptOutcome.already_present
            else StoreAcceptOutcome.identifier_conflict,
        t,
      )
      | none ↦
          let sequence = next_sequence_of t update.document_id in
          elim (checked_next sequence) [
            | none ↦ ok (StoreAcceptOutcome.counter_exhausted, t)
            | some following ↦ elim (insert_document_loro_peers t update) [
              | none ↦ ok (StoreAcceptOutcome.limit_exceeded, t)
              | some peers ↦
                  insert_accepted t peers update encoded_record sequence following >>= λ committed.
                  ok (StoreAcceptOutcome.inserted, committed)
            ]
          ]
    ]

unfoldable pub fetch_in : Tables → DocumentId → UpdateId → Result StoreError (Option Bytes)
fetch_in t document_id update_id = elim (get (document_id, update_id) t.updates) [
  | none ↦ ok none
  | some row ↦ elim (decode_update_record row.encoded_record) [
    | err _ ↦ err corrupt
    | ok update ↦
        if not (bytes_eq update.document_id document_id)
          || not (bytes_eq update.update_id update_id)
        then err corrupt
        else ok (some update.encrypted_payload)
  ]
]

module _ (sha256 : Bytes → Bytes) where
  -- `accept_internal`.
  unfoldable pub accept :
      Tables
      → CapabilityId
      → Authenticator
      → ImmutableUpdate
      → Bytes
      → Result StoreError (StoreAcceptOutcome × Tables)
  accept t capability_id authenticator update encoded_record =
      if not (authorize sha256 t update.document_id capability_id authenticator Operation.update)
      then ok (StoreAcceptOutcome.authorization_denied, t)
      else accept_authorized t update encoded_record

  unfoldable pub fetch_authorized :
      Tables
      → DocumentId
      → UpdateId
      → CapabilityId
      → Authenticator
      → Result StoreError (StoreReadOutcome (Option Bytes))
  fetch_authorized t document_id update_id capability_id authenticator =
      if not (authorize sha256 t document_id capability_id authenticator Operation.read)
      then ok denied
      else fetch_in t document_id update_id >>= λ payload. ok (StoreReadOutcome.authorized payload)
