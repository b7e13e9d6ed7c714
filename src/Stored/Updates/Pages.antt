-- ===== src/Stored/Updates/Pages.antt =====
-- crates/renee-stored/src/store.rs: one page of an enumeration and of a vector backfill, over the
-- updates of a snapshot.
use renee.Prelude.{
  ℕ, zero, suc, ◌+◌, ◌-◌, ◌^◌, min, Bool, true, false, not, ◌&&◌, ◌||◌, ltb, leb, ◌==◌,
  if◌then◌else◌, length, Option, none, some, List, [], ◌∷◌, Result, ok, err,
}
use renee.Bytes.{Bytes, bytes_eq}
use renee.Types.{DocumentId, UpdateId}
use renee.Types.AcceptanceSequence.{AcceptanceSequence, origin}
use renee.Types.ImmutableUpdate.{ImmutableUpdate, UpdateMetadata}
use renee.Types.LoroRange.{LoroRange}
use renee.Types.LoroOplogVersion.{LoroOplogVersion, end_counter_for}
use renee.Wire.Update.Records.{decode_update_record, metadata_encoded_length}
use renee.Maps.{BTreeMap}
use renee.Stored.Tables.{StoreError, invalid_cursor, corrupt, UpdateRow, Tables, ◌>>=◌}

abbrev pub max_enumeration_scan_records : ℕ
max_enumeration_scan_records = 64

abbrev pub max_vector_scan_records : ℕ
max_vector_scan_records = 64

pub record StoredUpdatePage : Type 0 where
  pub has_more : Bool
  pub next_ordinal : ℕ
  pub updates : List UpdateMetadata

pub record StoredVectorBackfillPage : Type 0 where
  pub has_more : Bool
  pub last_examined_sequence : Option AcceptanceSequence
  pub updates : List UpdateMetadata

-- A row of `updates` at its position in the acceptance order.
pub record Accepted : Type 0 where
  pub sequence : AcceptanceSequence
  pub update_id : UpdateId
  pub encoded_record : Bytes

unfoldable pub insert_sorted : Accepted → List Accepted → List Accepted
insert_sorted a [] = a ∷ []
insert_sorted a (b ∷ bs) =
    let rest = insert_sorted a bs in if ltb a.sequence b.sequence then a ∷ (b ∷ bs) else b ∷ rest

-- `SELECT … WHERE document_id = ?1 ORDER BY acceptance_sequence`.
unfoldable pub accepted_rows :
    DocumentId → BTreeMap (DocumentId × UpdateId) UpdateRow → List Accepted
unfolding insert_sorted
accepted_rows document_id [] = []
accepted_rows document_id (((d, id), row) ∷ rows) =
    let rest = accepted_rows document_id rows in
    if bytes_eq d document_id
    then insert_sorted
        (record {
          sequence = row.acceptance_sequence;
          update_id = id;
          encoded_record = row.encoded_record;
        })
        rest
    else rest

-- `WHERE document_id = ?1 AND acceptance_sequence = ?2`.
unfoldable pub row_at : AcceptanceSequence → List Accepted → Option Accepted
row_at sequence [] = none
row_at sequence (a ∷ rows) = if a.sequence == sequence then some a else row_at sequence rows

abbrev last_sequence : List Accepted → Option AcceptanceSequence
last_sequence [] = none
last_sequence (a ∷ []) = some a.sequence
last_sequence (a ∷ (b ∷ rows)) = last_sequence (b ∷ rows)

-- The first row of the descending order.
unfoldable pub high_water_sequence_in : Tables → DocumentId → Option AcceptanceSequence
high_water_sequence_in t document_id = last_sequence (accepted_rows document_id t.updates)

unfoldable pub metadata : ImmutableUpdate → Result StoreError UpdateMetadata
metadata update =
    if not (ltb (length update.encrypted_payload) (2 ^ 32))
    then err corrupt
    else ok (record {
      encrypted_payload_length = length update.encrypted_payload;
      public_loro_ranges = update.public_loro_ranges;
      update_id = update.update_id;
    })

-- The record of one row, checked against the index.
unfoldable pub indexed_update : DocumentId → Accepted → Result StoreError ImmutableUpdate
indexed_update document_id row = elim (decode_update_record row.encoded_record) [
  | err _ ↦ err corrupt
  | ok update ↦
      if not (bytes_eq update.document_id document_id)
      then err corrupt
      else if not (bytes_eq update.update_id row.update_id)
      then err corrupt
      else ok update
]

-- The `while` loop: `rounds` is `scan_end` less the ordinal. It answers the next ordinal and the
-- metadata that follow those already selected.
unfoldable pub enumerate_from :
    ℕ
    → DocumentId
    → List Accepted
    → AcceptanceSequence
    → ℕ
    → ℕ
    → ℕ
    → Result StoreError (ℕ × List UpdateMetadata)
unfolding indexed_update metadata
enumerate_from zero document_id rows lower ordinal used limit = ok (ordinal, [])
enumerate_from (suc rounds) document_id rows lower ordinal used limit =
    if not (ltb (lower + ordinal + 1) (2 ^ 64))
    then err corrupt
    else elim (row_at (lower + ordinal + 1) rows) [
      | none ↦ err corrupt
      | some row ↦ indexed_update document_id row >>= λ update. metadata update >>= λ m.
          elim (ltb limit (used + metadata_encoded_length m)) [
            | true ↦ ok (ordinal, [])
            | false ↦
                enumerate_from rounds document_id rows lower (ordinal + 1)
                  (used + metadata_encoded_length m) limit
                >>= λ rest. ok (rest.0, m ∷ rest.1)
          ]
    ]

unfoldable pub enumerate_in :
    Tables
    → DocumentId
    → AcceptanceSequence
    → AcceptanceSequence
    → ℕ
    → ℕ
    → Result StoreError StoredUpdatePage
unfolding enumerate_from
enumerate_in t document_id lower terminal next_ordinal limit =
    if not (ltb lower terminal)
    then err invalid_cursor
    else if leb (terminal - lower) next_ordinal
    then err invalid_cursor
    else enumerate_from
        (min (min (next_ordinal + max_enumeration_scan_records) (2 ^ 64 - 1)) (terminal - lower)
          - next_ordinal)
        document_id (accepted_rows document_id t.updates) lower next_ordinal 0 limit
      >>= λ scan. ok (record {
        has_more = ltb scan.0 (terminal - lower);
        next_ordinal = scan.0;
        updates = scan.1;
      })

abbrev pub empty_stored_update_page : StoredUpdatePage
empty_stored_update_page = record { has_more = false; next_ordinal = 0; updates = [] }

-- Whether a range of the update ends beyond the version.
unfoldable pub any_beyond : LoroOplogVersion → List LoroRange → Bool
any_beyond version [] = false
any_beyond version (r ∷ rs) =
    ltb (end_counter_for version r.peer_id) r.end_counter || any_beyond version rs

-- `acceptance_sequence > ?2 AND acceptance_sequence <= ?3`.
unfoldable pub rows_between :
    AcceptanceSequence → AcceptanceSequence → List Accepted → List Accepted
rows_between position terminal [] = []
rows_between position terminal (a ∷ rows) =
    let rest = rows_between position terminal rows in
    if ltb position a.sequence && leb a.sequence terminal then a ∷ rest else rest

-- The `while` loop: `budget` is `MAX_VECTOR_SCAN_RECORDS` less `scanned`.
unfoldable pub vector_from :
    ℕ
    → DocumentId
    → LoroOplogVersion
    → Option AcceptanceSequence
    → ℕ
    → ℕ
    → List Accepted
    → Result StoreError StoredVectorBackfillPage
unfolding any_beyond metadata
vector_from budget document_id version last used limit [] =
    ok (record { has_more = false; last_examined_sequence = last; updates = [] })
vector_from zero document_id version last used limit (a ∷ rows) =
    ok (record { has_more = true; last_examined_sequence = last; updates = [] })
vector_from (suc budget) document_id version last used limit (a ∷ rows) =
    elim (decode_update_record a.encoded_record) [
      | err _ ↦ err corrupt
      | ok update ↦
          if not (bytes_eq update.document_id document_id)
          then err corrupt
          else elim (any_beyond version update.public_loro_ranges.ranges) [
            | false ↦ vector_from budget document_id version (some a.sequence) used limit rows
            | true ↦ metadata update >>= λ m. elim (ltb limit (used + metadata_encoded_length m)) [
              | true ↦ ok (record { has_more = true; last_examined_sequence = last; updates = [] })
              | false ↦
                  vector_from budget document_id version (some a.sequence)
                    (used + metadata_encoded_length m) limit rows
                  >>= λ page. ok (record page { updates = m ∷ page.updates })
            ]
          ]
    ]

-- Whether a position is the origin or one that the document has.
abbrev known_position : AcceptanceSequence → List Accepted → Bool
known_position sequence rows =
    sequence == origin || elim (row_at sequence rows) [ none ↦ false | some _ ↦ true ]

unfoldable pub vector_backfill_in :
    Tables
    → DocumentId
    → AcceptanceSequence
    → AcceptanceSequence
    → LoroOplogVersion
    → ℕ
    → Result StoreError StoredVectorBackfillPage
unfolding vector_from
vector_backfill_in t document_id position terminal version limit =
    let rows = accepted_rows document_id t.updates in
    if terminal == origin || ltb terminal position
    then err invalid_cursor
    else if not (known_position position rows) || not (known_position terminal rows)
    then err invalid_cursor
    else vector_from max_vector_scan_records document_id version none 0 limit
        (rows_between position terminal rows)
