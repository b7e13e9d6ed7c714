-- ===== src/Tests/Update.antt =====
-- Two updates of one document.
use renee.Prelude.{none, List, ◌≡◌, ◌↔◌, refl, some, [], ◌∷◌}
use renee.Bytes.{bytes_eq}
use renee.Types.{DocumentId}
use renee.Types.AcceptanceSequence.{checked_next}
use renee.Types.ImmutableUpdate.{ImmutableUpdate}
use renee.Maps.{get, insert, contains_key}
use renee.Maps.Keys.{bytes_key, nat_key, pair_key, compare_bytes}
use renee.Model.Update.{
  UpdateModel, AcceptOutcome, default, accept, accept_at, fetch, acceptance_sequence,
  additional_peer_count, extend, next_sequence_of, update_eq, ranges_eq,
}
use renee.Model.Update.Accepting.{accepted}
use renee.Types.LoroOplogVersion.{LoroOplogVersion}
use renee.Types.AcceptanceSequence.{AcceptanceSequence}
use renee.Types.ImmutableUpdate.{UpdateMetadata}
use renee.Model.Update.{acceptance_window, range, window_entries, metadata_of, vector_backfill}
use renee.Maps.{Member}
use renee.Model.Update.Backfill.{HasBeyond, vector_backfill_iff}
use renee.Model.Update.Ordering.{IsOrdered, default-IsOrdered, inserted-IsOrdered}

abbrev document_id : DocumentId
document_id = 1 ∷ []

abbrev first_update : ImmutableUpdate
first_update = record {
  document_id = document_id;
  encrypted_payload = 7 ∷ 8 ∷ [];
  public_loro_ranges = record {
    ranges = (record { end_counter = 2; peer_id = 5; start_counter = 0 }) ∷ [];
  };
  update_id = 2 ∷ [];
}

-- The same identifier with another payload.
abbrev forged_update : ImmutableUpdate
forged_update = record first_update { encrypted_payload = 9 ∷ [] }

abbrev one_update : UpdateModel
one_update = record {
  acceptance_order = ((document_id, 1), 2 ∷ []) ∷ [];
  document_peers = (document_id, (5, tt) ∷ []) ∷ [];
  next_sequences = (document_id, 2) ∷ [];
  updates = ((document_id, 2 ∷ []), record { sequence = 1; update = first_update }) ∷ [];
}

accepting : accept default first_update ≡ (AcceptOutcome.inserted, one_update)
unfolding accept accept_at checked_next additional_peer_count extend contains_key get insert
    compare_bytes
accepting = refl

first_found :
    get (document_id, 2 ∷ []) one_update.updates
    ≡ some (record { sequence = 1; update = first_update })
unfolding get compare_bytes
first_found = refl

forging : accept one_update forged_update ≡ (AcceptOutcome.identifier_conflict, one_update)
unfolding accept update_eq ranges_eq get compare_bytes bytes_eq
forging = refl

inserted-IsOrdered_example : IsOrdered one_update
inserted-IsOrdered_example =
    inserted-IsOrdered default one_update first_update accepting default-IsOrdered

accepted_example :
    (fetch one_update document_id (2 ∷ []) ≡ some (7 ∷ 8 ∷ []))
    × (acceptance_sequence one_update document_id (2 ∷ [])
        ≡ some (next_sequence_of default document_id))
    × (accept one_update first_update ≡ (AcceptOutcome.already_present, one_update))
accepted_example = accepted default one_update first_update accepting

abbrev first_entry : AcceptanceSequence × UpdateMetadata
first_entry = (
  1,
  record {
    encrypted_payload_length = 2;
    public_loro_ranges = first_update.public_loro_ranges;
    update_id = 2 ∷ [];
  },
)

abbrev nothing_covered : LoroOplogVersion
nothing_covered = record { entries = [] }

whole_window : acceptance_window one_update document_id none 1 ≡ some (first_entry ∷ [])
unfolding acceptance_window range window_entries metadata_of get compare_bytes bytes_eq
whole_window = refl

vector_backfill_iff_example :
    (fs : List (AcceptanceSequence × UpdateMetadata)) × (vector_backfill one_update document_id
        nothing_covered none 1
      ≡ some fs)
    × ((e : AcceptanceSequence × UpdateMetadata)
        → Member e fs
          ↔ (Member e (first_entry ∷ []) × HasBeyond nothing_covered e.1.public_loro_ranges.ranges))
vector_backfill_iff_example =
    vector_backfill_iff one_update document_id nothing_covered none 1 (first_entry ∷ [])
      whole_window
