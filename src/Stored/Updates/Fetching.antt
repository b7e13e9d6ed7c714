-- ===== src/Stored/Updates/Fetching.antt =====
-- crates/renee-stored/src/store.rs: fetches and retries after an acceptance.
use renee.Prelude.{
  ◌≡◌, ◌≢◌, refl, sym, ap, ◌∙◌, inl, inr, Option-cases, Result-cases, none, some, ok, arith,
}
use renee.Bytes.{Bytes}
use renee.Bytes.Words.{bytes_eq_refl}
use renee.Types.{DocumentId, UpdateId}
use renee.Types.AcceptanceSequence.{AcceptanceSequence, checked_next}
use renee.Types.ImmutableUpdate.{ImmutableUpdate}
use renee.Wire.Update.Records.{decode_update_record}
use renee.Stored.Tables.{Tables, UpdateRow, insert_row}
use renee.Maps.{BTreeMap, get, insert, get-insert}
use renee.Maps.Keys
use renee.Maps.Keys.{bytes_key, nat_key, pair_key, ==_refl, ==_false}
use renee.Stored.Updates.{
  inserted, already_present, Peers, accept_authorized, insert_accepted, insert_update,
  insert_ranges, next_sequence_of, insert_document_loro_peers, fetch_in,
}

abbrev row_for : Tables → ImmutableUpdate → Bytes → UpdateRow
row_for t u encoded = record {
  acceptance_sequence = next_sequence_of t u.document_id;
  encoded_record = encoded;
}

-- What an insertion of `accept_authorized` did.
pub record Accepted (t : Tables) (u : ImmutableUpdate) (encoded : Bytes) (after : Tables)
    : Type 0 where
  pub new : get {K = DocumentId × UpdateId} (u.document_id, u.update_id) t.updates ≡ none
  pub updates :
      after.updates
      ≡ insert {K = DocumentId × UpdateId}
          (u.document_id, u.update_id)
          (row_for t u encoded)
          t.updates
  pub following :
      checked_next (next_sequence_of t u.document_id)
      ≡ get u.document_id after.document_acceptance_sequences

insert_update_ok :
    (d : DocumentId) (id : UpdateId) (row : UpdateRow)
    (rows after : BTreeMap (DocumentId × UpdateId) UpdateRow)
    → insert_update d id row rows ≡ ok after
    → after ≡ insert {K = DocumentId × UpdateId} (d, id) row rows
unfolding insert_update insert_row
insert_update_ok d id row rows after h = ground arith

insert_accepted_ok :
    (t : Tables) (peers : Peers) (u : ImmutableUpdate) (encoded : Bytes)
    (sequence following : AcceptanceSequence) (after : Tables)
    → insert_accepted t peers u encoded sequence following ≡ ok after
    → (after.updates
        ≡ insert {K = DocumentId × UpdateId}
            (u.document_id, u.update_id)
            (record { acceptance_sequence = sequence; encoded_record = encoded })
            t.updates)
      × (after.document_acceptance_sequences
          ≡ insert u.document_id following t.document_acceptance_sequences)
unfolding insert_accepted
insert_accepted_ok t peers u encoded sequence following after h =
    let row : UpdateRow = record { acceptance_sequence = sequence; encoded_record = encoded } in
    elim (Result-cases (insert_update u.document_id u.update_id row t.updates)) [
      | inr (e, bad) ↦ absurd (ground (arith, h, bad))
      | inl (updates, good) ↦
          elim (Result-cases (
            insert_ranges u.document_id u.update_id u.public_loro_ranges.ranges
              t.update_loro_ranges)) [
                | inr (e, bad) ↦ absurd (ground (arith, h, good, bad))
                | inl (ranges, fine) ↦
                    let put =
                      insert_update_ok u.document_id u.update_id row t.updates updates good in
                    ground (arith, h, good, fine, put)
              ]
    ]

get_inserted :
    {K V : Type 0} ⦃o : Keys.Key K⦄ (k : K) (v : V) (m : BTreeMap K V)
    → get k (insert k v m) ≡ some v
get_inserted k v m = rw (get-insert k k v m, ==_refl k) refl

accepted_parts :
    (t after : Tables) (u : ImmutableUpdate) (encoded : Bytes)
    → accept_authorized t u encoded ≡ ok (inserted, after)
    → Accepted t u encoded after
unfolding accept_authorized
accepted_parts t after u encoded h =
    elim (Option-cases (get {K = DocumentId × UpdateId} (u.document_id, u.update_id) t.updates)) [
      | inr (row, known) ↦ absurd (ground (arith, h, known))
      | inl new ↦ elim (Option-cases (checked_next (next_sequence_of t u.document_id))) [
        | inl last ↦ absurd (ground (arith, h, new, last))
        | inr (following, more) ↦ elim (Option-cases (insert_document_loro_peers t u)) [
          | inl full ↦ absurd (ground (arith, h, new, more, full))
          | inr (peers, room) ↦
              elim (Result-cases
                (insert_accepted t peers u encoded (next_sequence_of t u.document_id) following)) [
                  | inr (e, bad) ↦ absurd (ground (arith, h, new, more, room, bad))
                  | inl (committed, good) ↦
                      let same : committed ≡ after = ground (arith, h, new, more, room, good) in
                      let (updates, sequences) =
                        insert_accepted_ok t peers u encoded (next_sequence_of t u.document_id)
                          following committed good in
                      let put : get u.document_id after.document_acceptance_sequences
                          ≡ some following =
                        ap (λ x. get u.document_id x.document_acceptance_sequences) (sym same)
                        ∙ ap (λ x. get u.document_id x) sequences
                        ∙ get_inserted u.document_id following t.document_acceptance_sequences in
                      record {
                        new = new;
                        updates = ap (λ x. x.updates) (sym same) ∙ updates;
                        following = more ∙ sym put;
                      }
                ]
        ]
      ]
    ]

get_other :
    (t : Tables) (u : ImmutableUpdate) (row : UpdateRow) (d : DocumentId) (id : UpdateId)
    → ◌≢◌ {A = DocumentId × UpdateId} (d, id) (u.document_id, u.update_id)
    → get {K = DocumentId × UpdateId}
        (d, id)
        (insert {K = DocumentId × UpdateId} (u.document_id, u.update_id) row t.updates)
      ≡ get {K = DocumentId × UpdateId} (d, id) t.updates
get_other t u row d id apart =
    rw
      (
        get-insert {K = DocumentId × UpdateId} (u.document_id, u.update_id) (d, id) row t.updates,
        ==_false {K = DocumentId × UpdateId} (d, id) (u.document_id, u.update_id) apart,
      )
      refl

fetch_found :
    (t : Tables) (u : ImmutableUpdate) (row : UpdateRow)
    → get {K = DocumentId × UpdateId} (u.document_id, u.update_id) t.updates ≡ some row
    → decode_update_record row.encoded_record ≡ ok u
    → fetch_in t u.document_id u.update_id ≡ ok (some u.encrypted_payload)
unfolding fetch_in
fetch_found t u row found decoded =
    rw (found, fetch_in, decoded, bytes_eq_refl u.document_id, bytes_eq_refl u.update_id) refl

accept_known :
    (t : Tables) (u : ImmutableUpdate) (encoded : Bytes) (row : UpdateRow)
    → get {K = DocumentId × UpdateId} (u.document_id, u.update_id) t.updates ≡ some row
    → row.encoded_record ≡ encoded
    → accept_authorized t u encoded ≡ ok (already_present, t)
unfolding accept_authorized
accept_known t u encoded row found same =
    rw (found, accept_authorized, same, bytes_eq_refl encoded) refl

-- After an update is inserted by its own record, a fetch answers its payload, the same acceptance
-- again answers that it is present and keeps the tables, and the row of every other update is the
-- one before.
pub accepted-fetch :
    (t after : Tables) (u : ImmutableUpdate) (encoded : Bytes)
    → decode_update_record encoded ≡ ok u
    → accept_authorized t u encoded ≡ ok (inserted, after)
    → (fetch_in after u.document_id u.update_id ≡ ok (some u.encrypted_payload))
      × (accept_authorized after u encoded ≡ ok (already_present, after))
      × ((d : DocumentId) (id : UpdateId)
          → ◌≢◌ {A = DocumentId × UpdateId} (d, id) (u.document_id, u.update_id)
          → get {K = DocumentId × UpdateId} (d, id) after.updates
            ≡ get {K = DocumentId × UpdateId} (d, id) t.updates)
accepted-fetch t after u encoded decoded h =
    let a = accepted_parts t after u encoded h in
    let found : get {K = DocumentId × UpdateId} (u.document_id, u.update_id) after.updates
        ≡ some (row_for t u encoded) =
      ap (λ m. get {K = DocumentId × UpdateId} (u.document_id, u.update_id) m) a.updates
      ∙ get_inserted {K = DocumentId × UpdateId} (u.document_id, u.update_id) (row_for t u encoded)
          t.updates in
    (
      fetch_found after u (row_for t u encoded) found decoded,
      accept_known after u encoded (row_for t u encoded) found refl,
      λ d id apart.
          ap (λ m. get {K = DocumentId × UpdateId} (d, id) m) a.updates
          ∙ get_other t u (row_for t u encoded) d id apart,
    )
