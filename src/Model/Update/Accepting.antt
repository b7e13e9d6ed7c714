-- ===== src/Model/Update/Accepting.antt =====
-- The branches of `UpdateModel::accept` in crates/renee-model/src/lib.rs.
use renee.Prelude.{◌+◌, ◌^◌, ◌<◌, ◌≡◌, ◌≢◌, ◌↔◌, refl, ◌∙◌, if◌then◌else◌, none, some, arith}
use renee.Types.{DocumentId, UpdateId}
use renee.Types.AcceptanceSequence.{AcceptanceSequence, checked_next}
use renee.Types.ImmutableUpdate.{ImmutableUpdate}
use renee.Maps.{get, get-insert}
use renee.Maps.Keys.{nat_key, bytes_key, pair_key, ◌==◌, ==→eq, ==_refl}
use renee.Model.Update.{
  UpdateModel, AcceptedUpdate, AcceptOutcome, next_sequence_of, accept_at, accept, fetch,
  acceptance_sequence,
}
use renee.Model.Update.Equality.{update_eq_iff}

-- An update that is already there is recognised: it is present if it is the same, a conflict if not,
-- and nothing changes.
pub accept_known :
    (m : UpdateModel) (a : AcceptedUpdate) (u : ImmutableUpdate)
    → get (u.document_id, u.update_id) m.updates ≡ some a
    → ((accept m u ≡ (AcceptOutcome.already_present, m)) ↔ (a.update ≡ u))
      × ((accept m u ≡ (AcceptOutcome.identifier_conflict, m)) ↔ (a.update ≢ u))
unfolding accept
accept_known m a u found = (
  (λ h. ground (arith, update_eq_iff a.update u), λ h. ground (arith, update_eq_iff a.update u)),
  (λ h. ground (arith, update_eq_iff a.update u), λ h. ground (arith, update_eq_iff a.update u)),
)

-- Unless the outcome is `inserted`, the model is as it was.
accept_refused :
    (m : UpdateModel) (u : ImmutableUpdate)
    → (accept m u).0 ≢ AcceptOutcome.inserted
    → (accept m u).1 ≡ m
unfolding accept accept_at
accept_refused m u h = ground arith

module _ (m n : UpdateModel) (u : ImmutableUpdate)
    (done : accept m u ≡ (AcceptOutcome.inserted, n)) where
  abbrev pub new : AcceptedUpdate
  new = record { sequence = next_sequence_of m u.document_id; update = u }

  pub fresh : get (u.document_id, u.update_id) m.updates ≡ none
  unfolding accept
  fresh = ground arith

  pub counted : next_sequence_of m u.document_id + 1 < 2 ^ 64
  unfolding accept checked_next
  counted = ground arith

  pub updates_after :
      (k : DocumentId × UpdateId)
      → get k n.updates ≡ (if k == (u.document_id, u.update_id) then some new else get k m.updates)
  unfolding accept accept_at
  updates_after k = ground (arith, get-insert (u.document_id, u.update_id) k new m.updates)

  pub order_after :
      (k : DocumentId × AcceptanceSequence)
      → get k n.acceptance_order ≡ (
          if k == (u.document_id, next_sequence_of m u.document_id)
          then some u.update_id
          else get k m.acceptance_order)
  unfolding accept accept_at
  order_after k = ground (
    arith,
    get-insert (u.document_id, next_sequence_of m u.document_id) k u.update_id m.acceptance_order,
  )

  pub next_after :
      (d : DocumentId)
      → next_sequence_of n d
        ≡ (if d == u.document_id then next_sequence_of m d + 1 else next_sequence_of m d)
  unfolding accept accept_at checked_next
  next_after d = ground (
    arith,
    get-insert u.document_id d (next_sequence_of m u.document_id + 1) m.next_sequences,
    ==→eq d u.document_id,
  )

  -- An update that was just accepted is fetched with its payload under the document's next sequence,
  -- and accepting it again answers that it is present and changes nothing.
  pub accepted :
      (fetch n u.document_id u.update_id ≡ some u.encrypted_payload)
      × (acceptance_sequence n u.document_id u.update_id ≡ some (next_sequence_of m u.document_id))
      × (accept n u ≡ (AcceptOutcome.already_present, n))
  unfolding fetch acceptance_sequence
  accepted =
      let here : get (u.document_id, u.update_id) n.updates ≡ some new =
        updates_after (u.document_id, u.update_id)
        ∙ rw (==_refl {K = DocumentId × UpdateId} (u.document_id, u.update_id)) in
      (cc here, cc here, (accept_known n new u here).0.1 refl)

  -- After an update was accepted, every other one is fetched as before, under the sequence that it
  -- had.
  accepted_frame :
      (d : DocumentId) (i : UpdateId)
      → ◌≢◌ {A = DocumentId × UpdateId} (d, i) (u.document_id, u.update_id)
      → (fetch n d i ≡ fetch m d i) × (acceptance_sequence n d i ≡ acceptance_sequence m d i)
  unfolding fetch acceptance_sequence
  accepted_frame d i other =
      let same : get (d, i) n.updates ≡ get (d, i) m.updates = ground (
        arith,
        updates_after (d, i),
        ==→eq {K = DocumentId × UpdateId} (d, i) (u.document_id, u.update_id),
      ) in
      (cc same, cc same)
