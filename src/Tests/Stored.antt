-- ===== src/Tests/Stored.antt =====
-- A document with a root capability and one descendant in the tables of the store. The digest of
-- these tests is the length of what it is given.
use renee.Prelude.{◌≡◌, refl, true, false, length, none, some, [], ◌∷◌, ok}
use renee.Bytes.{Bytes, bytes_eq}
use renee.Types.{DocumentId, CapabilityId, RequestId, Authenticator, UpdateId}
use renee.Types.ImmutableUpdate.{ImmutableUpdate}
use renee.Types.Operations.{Operation, OperationSet}
use renee.Maps.{get, contains_key, insert}
use renee.Maps.Keys.{nat_key, bytes_key, pair_key, compare_bytes}
use renee.Stored.Verifier.{verify_live, derive_domain}
use renee.Stored.Tables.{Tables, CapabilityRow, insert_row}
use renee.Stored.Authority.{
  authorize, authorize_document, authorize_from, presented, operation_code, document_authorization,
  is_descendant_or_self, descends_from,
}
use renee.Stored.Control.{insert_control_receipt, set_control_revision, StoreControlOutcome}
use renee.Stored.Control.Commands.{
  in_subtree, revoke_rows, commit_revocation, preflight_revoke_capability, revoke_capability,
  grant_capability,
}
use renee.Stored.Control.Preflight.{Promises, preflight_agrees}
use renee.Stored.Refusals.{IsNew, revoked-refused}
use renee.Stored.Control.Revoking.{revoked-denied, revoked-kept}
use renee.Stored.Updates.{StoreAcceptOutcome, accept, StoreReadOutcome, fetch_authorized}

abbrev pub digest : Bytes → Bytes
digest bs = length bs ∷ []

abbrev pub document_id : DocumentId
document_id = 9 ∷ []

abbrev pub root_id : CapabilityId
root_id = 1 ∷ []

abbrev pub child_id : CapabilityId
child_id = 2 ∷ []

abbrev pub root_secret : Authenticator
root_secret = 3 ∷ []

abbrev child_secret : Authenticator
child_secret = 4 ∷ 4 ∷ []

abbrev pub request_id : RequestId
request_id = 6 ∷ []

abbrev root_row : CapabilityRow
root_row = record {
  parent_capability_id = none;
  live_verifier = 37 ∷ [];
  receipt_verifier = 40 ∷ [];
  state = 0;
  created_revision = 1;
}

abbrev child_row : CapabilityRow
child_row = record {
  parent_capability_id = some root_id;
  live_verifier = 38 ∷ [];
  receipt_verifier = 41 ∷ [];
  state = 0;
  created_revision = 2;
}

abbrev pub tables : Tables
tables = record {
  create_authorities = [];
  documents =
      (document_id, record { state = 0; control_revision = 2; root_capability_id = root_id }) ∷ [];
  capabilities = ((document_id, root_id), root_row) ∷ ((document_id, child_id), child_row) ∷ [];
  capability_operations =
      (((document_id, root_id), 0), tt)
      ∷ (((document_id, root_id), 7), tt)
      ∷ (((document_id, root_id), 8), tt)
      ∷ (((document_id, child_id), 0), tt)
      ∷ [];
  control_receipts = [];
  create_receipts = [];
  document_acceptance_sequences = [];
  updates = [];
  update_loro_ranges = [];
  document_loro_peers = [];
}

preflight_agrees_example :
    Promises tables
      (preflight_revoke_capability digest tables document_id root_id root_secret request_id
        child_id)
      (revoke_capability digest tables document_id root_id root_secret request_id child_id)
preflight_agrees_example =
    preflight_agrees digest tables document_id root_id root_secret request_id child_id

abbrev granted_tables : Tables
granted_tables = record tables {
  documents =
      (document_id, record { state = 0; control_revision = 3; root_capability_id = root_id }) ∷ [];
  capabilities =
      ((document_id, root_id), root_row)
      ∷ ((document_id, child_id), child_row)
      ∷ ((document_id, 7 ∷ []), record child_row { created_revision = 3 })
      ∷ [];
  capability_operations =
      (((document_id, root_id), 0), tt)
      ∷ (((document_id, root_id), 7), tt)
      ∷ (((document_id, root_id), 8), tt)
      ∷ (((document_id, child_id), 0), tt)
      ∷ (((document_id, 7 ∷ []), 0), tt)
      ∷ [];
  control_receipts =
      (
        ((document_id, root_id), request_id),
        record { operation = 0; normalized_input = 7 ∷ 38 ∷ 41 ∷ 0 ∷ 1 ∷ [] },
      )
      ∷ [];
}

abbrev revoked_tables : Tables
revoked_tables = record tables {
  documents =
      (document_id, record { state = 0; control_revision = 3; root_capability_id = root_id }) ∷ [];
  capabilities =
      ((document_id, root_id), root_row)
      ∷ ((document_id, child_id), record child_row { state = 1 })
      ∷ [];
  control_receipts =
      (((document_id, root_id), request_id), record { operation = 1; normalized_input = child_id })
      ∷ [];
}

revocation_committed :
    commit_revocation tables document_id root_id request_id child_id 3 ≡ ok revoked_tables
unfolding commit_revocation insert_control_receipt set_control_revision insert_row contains_key get
    insert revoke_rows in_subtree descends_from bytes_eq compare_bytes
revocation_committed = refl

revoked-denied_example :
    authorize digest revoked_tables document_id child_id child_secret Operation.read ≡ false
revoked-denied_example =
    revoked-denied digest tables revoked_tables document_id root_id request_id child_id 3 child_id
      child_secret Operation.read revocation_committed
      (unfold is_descendant_or_self descends_from bytes_eq in refl)

root_apart : is_descendant_or_self tables document_id child_id root_id ≡ false
unfolding is_descendant_or_self descends_from bytes_eq get compare_bytes
root_apart = refl

root_authorized : authorize digest tables document_id root_id root_secret Operation.read ≡ true
unfolding authorize authorize_document authorize_from presented operation_code
    document_authorization verify_live derive_domain contains_key get bytes_eq compare_bytes
root_authorized = refl

revoked-kept_example :
    authorize digest revoked_tables document_id root_id root_secret Operation.read ≡ true
revoked-kept_example =
    revoked-kept digest tables revoked_tables document_id root_id request_id child_id 3 root_id
      root_secret Operation.read revocation_committed root_apart root_authorized

revoked-refused_example :
    ((u : ImmutableUpdate) (encoded : Bytes)
      → u.document_id ≡ document_id
      → accept digest revoked_tables child_id child_secret u encoded
        ≡ ok (StoreAcceptOutcome.authorization_denied, revoked_tables))
    × ((id : UpdateId)
        → fetch_authorized digest revoked_tables document_id id child_id child_secret
          ≡ ok StoreReadOutcome.denied)
    × ((r : RequestId) (descendant : CapabilityId) (b : Authenticator) (o : OperationSet)
        → IsNew revoked_tables document_id child_id r
        → grant_capability digest revoked_tables document_id child_id child_secret r descendant b o
          ≡ ok (StoreControlOutcome.authorization_denied, revoked_tables))
    × ((r : RequestId) (other : CapabilityId)
        → IsNew revoked_tables document_id child_id r
        → revoke_capability digest revoked_tables document_id child_id child_secret r other
          ≡ ok (StoreControlOutcome.authorization_denied, revoked_tables))
revoked-refused_example =
    revoked-refused digest tables revoked_tables document_id root_id request_id child_id 3 child_id
      child_secret revocation_committed
      (unfold is_descendant_or_self descends_from bytes_eq in refl)
