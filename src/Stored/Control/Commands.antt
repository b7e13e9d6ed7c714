-- ===== src/Stored/Control/Commands.antt =====
-- crates/renee-stored/src/store.rs: `grant_capability`, `preflight_revoke_capability` and
-- `revoke_capability`. A command returns its outcome and the tables it leaves.
use renee.Prelude.{
  ℕ, ◌+◌, Bool, true, false, not, ◌&&◌, ◌||◌, if◌then◌else◌, length, ◌++◌, none, some, [], ◌∷◌,
  Result, ok,
}
use renee.Bytes.{Bytes, to_be, bytes_eq}
use renee.Types.{DocumentId, CapabilityId, RequestId, Authenticator}
use renee.Types.Operations.{Operation, OperationSet, is_empty, allows}
use renee.Maps.{BTreeMap, contains_key}
use renee.Maps.Keys.{bytes_key, nat_key, pair_key}
use renee.Stored.Verifier.{VerifierPair, derive}
use renee.Stored.Tables.{StoreError, Tables, CapabilityRow, ◌>>=◌, insert_row}
use renee.Stored.Authority.{
  authorize, load_operation_set, is_active_descendant, issuer_has_descendant_capacity,
  descends_from,
}
use renee.Stored.Control.{
  StoreControlOutcome, resolve_control_receipt, insert_control_receipt, next_control_revision,
  set_control_revision, control_limits_exceeded, insert_operations, count_ones,
}

pub data StoreRevokePreflight : Type 0 where
  resolved : StoreControlOutcome → StoreRevokePreflight
  requires_mutation : StoreRevokePreflight

-- The insertions of `grant_capability`.
unfoldable pub insert_descendant :
    Tables
    → DocumentId
    → CapabilityId
    → RequestId
    → CapabilityId
    → VerifierPair
    → OperationSet
    → Bytes
    → ℕ
    → Result StoreError Tables
insert_descendant t document_id issuer_id request_id descendant_id verifiers operations input
      revision =
    do
      capabilities ←
          insert_row (document_id, descendant_id)
            (record {
              parent_capability_id = some issuer_id;
              live_verifier = verifiers.live;
              receipt_verifier = verifiers.receipt;
              state = 0;
              created_revision = revision;
            })
            t.capabilities
      with_operations ←
          insert_operations (record t { capabilities = capabilities }) document_id descendant_id
            operations
      with_receipt ← insert_control_receipt with_operations document_id issuer_id request_id 0 input
      set_control_revision with_receipt document_id revision

-- `normalized_input` of a grant.
abbrev pub grant_input : CapabilityId → VerifierPair → OperationSet → Bytes
grant_input descendant_id verifiers operations =
    descendant_id ++ (verifiers.live ++ (verifiers.receipt ++ to_be 2 operations.bits))

-- `grant_capability`, from the authorization on.
unfoldable pub grant_authorized :
    Tables
    → DocumentId
    → CapabilityId
    → RequestId
    → CapabilityId
    → VerifierPair
    → OperationSet
    → Result StoreError (StoreControlOutcome × Tables)
grant_authorized t document_id issuer_id request_id descendant_id verifiers operations =
    let input = grant_input descendant_id verifiers operations in
    elim (next_control_revision t document_id) [
      | none ↦ ok (StoreControlOutcome.counter_exhausted, t)
      | some revision ↦ load_operation_set t document_id issuer_id >>= λ issuer_operations.
          if not (allows issuer_operations operations)
          then ok (StoreControlOutcome.authorization_denied, t)
          else if contains_key (document_id, descendant_id) t.capabilities
          then ok (StoreControlOutcome.identifier_conflict, t)
          else if not (issuer_has_descendant_capacity t document_id issuer_id)
              || control_limits_exceeded t document_id (some issuer_id) true
                  (count_ones 16 operations.bits) (length input)
          then ok (StoreControlOutcome.limit_exceeded, t)
          else insert_descendant t document_id issuer_id request_id descendant_id verifiers
              operations input revision
            >>= λ committed. ok (StoreControlOutcome.inserted, committed)
    ]

-- Whether a capability is in the `subtree` of the recursive statement: the target is reached going
-- up. An ancestry has at most 64 nodes, so that many rounds and one for each row are enough.
unfoldable pub in_subtree : Tables → DocumentId → CapabilityId → CapabilityId → Bool
in_subtree t document_id target_id capability_id =
    descends_from (64 + length t.capabilities) t document_id target_id capability_id

abbrev pub revoked_row : CapabilityRow → CapabilityRow
revoked_row row = record row { state = 1 }

-- `UPDATE capabilities SET state = 1 WHERE …`.
unfoldable pub revoke_rows :
    (CapabilityId → Bool)
    → DocumentId
    → BTreeMap (DocumentId × CapabilityId) CapabilityRow
    → BTreeMap (DocumentId × CapabilityId) CapabilityRow
revoke_rows selected document_id [] = []
revoke_rows selected document_id (((d, c), row) ∷ rows) =
    ((d, c), if bytes_eq d document_id && selected c then revoked_row row else row)
    ∷ revoke_rows selected document_id rows

-- The mutation of `revoke_capability`.
unfoldable pub commit_revocation :
    Tables → DocumentId → CapabilityId → RequestId → CapabilityId → ℕ → Result StoreError Tables
commit_revocation t document_id issuer_id request_id target_id revision =
    insert_control_receipt
      (record t {
        capabilities = revoke_rows (in_subtree t document_id target_id) document_id t.capabilities;
      })
      document_id issuer_id request_id 1 target_id
    >>= λ with_receipt. set_control_revision with_receipt document_id revision

-- `revoke_capability`, from the authorization on.
unfoldable pub revoke_authorized :
    Tables
    → DocumentId
    → CapabilityId
    → RequestId
    → CapabilityId
    → Result StoreError (StoreControlOutcome × Tables)
revoke_authorized t document_id issuer_id request_id target_id =
    elim (next_control_revision t document_id) [
      | none ↦ ok (StoreControlOutcome.counter_exhausted, t)
      | some revision ↦
          if not (is_active_descendant t document_id issuer_id target_id)
          then ok (StoreControlOutcome.authorization_denied, t)
          else if control_limits_exceeded t document_id none false 0 (length target_id)
          then ok (StoreControlOutcome.limit_exceeded, t)
          else commit_revocation t document_id issuer_id request_id target_id revision
            >>= λ committed. ok (StoreControlOutcome.inserted, committed)
    ]

module _ (sha256 : Bytes → Bytes) where
  unfoldable pub grant_capability :
      Tables
      → DocumentId
      → CapabilityId
      → Authenticator
      → RequestId
      → CapabilityId
      → Authenticator
      → OperationSet
      → Result StoreError (StoreControlOutcome × Tables)
  grant_capability t document_id issuer_id issuer_authenticator request_id descendant_id
        authenticator operations =
      let verifiers = derive sha256 document_id descendant_id authenticator in
      if is_empty operations
      then ok (StoreControlOutcome.authorization_denied, t)
      else elim (resolve_control_receipt sha256 t document_id issuer_id issuer_authenticator
          request_id 0 (grant_input descendant_id verifiers operations)) [
            | some outcome ↦ ok (outcome, t)
            | none ↦
                if not
                  (authorize sha256 t document_id issuer_id issuer_authenticator Operation.grant)
                then ok (StoreControlOutcome.authorization_denied, t)
                else grant_authorized t document_id issuer_id request_id descendant_id verifiers
                    operations
          ]

  unfoldable pub preflight_revoke_capability :
      Tables
      → DocumentId
      → CapabilityId
      → Authenticator
      → RequestId
      → CapabilityId
      → StoreRevokePreflight
  preflight_revoke_capability t document_id issuer_id issuer_authenticator request_id target_id =
      elim (resolve_control_receipt sha256 t document_id issuer_id issuer_authenticator request_id 1
        target_id) [
          | some outcome ↦ resolved outcome
          | none ↦
              if not
                (authorize sha256 t document_id issuer_id issuer_authenticator Operation.revoke)
              then resolved StoreControlOutcome.authorization_denied
              else elim (next_control_revision t document_id) [
                | none ↦ resolved StoreControlOutcome.counter_exhausted
                | some revision ↦
                    if not (is_active_descendant t document_id issuer_id target_id)
                    then resolved StoreControlOutcome.authorization_denied
                    else if control_limits_exceeded t document_id none false 0 (length target_id)
                    then resolved StoreControlOutcome.limit_exceeded
                    else requires_mutation
              ]
        ]

  unfoldable pub revoke_capability :
      Tables
      → DocumentId
      → CapabilityId
      → Authenticator
      → RequestId
      → CapabilityId
      → Result StoreError (StoreControlOutcome × Tables)
  revoke_capability t document_id issuer_id issuer_authenticator request_id target_id =
      elim (resolve_control_receipt sha256 t document_id issuer_id issuer_authenticator request_id 1
        target_id) [
          | some outcome ↦ ok (outcome, t)
          | none ↦
              if not
                (authorize sha256 t document_id issuer_id issuer_authenticator Operation.revoke)
              then ok (StoreControlOutcome.authorization_denied, t)
              else revoke_authorized t document_id issuer_id request_id target_id
        ]
