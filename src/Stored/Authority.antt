-- ===== src/Stored/Authority.antt =====
-- crates/renee-stored/src/store.rs: the authorization of a presented capability, and the walks up a
-- capability's ancestors.
use renee.Prelude.{
  ℕ, zero, suc, ◌+◌, Bool, true, false, not, ◌&&◌, ltb, ◌==◌, if◌then◌else◌, none, some, List, [],
  ◌∷◌, Result, ok, err,
}
use renee.Bytes.{Bytes, bytes_eq}
use renee.Types.{DocumentId, CapabilityId, Authenticator}
use renee.Types.Operations.{
  Operation, OperationSet, empty, one, union, read, update, checkpoint, blob_read, blob_put,
  signal_send, signal_receive, grant, revoke, retire,
}
use renee.Maps.{BTreeMap, get, contains_key}
use renee.Maps.Keys.{bytes_key, nat_key, pair_key}
use renee.Stored.Verifier.{verify_live}
use renee.Stored.Tables.{StoreError, corrupt, CapabilityRow, Tables, ◌>>=◌}

abbrev pub max_capability_depth : ℕ
max_capability_depth = 64

pub data DocumentAuthorization : Type 0 where
  authorized denied retired : DocumentAuthorization

unfoldable pub operation_code : Operation → ℕ
operation_code read = 0
operation_code update = 1
operation_code checkpoint = 2
operation_code blob_read = 3
operation_code blob_put = 4
operation_code signal_send = 5
operation_code signal_receive = 6
operation_code grant = 7
operation_code revoke = 8
operation_code retire = 9

unfoldable pub operation_from_code : ℕ → Result StoreError Operation
operation_from_code code =
    if code == 0
    then ok read
    else if code == 1
    then ok update
    else if code == 2
    then ok checkpoint
    else if code == 3
    then ok blob_read
    else if code == 4
    then ok blob_put
    else if code == 5
    then ok signal_send
    else if code == 6
    then ok signal_receive
    else if code == 7
    then ok grant
    else if code == 8
    then ok revoke
    else if code == 9
    then ok retire
    else err corrupt

-- `SELECT operation … WHERE document_id = ?1 AND capability_id = ?2 ORDER BY operation`.
unfoldable pub operation_rows :
    DocumentId → CapabilityId → BTreeMap ((DocumentId × CapabilityId) × ℕ) (Unit {0}) → List ℕ
operation_rows document_id capability_id [] = []
operation_rows document_id capability_id ((((d, c), code), _) ∷ rows) =
    let rest = operation_rows document_id capability_id rows in
    if bytes_eq d document_id && bytes_eq c capability_id then code ∷ rest else rest

-- The loop of `load_operation_set` over the rows.
unfoldable pub union_codes : OperationSet → List ℕ → Result StoreError OperationSet
union_codes operations [] = ok operations
union_codes operations (code ∷ codes) = do
  operation ← operation_from_code code
  union_codes (union operations (one operation)) codes

unfoldable pub load_operation_set :
    Tables → DocumentId → CapabilityId → Result StoreError OperationSet
unfolding operation_rows union_codes
load_operation_set t document_id capability_id =
    union_codes empty (operation_rows document_id capability_id t.capability_operations)

-- The state of the document, at the root.
unfoldable pub document_authorization : Tables → DocumentId → DocumentAuthorization
document_authorization t document_id = elim (get document_id t.documents) [
  | none ↦ denied
  | some row ↦ if row.state == 0 then authorized else if row.state == 1 then retired else denied
]

-- The loop of `authorize_document`: `presented_ok` is the test at depth 0.
unfoldable pub authorize_from :
    ℕ → Tables → DocumentId → (CapabilityRow → Bool) → CapabilityId → DocumentAuthorization
unfolding document_authorization
authorize_from zero t document_id presented_ok current = denied
authorize_from (suc rounds) t document_id presented_ok current =
    elim (get (document_id, current) t.capabilities) [
      | none ↦ denied
      | some row ↦
          if not (row.state == 0)
          then denied
          else if not (presented_ok row)
          then denied
          else elim row.parent_capability_id [
            | none ↦ document_authorization t document_id
            | some parent ↦ authorize_from rounds t document_id (λ _. true) parent
          ]
    ]

-- The loop of `is_active_descendant`.
unfoldable pub active_from : ℕ → Tables → DocumentId → CapabilityId → CapabilityId → Bool
active_from zero t document_id issuer current = false
active_from (suc rounds) t document_id issuer current =
    elim (get (document_id, current) t.capabilities) [
      | none ↦ false
      | some row ↦
          if not (row.state == 0)
          then false
          else if bytes_eq current issuer
          then true
          else elim row.parent_capability_id [
            | none ↦ false
            | some parent ↦ active_from rounds t document_id issuer parent
          ]
    ]

unfoldable pub is_active_descendant : Tables → DocumentId → CapabilityId → CapabilityId → Bool
is_active_descendant t document_id issuer_capability_id target_capability_id =
    active_from max_capability_depth t document_id issuer_capability_id target_capability_id

-- The loop of `is_descendant_or_self`.
unfoldable pub descends_from : ℕ → Tables → DocumentId → CapabilityId → CapabilityId → Bool
descends_from zero t document_id ancestor current = false
descends_from (suc rounds) t document_id ancestor current =
    if bytes_eq current ancestor then true else elim (get (document_id, current) t.capabilities) [
      | none ↦ false
      | some row ↦ elim row.parent_capability_id [
        | none ↦ false
        | some parent ↦ descends_from rounds t document_id ancestor parent
      ]
    ]

unfoldable pub is_descendant_or_self : Tables → DocumentId → CapabilityId → CapabilityId → Bool
is_descendant_or_self t document_id ancestor_capability_id candidate_capability_id =
    descends_from max_capability_depth t document_id ancestor_capability_id candidate_capability_id

-- The loop of `issuer_has_descendant_capacity`.
unfoldable pub capacity_from : ℕ → ℕ → Tables → DocumentId → CapabilityId → Bool
capacity_from zero node_count t document_id current = false
capacity_from (suc rounds) node_count t document_id current =
    elim (get (document_id, current) t.capabilities) [
      | none ↦ false
      | some row ↦ elim row.parent_capability_id [
        | none ↦ ltb node_count max_capability_depth
        | some parent ↦ capacity_from rounds (node_count + 1) t document_id parent
      ]
    ]

unfoldable pub issuer_has_descendant_capacity : Tables → DocumentId → CapabilityId → Bool
issuer_has_descendant_capacity t document_id issuer_capability_id =
    capacity_from max_capability_depth 1 t document_id issuer_capability_id

module _ (sha256 : Bytes → Bytes) where
  -- The verifier and the operation of the presented capability.
  unfoldable pub presented :
      Tables → DocumentId → CapabilityId → Authenticator → Operation → CapabilityRow → Bool
  presented t document_id capability_id authenticator operation row =
      verify_live sha256 row.live_verifier document_id capability_id authenticator
      && contains_key ((document_id, capability_id), operation_code operation)
          t.capability_operations

  unfoldable pub authorize_document :
      Tables → DocumentId → CapabilityId → Authenticator → Operation → DocumentAuthorization
  authorize_document t document_id capability_id authenticator operation =
      authorize_from max_capability_depth t document_id
        (presented t document_id capability_id authenticator operation) capability_id

  unfoldable pub authorize : Tables → DocumentId → CapabilityId → Authenticator → Operation → Bool
  authorize t document_id capability_id authenticator operation =
      elim (authorize_document t document_id capability_id authenticator operation) [
        | authorized ↦ true
        | _ ↦ false
      ]
