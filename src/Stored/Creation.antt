-- ===== src/Stored/Creation.antt =====
-- crates/renee-stored/src/store.rs: `provision_create_authority` and `create_document_internal`, with
-- its limits.
use renee.Prelude.{
  ℕ, Bool, true, false, not, ◌&&◌, ◌||◌, leb, ◌==◌, if◌then◌else◌, length, ◌++◌, none, some, Result,
  ok, err,
}
use renee.Bytes.{Bytes, bytes_eq}
use renee.Types.{DocumentId, CapabilityId, CreateAuthorityId, RequestId, Authenticator}
use renee.Types.Operations.{full}
use renee.Maps.{BTreeMap, get}
use renee.Maps.Keys.{bytes_key, pair_key}
use renee.Stored.Verifier.{
  VerifierPair, derive, verify_receipt, verify_create_live, verify_create_receipt,
}
use renee.Stored.Tables.{
  StoreError, sqlite, corrupt, Tables, AuthorityRow, CapabilityRow, CreateReceiptRow, ◌>>=◌,
  insert_row, count_where,
}
use renee.Stored.Control.{max_global_capabilities, insert_operations}

abbrev pub max_documents_per_create_authority : ℕ
max_documents_per_create_authority = 4096

abbrev pub max_global_documents : ℕ
max_global_documents = 0x4000

abbrev pub max_global_create_receipts : ℕ
max_global_create_receipts = 0x0001_0000

pub data StoreCreateOutcome : Type 0 where
  inserted already_present authorization_denied identifier_conflict : StoreCreateOutcome
  request_conflict limit_exceeded : StoreCreateOutcome

pub record CreateAuthorityProvision : Type 0 where
  pub create_authority_id : CreateAuthorityId
  pub live_verifier : Bytes
  pub receipt_verifier : Bytes

unfoldable pub provision_create_authority :
    Tables → CreateAuthorityProvision → Result StoreError Tables
provision_create_authority t provision =
    elim (get provision.create_authority_id t.create_authorities) [
      | some existing ↦
          if not (bytes_eq existing.live_verifier provision.live_verifier)
            || not (bytes_eq existing.receipt_verifier provision.receipt_verifier)
          then err corrupt
          else ok t
      | none ↦ do
        authorities ←
            insert_row provision.create_authority_id
              (record {
                live_verifier = provision.live_verifier;
                receipt_verifier = provision.receipt_verifier;
                state = 0;
              })
              t.create_authorities
        ok (record t { create_authorities = authorities })
    ]

unfoldable pub create_limits_exceeded : Tables → CreateAuthorityId → Bool
create_limits_exceeded t create_authority_id =
    leb max_documents_per_create_authority
      (count_where (λ k _. bytes_eq k.0 create_authority_id) t.create_receipts)
    || (leb max_global_documents (length t.documents)
        || (leb max_global_create_receipts (length t.create_receipts)
            || leb max_global_capabilities (length t.capabilities)))

-- The row of a root capability: the index `one_root_capability_per_document` refuses a second one.
unfoldable pub insert_root :
    Tables
    → DocumentId
    → CapabilityId
    → VerifierPair
    → Result StoreError (BTreeMap (DocumentId × CapabilityId) CapabilityRow)
insert_root t document_id root_capability_id verifiers =
    if count_where
        (λ k row.
          bytes_eq k.0 document_id
          && elim row.parent_capability_id [ none ↦ true | some _ ↦ false ])
        t.capabilities
      == 0
    then insert_row (document_id, root_capability_id)
        (record {
          parent_capability_id = none;
          live_verifier = verifiers.live;
          receipt_verifier = verifiers.receipt;
          state = 0;
          created_revision = 1;
        })
        t.capabilities
    else err sqlite

-- The insertions of `create_document_internal`.
unfoldable pub insert_document :
    Tables
    → CreateAuthorityId
    → RequestId
    → DocumentId
    → CapabilityId
    → VerifierPair
    → Bytes
    → Result StoreError Tables
insert_document t create_authority_id request_id document_id root_capability_id verifiers input = do
  documents ←
      insert_row document_id
        (record { state = 0; control_revision = 1; root_capability_id = root_capability_id })
        t.documents
  capabilities ← insert_root t document_id root_capability_id verifiers
  with_operations ←
      insert_operations (record t { documents = documents; capabilities = capabilities })
        document_id root_capability_id full
  receipts ←
      insert_row (create_authority_id, request_id)
        (record {
          document_id = document_id;
          root_capability_id = root_capability_id;
          normalized_input = input;
        })
        with_operations.create_receipts
  ok (record with_operations { create_receipts = receipts })

-- `normalized_input` of a creation.
abbrev pub create_input : DocumentId → CapabilityId → VerifierPair → Bytes
create_input document_id root_capability_id verifiers =
    document_id ++ (root_capability_id ++ (verifiers.live ++ verifiers.receipt))

module _ (sha256 : Bytes → Bytes) where
  -- Whether the authenticator is that of the document's root capability, `root = 1` being that the
  -- row has no parent.
  unfoldable pub root_authorized : Tables → DocumentId → CapabilityId → Authenticator → Bool
  root_authorized t document_id root_id authenticator =
      elim (get (document_id, root_id) t.capabilities) [
        | none ↦ false
        | some row ↦ elim row.parent_capability_id [
          | some _ ↦ false
          | none ↦ verify_receipt sha256 row.receipt_verifier document_id root_id authenticator
        ]
      ]

  -- The answer to a request that has a receipt.
  unfoldable pub create_retry :
      Tables → CreateReceiptRow → Bool → Authenticator → Bytes → StoreCreateOutcome
  create_retry t receipt receipt_authorized root_authenticator input =
      if not receipt_authorized
      then StoreCreateOutcome.authorization_denied
      else if not
          (root_authorized t receipt.document_id receipt.root_capability_id root_authenticator)
      then StoreCreateOutcome.authorization_denied
      else if bytes_eq receipt.normalized_input input
      then StoreCreateOutcome.already_present
      else StoreCreateOutcome.request_conflict

  -- The end of `create_document_internal`, for a request without a receipt.
  unfoldable pub create_new :
      Tables
      → CreateAuthorityId
      → RequestId
      → DocumentId
      → CapabilityId
      → Authenticator
      → Result StoreError (StoreCreateOutcome × Tables)
  create_new t create_authority_id request_id document_id root_capability_id root_authenticator =
      let verifiers = derive sha256 document_id root_capability_id root_authenticator in
      elim (get document_id t.documents) [
        | some existing ↦ ok (
          if root_authorized t document_id existing.root_capability_id root_authenticator
              then StoreCreateOutcome.identifier_conflict
              else StoreCreateOutcome.authorization_denied,
          t,
        )
        | none ↦
            if create_limits_exceeded t create_authority_id
            then ok (StoreCreateOutcome.limit_exceeded, t)
            else insert_document t create_authority_id request_id document_id root_capability_id
                verifiers (create_input document_id root_capability_id verifiers)
              >>= λ committed. ok (StoreCreateOutcome.inserted, committed)
      ]

  abbrev pub live_authorized : AuthorityRow → CreateAuthorityId → Authenticator → Bool
  live_authorized row create_authority_id authenticator =
      row.state == 0
      && verify_create_live sha256 row.live_verifier create_authority_id authenticator

  -- `create_document_internal`.
  unfoldable pub create_document :
      Tables
      → CreateAuthorityId
      → Authenticator
      → RequestId
      → DocumentId
      → CapabilityId
      → Authenticator
      → Result StoreError (StoreCreateOutcome × Tables)
  create_document t create_authority_id create_authenticator request_id document_id
        root_capability_id root_authenticator =
      elim (get create_authority_id t.create_authorities) [
        | none ↦ ok (StoreCreateOutcome.authorization_denied, t)
        | some row ↦
            let live = live_authorized row create_authority_id create_authenticator in
            let receipt_authorized =
              verify_create_receipt sha256 row.receipt_verifier create_authority_id
                create_authenticator in
            if not live && not receipt_authorized
            then ok (StoreCreateOutcome.authorization_denied, t)
            else elim (get (create_authority_id, request_id) t.create_receipts) [
              | some receipt ↦ ok (
                create_retry t receipt receipt_authorized root_authenticator (
                    create_input document_id root_capability_id
                      (derive sha256 document_id root_capability_id root_authenticator)),
                t,
              )
              | none ↦
                  if not live
                  then ok (StoreCreateOutcome.authorization_denied, t)
                  else create_new t create_authority_id request_id document_id root_capability_id
                      root_authenticator
            ]
      ]
