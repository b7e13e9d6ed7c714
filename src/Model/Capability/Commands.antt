-- ===== src/Model/Capability/Commands.antt =====
-- crates/renee-model/src/lib.rs: the operations of `CapabilityModel`. A command returns its outcome
-- and the model that it leaves. `sha256` is the digest of the `sha2` crate.
use renee.Prelude.{
  ◌+◌, ◌^◌, Bool, false, not, ◌&&◌, ◌||◌, ltb, if◌then◌else◌, Option, none, some, [], ◌∷◌, ◌++◌,
}
use renee.Bytes.{Bytes, bytes_eq}
use renee.Texts.{ascii}
use renee.Types.{DocumentId, CapabilityId, RequestId, Authenticator}
use renee.Types.Operations.{Operation, OperationSet, full, contains, allows}
use renee.Maps.{get, contains_key, insert, keys}
use renee.Maps.Keys.{bytes_key, pair_key}
use renee.Model.Capability.{
  CreateDocumentOutcome, ControlOutcome, ModelVerifierPair, ReceiptInput, CapabilityDocument,
  CapabilityModel, verifiers_eq, receipt_eq, chain_is_live, is_descendant,
  issuer_has_descendant_capacity, revoke_all,
}

abbrev live_domain : Bytes
live_domain = ascii "renee/capability/live-verifier/v1" ++ (0 ∷ [])

abbrev receipt_domain : Bytes
receipt_domain = ascii "renee/capability/receipt-verifier/v1" ++ (0 ∷ [])

-- Whether the presented capability is live under the document and holds the operation.
unfoldable pub document_authorizes : CapabilityDocument → CapabilityId → Bytes → Operation → Bool
document_authorizes document capability_id live operation =
    elim (get capability_id document.capabilities) [
      | none ↦ false
      | some presented ↦
          if not (bytes_eq presented.verifiers.live live)
            || not (contains presented.operations operation)
          then false
          else chain_is_live 64 document (some capability_id)
    ]

unfoldable pub document_receipt :
    CapabilityDocument → CapabilityId → Bytes → RequestId → ReceiptInput → Option ControlOutcome
document_receipt document issuer_id receipt request_id input =
    elim (get (issuer_id, request_id) document.receipts) [
      | none ↦ none
      | some stored ↦ elim (get issuer_id document.capabilities) [
        | none ↦ none
        | some issuer ↦
            if not (bytes_eq issuer.verifiers.receipt receipt)
            then some ControlOutcome.authorization_denied
            else some (
                if receipt_eq stored input
                then ControlOutcome.already_present
                else ControlOutcome.request_conflict)
      ]
    ]

-- `grant`, from the document on: capacity, attenuation, counter, identifier, then the insertion.
unfoldable pub grant_in :
    CapabilityDocument
    → CapabilityId
    → RequestId
    → CapabilityId
    → ModelVerifierPair
    → OperationSet
    → ControlOutcome × CapabilityDocument
grant_in document issuer_id request_id descendant_id verifiers operations =
    if not (issuer_has_descendant_capacity document issuer_id)
    then (ControlOutcome.authorization_denied, document)
    else elim (get issuer_id document.capabilities) [
      | none ↦ (ControlOutcome.authorization_denied, document)
      | some issuer ↦
          if not (allows issuer.operations operations)
          then (ControlOutcome.authorization_denied, document)
          else if not (ltb (document.revision + 1) (2 ^ 64))
          then (ControlOutcome.counter_exhausted, document)
          else if contains_key descendant_id document.capabilities
          then (ControlOutcome.identifier_conflict, document)
          else (
            ControlOutcome.inserted,
            record document {
              capabilities =
                  insert descendant_id
                    (record {
                      operations = operations;
                      parent = some issuer_id;
                      revoked = false;
                      verifiers = verifiers;
                    })
                    document.capabilities;
              receipts =
                  insert (issuer_id, request_id)
                    (ReceiptInput.grant descendant_id verifiers operations) document.receipts;
              revision = document.revision + 1;
            },
          )
    ]

-- `revoke`, from the counter on.
unfoldable pub revoke_in :
    CapabilityDocument
    → CapabilityId
    → RequestId
    → CapabilityId
    → ControlOutcome × CapabilityDocument
revoke_in document issuer_id request_id target_id =
    if not (ltb (document.revision + 1) (2 ^ 64))
    then (ControlOutcome.counter_exhausted, document)
    else let marked = revoke_all target_id (keys document.capabilities) document in
      (
        ControlOutcome.inserted,
        record marked {
          receipts =
              insert (issuer_id, request_id) (ReceiptInput.revoke target_id) document.receipts;
          revision = document.revision + 1;
        },
      )

-- The target is not revoked, and the issuer is one of its ancestors or itself.
unfoldable pub is_active_descendant : CapabilityDocument → CapabilityId → CapabilityId → Bool
is_active_descendant document issuer_id target_id = elim (get target_id document.capabilities) [
  | none ↦ false
  | some target ↦ not target.revoked && is_descendant document issuer_id target_id
]

-- What a command inserted replaces the document; any other outcome has changed nothing.
abbrev pub store :
    DocumentId
    → CapabilityModel
    → ControlOutcome × CapabilityDocument
    → ControlOutcome × CapabilityModel
store id m (ControlOutcome.inserted, document) =
    (ControlOutcome.inserted, record { documents = insert id document m.documents })
store id m (outcome, document) = (outcome, m)

module _ (sha256 : Bytes → Bytes) where
  unfoldable pub model_verifier : Bytes → DocumentId → CapabilityId → Authenticator → Bytes
  model_verifier domain document_id capability_id authenticator =
      sha256 (domain ++ (document_id ++ (capability_id ++ authenticator)))

  unfoldable pub model_verifiers : DocumentId → CapabilityId → Authenticator → ModelVerifierPair
  unfolding model_verifier
  model_verifiers document_id capability_id authenticator = record {
    live = model_verifier live_domain document_id capability_id authenticator;
    receipt = model_verifier receipt_domain document_id capability_id authenticator;
  }

  unfoldable pub create_document :
      CapabilityModel
      → DocumentId
      → CapabilityId
      → Authenticator
      → CreateDocumentOutcome × CapabilityModel
  create_document m document_id root_id authenticator =
      let verifiers = model_verifiers document_id root_id authenticator in
      elim (get document_id m.documents) [
        | some document ↦ (
          if bytes_eq document.root_id root_id && elim (get root_id document.capabilities) [
            | none ↦ false
            | some root ↦ verifiers_eq root.verifiers verifiers
          ]
              then CreateDocumentOutcome.already_present
              else CreateDocumentOutcome.identifier_conflict,
          m,
        )
        | none ↦ (
          CreateDocumentOutcome.inserted,
          record {
            documents =
                insert document_id
                  (record {
                    capabilities =
                        insert root_id
                          (record {
                            operations = full;
                            parent = none;
                            revoked = false;
                            verifiers = verifiers;
                          })
                          [];
                    receipts = [];
                    revision = 1;
                    root_id = root_id;
                  })
                  m.documents;
          },
        )
      ]

  unfoldable pub authorizes :
      CapabilityModel → DocumentId → CapabilityId → Authenticator → Operation → Bool
  authorizes m document_id capability_id authenticator operation =
      elim (get document_id m.documents) [
        | none ↦ false
        | some document ↦
            document_authorizes document capability_id
              (model_verifiers document_id capability_id authenticator).live operation
      ]

  unfoldable pub receipt_outcome :
      CapabilityModel
      → DocumentId
      → CapabilityId
      → Authenticator
      → RequestId
      → ReceiptInput
      → Option ControlOutcome
  receipt_outcome m document_id issuer_id authenticator request_id input =
      elim (get document_id m.documents) [
        | none ↦ none
        | some document ↦
            document_receipt document issuer_id
              (model_verifiers document_id issuer_id authenticator).receipt request_id input
      ]

  unfoldable pub grant :
      CapabilityModel
      → DocumentId
      → CapabilityId
      → Authenticator
      → RequestId
      → CapabilityId
      → Authenticator
      → OperationSet
      → ControlOutcome × CapabilityModel
  grant m document_id issuer_id issuer_authenticator request_id descendant_id authenticator ops =
      let verifiers = model_verifiers document_id descendant_id authenticator in
      elim (receipt_outcome m document_id issuer_id issuer_authenticator request_id
        (ReceiptInput.grant descendant_id verifiers ops)) [
          | some outcome ↦ (outcome, m)
          | none ↦
              if not (authorizes m document_id issuer_id issuer_authenticator Operation.grant)
              then (ControlOutcome.authorization_denied, m)
              else elim (get document_id m.documents) [
                | none ↦ (ControlOutcome.authorization_denied, m)
                | some document ↦
                    store document_id m
                      (grant_in document issuer_id request_id descendant_id verifiers ops)
              ]
        ]

  unfoldable pub revoke :
      CapabilityModel
      → DocumentId
      → CapabilityId
      → Authenticator
      → RequestId
      → CapabilityId
      → ControlOutcome × CapabilityModel
  revoke m document_id issuer_id issuer_authenticator request_id target_id =
      elim (receipt_outcome m document_id issuer_id issuer_authenticator request_id
        (ReceiptInput.revoke target_id)) [
          | some outcome ↦ (outcome, m)
          | none ↦ elim (get document_id m.documents) [
            | none ↦ (ControlOutcome.authorization_denied, m)
            | some document ↦
                if not (authorizes m document_id issuer_id issuer_authenticator Operation.revoke)
                  || not (is_active_descendant document issuer_id target_id)
                then (ControlOutcome.authorization_denied, m)
                else store document_id m (revoke_in document issuer_id request_id target_id)
          ]
        ]
