-- ===== src/Model/Capability/Retries.antt =====
-- Commands of crates/renee-model/src/lib.rs that are sent again, and commands that are refused.
use renee.Prelude.{
  ◌≡◌, ◌≢◌, refl, ap, true, Option-cases, if◌then◌else◌, some, inl, inr, arith, ==_refl,
}
use renee.Bytes.{Bytes}
use renee.Bytes.Words.{bytes_eq_refl}
use renee.Types.{DocumentId, CapabilityId, RequestId, Authenticator}
use renee.Types.Operations.{OperationSet}
use renee.Maps.{get, get-insert}
use renee.Maps.Keys.{bytes_key, pair_key}
use renee.Maps.Keys
use renee.Model.Capability.{
  CapabilityModel, CapabilityDocument, ModelCapability, ModelVerifierPair, ReceiptInput,
  ControlOutcome, is_descendant, receipt_eq, verifiers_eq,
}
use renee.Model.Capability.Commands.{
  document_receipt, grant_in, revoke_in, store, model_verifiers, receipt_outcome, grant, revoke,
}
use renee.Model.Capability.Marking.{revoked_copy}
use renee.Model.Capability.Granting
use renee.Model.Capability.Revoking

verifiers_eq_refl : (v : ModelVerifierPair) → verifiers_eq v v ≡ true
unfolding verifiers_eq
verifiers_eq_refl v = rw (bytes_eq_refl v.live, bytes_eq_refl v.receipt)

receipt_eq_refl : (r : ReceiptInput) → receipt_eq r r ≡ true
unfolding receipt_eq
receipt_eq_refl (ReceiptInput.grant d v o) =
    rw (bytes_eq_refl d, verifiers_eq_refl v, ==_refl o.bits)
receipt_eq_refl (ReceiptInput.revoke d) = bytes_eq_refl d

-- What a document with the receipt answers to the same request.
document_receipt_again :
    (e : CapabilityDocument) (issuer : CapabilityId) (receipt : Bytes) (request : RequestId)
    (input : ReceiptInput) (c : ModelCapability)
    → get (issuer, request) e.receipts ≡ some input
    → get issuer e.capabilities ≡ some c
    → c.verifiers.receipt ≡ receipt
    → document_receipt e issuer receipt request input ≡ some ControlOutcome.already_present
unfolding document_receipt
document_receipt_again e issuer receipt request input c stored found own =
    ground (arith, receipt_eq_refl input, bytes_eq_refl receipt)

granted_receipt :
    (d e : CapabilityDocument) (issuer : CapabilityId) (request : RequestId)
    (descendant : CapabilityId) (v : ModelVerifierPair) (ops : OperationSet)
    → grant_in d issuer request descendant v ops ≡ (ControlOutcome.inserted, e)
    → get (issuer, request) e.receipts ≡ some (ReceiptInput.grant descendant v ops)
unfolding grant_in
granted_receipt d e issuer request descendant v ops done = ground (
  arith,
  get-insert (issuer, request) (issuer, request) (ReceiptInput.grant descendant v ops) d.receipts,
  Keys.==_refl {K = CapabilityId × RequestId} (issuer, request),
)

revoked_receipt :
    (d e : CapabilityDocument) (issuer : CapabilityId) (request : RequestId) (target : CapabilityId)
    → revoke_in d issuer request target ≡ (ControlOutcome.inserted, e)
    → get (issuer, request) e.receipts ≡ some (ReceiptInput.revoke target)
unfolding revoke_in
revoked_receipt d e issuer request target done = ground (
  arith,
  get-insert (issuer, request) (issuer, request) (ReceiptInput.revoke target) d.receipts,
  Keys.==_refl {K = CapabilityId × RequestId} (issuer, request),
)

-- A stored outcome is that of the document, which is then in its place.
store_inserted :
    (id : DocumentId) (m n : CapabilityModel) (r : ControlOutcome × CapabilityDocument)
    → store id m r ≡ (ControlOutcome.inserted, n)
    → (e : CapabilityDocument) × (r ≡ (ControlOutcome.inserted, e)) × (get id n.documents ≡ some e)
store_inserted id m n (ControlOutcome.inserted, e) h =
    (e, refl, ground (arith, get-insert id id e m.documents, Keys.==_refl {K = DocumentId} id))
store_inserted id m n (ControlOutcome.already_present, e) h = absurd (ground arith)
store_inserted id m n (ControlOutcome.authorization_denied, e) h = absurd (ground arith)
store_inserted id m n (ControlOutcome.identifier_conflict, e) h = absurd (ground arith)
store_inserted id m n (ControlOutcome.request_conflict, e) h = absurd (ground arith)
store_inserted id m n (ControlOutcome.counter_exhausted, e) h = absurd (ground arith)

store_refused :
    (id : DocumentId) (m : CapabilityModel) (r : ControlOutcome × CapabilityDocument)
    → (store id m r).0 ≢ ControlOutcome.inserted
    → (store id m r).1 ≡ m
store_refused id m (ControlOutcome.inserted, e) h = absurd (h refl)
store_refused id m (ControlOutcome.already_present, e) h = refl
store_refused id m (ControlOutcome.authorization_denied, e) h = refl
store_refused id m (ControlOutcome.identifier_conflict, e) h = refl
store_refused id m (ControlOutcome.request_conflict, e) h = refl
store_refused id m (ControlOutcome.counter_exhausted, e) h = refl

receipt_not_inserted :
    (d : CapabilityDocument) (issuer : CapabilityId) (receipt : Bytes) (request : RequestId)
    (input : ReceiptInput)
    → document_receipt d issuer receipt request input ≢ some ControlOutcome.inserted
unfolding document_receipt
receipt_not_inserted d issuer receipt request input h = ground arith

module _ (sha256 : Bytes → Bytes) (m : CapabilityModel) (document : DocumentId)
    (issuer : CapabilityId) (authenticator : Authenticator) (request : RequestId) where
  module _ (descendant : CapabilityId) (fresh_authenticator : Authenticator)
      (ops : OperationSet) where
    -- A grant that does not insert leaves the model as it was.
    grant_refused :
        (grant sha256 m document issuer authenticator request descendant fresh_authenticator ops).0
          ≢ ControlOutcome.inserted
        → (grant sha256 m document issuer authenticator request descendant fresh_authenticator
            ops).1
          ≡ m
    unfolding grant
    grant_refused h = elim (Option-cases (get document m.documents)) [
      | inl gone ↦ ground arith
      | inr (d, there) ↦ ground (
        arith,
        store_refused document m (
            grant_in d issuer request descendant
              (model_verifiers sha256 document descendant fresh_authenticator) ops),
      )
    ]

    module _ (n : CapabilityModel) (d : CapabilityDocument) (c : ModelCapability)
        (there : get document m.documents ≡ some d) (found : get issuer d.capabilities ≡ some c)
        (own : c.verifiers ≡ model_verifiers sha256 document issuer authenticator)
        (done : grant sha256 m document issuer authenticator request descendant fresh_authenticator
            ops
          ≡ (ControlOutcome.inserted, n)) where
      abbrev v : ModelVerifierPair
      v = model_verifiers sha256 document descendant fresh_authenticator

      granted :
          (e : CapabilityDocument) × (grant_in d issuer request descendant v ops
            ≡ (ControlOutcome.inserted, e))
          × (get document n.documents ≡ some e)
      unfolding grant receipt_outcome
      granted = store_inserted document m n (grant_in d issuer request descendant v ops) (
          ground (
            arith,
            there,
            receipt_not_inserted d issuer
                (model_verifiers sha256 document issuer authenticator).receipt request
                (ReceiptInput.grant descendant v ops),
          ))

      -- A grant that was inserted for an issuer with its own authenticator, sent again, answers that
      -- it is present and changes nothing.
      pub grant_again :
          grant sha256 n document issuer authenticator request descendant fresh_authenticator ops
          ≡ (ControlOutcome.already_present, n)
      unfolding grant receipt_outcome
      grant_again =
          let (e, inserted, place) = granted in
          let again =
            document_receipt_again e issuer
              (model_verifiers sha256 document issuer authenticator).receipt request
              (ReceiptInput.grant descendant v ops) c
              (granted_receipt d e issuer request descendant v ops inserted)
              (Granting.kept d e issuer request descendant v ops inserted issuer c found)
              (ap (λ w. w.receipt) own) in
          cc (place, again)

  -- A revocation that does not insert leaves the model as it was.
  revoke_refused :
      (target : CapabilityId)
      → (revoke sha256 m document issuer authenticator request target).0 ≢ ControlOutcome.inserted
      → (revoke sha256 m document issuer authenticator request target).1 ≡ m
  unfolding revoke
  revoke_refused target h = elim (Option-cases (get document m.documents)) [
    | inl gone ↦ ground arith
    | inr (d, there) ↦ ground (arith, store_refused document m (revoke_in d issuer request target))
  ]

  module _ (target : CapabilityId) (n : CapabilityModel) (d : CapabilityDocument)
      (c : ModelCapability) (there : get document m.documents ≡ some d)
      (found : get issuer d.capabilities ≡ some c)
      (own : c.verifiers ≡ model_verifiers sha256 document issuer authenticator)
      (done : revoke sha256 m document issuer authenticator request target
        ≡ (ControlOutcome.inserted, n)) where
    revoked :
        (e : CapabilityDocument) × (revoke_in d issuer request target
          ≡ (ControlOutcome.inserted, e))
        × (get document n.documents ≡ some e)
    unfolding revoke receipt_outcome
    revoked = store_inserted document m n (revoke_in d issuer request target) (
        ground (
          arith,
          there,
          receipt_not_inserted d issuer
              (model_verifiers sha256 document issuer authenticator).receipt request
              (ReceiptInput.revoke target),
        ))

    -- A revocation that was inserted for an issuer with its own authenticator, sent again, answers
    -- that it is present and changes nothing, even where the issuer revoked itself.
    revoke_again :
        revoke sha256 n document issuer authenticator request target
        ≡ (ControlOutcome.already_present, n)
    unfolding revoke receipt_outcome
    revoke_again =
        let (e, inserted, place) = revoked in
        let held = Revoking.after d e issuer request target inserted issuer c found in
        let kept : (if is_descendant d target issuer then revoked_copy c else c).verifiers.receipt
            ≡ (model_verifiers sha256 document issuer authenticator).receipt =
          ground arith in
        let again =
          document_receipt_again e issuer
            (model_verifiers sha256 document issuer authenticator).receipt request
            (ReceiptInput.revoke target) _ (revoked_receipt d e issuer request target inserted) held
            kept in
        cc (place, again)
