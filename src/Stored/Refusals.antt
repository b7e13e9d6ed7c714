-- ===== src/Stored/Refusals.antt =====
-- crates/renee-stored/src/store.rs: what the operations of the store answer to a revoked capability.
use renee.Prelude.{ℕ, ◌≡◌, refl, inl, inr, true, false, none, ok, Bool-cases}
use renee.Bytes.{Bytes}
use renee.Types.{DocumentId, CapabilityId, RequestId, Authenticator, UpdateId}
use renee.Types.Operations.{Operation, OperationSet, is_empty}
use renee.Types.ImmutableUpdate.{ImmutableUpdate}
use renee.Maps.{get}
use renee.Maps.Keys.{bytes_key, pair_key}
use renee.Stored.Tables.{Tables}
use renee.Stored.Authority.{is_descendant_or_self, authorize}
use renee.Stored.Control.{StoreControlOutcome, resolve_control_receipt}
use renee.Stored.Control.Commands.{commit_revocation, grant_capability, revoke_capability}
use renee.Stored.Control.Revoking.{revoked-denied}
use renee.Stored.Updates.{StoreAcceptOutcome, StoreReadOutcome, accept, fetch_authorized}

-- No receipt is stored for a request of a capability.
abbrev pub IsNew : Tables → DocumentId → CapabilityId → RequestId → Type 0
IsNew t d c q =
    get {K = (DocumentId × CapabilityId) × RequestId} ((d, c), q) t.control_receipts ≡ none

module _ (sha256 : Bytes → Bytes) where
  grant_refused :
      (t : Tables) (d : DocumentId) (c : CapabilityId) (a : Authenticator) (q : RequestId)
      (descendant : CapabilityId) (b : Authenticator) (o : OperationSet)
      → authorize sha256 t d c a Operation.grant ≡ false
      → IsNew t d c q
      → grant_capability sha256 t d c a q descendant b o
        ≡ ok (StoreControlOutcome.authorization_denied, t)
  unfolding grant_capability resolve_control_receipt
  grant_refused t d c a q descendant b o denied new = elim (Bool-cases (is_empty o)) [
    | inl empty ↦ rw empty refl
    | inr some_ ↦ rw (some_, new, resolve_control_receipt, denied) refl
  ]

  revoke_refused :
      (t : Tables) (d : DocumentId) (c : CapabilityId) (a : Authenticator) (q : RequestId)
      (other : CapabilityId)
      → authorize sha256 t d c a Operation.revoke ≡ false
      → IsNew t d c q
      → revoke_capability sha256 t d c a q other ≡ ok (StoreControlOutcome.authorization_denied, t)
  unfolding revoke_capability resolve_control_receipt
  revoke_refused t d c a q other denied new =
      rw (new, resolve_control_receipt, revoke_capability, denied) refl

  -- After a revocation commits, the target and every capability below it are refused by the store,
  -- whatever authenticator they present: an update of the document is not accepted, no update of it
  -- is fetched, and a request that has no receipt neither grants nor revokes; the tables stay as
  -- they are.
  pub revoked-refused :
      (t after : Tables) (d : DocumentId) (i : CapabilityId) (q : RequestId) (target : CapabilityId)
      (revision : ℕ) (c : CapabilityId) (authenticator : Authenticator)
      → commit_revocation t d i q target revision ≡ ok after
      → is_descendant_or_self t d target c ≡ true
      → ((u : ImmutableUpdate) (encoded : Bytes)
          → u.document_id ≡ d
          → accept sha256 after c authenticator u encoded
            ≡ ok (StoreAcceptOutcome.authorization_denied, after))
        × ((id : UpdateId)
            → fetch_authorized sha256 after d id c authenticator ≡ ok StoreReadOutcome.denied)
        × ((r : RequestId) (descendant : CapabilityId) (b : Authenticator) (o : OperationSet)
            → IsNew after d c r
            → grant_capability sha256 after d c authenticator r descendant b o
              ≡ ok (StoreControlOutcome.authorization_denied, after))
        × ((r : RequestId) (other : CapabilityId)
            → IsNew after d c r
            → revoke_capability sha256 after d c authenticator r other
              ≡ ok (StoreControlOutcome.authorization_denied, after))
  unfolding accept fetch_authorized
  revoked-refused t after d i q target revision c a h below = (
    λ u encoded own. rw (own, denied Operation.update) refl,
    λ id. rw (denied Operation.read) refl,
    λ r descendant b o new. grant_refused after d c a r descendant b o (denied Operation.grant) new,
    λ r other new. revoke_refused after d c a r other (denied Operation.revoke) new,
  )
    where
      denied : (o : Operation) → authorize sha256 after d c a o ≡ false
      denied o = revoked-denied sha256 t after d i q target revision c a o h below
