-- ===== src/Stored/Control/Preflight.antt =====
-- crates/renee-stored/src/store.rs: `preflight_revoke_capability` beside `revoke_capability`.
use renee.Prelude.{
  ◌≡◌, ◌⊎◌, refl, inl, inr, false, Bool-cases, Option-cases, length, none, Result, ok, err,
}
use renee.Bytes.{Bytes}
use renee.Types.{DocumentId, CapabilityId, RequestId, Authenticator}
use renee.Types.Operations.{Operation}
use renee.Stored.Tables.{StoreError, Tables, ◌>>=◌}
use renee.Stored.Authority.{authorize, is_active_descendant}
use renee.Stored.Control.{
  StoreControlOutcome, resolve_control_receipt, next_control_revision, control_limits_exceeded,
}
use renee.Stored.Control.Commands.{
  StoreRevokePreflight, resolved, requires_mutation, preflight_revoke_capability, revoke_capability,
  revoke_authorized,
}

-- What a preflight promises of the revocation by the same tables: the outcome, with the tables kept,
-- or a mutation that commits unless a statement fails.
abbrev pub Promises :
    Tables → StoreRevokePreflight → Result StoreError (StoreControlOutcome × Tables) → Type 0
Promises t (resolved outcome) answer = answer ≡ ok (outcome, t)
Promises t requires_mutation answer =
    ((committed : Tables) × (answer ≡ ok (StoreControlOutcome.inserted, committed)))
    ⊎ ((e : StoreError) × (answer ≡ err e))

commits :
    (t : Tables) (change : Result StoreError Tables)
    → Promises t requires_mutation
        (change >>= λ committed. ok (StoreControlOutcome.inserted, committed))
commits t (ok committed) = inl (committed, refl)
commits t (err e) = inr (e, refl)

module _ (sha256 : Bytes → Bytes) where
  -- A preflight decides as the revocation does on the same tables: an outcome that it resolves is the
  -- revocation's, which keeps the tables, and where it asks for the mutation the revocation commits
  -- an insertion unless a statement fails.
  pub preflight_agrees :
      (t : Tables) (document_id : DocumentId) (issuer_id : CapabilityId)
      (authenticator : Authenticator) (request_id : RequestId) (target_id : CapabilityId)
      → Promises t
          (preflight_revoke_capability sha256 t document_id issuer_id authenticator request_id
            target_id)
          (revoke_capability sha256 t document_id issuer_id authenticator request_id target_id)
  unfolding preflight_revoke_capability revoke_capability revoke_authorized
  preflight_agrees t document_id issuer_id authenticator request_id target_id =
      elim (Option-cases (
        resolve_control_receipt sha256 t document_id issuer_id authenticator request_id 1
          target_id)) [
            | inr (outcome, known) ↦ rw (known, preflight_revoke_capability, revoke_capability) refl
            | inl new ↦
                elim (Bool-cases
                  (authorize sha256 t document_id issuer_id authenticator Operation.revoke)) [
                    | inr denied ↦
                        rw (new, preflight_revoke_capability, revoke_capability, denied) refl
                    | inl allowed ↦ elim (Option-cases (next_control_revision t document_id)) [
                      | inl last ↦
                          rw
                            (
                              new, preflight_revoke_capability, revoke_capability, allowed, last,
                              revoke_authorized,
                            )
                            refl
                      | inr (revision, next) ↦
                          elim (Bool-cases
                            (is_active_descendant t document_id issuer_id target_id)) [
                              | inr apart ↦
                                  rw
                                    (
                                      new, preflight_revoke_capability, revoke_capability, allowed,
                                      next, revoke_authorized, apart,
                                    )
                                    refl
                              | inl below ↦
                                  elim (Bool-cases (
                                    control_limits_exceeded t document_id none false 0
                                      (length target_id))) [
                                        | inl full ↦
                                            rw
                                              (
                                                new, preflight_revoke_capability, revoke_capability,
                                                allowed, next, revoke_authorized, below, full,
                                              )
                                              refl
                                        | inr room ↦
                                            rw
                                              (
                                                new, preflight_revoke_capability, revoke_capability,
                                                allowed, next, revoke_authorized, below, room,
                                              )
                                              (commits t _)
                                      ]
                            ]
                    ]
                  ]
          ]
