-- ===== src/Stored/Control/Revoking.antt =====
-- crates/renee-stored/src/store.rs: what a committed revocation denies and what it keeps.
use mathlib.Core.Option
use renee.Prelude.{
  ℕ, zero, suc, ◌+◌, ◌≤◌, ◌≡◌, refl, ap, ◌∙◌, inl, inr, Bool, true, false, ◌&&◌, ◌==◌, Bool-cases,
  Option-cases, Result-cases, length, none, some, ok, arith,
}
use renee.Bytes.{Bytes, bytes_eq}
use renee.Types.{DocumentId, CapabilityId, RequestId, Authenticator}
use renee.Types.Operations.{Operation}
use renee.Maps.{get, contains_key, insert, get-insert}
use renee.Maps.Keys.{bytes_key, nat_key, pair_key, ==_refl}
use renee.Stored.Verifier.{verify_live}
use renee.Stored.Tables.{Tables, CapabilityRow, DocumentRow}
use renee.Stored.Authority.{
  authorized, denied, authorize_from, document_authorization, descends_from, is_descendant_or_self,
  operation_code, presented, authorize_document, authorize,
}
use renee.Stored.Control.{insert_control_receipt, set_control_revision}
use renee.Stored.Control.Commands.{in_subtree, revoke_rows, revoked_row, commit_revocation}
use renee.Stored.Control.Subtrees.{get-revoke_rows, marked}

-- The tables after a committed revocation.
pub record Revoked (t : Tables) (d : DocumentId) (target : CapabilityId) (after : Tables)
    : Type 0 where
  pub capabilities : after.capabilities ≡ revoke_rows (in_subtree t d target) d t.capabilities
  pub operations : after.capability_operations ≡ t.capability_operations
  pub active : document_authorization after d ≡ authorized

receipt_frame :
    (t after : Tables) (d : DocumentId) (i : CapabilityId) (q : RequestId) (o : ℕ) (input : Bytes)
    → insert_control_receipt t d i q o input ≡ ok after
    → (after.capabilities ≡ t.capabilities)
      × (after.capability_operations ≡ t.capability_operations)
unfolding insert_control_receipt
receipt_frame t after d i q o input h = ground arith

revision_frame :
    (t after : Tables) (d : DocumentId) (revision : ℕ)
    → set_control_revision t d revision ≡ ok after
    → (after.capabilities ≡ t.capabilities)
      × (after.capability_operations ≡ t.capability_operations)
      × (document_authorization after d ≡ authorized)
unfolding set_control_revision document_authorization
revision_frame t after d revision h = elim (Option-cases (get d t.documents)) [
  | inl gone ↦ absurd (ground (arith, h, gone))
  | inr (row, found) ↦ elim (Bool-cases (row.state == 0)) [
    | inr over ↦ absurd (ground (arith, h, found, over))
    | inl live ↦
        let now : DocumentRow = record row { control_revision = revision } in
        let same : record t { documents = insert d now t.documents } ≡ after =
          ground (arith, h, found, live) in
        let there : get d (insert d now t.documents) ≡ some now =
          rw (get-insert d d now t.documents, ==_refl d) refl in
        rw (← same) (refl, refl, rw (document_authorization, there, live) refl)
  ]
]

revocation-Revoked :
    (t after : Tables) (d : DocumentId) (i : CapabilityId) (q : RequestId) (target : CapabilityId)
    (revision : ℕ)
    → commit_revocation t d i q target revision ≡ ok after
    → Revoked t d target after
unfolding commit_revocation
revocation-Revoked t after d i q target revision h =
    elim (Result-cases (insert_control_receipt marked_tables d i q 1 target)) [
      | inr (e, bad) ↦ absurd (ground (arith, h, bad))
      | inl (middle, good) ↦
          let first = receipt_frame marked_tables middle d i q 1 target good in
          let last : set_control_revision middle d revision ≡ ok after = ground (arith, h, good) in
          let second = revision_frame middle after d revision last in
          record {
            capabilities = second.0 ∙ first.0;
            operations = second.1 ∙ first.1;
            active = second.2;
          }
    ]
  where
    marked_tables : Tables
    marked_tables = record t { capabilities = revoke_rows (in_subtree t d target) d t.capabilities }

descends_more :
    (n m : ℕ) (t : Tables) (d : DocumentId) (a c : CapabilityId)
    → n ≤ m
    → descends_from n t d a c ≡ true
    → descends_from m t d a c ≡ true
unfolding descends_from
descends_more zero m t d a c le h = absurd (ground arith)
descends_more (suc n) zero t d a c le h = absurd (omega arith)
descends_more (suc n) (suc m) t d a c le h = elim (Bool-cases (bytes_eq c a)) [
  | inl same ↦ rw same refl
  | inr other ↦ elim (Option-cases (get {K = DocumentId × CapabilityId} (d, c) t.capabilities)) [
    | inl gone ↦ absurd (ground (arith, h, other, gone))
    | inr (row, found) ↦ elim (Option-cases row.parent_capability_id) [
      | inl root ↦ absurd (ground (arith, h, other, found, root))
      | inr (p, parent) ↦
          let up : descends_from n t d a p ≡ true = ground (arith, h, other, found, parent) in
          rw (other, descends_from, found, parent) (descends_more n m t d a p (omega arith) up)
    ]
  ]
]

-- A walk that reaches the root in `n` rounds meets an ancestor in as many, if it meets it at all.
descends_within :
    (n m : ℕ) (t : Tables) (d : DocumentId) (a c : CapabilityId) (test : CapabilityRow → Bool)
    → authorize_from n t d test c ≡ authorized
    → descends_from m t d a c ≡ true
    → descends_from n t d a c ≡ true
unfolding descends_from authorize_from
descends_within zero m t d a c test h k = absurd (ground arith)
descends_within (suc n) zero t d a c test h k = absurd (ground arith)
descends_within (suc n) (suc m) t d a c test h k = elim (Bool-cases (bytes_eq c a)) [
  | inl same ↦ rw same refl
  | inr other ↦ elim (Option-cases (get {K = DocumentId × CapabilityId} (d, c) t.capabilities)) [
    | inl gone ↦ absurd (ground (arith, k, other, gone))
    | inr (row, found) ↦ elim (Option-cases row.parent_capability_id) [
      | inl root ↦ absurd (ground (arith, k, other, found, root))
      | inr (p, parent) ↦
          let up : descends_from m t d a p ≡ true = ground (arith, k, other, found, parent) in
          let rest : authorize_from n t d (λ _. true) p ≡ authorized =
            ground (arith, h, found, parent) in
          rw (other, descends_from, found, parent) (descends_within n m t d a p (λ _. true) rest up)
    ]
  ]
]

outside :
    (n : ℕ) (t : Tables) (d : DocumentId) (target c : CapabilityId) (test : CapabilityRow → Bool)
    → authorize_from n t d test c ≡ authorized
    → descends_from n t d target c ≡ false
    → in_subtree t d target c ≡ false
unfolding in_subtree
outside n t d target c test h k = elim (Bool-cases (in_subtree t d target c)) [
  | inl inside ↦
      absurd (
        ground
          (arith, k, descends_within n (64 + length t.capabilities) t d target c test h inside))
  | inr apart ↦ apart
]

row_after :
    (t after : Tables) (d : DocumentId) (target c : CapabilityId)
    → Revoked t d target after
    → get {K = DocumentId × CapabilityId} (d, c) after.capabilities
      ≡ Option.map
          (marked (in_subtree t d target) c)
          (get {K = DocumentId × CapabilityId} (d, c) t.capabilities)
row_after t after d target c r =
    ap (λ m. get {K = DocumentId × CapabilityId} (d, c) m) r.capabilities
    ∙ get-revoke_rows (in_subtree t d target) d c t.capabilities

-- A walk outside the subtree is authorized after the revocation as before.
authorize_kept :
    (n : ℕ) (t after : Tables) (d : DocumentId) (target c : CapabilityId)
    (test : CapabilityRow → Bool)
    → Revoked t d target after
    → authorize_from n t d test c ≡ authorized
    → descends_from n t d target c ≡ false
    → authorize_from n after d test c ≡ authorized
unfolding authorize_from descends_from
authorize_kept zero t after d target c test r h k = absurd (ground arith)
authorize_kept (suc n) t after d target c test r h k =
    elim (Option-cases (get {K = DocumentId × CapabilityId} (d, c) t.capabilities)) [
      | inl gone ↦ absurd (ground (arith, h, gone))
      | inr (row, found) ↦
          let outside_c : in_subtree t d target c ≡ false = outside (suc n) t d target c test h k in
          let kept : get {K = DocumentId × CapabilityId} (d, c) after.capabilities ≡ some row =
            row_after t after d target c r ∙ rw (found, outside_c) refl in
          elim (Option-cases row.parent_capability_id) [
            | inl root ↦ ground (arith, h, found, kept, root, r.active)
            | inr (p, parent) ↦
                let rest : authorize_from n t d (λ _. true) p ≡ authorized =
                  ground (arith, h, found, parent) in
                let apart : descends_from n t d target p ≡ false =
                  ground (arith, k, found, parent) in
                let later = authorize_kept n t after d target p (λ _. true) r rest apart in
                ground (arith, h, found, kept, parent, later)
          ]
    ]

walk_denied :
    (t after : Tables) (d : DocumentId) (target c : CapabilityId) (test : CapabilityRow → Bool)
    → Revoked t d target after
    → in_subtree t d target c ≡ true
    → authorize_from 64 after d test c ≡ denied
unfolding authorize_from
walk_denied t after d target c test r inside =
    elim (Option-cases (get {K = DocumentId × CapabilityId} (d, c) t.capabilities)) [
      | inl gone ↦
          let still : get {K = DocumentId × CapabilityId} (d, c) after.capabilities ≡ none =
            row_after t after d target c r ∙ rw gone refl in
          rw (authorize_from, still) refl
      | inr (row, found) ↦
          let dead : get {K = DocumentId × CapabilityId} (d, c) after.capabilities
              ≡ some (revoked_row row) =
            row_after t after d target c r ∙ rw (found, inside) refl in
          rw (authorize_from, dead) refl
    ]

module _ (sha256 : Bytes → Bytes) where
  -- After a revocation commits, no authenticator is authorized for any operation with the target or
  -- with a capability below it.
  pub revoked-denied :
      (t after : Tables) (d : DocumentId) (i : CapabilityId) (q : RequestId) (target : CapabilityId)
      (revision : ℕ) (c : CapabilityId) (authenticator : Authenticator) (operation : Operation)
      → commit_revocation t d i q target revision ≡ ok after
      → is_descendant_or_self t d target c ≡ true
      → authorize sha256 after d c authenticator operation ≡ false
  unfolding authorize is_descendant_or_self in_subtree
  revoked-denied t after d i q target revision c authenticator operation h below =
      let r = revocation-Revoked t after d i q target revision h in
      let inside : in_subtree t d target c ≡ true =
        descends_more 64 (64 + length t.capabilities) t d target c (omega arith) below in
      let walk : authorize_document sha256 after d c authenticator operation ≡ denied =
        unfold authorize_document in
        walk_denied t after d target c (presented sha256 after d c authenticator operation) r
          inside in
      rw (authorize, walk) refl

  -- A revocation that commits takes nothing from a capability that is not below its target: what was
  -- authorized before it is authorized after it.
  pub revoked-kept :
      (t after : Tables) (d : DocumentId) (i : CapabilityId) (q : RequestId) (target : CapabilityId)
      (revision : ℕ) (c : CapabilityId) (authenticator : Authenticator) (operation : Operation)
      → commit_revocation t d i q target revision ≡ ok after
      → is_descendant_or_self t d target c ≡ false
      → authorize sha256 t d c authenticator operation ≡ true
      → authorize sha256 after d c authenticator operation ≡ true
  unfolding authorize is_descendant_or_self
  revoked-kept t after d i q target revision c authenticator operation h apart before =
      let r = revocation-Revoked t after d i q target revision h in
      let first : authorize_document sha256 t d c authenticator operation ≡ authorized =
        ground (arith, before) in
      let walk : authorize_from 64 t d (presented sha256 t d c authenticator operation) c
          ≡ authorized =
        unfold authorize_document in first in
      let later =
        authorize_kept 64 t after d target c (presented sha256 t d c authenticator operation) r walk
          apart in
      let same : presented sha256 after d c authenticator operation
          ≡ presented sha256 t d c authenticator operation =
        unfold presented in
        ap
          (λ held row.
            verify_live sha256 row.live_verifier d c authenticator
            && contains_key {K = (DocumentId × CapabilityId) × ℕ} ((d, c), operation_code operation)
                held)
          r.operations in
      let last : authorize_document sha256 after d c authenticator operation ≡ authorized =
        unfold authorize_document in ap (λ test. authorize_from 64 after d test c) same ∙ later in
      rw (authorize, last) refl
