-- ===== src/Tests/Capability.antt =====
-- Capability commands on a document with a root and one descendant. The digest of these tests is the
-- length of what it is given.
use renee.Prelude.{ℕ, ◌≡◌, ◌↔◌, ◌<◌, refl, true, false, none, some, [], ◌∷◌, arith, length}
use renee.Bytes.{Bytes, bytes_eq}
use renee.Types.{DocumentId, CapabilityId, RequestId, Authenticator}
use renee.Types.Operations.{OperationSet, Operation, full, contains, allows, operation_mask}
use renee.Maps.{get, insert, contains_key, adjust}
use renee.Maps.Keys.{bytes_key, pair_key, compare_bytes}
use renee.Model.Capability.{
  CapabilityModel, CapabilityDocument, ModelCapability, ModelVerifierPair, ReceiptInput,
  ControlOutcome, chain_is_live, reaches, is_descendant, has_capacity,
  issuer_has_descendant_capacity, revoke_all,
}
use renee.Model.Capability.Commands.{
  model_verifiers, grant_in, revoke_in, document_authorizes, document_receipt, grant, revoke,
  authorizes, receipt_outcome, is_active_descendant,
}
use renee.Model.Capability.Chains.{Ancestry, Live, Below}
use renee.Model.Capability.Marking.{revoked_copy}
use renee.Model.Capability.Attenuation.{IsWellFormed, authorized_ancestor_holds}
use renee.Model.Capability.Granting.{granted_authorized_iff, granted_frame, granted-IsWellFormed}
use renee.Model.Capability.Revoking.{revoked_not_authorized, revoked_frame}
use renee.Model.Capability.Retries.{grant_again}

abbrev digest : Bytes → Bytes
digest bs = length bs ∷ []

abbrev document_id : DocumentId
document_id = 9 ∷ []

abbrev root_id : CapabilityId
root_id = 1 ∷ []

abbrev child_id : CapabilityId
child_id = 2 ∷ []

abbrev root_secret : Authenticator
root_secret = 3 ∷ []

abbrev child_secret : Authenticator
child_secret = 4 ∷ 4 ∷ []

abbrev grant_request : RequestId
grant_request = 5 ∷ []

abbrev revoke_request : RequestId
revoke_request = 6 ∷ []

abbrev read_only : OperationSet
read_only = record { bits = 1 }

abbrev root_verifiers : ModelVerifierPair
root_verifiers = record { live = 37 ∷ []; receipt = 40 ∷ [] }

abbrev child_verifiers : ModelVerifierPair
child_verifiers = record { live = 38 ∷ []; receipt = 41 ∷ [] }

abbrev root : ModelCapability
root = record { operations = full; parent = none; revoked = false; verifiers = root_verifiers }

abbrev child : ModelCapability
child = record {
  operations = read_only;
  parent = some root_id;
  revoked = false;
  verifiers = child_verifiers;
}

abbrev created : CapabilityDocument
created = record {
  capabilities = (root_id, root) ∷ [];
  receipts = [];
  revision = 1;
  root_id = root_id;
}

abbrev shared : CapabilityDocument
shared = record {
  capabilities = (root_id, root) ∷ (child_id, child) ∷ [];
  receipts = ((root_id, grant_request), ReceiptInput.grant child_id child_verifiers read_only) ∷ [];
  revision = 2;
  root_id = root_id;
}

abbrev withdrawn : CapabilityDocument
withdrawn = record {
  capabilities = (root_id, root) ∷ (child_id, revoked_copy child) ∷ [];
  receipts =
      ((root_id, grant_request), ReceiptInput.grant child_id child_verifiers read_only)
      ∷ ((root_id, revoke_request), ReceiptInput.revoke child_id)
      ∷ [];
  revision = 3;
  root_id = root_id;
}

abbrev model_of : CapabilityDocument → CapabilityModel
model_of d = record { documents = (document_id, d) ∷ [] }

root_verified : root_verifiers ≡ model_verifiers digest document_id root_id root_secret
unfolding model_verifiers
root_verified = refl

granting :
    grant_in created root_id grant_request child_id child_verifiers read_only
    ≡ (ControlOutcome.inserted, shared)
unfolding grant_in issuer_has_descendant_capacity has_capacity get insert contains_key allows
    compare_bytes
granting = refl

revoking : revoke_in shared root_id revoke_request child_id ≡ (ControlOutcome.inserted, withdrawn)
unfolding revoke_in revoke_all is_descendant reaches get insert adjust compare_bytes bytes_eq
revoking = refl

granting_model :
    grant digest
      (model_of created)
      document_id
      root_id
      root_secret
      grant_request
      child_id
      child_secret
      read_only
    ≡ (ControlOutcome.inserted, model_of shared)
unfolding grant receipt_outcome document_receipt authorizes document_authorizes chain_is_live
    contains operation_mask model_verifiers grant_in issuer_has_descendant_capacity has_capacity get
    insert contains_key allows compare_bytes bytes_eq
granting_model = refl

revoking_model :
    revoke digest (model_of shared) document_id root_id root_secret revoke_request child_id
    ≡ (ControlOutcome.inserted, model_of withdrawn)
unfolding revoke receipt_outcome document_receipt authorizes document_authorizes chain_is_live
    is_active_descendant contains operation_mask model_verifiers revoke_in revoke_all is_descendant
    reaches get insert adjust compare_bytes bytes_eq
revoking_model = refl

unknown_document :
    grant digest
      (model_of created)
      child_id
      root_id
      root_secret
      grant_request
      child_id
      child_secret
      read_only
    ≡ (ControlOutcome.authorization_denied, model_of created)
unfolding grant receipt_outcome authorizes get compare_bytes
unknown_document = refl

unknown_document_revoke :
    revoke digest (model_of created) child_id root_id root_secret revoke_request child_id
    ≡ (ControlOutcome.authorization_denied, model_of created)
unfolding revoke receipt_outcome get compare_bytes
unknown_document_revoke = refl

child_found : get child_id shared.capabilities ≡ some child
unfolding get compare_bytes
child_found = refl

root_found : get root_id shared.capabilities ≡ some root
unfolding get compare_bytes
root_found = refl

created_root : get root_id created.capabilities ≡ some root
unfolding get compare_bytes
created_root = refl

child_reads : document_authorizes shared child_id (38 ∷ []) Operation.read ≡ true
unfolding document_authorizes chain_is_live contains operation_mask get compare_bytes bytes_eq
child_reads = refl

created_there : get document_id (model_of created).documents ≡ some created
unfolding get compare_bytes
created_there = refl

shared_there : get document_id (model_of shared).documents ≡ some shared
unfolding get compare_bytes
shared_there = refl

only_root :
    (id : CapabilityId) (c : ModelCapability) → get id created.capabilities ≡ some c → c ≡ root
unfolding get
only_root id c h = ground arith

created-IsWellFormed : IsWellFormed created
created-IsWellFormed = record {
  canonical = λ id c h. rw (only_root id c h) (omega arith);
  attenuated = λ id p c h k. absurd (ground (arith, only_root id c h));
  rooted = λ id c h. (1, Ancestry.top id c h (rw (only_root id c h)), omega arith);
}

child-Below : Below shared root_id child_id 1
child-Below = Below.up child_id root_id child 0 child_found refl (Below.self root_id refl)

root_aside : (k : ℕ) → ¬ (Below shared child_id root_id k)
root_aside k (Below.self _ same) = absurd (ground arith)
root_aside k (Below.up _ p c m found parent rest) = absurd (ground (arith, root_found))

granted-IsWellFormed_example : IsWellFormed shared
granted-IsWellFormed_example =
    granted-IsWellFormed created shared root_id grant_request child_id child_verifiers read_only
      granting created-IsWellFormed (omega arith)

shared-IsWellFormed : IsWellFormed shared
shared-IsWellFormed =
    granted-IsWellFormed created shared root_id grant_request child_id child_verifiers read_only
      granting created-IsWellFormed (omega arith)

authorized_ancestor_holds_example : (contains full Operation.read ≡ true) × (root.revoked ≡ false)
authorized_ancestor_holds_example =
    authorized_ancestor_holds shared root_id child_id 1 root (38 ∷ []) Operation.read
      shared-IsWellFormed child_reads child-Below root_found

granted_authorized_iff_example :
    (document_authorizes shared child_id (38 ∷ []) Operation.read ≡ true) ↔ (
      (child_verifiers.live ≡ 38 ∷ [])
      × (contains read_only Operation.read ≡ true)
      × ((n : ℕ) × Live created root_id n × (n < 63)))
granted_authorized_iff_example =
    granted_authorized_iff created shared root_id grant_request child_id child_verifiers read_only
      granting (38 ∷ []) Operation.read created-IsWellFormed

granted_frame_example :
    document_authorizes shared root_id (37 ∷ []) Operation.grant
    ≡ document_authorizes created root_id (37 ∷ []) Operation.grant
granted_frame_example =
    granted_frame created shared root_id grant_request child_id child_verifiers read_only granting
      root_id root (37 ∷ []) Operation.grant created-IsWellFormed created_root

revoked_not_authorized_example :
    document_authorizes withdrawn child_id (38 ∷ []) Operation.read ≡ false
revoked_not_authorized_example =
    revoked_not_authorized shared withdrawn root_id revoke_request child_id revoking child_id 0
      (38 ∷ []) Operation.read child child_found (Below.self child_id refl)

revoked_frame_example :
    document_authorizes withdrawn root_id (37 ∷ []) Operation.revoke
    ≡ document_authorizes shared root_id (37 ∷ []) Operation.revoke
revoked_frame_example =
    revoked_frame shared withdrawn root_id revoke_request child_id revoking root_id (37 ∷ [])
      Operation.revoke root_aside

grant_again_example :
    grant digest
      (model_of shared)
      document_id
      root_id
      root_secret
      grant_request
      child_id
      child_secret
      read_only
    ≡ (ControlOutcome.already_present, model_of shared)
grant_again_example =
    grant_again digest (model_of created) document_id root_id root_secret grant_request child_id
      child_secret read_only (model_of shared) created root created_there created_root root_verified
      granting_model
