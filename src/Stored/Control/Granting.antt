-- ===== src/Stored/Control/Granting.antt =====
-- crates/renee-stored/src/store.rs: what a grant that is inserted rests on, and what it commits.
use renee.Prelude.{ℕ, ◌≡◌, ◌≢◌, true, none, some, ok}
use renee.Bytes.{Bytes}
use renee.Types.{DocumentId, CapabilityId, Authenticator}
use renee.Types.Operations.{Operation, OperationSet, allows}
use renee.Maps.{get}
use renee.Maps.Keys.{bytes_key, nat_key, pair_key}
use renee.Stored.Verifier.{VerifierPair, derive}
use renee.Stored.Tables.{Tables, CapabilityRow}
use renee.Stored.Authority.{load_operation_set, authorize}

-- The row of a new capability.
abbrev child_row : CapabilityId → VerifierPair → ℕ → CapabilityRow
child_row i v revision = record {
  parent_capability_id = some i;
  live_verifier = v.live;
  receipt_verifier = v.receipt;
  state = 0;
  created_revision = revision;
}

-- What a grant of operations to a new capability below an issuer rests on and commits.
pub record Granted (sha256 : Bytes → Bytes) (t after : Tables) (d : DocumentId) (i : CapabilityId)
    (a : Authenticator) (c : CapabilityId) (b : Authenticator) (o : OperationSet) : Type 0 where
  pub authorized : authorize sha256 t d i a Operation.grant ≡ true
  pub held : OperationSet
  pub loaded : load_operation_set t d i ≡ ok held
  pub attenuated : allows held o ≡ true
  pub new : get {K = DocumentId × CapabilityId} (d, c) t.capabilities ≡ none
  pub row : CapabilityRow
  pub stored : get {K = DocumentId × CapabilityId} (d, c) after.capabilities ≡ some row
  pub parent : row.parent_capability_id ≡ some i
  pub live : row.live_verifier ≡ (derive sha256 d c b).live
  pub receipt : row.receipt_verifier ≡ (derive sha256 d c b).receipt
  pub active : row.state ≡ 0
  pub others :
      (e : DocumentId) (k : CapabilityId)
      → ◌≢◌ {A = DocumentId × CapabilityId} (e, k) (d, c)
      → get {K = DocumentId × CapabilityId} (e, k) after.capabilities
        ≡ get {K = DocumentId × CapabilityId} (e, k) t.capabilities
