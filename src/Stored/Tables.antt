-- ===== src/Stored/Tables.antt =====
-- crates/renee-stored/src/store.rs: the tables of `SCHEMA`, and what its statements do with them. A
-- table is a map from its primary key; a column whose shape a `CHECK` fixes holds the value that it
-- encodes. A transaction that ends without a commit leaves the tables as they were.
use renee.Prelude.{ℕ, suc, ◌+◌, Bool, if◌then◌else◌, Option, [], ◌∷◌, Result, ok, err}
use renee.Bytes.{Bytes}
use renee.Types.{DocumentId, CapabilityId, CreateAuthorityId, RequestId, UpdateId}
use renee.Types.AcceptanceSequence.{AcceptanceSequence}
use renee.Maps.{BTreeMap, contains_key, insert}
use renee.Maps.Keys.{Key}

pub data StoreError : Type 0 where
  sqlite invalid_cursor entropy_unavailable corrupt : StoreError

pub record AuthorityRow : Type 0 where
  pub live_verifier : Bytes
  pub receipt_verifier : Bytes
  pub state : ℕ

pub record DocumentRow : Type 0 where
  pub state : ℕ
  pub control_revision : ℕ
  pub root_capability_id : CapabilityId

-- `root` is 1 exactly where the parent is NULL.
pub record CapabilityRow : Type 0 where
  pub parent_capability_id : Option CapabilityId
  pub live_verifier : Bytes
  pub receipt_verifier : Bytes
  pub state : ℕ
  pub created_revision : ℕ

pub record ReceiptRow : Type 0 where
  pub operation : ℕ
  pub normalized_input : Bytes

pub record CreateReceiptRow : Type 0 where
  pub document_id : DocumentId
  pub root_capability_id : CapabilityId
  pub normalized_input : Bytes

pub record UpdateRow : Type 0 where
  pub acceptance_sequence : AcceptanceSequence
  pub encoded_record : Bytes

pub record RangeRow : Type 0 where
  pub start_counter : ℕ
  pub end_counter : ℕ

pub record Tables : Type 0 where
  pub create_authorities : BTreeMap CreateAuthorityId AuthorityRow
  pub documents : BTreeMap DocumentId DocumentRow
  pub capabilities : BTreeMap (DocumentId × CapabilityId) CapabilityRow
  pub capability_operations : BTreeMap ((DocumentId × CapabilityId) × ℕ) (Unit {0})
  pub control_receipts : BTreeMap ((DocumentId × CapabilityId) × RequestId) ReceiptRow
  pub create_receipts : BTreeMap (CreateAuthorityId × RequestId) CreateReceiptRow
  pub document_acceptance_sequences : BTreeMap DocumentId AcceptanceSequence
  pub updates : BTreeMap (DocumentId × UpdateId) UpdateRow
  pub update_loro_ranges : BTreeMap ((DocumentId × UpdateId) × ℕ) RangeRow
  pub document_loro_peers : BTreeMap (DocumentId × ℕ) (Unit {0})

infixl 5 ◌>>=◌
abbrev pub ◌>>=◌ {ℓ κ} :
    {A : Type ℓ} {B : Type κ}
    → Result StoreError A
    → (A → Result StoreError B)
    → Result StoreError B
ok a >>= f = f a
err e >>= f = err e

module _ {K V : Type 0} ⦃o : Key K⦄ where
  -- `INSERT INTO`: a row with the same primary key makes it fail.
  unfoldable pub insert_row : K → V → BTreeMap K V → Result StoreError (BTreeMap K V)
  insert_row k v m = if contains_key k m then err sqlite else ok (insert k v m)

module _ {K V : Type 0} where
  -- `SELECT COUNT(*) … WHERE`.
  unfoldable pub count_where : (K → V → Bool) → BTreeMap K V → ℕ
  count_where p [] = 0
  count_where p ((k, v) ∷ rows) = if p k v then suc (count_where p rows) else count_where p rows

  -- `COALESCE(SUM(size) … WHERE, 0)`.
  unfoldable pub sum_where : (K → V → Bool) → (K → V → ℕ) → BTreeMap K V → ℕ
  sum_where p size [] = 0
  sum_where p size ((k, v) ∷ rows) =
      if p k v then size k v + sum_where p size rows else sum_where p size rows
