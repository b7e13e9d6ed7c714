-- ===== src/Stored/Control.antt =====
-- crates/renee-stored/src/store.rs: receipts, revisions and limits of the control commands.
pub mod Commands
pub mod Subtrees
pub mod Revoking
pub mod Granting
pub mod Preflight
use renee.Prelude.{
  ℕ, zero, suc, ◌+◌, ◌*◌, ◌/◌, ◌%◌, ◌^◌, Bool, true, false, not, ◌&&◌, ◌||◌, ltb, leb, ◌==◌,
  if◌then◌else◌, length, Option, none, some, List, [], ◌∷◌, Result, ok, err,
}
use renee.Bytes.{Bytes, bytes_eq}
use renee.Types.{
  DocumentId, CapabilityId, RequestId, Authenticator, identifier_length, secret_length,
}
use renee.Types.Operations.{
  Operation, OperationSet, contains, read, update, checkpoint, blob_read, blob_put, signal_send,
  signal_receive, grant, revoke, retire,
}
use renee.Maps.{BTreeMap, get, insert}
use renee.Maps.Keys.{bytes_key, nat_key, pair_key}
use renee.Stored.Verifier.{verify_receipt}
use renee.Stored.Tables.{
  StoreError, corrupt, Tables, CapabilityRow, ReceiptRow, ◌>>=◌, insert_row, count_where, sum_where,
}
use renee.Stored.Authority.{operation_code}

abbrev pub max_direct_capability_children : ℕ
max_direct_capability_children = 64

abbrev pub max_capabilities_per_document : ℕ
max_capabilities_per_document = 1024

abbrev pub max_control_receipts_per_document : ℕ
max_control_receipts_per_document = 4096

abbrev pub max_global_capabilities : ℕ
max_global_capabilities = 0x4000

abbrev pub max_global_control_receipts : ℕ
max_global_control_receipts = 0x0001_0000

abbrev pub max_document_control_bytes : ℕ
max_document_control_bytes = 0x0010_0000

abbrev pub max_global_control_bytes : ℕ
max_global_control_bytes = 0x0100_0000

pub data StoreControlOutcome : Type 0 where
  inserted already_present authorization_denied identifier_conflict : StoreControlOutcome
  request_conflict counter_exhausted limit_exceeded : StoreControlOutcome

module _ (sha256 : Bytes → Bytes) where
  unfoldable pub resolve_control_receipt :
      Tables
      → DocumentId
      → CapabilityId
      → Authenticator
      → RequestId
      → ℕ
      → Bytes
      → Option StoreControlOutcome
  resolve_control_receipt t document_id issuer_id authenticator request_id operation input =
      elim (get ((document_id, issuer_id), request_id) t.control_receipts) [
        | none ↦ none
        | some stored ↦ some (elim (get (document_id, issuer_id) t.capabilities) [
          | none ↦ StoreControlOutcome.authorization_denied
          | some issuer ↦
              if not
                (verify_receipt sha256 issuer.receipt_verifier document_id issuer_id authenticator)
              then StoreControlOutcome.authorization_denied
              else if stored.operation == operation && bytes_eq stored.normalized_input input
              then StoreControlOutcome.already_present
              else StoreControlOutcome.request_conflict
        ])
      ]

unfoldable pub insert_control_receipt :
    Tables → DocumentId → CapabilityId → RequestId → ℕ → Bytes → Result StoreError Tables
insert_control_receipt t document_id issuer_id request_id operation input = do
  receipts ←
      insert_row ((document_id, issuer_id), request_id)
        (record { operation = operation; normalized_input = input }) t.control_receipts
  ok (record t { control_receipts = receipts })

-- The next revision of an active document, if it has one.
unfoldable pub next_control_revision : Tables → DocumentId → Option ℕ
next_control_revision t document_id = elim (get document_id t.documents) [
  | none ↦ none
  | some row ↦
      if row.state == 0 && ltb (row.control_revision + 1) (2 ^ 64)
      then some (row.control_revision + 1)
      else none
]

unfoldable pub set_control_revision : Tables → DocumentId → ℕ → Result StoreError Tables
set_control_revision t document_id revision = elim (get document_id t.documents) [
  | none ↦ err corrupt
  | some row ↦
      if row.state == 0
      then ok (record t {
        documents = insert document_id (record row { control_revision = revision }) t.documents;
      })
      else err corrupt
]

abbrev of_document : {K V : Type 0} → DocumentId → DocumentId × K → V → Bool
of_document document_id k v = bytes_eq k.0 document_id

abbrev of_capabilities : {K V : Type 0} → DocumentId → (DocumentId × CapabilityId) × K → V → Bool
of_capabilities document_id k v = bytes_eq k.0.0 document_id

abbrev everywhere : {K V : Type 0} → K → V → Bool
everywhere k v = true

abbrev parent_length : Option CapabilityId → ℕ
parent_length none = 0
parent_length (some parent) = length parent

-- The sums of the two queries, over the rows that the tests select.
unfoldable pub logical_bytes :
    Tables
    → (DocumentId × CapabilityId → CapabilityRow → Bool)
    → ((DocumentId × CapabilityId) × ℕ → Unit {0} → Bool)
    → ((DocumentId × CapabilityId) × RequestId → ReceiptRow → Bool)
    → ℕ
logical_bytes t of_capability of_operation of_receipt =
    sum_where of_capability
      (λ k row.
        length k.1
        + parent_length row.parent_capability_id
        + length row.live_verifier
        + length row.receipt_verifier
        + 8
        + 2)
      t.capabilities
    + sum_where of_operation (λ k _. length k.0.0 + length k.0.1 + 1) t.capability_operations
    + sum_where of_receipt (λ k row. length k.0.1 + length k.1 + length row.normalized_input + 1)
        t.control_receipts

-- The bytes of the document and those of all documents.
unfoldable pub control_logical_bytes : Tables → DocumentId → ℕ × ℕ
unfolding logical_bytes
control_logical_bytes t document_id = (
  logical_bytes t (of_document document_id) (of_capabilities document_id)
      (of_capabilities document_id),
  logical_bytes t everywhere everywhere everywhere,
)

unfoldable pub too_many_children : Tables → DocumentId → Option CapabilityId → Bool
too_many_children t document_id none = false
too_many_children t document_id (some parent) = leb max_direct_capability_children (
    count_where
      (λ k row.
        bytes_eq k.0 document_id
        && elim row.parent_capability_id [ none ↦ false | some p ↦ bytes_eq p parent ])
      t.capabilities)

-- `additional_bytes`, in which no `usize` sum overflows.
abbrev pub additional_bytes : Bool → ℕ → ℕ → ℕ
additional_bytes adds_capability operation_count input_length =
    (if adds_capability
      then identifier_length * 2
        + secret_length * 2
        + 8
        + 2
        + operation_count * (identifier_length * 2 + 1)
      else 0)
    + (identifier_length * 2 + 1)
    + input_length

unfoldable pub control_limits_exceeded :
    Tables → DocumentId → Option CapabilityId → Bool → ℕ → ℕ → Bool
unfolding too_many_children control_logical_bytes
control_limits_exceeded t document_id parent adds_capability operation_count input_length =
    if too_many_children t document_id parent
    then true
    else if (adds_capability
          && (leb max_capabilities_per_document
                (count_where (of_document document_id) t.capabilities)
              || leb max_global_capabilities (length t.capabilities)))
        || leb max_control_receipts_per_document
            (count_where (of_capabilities document_id) t.control_receipts)
        || leb max_global_control_receipts (length t.control_receipts)
    then true
    else let used = control_logical_bytes t document_id in
      let more = additional_bytes adds_capability operation_count input_length in
      ltb max_document_control_bytes (used.0 + more) || ltb max_global_control_bytes (used.1 + more)

-- `all_operations`, those of them that the set holds, each a row.
unfoldable pub insert_codes :
    DocumentId → CapabilityId → OperationSet → List Operation → Tables → Result StoreError Tables
insert_codes document_id capability_id operations [] t = ok t
insert_codes document_id capability_id operations (o ∷ os) t = elim (contains operations o) [
  | false ↦ insert_codes document_id capability_id operations os t
  | true ↦
      insert_row ((document_id, capability_id), operation_code o) tt t.capability_operations
      >>= λ rows.
          insert_codes document_id capability_id operations os
            (record t { capability_operations = rows })
]

abbrev pub all_operations : List Operation
all_operations =
    read ∷ update ∷ checkpoint ∷ blob_read ∷ blob_put ∷ signal_send ∷ signal_receive ∷ grant
    ∷ revoke ∷ retire ∷ []

unfoldable pub insert_operations :
    Tables → DocumentId → CapabilityId → OperationSet → Result StoreError Tables
unfolding insert_codes
insert_operations t document_id capability_id operations =
    insert_codes document_id capability_id operations all_operations t

-- `u16::count_ones`, over the `width` lowest bits.
unfoldable pub count_ones : ℕ → ℕ → ℕ
count_ones zero bits = 0
count_ones (suc width) bits = bits % 2 + count_ones width (bits / 2)
