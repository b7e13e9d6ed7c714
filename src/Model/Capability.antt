-- ===== src/Model/Capability.antt =====
-- crates/renee-model/src/lib.rs: `CapabilityModel`. SHA-256 is a parameter, and so is everything
-- that is known of it.
pub mod Commands
pub mod Chains
pub mod Marking
pub mod Attenuation
pub mod Granting
pub mod Revoking
pub mod Retries
use renee.Prelude.{
  ℕ, zero, suc, ◌+◌, ◌^◌, Bool, true, false, not, ◌&&◌, ltb, ◌==◌, if◌then◌else◌, Option, none,
  some, List, [], ◌∷◌, ◌++◌,
}
use renee.Bytes.{Bytes, bytes_eq}
use renee.Texts.{ascii}
use renee.Types.{DocumentId, CapabilityId, RequestId, Authenticator}
use renee.Types.Operations.{Operation, OperationSet, full, contains, allows}
use renee.Types.Operations
use renee.Maps.{BTreeMap, get, contains_key, insert, adjust, keys}
use renee.Maps.Keys.{bytes_key, pair_key}

pub data CreateDocumentOutcome : Type 0 where
  inserted already_present identifier_conflict : CreateDocumentOutcome

pub data ControlOutcome : Type 0 where
  inserted already_present authorization_denied identifier_conflict : ControlOutcome
  request_conflict counter_exhausted : ControlOutcome

pub record ModelVerifierPair : Type 0 where
  pub live : Bytes
  pub receipt : Bytes

pub record ModelCapability : Type 0 where
  pub operations : OperationSet
  pub parent : Option CapabilityId
  pub revoked : Bool
  pub verifiers : ModelVerifierPair

pub data ReceiptInput : Type 0 where
  grant : CapabilityId → ModelVerifierPair → OperationSet → ReceiptInput
  revoke : CapabilityId → ReceiptInput

pub record CapabilityDocument : Type 0 where
  pub capabilities : BTreeMap CapabilityId ModelCapability
  pub receipts : BTreeMap (CapabilityId × RequestId) ReceiptInput
  pub revision : ℕ
  pub root_id : CapabilityId

pub record CapabilityModel : Type 0 where
  pub documents : BTreeMap DocumentId CapabilityDocument

abbrev pub default : CapabilityModel
default = record { documents = [] }

-- The derived `==`.
unfoldable pub verifiers_eq : ModelVerifierPair → ModelVerifierPair → Bool
verifiers_eq a b = bytes_eq a.live b.live && bytes_eq a.receipt b.receipt

unfoldable pub receipt_eq : ReceiptInput → ReceiptInput → Bool
unfolding verifiers_eq
receipt_eq (grant d v o) (grant e w p) = bytes_eq d e && verifiers_eq v w && o.bits == p.bits
receipt_eq (revoke d) (revoke e) = bytes_eq d e
receipt_eq _ _ = false

-- The loop of `authorizes`, with the rounds that are left: up the ancestors, none of them revoked.
unfoldable pub chain_is_live : ℕ → CapabilityDocument → Option CapabilityId → Bool
chain_is_live zero document current = false
chain_is_live (suc rounds) document none = true
chain_is_live (suc rounds) document (some current_id) =
    elim (get current_id document.capabilities) [
      | none ↦ false
      | some capability ↦
          if capability.revoked then false else chain_is_live rounds document capability.parent
    ]

-- The loop of `is_descendant`.
unfoldable pub reaches : ℕ → CapabilityDocument → CapabilityId → Option CapabilityId → Bool
reaches zero document ancestor_id current = false
reaches (suc rounds) document ancestor_id none = false
reaches (suc rounds) document ancestor_id (some current_id) =
    if bytes_eq current_id ancestor_id then true else elim (get current_id document.capabilities) [
      | none ↦ reaches rounds document ancestor_id none
      | some capability ↦ reaches rounds document ancestor_id capability.parent
    ]

unfoldable pub is_descendant : CapabilityDocument → CapabilityId → CapabilityId → Bool
is_descendant document ancestor_id descendant_id =
    reaches 64 document ancestor_id (some descendant_id)

-- The loop of `issuer_has_descendant_capacity`: `node_count` goes from 1 to 64.
unfoldable pub has_capacity : ℕ → ℕ → CapabilityDocument → CapabilityId → Bool
has_capacity zero node_count document current = false
has_capacity (suc rounds) node_count document current = elim (get current document.capabilities) [
  | none ↦ false
  | some capability ↦ elim capability.parent [
    | none ↦ ltb node_count 64
    | some parent ↦ has_capacity rounds (node_count + 1) document parent
  ]
]

unfoldable pub issuer_has_descendant_capacity : CapabilityDocument → CapabilityId → Bool
issuer_has_descendant_capacity document issuer_id = has_capacity 64 1 document issuer_id

-- The loop of `revoke` over the keys: each descendant of the target is marked.
unfoldable pub revoke_all :
    CapabilityId → List CapabilityId → CapabilityDocument → CapabilityDocument
revoke_all target_id [] document = document
revoke_all target_id (id ∷ ids) document = revoke_all target_id ids (
    if is_descendant document target_id id
    then record document {
      capabilities = adjust id (λ c. record c { revoked = true }) document.capabilities;
    }
    else document)
