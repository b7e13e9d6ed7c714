-- ===== src/Stored/Verifier.antt =====
-- crates/renee-stored/src/verifier.rs: the verifiers of capabilities and of creation authorities.
-- `sha256` is the digest of the `ring` crate.
use renee.Prelude.{[], ◌∷◌, ◌++◌, Bool}
use renee.Bytes.{Bytes, bytes_eq}
use renee.Texts.{ascii}
use renee.Types.{DocumentId, CapabilityId, CreateAuthorityId, Authenticator}

abbrev pub live_domain : Bytes
live_domain = ascii "renee/capability/live-verifier/v1" ++ (0 ∷ [])

abbrev pub receipt_domain : Bytes
receipt_domain = ascii "renee/capability/receipt-verifier/v1" ++ (0 ∷ [])

abbrev pub create_live_domain : Bytes
create_live_domain = ascii "renee/create-authority/live-verifier/v1" ++ (0 ∷ [])

abbrev pub create_receipt_domain : Bytes
create_receipt_domain = ascii "renee/create-authority/receipt-verifier/v1" ++ (0 ∷ [])

pub record VerifierPair : Type 0 where
  pub live : Bytes
  pub receipt : Bytes

module _ (sha256 : Bytes → Bytes) where
  unfoldable pub derive_domain : Bytes → DocumentId → CapabilityId → Authenticator → Bytes
  derive_domain domain document_id capability_id authenticator =
      sha256 (domain ++ (document_id ++ (capability_id ++ authenticator)))

  unfoldable pub derive_create_domain : Bytes → CreateAuthorityId → Authenticator → Bytes
  derive_create_domain domain create_authority_id authenticator =
      sha256 (domain ++ (create_authority_id ++ authenticator))

  unfoldable pub derive : DocumentId → CapabilityId → Authenticator → VerifierPair
  unfolding derive_domain
  derive document_id capability_id authenticator = record {
    live = derive_domain live_domain document_id capability_id authenticator;
    receipt = derive_domain receipt_domain document_id capability_id authenticator;
  }

  unfoldable pub verify_live : Bytes → DocumentId → CapabilityId → Authenticator → Bool
  verify_live expected document_id capability_id authenticator =
      bytes_eq expected (derive_domain live_domain document_id capability_id authenticator)

  unfoldable pub verify_receipt : Bytes → DocumentId → CapabilityId → Authenticator → Bool
  verify_receipt expected document_id capability_id authenticator =
      bytes_eq expected (derive_domain receipt_domain document_id capability_id authenticator)

  unfoldable pub verify_create_live : Bytes → CreateAuthorityId → Authenticator → Bool
  verify_create_live expected create_authority_id authenticator =
      bytes_eq expected (derive_create_domain create_live_domain create_authority_id authenticator)

  unfoldable pub verify_create_receipt : Bytes → CreateAuthorityId → Authenticator → Bool
  verify_create_receipt expected create_authority_id authenticator =
      bytes_eq expected
        (derive_create_domain create_receipt_domain create_authority_id authenticator)

  unfoldable pub derive_create : CreateAuthorityId → Authenticator → VerifierPair
  unfolding derive_create_domain
  derive_create create_authority_id authenticator = record {
    live = derive_create_domain create_live_domain create_authority_id authenticator;
    receipt = derive_create_domain create_receipt_domain create_authority_id authenticator;
  }
