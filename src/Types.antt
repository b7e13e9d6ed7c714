-- ===== src/Types.antt =====
-- crates/renee-types/src/lib.rs: the vocabulary that the model, the codecs and the store share.
-- An identifier or a secret is its array of bytes; `from_bytes` and `into_bytes` are the identity.
pub mod Operations
pub mod LoroRange
pub mod PublicLoroRanges
pub mod LoroOplogVersion
pub mod AcceptanceSequence
pub mod ImmutableUpdate
use renee.Prelude.{ℕ, ◌≡◌, length}
use renee.Bytes.{Bytes, IsBytes}

-- The identifiers that `identifier!` declares.
abbrev pub DocumentId : Type 0
DocumentId = Bytes

abbrev pub CapabilityId : Type 0
CapabilityId = Bytes

abbrev pub CreateAuthorityId : Type 0
CreateAuthorityId = Bytes

abbrev pub RequestId : Type 0
RequestId = Bytes

abbrev pub UpdateId : Type 0
UpdateId = Bytes

abbrev pub Authenticator : Type 0
Authenticator = Bytes

abbrev pub identifier_length : ℕ
identifier_length = 16

abbrev pub secret_length : ℕ
secret_length = 32

-- What the Rust type `[u8; n]` promises.
abbrev pub IsArray : ℕ → Bytes → Type 0
IsArray n bs = (length bs ≡ n) × IsBytes bs
