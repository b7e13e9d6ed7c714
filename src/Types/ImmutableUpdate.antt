-- ===== src/Types/ImmutableUpdate.antt =====
-- crates/renee-types/src/lib.rs: `ImmutableUpdate` and `UpdateMetadata`.
use renee.Prelude.{ℕ}
use renee.Bytes.{Bytes}
use renee.Types.{DocumentId, UpdateId}
use renee.Types.PublicLoroRanges.{PublicLoroRanges}

pub record ImmutableUpdate : Type 0 where
  pub document_id : DocumentId
  pub encrypted_payload : Bytes
  pub public_loro_ranges : PublicLoroRanges
  pub update_id : UpdateId

pub record UpdateMetadata : Type 0 where
  pub encrypted_payload_length : ℕ
  pub public_loro_ranges : PublicLoroRanges
  pub update_id : UpdateId
