-- ===== src/Stored/Control/Subtrees.antt =====
-- crates/renee-stored/src/store.rs: the subtree that a revocation marks, beside the walks up from a
-- capability.
use mathlib.Core.Option
use renee.Prelude.{
  ◌≡◌, refl, sym, ap, inl, inr, Bool, ◌&&◌, Bool-cases, if◌then◌else◌, [], ◌∷◌, arith,
}
use renee.Bytes.{bytes_eq}
use renee.Bytes.Words.{bytes_eq_iff}
use renee.Types.{DocumentId, CapabilityId}
use renee.Maps.{BTreeMap, get}
use renee.Maps.Keys
use renee.Maps.Keys.{bytes_key, nat_key, pair_key, ==_refl, ==→eq}
use renee.Stored.Tables.{CapabilityRow}
use renee.Stored.Control.Commands.{revoke_rows, revoked_row}

abbrev Caps : Type 0
Caps = BTreeMap (DocumentId × CapabilityId) CapabilityRow

abbrev pub marked : (CapabilityId → Bool) → CapabilityId → CapabilityRow → CapabilityRow
marked selected c row = if selected c then revoked_row row else row

pub get-revoke_rows :
    (selected : CapabilityId → Bool) (d : DocumentId) (c : CapabilityId) (rows : Caps)
    → get {K = DocumentId × CapabilityId} (d, c) (revoke_rows selected d rows)
      ≡ Option.map (marked selected c) (get {K = DocumentId × CapabilityId} (d, c) rows)
unfolding get revoke_rows
get-revoke_rows selected d c [] = refl
get-revoke_rows selected d c (((e, f), row) ∷ rows) =
    elim (Bool-cases (Keys.◌==◌ {K = DocumentId × CapabilityId} (d, c) (e, f))) [
      | inl here ↦
          let same = ==→eq {K = DocumentId × CapabilityId} (d, c) (e, f) here in
          let apart : (bytes_eq e d && selected f) ≡ selected c =
            ground (arith, (bytes_eq_iff e d).1 (ap (λ p. p.0) (sym same)), ap (λ p. p.1) same) in
          rw (here, apart) refl
      | inr other ↦ rw other (get-revoke_rows selected d c rows)
    ]
