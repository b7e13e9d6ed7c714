-- ===== src/Model/Update/Equality.antt =====
-- The derived equality of `ImmutableUpdate` in crates/renee-types/src/lib.rs.
use renee.Prelude.{◌≡◌, ◌↔◌, refl, true, List, [], ◌∷◌, arith}
use renee.Bytes.Words.{bytes_eq_iff, bytes_eq_refl}
use renee.Types.LoroRange.{LoroRange}
use renee.Types.ImmutableUpdate.{ImmutableUpdate}
use renee.Model.Update.{ranges_eq, update_eq}

ranges_eq→eq : (rs ss : List LoroRange) → ranges_eq rs ss ≡ true → rs ≡ ss
unfolding ranges_eq
ranges_eq→eq [] [] h = refl
ranges_eq→eq [] (s ∷ ss) h = ground arith
ranges_eq→eq (r ∷ rs) [] h = ground arith
ranges_eq→eq (r ∷ rs) (s ∷ ss) h = ground (arith, ranges_eq→eq rs ss)

ranges_eq_refl : (rs : List LoroRange) → ranges_eq rs rs ≡ true
unfolding ranges_eq
ranges_eq_refl [] = refl
ranges_eq_refl (r ∷ rs) = ground (arith, ranges_eq_refl rs)

update_eq→eq : (a b : ImmutableUpdate) → update_eq a b ≡ true → a ≡ b
unfolding update_eq
update_eq→eq a b h = ground (
  arith,
  bytes_eq_iff a.document_id b.document_id,
  bytes_eq_iff a.encrypted_payload b.encrypted_payload,
  bytes_eq_iff a.update_id b.update_id,
  ranges_eq→eq a.public_loro_ranges.ranges b.public_loro_ranges.ranges,
)

update_eq_refl : (a : ImmutableUpdate) → update_eq a a ≡ true
unfolding update_eq
update_eq_refl a = rw (
  bytes_eq_refl a.document_id,
  bytes_eq_refl a.encrypted_payload,
  bytes_eq_refl a.update_id,
  ranges_eq_refl a.public_loro_ranges.ranges,
)

pub update_eq_iff : (a b : ImmutableUpdate) → (update_eq a b ≡ true) ↔ (a ≡ b)
update_eq_iff a b = (update_eq→eq a b, λ e. rw e (update_eq_refl b))
