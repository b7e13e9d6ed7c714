-- ===== src/Maps/Keys.antt =====
-- Keys with their derived order: numbers, byte arrays and pairs, compared from the left.
use Prim.Native.Nat.{compare, Ordering}
use renee.Prelude.{ℕ, ◌≡◌, ◌≢◌, ◌↔◌, refl, Bool, true, false, [], ◌∷◌, arith}
use renee.Bytes.{Bytes}

pub record Key (K : Type 0) : Type 0 where
  pub compare : K → K → Ordering
  pub eq_iff : (a b : K) → (compare a b ≡ Ordering.eq) ↔ (a ≡ b)

infix 50 ◌==◌
abbrev pub ◌==◌ : {K : Type 0} ⦃o : Key K⦄ → K → K → Bool
◌==◌ ⦃o⦄ a b = elim (o.compare a b) [ Ordering.eq ↦ true | _ ↦ false ]

-- The first difference decides.
abbrev pub then_compare : Ordering → Ordering → Ordering
then_compare Ordering.eq next = next
then_compare first _ = first

unfoldable pub compare_bytes : Bytes → Bytes → Ordering
compare_bytes [] [] = Ordering.eq
compare_bytes [] (b ∷ bs) = Ordering.lt
compare_bytes (a ∷ xs) [] = Ordering.gt
compare_bytes (a ∷ xs) (b ∷ bs) = then_compare (compare a b) (compare_bytes xs bs)

compare_bytes→eq : (xs ys : Bytes) → compare_bytes xs ys ≡ Ordering.eq → xs ≡ ys
unfolding compare_bytes
compare_bytes→eq [] [] h = refl
compare_bytes→eq [] (y ∷ ys) h = ground arith
compare_bytes→eq (x ∷ xs) [] h = ground arith
compare_bytes→eq (x ∷ xs) (y ∷ ys) h = ground (arith, compare_bytes→eq xs ys)

compare_bytes_refl : (xs : Bytes) → compare_bytes xs xs ≡ Ordering.eq
unfolding compare_bytes
compare_bytes_refl [] = refl
compare_bytes_refl (x ∷ xs) = ground (arith, compare_bytes_refl xs)

pub compare_bytes_iff : (xs ys : Bytes) → (compare_bytes xs ys ≡ Ordering.eq) ↔ (xs ≡ ys)
compare_bytes_iff xs ys = (compare_bytes→eq xs ys, λ e. rw e (compare_bytes_refl ys))

pub compare_iff : (a b : ℕ) → (compare a b ≡ Ordering.eq) ↔ (a ≡ b)
compare_iff a b = ground arith

instance abbrev pub nat_key : Key ℕ
nat_key = record { compare = λ a b. compare a b; eq_iff = compare_iff }

instance abbrev pub bytes_key : Key Bytes
bytes_key = record { compare = compare_bytes; eq_iff = compare_bytes_iff }

module _ {A B : Type 0} ⦃a : Key A⦄ ⦃b : Key B⦄ where
  abbrev pub compare_pair : A × B → A × B → Ordering
  compare_pair (x, y) (z, w) = then_compare (a.compare x z) (b.compare y w)

  pub compare_pair_iff : (p q : A × B) → (compare_pair p q ≡ Ordering.eq) ↔ (p ≡ q)
  compare_pair_iff (x, y) (z, w) = ground (arith, a.eq_iff x z, b.eq_iff y w)

  instance abbrev pub pair_key : Key (A × B)
  pair_key = record { compare = compare_pair; eq_iff = compare_pair_iff }

pub ==→eq : {K : Type 0} ⦃o : Key K⦄ (a b : K) → (a == b) ≡ true → a ≡ b
==→eq ⦃o⦄ a b h = ground (arith, o.eq_iff a b)

pub ==_refl : {K : Type 0} ⦃o : Key K⦄ (a : K) → (a == a) ≡ true
==_refl ⦃o⦄ a = cc ((o.eq_iff a a).1 refl)

pub ==_false : {K : Type 0} ⦃o : Key K⦄ (a b : K) → a ≢ b → (a == b) ≡ false
==_false ⦃o⦄ a b h = ground (arith, o.eq_iff a b)
