-- ===== src/Maps.antt =====
-- `BTreeMap` of Rust's standard library, as the model of crates/renee-model uses it: a list of
-- entries in the order of their keys. `insert` puts a new key in its place and replaces the value of
-- an old one.
pub mod Keys
use renee.Prelude.{
  ℕ, ◌≡◌, ◌↔◌, refl, Bool, true, false, if◌then◌else◌, Option, none, some, List, [], ◌∷◌, map,
  arith, length, Option-cases, Bool-cases, inl, inr, ◌⊎◌,
}
use mathlib.Core.Option
use Prim.Native.Nat.{Ordering}
use Keys.{Key, ◌==◌, ==→eq}

abbrev pub BTreeMap : Type 0 → Type 0 → Type 0
BTreeMap K V = List (K × V)

abbrev pub keys : {K V : Type 0} → BTreeMap K V → List K
keys m = map (λ e. e.0) m

-- Occurrence in a list, as a sum.
abbrev pub Member : {K : Type 0} → K → List K → Type 0
Member k [] = ⊥
Member k (j ∷ js) = (k ≡ j) ⊎ Member k js

module _ {K V : Type 0} ⦃o : Key K⦄ where
  unfoldable pub get : K → BTreeMap K V → Option V
  get k [] = none
  get k ((j, v) ∷ m) = if k == j then some v else get k m

  unfoldable pub contains_key : K → BTreeMap K V → Bool
  unfolding get
  contains_key k m = elim (get k m) [ none ↦ false | some v ↦ true ]

  unfoldable pub insert : K → V → BTreeMap K V → BTreeMap K V
  insert k v [] = (k, v) ∷ []
  insert k v ((j, w) ∷ m) =
      let rest = insert k v m in
      elim (o.compare k j) [
        | Ordering.lt ↦ (k, v) ∷ (j, w) ∷ m
        | Ordering.eq ↦ (k, v) ∷ m
        | Ordering.gt ↦ (j, w) ∷ rest
      ]

  -- `if let Some(value) = map.get_mut(&k) { … }`.
  unfoldable pub adjust : K → (V → V) → BTreeMap K V → BTreeMap K V
  unfolding get insert
  adjust k f m = elim (get k m) [ none ↦ m | some v ↦ insert k (f v) m ]

  pub get-insert :
      (k j : K) (v : V) (m : BTreeMap K V)
      → get j (insert k v m) ≡ (if j == k then some v else get j m)
  unfolding get insert
  get-insert k j v [] = refl
  get-insert k j v ((i, w) ∷ m) =
      ground (arith, o.eq_iff k i, o.eq_iff j i, o.eq_iff j k, get-insert k j v m)

  pub get-adjust :
      (k j : K) (f : V → V) (m : BTreeMap K V)
      → get j (adjust k f m) ≡ (if j == k then Option.map f (get k m) else get j m)
  unfolding adjust
  get-adjust k j f m = elim (Option-cases (get k m)) [
    | inl gone ↦ rw (gone, adjust) (ground (arith, o.eq_iff j k, gone))
    | inr (v, found) ↦ rw (found, adjust) (get-insert k j (f v) m)
  ]

  -- The keys of a map are those that it holds.
  pub keys_hold : (k : K) (v : V) (m : BTreeMap K V) → get k m ≡ some v → Member k (keys m)
  unfolding get
  keys_hold k v [] h = ground arith
  keys_hold k v ((j, w) ∷ m) h = elim (Bool-cases (k == j)) [
    | inl here ↦ inl (==→eq k j here)
    | inr there ↦ inr (keys_hold k v m (ground arith))
  ]
