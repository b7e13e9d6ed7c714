-- ===== src/Wire/Decoder.antt =====
-- The cursor over the bytes that are left, which `Decoder` of crates/renee-wire/src/capability.rs
-- and that of crates/renee-wire/src/update.rs both are. A decoding step takes the bytes that are
-- left, and fails or returns its value and what it leaves. The error type is a parameter.
pub mod Reads
pub mod Consumes
use renee.Prelude.{
  ℕ, Bool, true, false, [], ◌∷◌, ltb, if◌then◌else◌, length, Result, ok, err, map_ok,
}
use renee.Prelude
use renee.Bytes.{Bytes, from_be}

abbrev pub Decoding : Type 0 → Type 0 → Type 0
Decoding E A = Bytes → Result E (A × Bytes)

module _ {E : Type 0} where
  abbrev pub pure : {A : Type 0} → A → Decoding E A
  pure a bs = ok (a, bs)

  abbrev pub lift : {A : Type 0} → Result E A → Decoding E A
  lift (ok a) bs = ok (a, bs)
  lift (err e) bs = err e

  -- `if !test { return Err(e) }`.
  abbrev pub check : Bool → E → Decoding E (Unit {0})
  check true e bs = ok (tt, bs)
  check false e bs = err e

  infixl 5 ◌>>=◌ ◌>>◌
  abbrev continue :
      {A B : Type 0} → Result E (A × Bytes) → (A → Decoding E B) → Result E (B × Bytes)
  continue (ok (a, rest)) f = f a rest
  continue (err e) f = err e

  abbrev pub ◌>>=◌ : {A B : Type 0} → Decoding E A → (A → Decoding E B) → Decoding E B
  ◌>>=◌ m f bs = continue (m bs) f

  abbrev pub ◌>>◌ : {A B : Type 0} → Decoding E A → Decoding E B → Decoding E B
  m >> k = m >>= λ _. k

  -- `take`: splits off exactly `n` bytes, or fails with `truncated`.
  unfoldable pub take : E → ℕ → Decoding E Bytes
  take truncated n bs =
      if ltb (length bs) n then err truncated else ok (Prelude.take n bs, Prelude.drop n bs)

  -- `finish`: no byte may be left.
  unfoldable pub finish : E → Bytes → Result E (Unit {0})
  finish trailing [] = ok tt
  finish trailing (b ∷ bs) = err trailing

  abbrev finished : {A : Type 0} → E → Result E (A × Bytes) → Result E A
  finished trailing (ok (a, rest)) = map_ok (λ _. a) (finish trailing rest)
  finished trailing (err e) = err e

  -- A decoder over a whole payload: the steps, then `finish`.
  unfoldable pub complete : {A : Type 0} → E → Decoding E A → Bytes → Result E A
  unfolding finish
  complete trailing m bs = finished trailing (m bs)

  -- `uN::from_be_bytes(self.take_array()?)`, for a word of `w` bytes.
  unfoldable pub take_word : E → ℕ → Decoding E ℕ
  unfolding take
  take_word truncated w = do bs ← take truncated w; pure (from_be bs)
