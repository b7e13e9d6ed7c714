-- ===== src/Wire/Decoder/Reads.antt =====
-- The forward direction: a decoding step on bytes that begin with an encoding.
use renee.Prelude.{
  ℕ, ◌≡◌, Bool, true, [], ◌∷◌, ◌++◌, length, length-append, take-append, drop-append, ok, err, ◌<◌,
  ◌^◌, Result, arith, append-nil,
}
use renee.Bytes.{Bytes, to_be}
use renee.Bytes.Words.{length-to_be, from_be-to_be}
use renee.Wire.Decoder.{Decoding, lift, check, ◌>>=◌, take, take_word, complete}

module _ {E : Type 0} where
  bind-ok :
      {A B : Type 0} (m : Decoding E A) (f : A → Decoding E B) {bs mid rest : Bytes} {a : A} {b : B}
      → m bs ≡ ok (a, mid)
      → f a mid ≡ ok (b, rest)
      → (m >>= f) bs ≡ ok (b, rest)
  bind-ok m f p q = cc

  pub take-append_ok :
      (e : E) (n : ℕ) (xs rest : Bytes) → length xs ≡ n → take e n (xs ++ rest) ≡ ok (xs, rest)
  unfolding take
  take-append_ok e n xs rest h =
      ground (arith, length-append xs rest, take-append xs rest n h, drop-append xs rest n h)

  check_ok : (b : Bool) (e : E) (bs : Bytes) → b ≡ true → check b e bs ≡ ok (tt, bs)
  check_ok b e bs h = rw h

  lift_ok : {A : Type 0} (r : Result E A) (bs : Bytes) {a : A} → r ≡ ok a → lift r bs ≡ ok (a, bs)
  lift_ok r bs h = rw h

  -- Steps that leave nothing make a whole payload.
  pub complete_ok :
      {A : Type 0} (e : E) (m : Decoding E A) (bs : Bytes) {a : A}
      → m bs ≡ ok (a, [])
      → complete e m bs ≡ ok a
  unfolding complete
  complete_ok e m bs h = rw h

  -- Steps that leave a byte fail with `trailing`.
  complete_trailing :
      {A : Type 0} (e : E) (m : Decoding E A) (bs rest : Bytes) (b : ℕ) {a : A}
      → m bs ≡ ok (a, b ∷ rest)
      → complete e m bs ≡ err e
  unfolding complete
  complete_trailing e m bs rest b h = rw h

  complete_err :
      {A : Type 0} (e f : E) (m : Decoding E A) (bs : Bytes)
      → m bs ≡ err f
      → complete e m bs ≡ err f
  unfolding complete
  complete_err e f m bs h = rw h

  pub take_word_ok :
      (e : E) (w n : ℕ) (rest : Bytes)
      → n < 256 ^ w
      → take_word e w (to_be w n ++ rest) ≡ ok (n, rest)
  unfolding take_word
  take_word_ok e w n rest h =
      let taken = take-append_ok e w (to_be w n) rest (length-to_be w n) in
      cc (taken, from_be-to_be w n h)

  -- Too few bytes for the next field.
  take_short : (e : E) (n : ℕ) (bs : Bytes) → length bs < n → take e n bs ≡ err e
  unfolding take
  take_short e n bs h = ground arith

  bind-err :
      {A B : Type 0} (m : Decoding E A) (f : A → Decoding E B) (e : E) (bs : Bytes)
      → m bs ≡ err e
      → (m >>= f) bs ≡ err e
  bind-err m f e bs p = cc

  -- The same for the last field.
  pub take_ok : (e : E) (n : ℕ) (xs : Bytes) → length xs ≡ n → take e n xs ≡ ok (xs, [])
  take_ok e n xs h = rw append-nil at (take-append_ok e n xs [] h)

  pub take_word_last : (e : E) (w n : ℕ) → n < 256 ^ w → take_word e w (to_be w n) ≡ ok (n, [])
  take_word_last e w n h = rw append-nil at (take_word_ok e w n [] h)
