-- ===== src/Wire/Decoder/Consumes.antt =====
-- The backward direction: what the bytes that a decoding step consumed look like.
use renee.Prelude.{
  ℕ, ◌<◌, ◌^◌, ◌≡◌, refl, ap, ap₂, sym, ◌∙◌, Bool, true, false, [], ◌∷◌, ◌++◌, ltb, length,
  length-take, take-append-drop, append_assoc, append-nil, All-append, append-All, ok, err, Result,
  arith, Bool-cases, inl, inr, ltb_false→le,
}
use mathlib.Core.Path.{subst}
use renee.Bytes.{Bytes, IsByte, IsBytes, to_be, from_be}
use renee.Bytes.Words.{to_be-from_be, from_be-lt}
use renee.Wire.Decoder.{Decoding, pure, lift, check, ◌>>=◌, ◌>>◌, take, take_word, complete}

-- A step that succeeds has split its input into the bytes `used`, of which `P` holds, and the rest.
pub record Split {A : Type 0} (P : A → Bytes → Type 0) (bs : Bytes) (a : A) (rest : Bytes)
    : Type 0 where
  pub used : Bytes
  pub splits : bs ≡ used ++ rest
  pub used_bytes : IsBytes used
  pub rest_bytes : IsBytes rest
  pub holds : P a used

pub record Consumes {E A : Type 0} (m : Decoding E A) (P : A → Bytes → Type 0) : Type 0 where
  pub reads : (bs rest : Bytes) (a : A) → IsBytes bs → m bs ≡ ok (a, rest) → Split P bs a rest

module _ {E : Type 0} where
  ok_parts :
      {A : Type 0} {a b : A} {bs cs : Bytes}
      → ◌≡◌ {A = Result E (A × Bytes)} (ok (a, bs)) (ok (b, cs))
      → (a ≡ b) × (bs ≡ cs)
  ok_parts h = (ground arith, ground arith)

  pub Consumes-pure :
      {A : Type 0} (a : A) (P : A → Bytes → Type 0) → P a [] → Consumes {E = E} (pure a) P
  Consumes-pure a P h = record {
    reads = λ bs rest b bytes e.
        let (same, left) = ok_parts e in
        record {
          used = [];
          splits = left;
          used_bytes = tt;
          rest_bytes = subst IsBytes left bytes;
          holds = subst (λ c. P c []) same h;
        };
  }

  take_inversion :
      (e : E) (n : ℕ) (bs a rest : Bytes)
      → take e n bs ≡ ok (a, rest)
      → (bs ≡ a ++ rest) × (length a ≡ n)
  unfolding take
  take_inversion e n bs a rest h = elim (Bool-cases (ltb (length bs) n)) [
    | inl short ↦ absurd (ground arith)
    | inr enough ↦
        let (same, left) = ok_parts (rw enough at h) in
        (
          sym (take-append-drop n bs) ∙ ap₂ ◌++◌ same left,
          ap length (sym same) ∙ length-take n bs (ltb_false→le (length bs) n enough),
        )
  ]

  pub Consumes-take :
      (e : E) (n : ℕ) → Consumes (take e n) (λ xs used. (used ≡ xs) × (length xs ≡ n))
  Consumes-take e n = record {
    reads = λ bs rest a bytes h.
        let (parts, size) = take_inversion e n bs a rest h in
        let both = All-append IsByte a rest (subst IsBytes parts bytes) in
        record {
          used = a;
          splits = parts;
          used_bytes = both.0;
          rest_bytes = both.1;
          holds = (refl, size);
        };
  }

  bind_inversion :
      {A B : Type 0} (m : Decoding E A) (f : A → Decoding E B) (bs rest : Bytes) (b : B)
      → (m >>= f) bs ≡ ok (b, rest)
      → (a : A) × (mid : Bytes) × (m bs ≡ ok (a, mid)) × (f a mid ≡ ok (b, rest))
  bind_inversion {A} m f bs rest b h = go (m bs) refl
    where
      go :
          (r : Result E (A × Bytes))
          → m bs ≡ r
          → (a : A) × (mid : Bytes) × (m bs ≡ ok (a, mid)) × (f a mid ≡ ok (b, rest))
      go (ok (a, mid)) e = (a, mid, e, cc)
      go (err e) p = absurd (ground arith)

  pub Consumes-bind :
      {A B : Type 0} (m : Decoding E A) (f : A → Decoding E B) (P : A → Bytes → Type 0)
      (Q : B → Bytes → Type 0)
      → Consumes m P
      → ((a : A) (u : Bytes) → IsBytes u → P a u → Consumes (f a) (λ b v. Q b (u ++ v)))
      → Consumes (m >>= f) Q
  Consumes-bind m f P Q cm cf = record {
    reads = λ bs rest b bytes h.
        let (a, mid, first, second) = bind_inversion m f bs rest b h in
        let one = cm.reads bs mid a bytes first in
        let two = (cf a one.used one.used_bytes one.holds).reads mid rest b one.rest_bytes second in
        record {
          used = one.used ++ two.used;
          splits =
              one.splits
              ∙ ap (◌++◌ one.used) two.splits
              ∙ sym (append_assoc one.used two.used rest);
          used_bytes = append-All IsByte one.used two.used one.used_bytes two.used_bytes;
          rest_bytes = two.rest_bytes;
          holds = two.holds;
        };
  }

  -- What follows a test may use that it passed.
  pub Consumes-check :
      {B : Type 0} (test : Bool) (e : E) (k : Decoding E B) (Q : B → Bytes → Type 0)
      → (test ≡ true → Consumes k Q)
      → Consumes (check test e >> k) Q
  Consumes-check true e k Q h = h refl
  Consumes-check false e k Q h = record { reads = λ bs rest b bytes p. absurd (ground arith) }

  pub Consumes-lift :
      {A B : Type 0} (r : Result E A) (f : A → Decoding E B) (Q : B → Bytes → Type 0)
      → ((a : A) → r ≡ ok a → Consumes (f a) Q)
      → Consumes (lift r >>= f) Q
  Consumes-lift (ok a) f Q h = h a refl
  Consumes-lift (err e) f Q h = record { reads = λ bs rest b bytes p. absurd (ground arith) }

  pub Consumes-take_word :
      (e : E) (w : ℕ) → Consumes (take_word e w) (λ n used. (used ≡ to_be w n) × (n < 256 ^ w))
  unfolding take_word
  Consumes-take_word e w =
      Consumes-bind (take e w) (λ bs. pure (from_be bs)) (λ xs used. (used ≡ xs) × (length xs ≡ w))
        (λ n used. (used ≡ to_be w n) × (n < 256 ^ w)) (Consumes-take e w)
        λ xs used bytes h.
          let is_bytes : IsBytes xs = subst IsBytes h.0 bytes in
          Consumes-pure (from_be xs) (λ n v. (used ++ v ≡ to_be w n) × (n < 256 ^ w))
            (
              append-nil used ∙ h.0 ∙ sym (rw h.1 at (to_be-from_be xs is_bytes)),
              rw h.1 at (from_be-lt xs is_bytes),
            )

  -- A whole payload that is accepted was consumed to the end.
  pub complete-Consumes :
      {A : Type 0} (e : E) (m : Decoding E A) (P : A → Bytes → Type 0) (bs : Bytes) (a : A)
      → Consumes m P
      → IsBytes bs
      → complete e m bs ≡ ok a
      → P a bs
  unfolding complete
  complete-Consumes {A} e m P bs a c bytes h = go (m bs) refl
    where
      go : (r : Result E (A × Bytes)) → m bs ≡ r → P a bs
      go (ok (b, [])) p =
          let same : b ≡ a = ground arith in
          let split = c.reads bs [] b bytes p in
          let whole : split.used ≡ bs = sym (split.splits ∙ append-nil split.used) in
          subst (λ x. P x bs) same (subst (P b) whole split.holds)
      go (ok (b, x ∷ rest)) p = absurd (ground arith)
      go (err f) p = absurd (ground arith)
