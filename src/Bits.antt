-- ===== src/Bits.antt =====
-- The binary digits of a number, and the laws of Rust's `&`, `|` and `!` on unsigned words that the
-- operation sets of crates/renee-types need.
use Prim.Native.Nat.{max, bit_and, bit_or, digits, bit_and-bitwise, bit_or-bitwise}
use native.Mathlib.Nat.{pow-suc}
use renee.Prelude.{
  ℕ, zero, suc, ◌+◌, ◌-◌, ◌*◌, ◌/◌, ◌%◌, ◌^◌, ◌≤◌, ◌<◌, min, ◌≡◌, ◌↔◌, refl, ap, ◌∙◌, Bool, true,
  false, not, ◌||◌, ◌==◌, arith,
}

-- Whether binary digit `k` of a number is set.
unfoldable pub bit : ℕ → ℕ → Bool
bit zero x = x % 2 == 1
bit (suc k) x = bit k (x / 2)

-- A digit-wise operation, by its lowest digit. `z` says what is left when the first number has run
-- out of digits.
module _ (z : ℕ → ℕ) (f : ℕ → ℕ → ℕ) (runs_out : (b : ℕ) → z b ≡ z (b / 2) * 2 + f 0 (b % 2)) where
  digits_any : (n m a b : ℕ) → a ≤ n → a ≤ m → digits z f n a b ≡ digits z f m a b
  digits_any zero zero a b h k = refl
  digits_any zero (suc m) zero b h k = refl
  digits_any (suc n) zero zero b h k = refl
  digits_any (suc n) (suc m) zero b h k = refl
  digits_any (suc n) (suc m) (suc a) b h k =
      ap (λ (d : ℕ). d * 2 + f (suc a % 2) (b % 2))
        (digits_any n m (suc a / 2) (b / 2) (omega arith) (omega arith))
  digits_any zero m (suc a) b h k = absurd (omega arith)
  digits_any (suc n) zero (suc a) b h k = absurd (omega arith)

  digits_step :
      (a b : ℕ) → digits z f a a b ≡ digits z f (a / 2) (a / 2) (b / 2) * 2 + f (a % 2) (b % 2)
  digits_step zero b = runs_out b
  digits_step (suc a) b =
      ap (λ (d : ℕ). d * 2 + f (suc a % 2) (b % 2))
        (digits_any a (suc a / 2) (suc a / 2) (b / 2) (omega arith) (omega arith))

bit_and_halves : (a b : ℕ) → bit_and a b ≡ bit_and (a / 2) (b / 2) * 2 + min (a % 2) (b % 2)
bit_and_halves a b = omega (
  arith,
  digits_step (λ _. 0) min (λ b. omega arith) a b,
  bit_and-bitwise a b,
  bit_and-bitwise (a / 2) (b / 2),
)

bit_or_halves : (a b : ℕ) → bit_or a b ≡ bit_or (a / 2) (b / 2) * 2 + max (a % 2) (b % 2)
bit_or_halves a b = omega (
  arith,
  digits_step (λ b. b) max (λ b. omega arith) a b,
  bit_or-bitwise a b,
  bit_or-bitwise (a / 2) (b / 2),
)

bit_and_zero : (k x : ℕ) → x ≤ k → bit_and x 0 ≡ 0
bit_and_zero k zero h = refl
bit_and_zero zero (suc x) h = absurd (omega arith)
bit_and_zero (suc k) (suc x) h =
    omega (arith, bit_and_halves (suc x) 0, bit_and_zero k (suc x / 2) (omega arith))

bit_and-double : (x m : ℕ) → bit_and x (m * 2) ≡ bit_and (x / 2) m * 2
bit_and-double x m =
    let half : m * 2 / 2 ≡ m = omega arith in
    let same : bit_and (x / 2) (m * 2 / 2) ≡ bit_and (x / 2) m = rw half in
    omega (arith, bit_and_halves x (m * 2), same)

-- A mask of one digit tests that digit.
pub bit_and-pow : (k x : ℕ) → (bit_and x (2 ^ k) == 0) ≡ not (bit k x)
unfolding bit
bit_and-pow zero x = ground (arith, bit_and_halves x 1, bit_and_zero (x / 2) (x / 2) (omega arith))
bit_and-pow (suc k) x =
    rw (pow-suc 2 k, bit_and-double x (2 ^ k)) (ground (arith, bit_and-pow k (x / 2)))

pub bit-bit_or : (k x y : ℕ) → bit k (bit_or x y) ≡ (bit k x || bit k y)
unfolding bit
bit-bit_or zero x y = ground (arith, bit_or_halves x y)
bit-bit_or (suc k) x y =
    let half : bit_or x y / 2 ≡ bit_or (x / 2) (y / 2) = omega (arith, bit_or_halves x y) in
    rw half (bit-bit_or k (x / 2) (y / 2))

bit-zero : (k : ℕ) → bit k 0 ≡ false
unfolding bit
bit-zero zero = refl
bit-zero (suc k) = bit-zero k

-- A number below 2 ^ w has no digit from the w-th on.
pub bit_lt : (w k x : ℕ) → x < 2 ^ w → bit k x ≡ true → k < w
unfolding bit
bit_lt zero k x h p =
    let none : x ≡ 0 = omega arith in
    let clear : bit k x ≡ false = rw none (bit-zero k) in absurd (cc)
bit_lt (suc w) zero x h p = omega arith
bit_lt (suc w) (suc k) x h p =
    let half : x / 2 < 2 ^ w = omega (arith, pow-suc 2 w) in
    omega (arith, bit_lt w k (x / 2) half p)

-- `!s` of a word of `w` bits.
abbrev pub bit_not : ℕ → ℕ → ℕ
bit_not w s = 2 ^ w - 1 - s

bit_and-not_halves :
    (w c s : ℕ)
    → s < 2 ^ suc w
    → bit_and c (bit_not (suc w) s)
      ≡ bit_and (c / 2) (bit_not w (s / 2)) * 2 + min (c % 2) (1 - s % 2)
bit_and-not_halves w c s h =
    let half : bit_not (suc w) s / 2 ≡ bit_not w (s / 2) = omega (arith, pow-suc 2 w) in
    let low : bit_not (suc w) s % 2 ≡ 1 - s % 2 = omega (arith, pow-suc 2 w) in
    bit_and_halves c (bit_not (suc w) s) ∙ rw (half, low)

bit_and-not→subset :
    (w c s : ℕ)
    → c < 2 ^ w
    → s < 2 ^ w
    → bit_and c (bit_not w s) ≡ 0
    → (k : ℕ) → bit k c ≡ true
    → bit k s ≡ true
unfolding bit
bit_and-not→subset zero c s hc hs h k p = absurd (omega (arith, bit_lt 0 k c hc p))
bit_and-not→subset (suc w) c s hc hs h zero p = ground (arith, bit_and-not_halves w c s hs)
bit_and-not→subset (suc w) c s hc hs h (suc k) p =
    bit_and-not→subset w (c / 2) (s / 2) (omega (arith, pow-suc 2 w)) (omega (arith, pow-suc 2 w))
      (omega (arith, bit_and-not_halves w c s hs)) k p

subset→bit_and-not :
    (w c s : ℕ)
    → c < 2 ^ w
    → s < 2 ^ w
    → ((k : ℕ) → bit k c ≡ true → bit k s ≡ true)
    → bit_and c (bit_not w s) ≡ 0
unfolding bit
subset→bit_and-not zero c s hc hs h =
    let none : c ≡ 0 = omega arith in rw none (bit_and-bitwise 0 (bit_not 0 s))
subset→bit_and-not (suc w) c s hc hs h = ground (
  arith,
  h 0,
  bit_and-not_halves w c s hs,
  subset→bit_and-not w (c / 2) (s / 2) (omega (arith, pow-suc 2 w)) (omega (arith, pow-suc 2 w))
      (λ k. h (suc k)),
)

-- `c & !s` is 0 exactly when every digit of `c` is a digit of `s`.
pub bit_and-bit_not_iff :
    (w c s : ℕ)
    → c < 2 ^ w
    → s < 2 ^ w
    → (bit_and c (bit_not w s) ≡ 0) ↔ ((k : ℕ) → bit k c ≡ true → bit k s ≡ true)
bit_and-bit_not_iff w c s hc hs = (bit_and-not→subset w c s hc hs, subset→bit_and-not w c s hc hs)

pow_pos : (w : ℕ) → 0 < 2 ^ w
pow_pos zero = omega arith
pow_pos (suc w) = omega (arith, pow-suc 2 w, pow_pos w)

lt_of_bits_fuel : (n w x : ℕ) → x ≤ n → ((k : ℕ) → bit k x ≡ true → k < w) → x < 2 ^ w
unfolding bit
lt_of_bits_fuel zero zero x h b = omega arith
lt_of_bits_fuel zero (suc w) x h b = omega (arith, pow_pos (suc w))
lt_of_bits_fuel (suc n) zero x h b =
    ground
      (arith, b 0, lt_of_bits_fuel n zero (x / 2) (omega arith) (λ k p. omega (arith, b (suc k) p)))
lt_of_bits_fuel (suc n) (suc w) x h b = omega (
  arith,
  pow-suc 2 w,
  lt_of_bits_fuel n w (x / 2) (omega arith) (λ k p. omega (arith, b (suc k) p)),
)

-- A number all of whose digits stand below the w-th.
pub lt_of_bits : (w x : ℕ) → ((k : ℕ) → bit k x ≡ true → k < w) → x < 2 ^ w
lt_of_bits w x b = lt_of_bits_fuel x w x (omega arith) b
