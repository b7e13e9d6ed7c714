-- ===== src/Bytes.antt =====
-- Byte strings and the big-endian words of Rust's `to_be_bytes` and `from_be_bytes`, which all the
-- codecs of crates/renee-wire use. A byte string is a list of numbers, each below 256.
pub mod Words
use renee.Prelude.{
  ℕ, zero, suc, ◌+◌, ◌*◌, ◌/◌, ◌%◌, ◌<◌, List, [], ◌∷◌, reverse, Bool, true, false, ◌&&◌, ◌==◌, All,
}

abbrev pub Bytes : Type 0
Bytes = List ℕ

abbrev pub IsByte : ℕ → Type 0
IsByte b = b < 256

abbrev pub IsBytes : Bytes → Type 0
IsBytes = All IsByte

-- Least significant byte first.
unfoldable pub to_le : ℕ → ℕ → Bytes
to_le zero n = []
to_le (suc w) n = n % 256 ∷ to_le w (n / 256)

unfoldable pub from_le : Bytes → ℕ
from_le [] = 0
from_le (b ∷ bs) = b + 256 * from_le bs

-- `n.to_be_bytes()` of a word of `w` bytes.
unfoldable pub to_be : ℕ → ℕ → Bytes
unfolding to_le
to_be w n = reverse (to_le w n)

-- `from_be_bytes`.
unfoldable pub from_be : Bytes → ℕ
unfolding from_le
from_be bs = from_le (reverse bs)

-- `==` on byte arrays and slices.
unfoldable pub bytes_eq : Bytes → Bytes → Bool
bytes_eq [] [] = true
bytes_eq (a ∷ xs) (b ∷ bs) = a == b && bytes_eq xs bs
bytes_eq _ _ = false
