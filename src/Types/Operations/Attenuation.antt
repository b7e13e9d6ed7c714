-- ===== src/Types/Operations/Attenuation.antt =====
-- The operation sets of crates/renee-types/src/lib.rs, read as sets of operations.
use Prim.Native.Nat.{bit_and}
use renee.Prelude.{ℕ, zero, suc, ◌^◌, ◌<◌, ◌≡◌, ◌≢◌, ◌↔◌, refl, true, ◌||◌, some, arith}
use renee.Bits.{bit, bit_and-pow, bit-bit_or, bit_lt, bit_not, bit_and-bit_not_iff, lt_of_bits}
use renee.Types.Operations.{
  Operation, read, update, checkpoint, blob_read, blob_put, signal_send, signal_receive, grant,
  revoke, retire, OperationSet, full, operation_mask, from_bits, one, contains, union, allows,
}

-- A set that `from_bits` accepts: only the ten bits of `FULL`.
abbrev pub IsCanonical : OperationSet → Type 0
IsCanonical s = s.bits < 1024

position : Operation → ℕ
position read = 0
position update = 1
position checkpoint = 2
position blob_read = 3
position blob_put = 4
position signal_send = 5
position signal_receive = 6
position grant = 7
position revoke = 8
position retire = 9

contains-bit : (s : OperationSet) (o : Operation) → contains s o ≡ bit (position o) s.bits
unfolding contains operation_mask position
contains-bit s read = ground (arith, bit_and-pow 0 s.bits)
contains-bit s update = ground (arith, bit_and-pow 1 s.bits)
contains-bit s checkpoint = ground (arith, bit_and-pow 2 s.bits)
contains-bit s blob_read = ground (arith, bit_and-pow 3 s.bits)
contains-bit s blob_put = ground (arith, bit_and-pow 4 s.bits)
contains-bit s signal_send = ground (arith, bit_and-pow 5 s.bits)
contains-bit s signal_receive = ground (arith, bit_and-pow 6 s.bits)
contains-bit s grant = ground (arith, bit_and-pow 7 s.bits)
contains-bit s revoke = ground (arith, bit_and-pow 8 s.bits)
contains-bit s retire = ground (arith, bit_and-pow 9 s.bits)

operation_at : (k : ℕ) → k < 10 → (o : Operation) × (position o ≡ k)
unfolding position
operation_at zero h = (read, refl)
operation_at (suc zero) h = (update, refl)
operation_at (suc (suc zero)) h = (checkpoint, refl)
operation_at (suc (suc (suc zero))) h = (blob_read, refl)
operation_at (suc (suc (suc (suc zero)))) h = (blob_put, refl)
operation_at (suc (suc (suc (suc (suc zero))))) h = (signal_send, refl)
operation_at (suc (suc (suc (suc (suc (suc zero)))))) h = (signal_receive, refl)
operation_at (suc (suc (suc (suc (suc (suc (suc zero))))))) h = (grant, refl)
operation_at (suc (suc (suc (suc (suc (suc (suc (suc zero)))))))) h = (revoke, refl)
operation_at (suc (suc (suc (suc (suc (suc (suc (suc (suc zero))))))))) h = (retire, refl)
operation_at (suc (suc (suc (suc (suc (suc (suc (suc (suc (suc k)))))))))) h = absurd (omega arith)

-- Every operation of `c` is one of `s`.
abbrev pub Includes : OperationSet → OperationSet → Type 0
Includes s c = (o : Operation) → contains c o ≡ true → contains s o ≡ true

Includes→bits :
    (s c : OperationSet)
    → IsCanonical c
    → Includes s c
    → (k : ℕ) → bit k c.bits ≡ true
    → bit k s.bits ≡ true
Includes→bits s c hc sub k p =
    let (o, at) = operation_at k (bit_lt 10 k c.bits hc p) in
    let held : contains c o ≡ true = rw (contains-bit c o, at) p in
    rw (← at, ← contains-bit s o) (sub o held)

bits→Includes :
    (s c : OperationSet) → ((k : ℕ) → bit k c.bits ≡ true → bit k s.bits ≡ true) → Includes s c
bits→Includes s c h o p = rw (contains-bit s o) (h (position o) (rw (contains-bit c o) at p))

allows_parts :
    (s c : OperationSet)
    → (allows s c ≡ true) ↔ ((c.bits ≢ 0) × (bit_and c.bits (bit_not 16 s.bits) ≡ 0))
unfolding allows
allows_parts s c = ground arith

-- For canonical sets, `allows` holds exactly when the candidate is not empty and each of its
-- operations is one of the set's.
pub allows_iff :
    (s c : OperationSet)
    → IsCanonical s
    → IsCanonical c
    → (allows s c ≡ true) ↔ ((c.bits ≢ 0) × Includes s c)
allows_iff s c hs hc =
    let digits = bit_and-bit_not_iff 16 c.bits s.bits (omega arith) (omega arith) in
    let parts = allows_parts s c in
    (
      λ h. let p = parts.0 h in (p.0, bits→Includes s c (digits.0 p.1)),
      λ h. parts.1 (h.0, digits.1 (Includes→bits s c hc h.1)),
    )

-- `FULL` holds every operation.
contains-full : (o : Operation) → contains full o ≡ true
unfolding contains operation_mask
contains-full read = refl
contains-full _ = refl

full-bit : (k : ℕ) → k < 10 → bit k 1023 ≡ true
full-bit k h = let (o, at) = operation_at k h in rw (← at, ← contains-bit full o) (contains-full o)

from_bits_parts :
    (b : ℕ) (s : OperationSet)
    → from_bits b ≡ some s
    → (s.bits ≡ b) × (bit_and b (bit_not 16 1023) ≡ 0)
unfolding from_bits
from_bits_parts b s h = ground arith

-- Of the 16-bit words, `from_bits` accepts exactly those within `FULL`, and keeps them.
pub from_bits_iff :
    (b : ℕ) (s : OperationSet)
    → b < 2 ^ 16
    → (from_bits b ≡ some s) ↔ ((s.bits ≡ b) × IsCanonical s)
unfolding from_bits
from_bits_iff b s h = (within, back)
  where
    digits : (bit_and b (bit_not 16 1023) ≡ 0) ↔ ((k : ℕ) → bit k b ≡ true → bit k 1023 ≡ true)
    digits = bit_and-bit_not_iff 16 b 1023 h (omega arith)

    within : from_bits b ≡ some s → (s.bits ≡ b) × IsCanonical s
    within e =
        let (same, clear) = from_bits_parts b s e in
        let small : b < 2 ^ 10 =
          lt_of_bits 10 b (λ k p. bit_lt 10 k 1023 (omega arith) (digits.0 clear k p)) in
        (same, omega arith)

    back : (s.bits ≡ b) × IsCanonical s → from_bits b ≡ some s
    back (same, small) =
        let clear : bit_and b (bit_not 16 1023) ≡ 0 =
          digits.1 (λ k p. full-bit k (bit_lt 10 k b (omega arith) p)) in
        ground arith

-- The union holds exactly the operations of either set.
contains-union :
    (s t : OperationSet) (o : Operation) → contains (union s t) o ≡ (contains s o || contains t o)
unfolding union
contains-union s t o =
    rw (contains-bit (union s t) o, contains-bit s o, contains-bit t o)
      (bit-bit_or (position o) s.bits t.bits)

Includes-trans : (a b c : OperationSet) → Includes a b → Includes b c → Includes a c
Includes-trans a b c h k o p = h o (k o p)

-- `one o` holds `o` and no other operation.
contains-one : (o p : Operation) → (contains (one o) p ≡ true) ↔ (p ≡ o)
unfolding contains one operation_mask
contains-one o p = ground arith
