-- ===== src/Types/Operations.antt =====
-- crates/renee-types/src/lib.rs: `Operation` and `OperationSet`, a 16-bit word with a bit for each
-- operation.
pub mod Attenuation
use Prim.Native.Nat.{bit_and, bit_or}
use renee.Prelude.{
  ℕ, zero, suc, Bool, true, false, not, ◌&&◌, ◌==◌, if◌then◌else◌, Option, none, some,
}
use renee.Bits.{bit_not}

pub data Operation : Type 0 where
  read update checkpoint blob_read blob_put signal_send signal_receive grant revoke retire :
      Operation

pub record OperationSet : Type 0 where
  pub bits : ℕ

abbrev pub empty : OperationSet
empty = record { bits = 0 }

abbrev pub full : OperationSet
full = record { bits = 0x03ff }

unfoldable pub operation_mask : Operation → ℕ
operation_mask read = 0x0001
operation_mask update = 0x0002
operation_mask checkpoint = 0x0004
operation_mask blob_read = 0x0008
operation_mask blob_put = 0x0010
operation_mask signal_send = 0x0020
operation_mask signal_receive = 0x0040
operation_mask grant = 0x0080
operation_mask revoke = 0x0100
operation_mask retire = 0x0200

unfoldable pub from_bits : ℕ → Option OperationSet
from_bits bits =
    if bit_and bits (bit_not 16 full.bits) == 0 then some (record { bits = bits }) else none

unfoldable pub one : Operation → OperationSet
one operation = record { bits = operation_mask operation }

unfoldable pub contains : OperationSet → Operation → Bool
contains s operation = not (bit_and s.bits (operation_mask operation) == 0)

unfoldable pub union : OperationSet → OperationSet → OperationSet
union s other = record { bits = bit_or s.bits other.bits }

-- Whether `candidate` is an attenuation of the set.
unfoldable pub allows : OperationSet → OperationSet → Bool
allows s candidate = not (candidate.bits == 0) && bit_and candidate.bits (bit_not 16 s.bits) == 0

unfoldable pub is_empty : OperationSet → Bool
is_empty s = s.bits == 0
