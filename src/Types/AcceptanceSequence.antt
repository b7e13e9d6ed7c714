-- ===== src/Types/AcceptanceSequence.antt =====
-- crates/renee-types/src/lib.rs: `AcceptanceSequence`, a 64-bit counter.
use renee.Prelude.{ℕ, ◌+◌, ◌^◌, Option, none, some, ltb, if◌then◌else◌}
use renee.Bytes.{Bytes, to_be, from_be}

abbrev pub AcceptanceSequence : Type 0
AcceptanceSequence = ℕ

abbrev pub origin : AcceptanceSequence
origin = 0

abbrev pub first : AcceptanceSequence
first = 1

unfoldable pub checked_next : AcceptanceSequence → Option AcceptanceSequence
checked_next n = if ltb (n + 1) (2 ^ 64) then some (n + 1) else none

unfoldable pub to_be_bytes : AcceptanceSequence → Bytes
to_be_bytes n = to_be 8 n

unfoldable pub from_be_bytes : Bytes → AcceptanceSequence
from_be_bytes bs = from_be bs
