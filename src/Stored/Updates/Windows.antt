-- ===== src/Stored/Updates/Windows.antt =====
-- crates/renee-stored/src/store.rs: the bounds of a page and its place in the window.
use renee.Prelude.{ℕ, ◌+◌, ◌≤◌, ◌≡◌, length, List, [], ◌∷◌}
use renee.Types.AcceptanceSequence.{AcceptanceSequence}
use renee.Types.ImmutableUpdate.{UpdateMetadata}
use renee.Wire.Update.Records.{metadata_encoded_length}
use renee.Stored.Tables.{Tables}

abbrev pub encoded_total : List UpdateMetadata → ℕ
encoded_total [] = 0
encoded_total (m ∷ ms) = metadata_encoded_length m + encoded_total ms

-- A scan that began at `ordinal`.
record IsScan (rounds ordinal used limit : ℕ) (scan : ℕ × List UpdateMetadata) : Type 0 where
  next : scan.0 ≡ ordinal + length scan.1
  few : length scan.1 ≤ rounds
  fits : used ≤ limit → used + encoded_total scan.1 ≤ limit
