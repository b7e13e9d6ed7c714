-- ===== src/Stored/Updates/Advancing.antt =====
-- crates/renee-stored/src/store.rs: how the pages of a vector backfill advance.
use mathlib.Core.Path.{subst}
use renee.Prelude.{
  ℕ, ◌+◌, ◌≤◌, ◌<◌, ◌≡◌, refl, ◌∙◌, inl, inr, true, ◌&&◌, ltb, leb, Bool-cases, Option, none, some,
  List, [], ◌∷◌, ◌++◌, ok, arith, All, All-append,
}
use renee.Types.{DocumentId}
use renee.Types.AcceptanceSequence.{AcceptanceSequence}
use renee.Types.ImmutableUpdate.{ImmutableUpdate, UpdateMetadata}
use renee.Types.LoroOplogVersion.{LoroOplogVersion}
use renee.Wire.Update.Records.{decode_update_record, metadata_encoded_length}
use renee.Stored.Tables.{Tables}
use renee.Stored.Updates.Pages.{
  Accepted, StoredVectorBackfillPage, accepted_rows, rows_between, vector_backfill_in,
}
use renee.Stored.Updates.Windows.{encoded_total}
use renee.Stored.Updates.Progress.{
  entry_of, Selects, last_of, Stops, has_rows, window, vector_backfill_in-IsPage,
}

abbrev Inside : AcceptanceSequence → AcceptanceSequence → Accepted → Type 0
Inside position terminal a = (position < a.sequence) × (a.sequence ≤ terminal)

rows_between-Inside :
    (position terminal : AcceptanceSequence) (rows : List Accepted)
    → All (Inside position terminal) (rows_between position terminal rows)
unfolding rows_between
rows_between-Inside position terminal [] = tt
rows_between-Inside position terminal (a ∷ rows) =
    elim (Bool-cases (ltb position a.sequence && leb a.sequence terminal)) [
      | inl here ↦
          rw here (
            (ground (arith, here), ground (arith, here)),
            rows_between-Inside position terminal rows,
          )
      | inr other ↦ rw other (rows_between-Inside position terminal rows)
    ]

-- The entry of the update in a row fits the limit.
abbrev pub FitsAlone : ℕ → Accepted → Type 0
FitsAlone limit a =
    (u : ImmutableUpdate)
    → decode_update_record a.encoded_record ≡ ok u
    → metadata_encoded_length (entry_of u) ≤ limit

last_of-Inside :
    (position terminal : AcceptanceSequence) (before : Option AcceptanceSequence) (a : Accepted)
    (rows : List Accepted)
    → All (Inside position terminal) (a ∷ rows)
    → (last : AcceptanceSequence) × (last_of before (a ∷ rows) ≡ some last)
      × (position < last)
      × (last ≤ terminal)
last_of-Inside position terminal before a [] inside = (a.sequence, refl, inside.0.0, inside.0.1)
last_of-Inside position terminal before a (b ∷ rows) inside =
    last_of-Inside position terminal (some a.sequence) b rows inside.1

-- Where the limit holds the entry of each single update of the window, a page of a vector backfill
-- that says that there is more has a last examined sequence, strictly behind the position asked for
-- and within the window.
pub vector_backfill_in_advances :
    (t : Tables) (d : DocumentId) (position terminal : AcceptanceSequence)
    (version : LoroOplogVersion) (limit : ℕ) (page : StoredVectorBackfillPage)
    → All (FitsAlone limit) (window t d position terminal)
    → vector_backfill_in t d position terminal version limit ≡ ok page
    → page.has_more ≡ true
    → (last : AcceptanceSequence) × (page.last_examined_sequence ≡ some last)
      × (position < last)
      × (last ≤ terminal)
vector_backfill_in_advances t d position terminal version limit page alone h goes_on =
    let p = vector_backfill_in-IsPage t d position terminal version limit page h in
    let inside = rows_between-Inside position terminal (accepted_rows d t.updates) in
    go p.examined p.remaining page.updates page.last_examined_sequence p.selected p.last p.stops
      (ground (arith, p.more, goes_on)) (subst (All (FitsAlone limit)) p.split alone)
      (subst (All (Inside position terminal)) p.split inside)
  where
    go :
        (examined remaining : List Accepted) (updates : List UpdateMetadata)
        (found : Option AcceptanceSequence)
        → Selects d version examined updates
        → found ≡ last_of none examined
        → Stops version 64 limit examined (0 + encoded_total updates) remaining
        → has_rows remaining ≡ true
        → All (FitsAlone limit) (examined ++ remaining)
        → All (Inside position terminal) (examined ++ remaining)
        → (last : AcceptanceSequence) × (found ≡ some last) × (position < last) × (last ≤ terminal)
    go (a ∷ rows) remaining updates found s at stops rest fit inside =
        let (last, named, behind, within) =
          last_of-Inside position terminal none a rows
            (All-append (Inside position terminal) (a ∷ rows) remaining inside).0 in
        (last, at ∙ named, behind, within)
    go [] [] updates found s at stops rest fit inside = absurd (ground arith)
    go [] (a ∷ rows) updates found s at (inl all) rest fit inside = absurd (omega (arith, all))
    go [] (a ∷ rows) [] found s at (inr (u, good, full)) rest fit inside =
        absurd (omega (arith, full, fit.0 u good))
    go [] (a ∷ rows) (m ∷ ms) found s at (inr full) rest fit inside = absurd (empty m ms s)
      where
        empty : (m : UpdateMetadata) (ms : List UpdateMetadata) → ¬ (Selects d version [] (m ∷ ms))
        empty m ms s = elim s [ ]
