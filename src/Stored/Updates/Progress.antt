-- ===== src/Stored/Updates/Progress.antt =====
-- crates/renee-stored/src/store.rs: what a page of a vector backfill examines and selects.
use renee.Prelude.{
  ℕ, zero, suc, ◌+◌, ◌≤◌, ◌<◌, ◌≡◌, ◌⊎◌, refl, sym, ap, ◌∙◌, inl, inr, Bool, true, false, ltb,
  Bool-cases, Result-cases, length, Option, none, some, List, [], ◌∷◌, ◌++◌, ok, arith,
}
use renee.Bytes.{bytes_eq}
use renee.Bytes.Words.{bytes_eq_iff}
use renee.Types.{DocumentId}
use renee.Types.AcceptanceSequence.{AcceptanceSequence}
use renee.Types.ImmutableUpdate.{ImmutableUpdate, UpdateMetadata}
use renee.Types.LoroOplogVersion.{LoroOplogVersion}
use renee.Wire.Update.Records.{decode_update_record, metadata_encoded_length}
use renee.Stored.Tables.{Tables}
use renee.Stored.Updates.Pages.{
  Accepted, StoredVectorBackfillPage, accepted_rows, rows_between, metadata, any_beyond,
  vector_from, vector_backfill_in,
}
use renee.Stored.Updates.Windows.{encoded_total}
use renee.Stored.Updates.Exceeding.{Exceeds, any_beyond_sound, any_beyond_complete}

abbrev pub entry_of : ImmutableUpdate → UpdateMetadata
entry_of u = record {
  encrypted_payload_length = length u.encrypted_payload;
  public_loro_ranges = u.public_loro_ranges;
  update_id = u.update_id;
}

-- The entries of those updates of a list of rows that exceed the version, in their order.
pub data Selects (d : DocumentId) (version : LoroOplogVersion)
    : List Accepted → List UpdateMetadata → Type 0 where
  nothing : Selects d version [] []
  covered :
      (a : Accepted) (u : ImmutableUpdate) (rows : List Accepted) (ms : List UpdateMetadata)
      → decode_update_record a.encoded_record ≡ ok u
      → u.document_id ≡ d
      → ¬ (Exceeds version u)
      → Selects d version rows ms
      → Selects d version (a ∷ rows) ms
  missing :
      (a : Accepted) (u : ImmutableUpdate) (rows : List Accepted) (ms : List UpdateMetadata)
      → decode_update_record a.encoded_record ≡ ok u
      → u.document_id ≡ d
      → Exceeds version u
      → Selects d version rows ms
      → Selects d version (a ∷ rows) (entry_of u ∷ ms)

-- The sequence of the last row, or what it was before them.
abbrev pub last_of : Option AcceptanceSequence → List Accepted → Option AcceptanceSequence
last_of before [] = before
last_of before (a ∷ rows) = last_of (some a.sequence) rows

-- Why a page ends before the row: it has examined as many rows as it may, or the entry of the row does
-- not fit the limit beside the others.
abbrev pub Stops : LoroOplogVersion → ℕ → ℕ → List Accepted → ℕ → List Accepted → Type 0
Stops version budget limit examined used [] = Unit {0}
Stops version budget limit examined used (a ∷ rows) =
    (length examined ≡ budget)
    ⊎ ((u : ImmutableUpdate) × (decode_update_record a.encoded_record ≡ ok u)
        × (limit < used + metadata_encoded_length (entry_of u)))

abbrev pub has_rows : List Accepted → Bool
has_rows [] = false
has_rows (a ∷ rows) = true

-- A page over rows, with the bytes used and the sequence examined before them: the rows are split into
-- those that it has examined and those that remain.
pub record IsPage (d : DocumentId) (version : LoroOplogVersion) (rows : List Accepted) (budget : ℕ)
    (before : Option AcceptanceSequence) (used limit : ℕ) (page : StoredVectorBackfillPage)
    : Type 0 where
  pub examined : List Accepted
  pub remaining : List Accepted
  pub split : rows ≡ examined ++ remaining
  pub selected : Selects d version examined page.updates
  pub last : page.last_examined_sequence ≡ last_of before examined
  pub more : page.has_more ≡ has_rows remaining
  pub few : length examined ≤ budget
  pub fits : used ≤ limit → used + encoded_total page.updates ≤ limit
  pub stops : Stops version budget limit examined (used + encoded_total page.updates) remaining

module _ (d : DocumentId) (version : LoroOplogVersion) (limit : ℕ) where
  -- The page that has examined one row more.
  examine_covered :
      (budget used : ℕ) (before : Option AcceptanceSequence) (a : Accepted) (u : ImmutableUpdate)
      (rows : List Accepted) (page : StoredVectorBackfillPage)
      → decode_update_record a.encoded_record ≡ ok u
      → u.document_id ≡ d
      → ¬ (Exceeds version u)
      → IsPage d version rows budget (some a.sequence) used limit page
      → IsPage d version (a ∷ rows) (suc budget) before used limit page
  examine_covered budget used before a u rows page good own under p = record {
    examined = a ∷ p.examined;
    remaining = p.remaining;
    split = ap (λ x. a ∷ x) p.split;
    selected = Selects.covered a u p.examined page.updates good own under p.selected;
    last = p.last;
    more = p.more;
    few = omega (arith, p.few);
    fits = p.fits;
    stops = later p.remaining p.stops;
  }
    where
      later :
          (remaining : List Accepted)
          → Stops version budget limit p.examined (used + encoded_total page.updates) remaining
          → Stops version
              (suc budget)
              limit
              (a ∷ p.examined)
              (used + encoded_total page.updates)
              remaining
      later [] s = tt
      later (b ∷ bs) (inl all) = inl (omega (arith, all))
      later (b ∷ bs) (inr full) = inr full

  examine_missing :
      (budget used : ℕ) (before : Option AcceptanceSequence) (a : Accepted) (u : ImmutableUpdate)
      (rows : List Accepted) (page : StoredVectorBackfillPage)
      → decode_update_record a.encoded_record ≡ ok u
      → u.document_id ≡ d
      → Exceeds version u
      → used + metadata_encoded_length (entry_of u) ≤ limit
      → IsPage d version rows budget
          (some a.sequence)
          (used + metadata_encoded_length (entry_of u))
          limit
          page
      → IsPage d version
          (a ∷ rows)
          (suc budget)
          before
          used
          limit
          (record page { updates = entry_of u ∷ page.updates })
  examine_missing budget used before a u rows page good own exceeds room p = record {
    examined = a ∷ p.examined;
    remaining = p.remaining;
    split = ap (λ x. a ∷ x) p.split;
    selected = Selects.missing a u p.examined page.updates good own exceeds p.selected;
    last = p.last;
    more = p.more;
    few = omega (arith, p.few);
    fits = λ k. omega (arith, p.fits room);
    stops = later p.remaining p.stops;
  }
    where
      later :
          (remaining : List Accepted)
          → Stops version budget limit p.examined
              (used + metadata_encoded_length (entry_of u) + encoded_total page.updates)
              remaining
          → Stops version
              (suc budget)
              limit
              (a ∷ p.examined)
              (used + encoded_total (entry_of u ∷ page.updates))
              remaining
      later [] s = tt
      later (b ∷ bs) (inl all) = inl (omega (arith, all))
      later (b ∷ bs) (inr (v, decoded, full)) = inr (v, decoded, omega (arith, full))

  vector_step :
      (budget : ℕ) (before : Option AcceptanceSequence) (used : ℕ) (a : Accepted)
      (rows : List Accepted) (page : StoredVectorBackfillPage)
      → ((n : ℕ) (p : StoredVectorBackfillPage)
          → vector_from budget d version (some a.sequence) n limit rows ≡ ok p
          → IsPage d version rows budget (some a.sequence) n limit p)
      → vector_from (suc budget) d version before used limit (a ∷ rows) ≡ ok page
      → IsPage d version (a ∷ rows) (suc budget) before used limit page
  unfolding vector_from
  vector_step budget before used a rows page ih h =
      elim (Result-cases (decode_update_record a.encoded_record)) [
        | inr (x, bad) ↦ absurd (ground (arith, h, bad))
        | inl (u, good) ↦ elim (Bool-cases (bytes_eq u.document_id d)) [
          | inr foreign ↦ absurd (ground (arith, h, good, foreign))
          | inl same ↦
              let own : u.document_id ≡ d = (bytes_eq_iff u.document_id d).0 same in
              elim (Bool-cases (any_beyond version u.public_loro_ranges.ranges)) [
                | inr under ↦
                    examine_covered budget used before a u rows page good own
                      (λ e.
                        let exceeds =
                          any_beyond_complete version u.public_loro_ranges.ranges e.0 e.1 e.2 in
                        absurd (ground (arith, under, exceeds)))
                      (ih used page (ground (arith, h, good, same, under)))
                | inl beyond ↦
                    let exceeds = any_beyond_sound version u.public_loro_ranges.ranges beyond in
                    elim (Result-cases (metadata u)) [
                      | inr (x, bad) ↦ absurd (ground (arith, h, good, same, beyond, bad))
                      | inl (m, fine) ↦
                          let entry : entry_of u ≡ m = unfold metadata in ground (arith, fine) in
                          let made : metadata u ≡ ok (entry_of u) = fine ∙ ap ok (sym entry) in
                          elim (Bool-cases
                            (ltb limit (used + metadata_encoded_length (entry_of u)))) [
                              | inl full ↦
                                  let shape : record {
                                    has_more = true;
                                    last_examined_sequence = before;
                                    updates = [];
                                  }
                                      ≡ page =
                                    ground (arith, h, good, same, beyond, made, full) in
                                  rw (← shape) (record {
                                    examined = [];
                                    remaining = a ∷ rows;
                                    split = refl;
                                    selected = Selects.nothing;
                                    last = refl;
                                    more = refl;
                                    few = omega arith;
                                    fits = λ k. omega arith;
                                    stops = inr (u, good, ground (arith, full));
                                  })
                              | inr room ↦
                                  elim (Result-cases (
                                    vector_from budget d version (some a.sequence)
                                      (used + metadata_encoded_length (entry_of u)) limit rows)) [
                                        | inr (x, bad) ↦
                                            absurd (
                                              ground
                                                (arith, h, good, same, beyond, made, room, bad))
                                        | inl (rest, more) ↦
                                            let shape : record rest {
                                              updates = entry_of u ∷ rest.updates;
                                            }
                                                ≡ page =
                                              ground
                                                (arith, h, good, same, beyond, made, room, more) in
                                            rw (← shape) (
                                              examine_missing budget used before a u rows rest good
                                                own exceeds (ground (arith, room))
                                                (ih (used + metadata_encoded_length (entry_of u))
                                                  rest more))
                                      ]
                            ]
                    ]
              ]
        ]
      ]

  vector_from-IsPage :
      (budget : ℕ) (before : Option AcceptanceSequence) (used : ℕ) (rows : List Accepted)
      (page : StoredVectorBackfillPage)
      → vector_from budget d version before used limit rows ≡ ok page
      → IsPage d version rows budget before used limit page
  vector_from-IsPage budget before used [] page h =
      let shape : record { has_more = false; last_examined_sequence = before; updates = [] }
          ≡ page =
        unfold vector_from in ground (arith, h) in
      rw (← shape) (record {
        examined = [];
        remaining = [];
        split = refl;
        selected = Selects.nothing;
        last = refl;
        more = refl;
        few = omega arith;
        fits = λ k. omega arith;
        stops = tt;
      })
  vector_from-IsPage zero before used (a ∷ rows) page h =
      let shape : record { has_more = true; last_examined_sequence = before; updates = [] } ≡ page =
        unfold vector_from in ground (arith, h) in
      rw (← shape) (record {
        examined = [];
        remaining = a ∷ rows;
        split = refl;
        selected = Selects.nothing;
        last = refl;
        more = refl;
        few = omega arith;
        fits = λ k. omega arith;
        stops = inl refl;
      })
  vector_from-IsPage (suc budget) before used (a ∷ rows) page h =
      vector_step budget before used a rows page
        (λ n p. vector_from-IsPage budget (some a.sequence) n rows p) h

-- The rows of a window behind a position, which a page of a vector backfill is over.
abbrev pub window : Tables → DocumentId → AcceptanceSequence → AcceptanceSequence → List Accepted
window t d position terminal = rows_between position terminal (accepted_rows d t.updates)

-- A page of a vector backfill splits the rows behind its position and within its window into at most
-- 64 that it examines and those that remain: it holds the entries of exactly those examined updates
-- that exceed the version, in their order and within the limit together, names the last examined
-- sequence, says that there is more exactly when rows remain, and stops before the end of the window
-- only after 64 rows or before a row whose entry does not fit.
pub vector_backfill_in-IsPage :
    (t : Tables) (d : DocumentId) (position terminal : AcceptanceSequence)
    (version : LoroOplogVersion) (limit : ℕ) (page : StoredVectorBackfillPage)
    → vector_backfill_in t d position terminal version limit ≡ ok page
    → IsPage d version (window t d position terminal) 64 none 0 limit page
unfolding vector_backfill_in
vector_backfill_in-IsPage t d position terminal version limit page h =
    vector_from-IsPage d version limit 64 none 0 (window t d position terminal) page
      (ground (arith, h))
