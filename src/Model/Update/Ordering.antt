-- ===== src/Model/Update/Ordering.antt =====
-- The acceptance order that `UpdateModel` of crates/renee-model/src/lib.rs keeps for each document.
use renee.Prelude.{
  ◌+◌, ◌^◌, ◌≤◌, ◌<◌, ◌≡◌, refl, sym, ap, ◌∙◌, true, false, Bool-cases, Option-cases, none, some,
  ltb, ltb→lt, inl, inr, arith,
}
use renee.Types.{DocumentId, UpdateId}
use renee.Types.AcceptanceSequence.{AcceptanceSequence}
use renee.Types.ImmutableUpdate.{ImmutableUpdate}
use renee.Maps.{get}
use renee.Maps.Keys.{nat_key, bytes_key, pair_key, ◌==◌, ==→eq, ==_refl}
use renee.Model.Update.{
  UpdateModel, AcceptedUpdate, AcceptOutcome, next_sequence_of, accept, default,
}
use renee.Model.Update.Accepting.{new, fresh, counted, updates_after, order_after, next_after}

pub record IsOrdered (m : UpdateModel) : Type 0 where
  pub recorded :
      (d : DocumentId) (i : UpdateId) (a : AcceptedUpdate)
      → get (d, i) m.updates ≡ some a
      → (get (d, a.sequence) m.acceptance_order ≡ some i)
        × (a.update.document_id ≡ d)
        × (a.update.update_id ≡ i)
  pub named :
      (d : DocumentId) (s : AcceptanceSequence) (i : UpdateId)
      → get (d, s) m.acceptance_order ≡ some i
      → (a : AcceptedUpdate) × (get (d, i) m.updates ≡ some a) × (a.sequence ≡ s)
  pub bounded :
      (d : DocumentId) (s : AcceptanceSequence) (i : UpdateId)
      → get (d, s) m.acceptance_order ≡ some i
      → (1 ≤ s) × (s < next_sequence_of m d)
  pub dense :
      (d : DocumentId) (s : AcceptanceSequence)
      → 1 ≤ s
      → s < next_sequence_of m d
      → (i : UpdateId) × (get (d, s) m.acceptance_order ≡ some i)
  pub positive : (d : DocumentId) → (1 ≤ next_sequence_of m d) × (next_sequence_of m d < 2 ^ 64)

-- The empty model is ordered.
pub default-IsOrdered : IsOrdered default
unfolding get
default-IsOrdered = record {
  recorded = λ d i a h. absurd (ground arith);
  named = λ d s i h. absurd (ground arith);
  bounded = λ d s i h. absurd (ground arith);
  dense = λ d s h k. absurd (ground arith);
  positive = λ d. (omega arith, omega arith);
}

module _ (m n : UpdateModel) (u : ImmutableUpdate) (done : accept m u ≡ (AcceptOutcome.inserted, n))
    (w : IsOrdered m) where
  abbrev d₀ : DocumentId
  d₀ = u.document_id

  abbrev s₀ : AcceptanceSequence
  s₀ = next_sequence_of m u.document_id

  unused : get (d₀, s₀) m.acceptance_order ≡ none
  unused = elim (Option-cases (get (d₀, s₀) m.acceptance_order)) [
    | inl gone ↦ gone
    | inr (i, found) ↦ absurd (omega (arith, (w.bounded d₀ s₀ i found).1))
  ]

  order_kept :
      (d : DocumentId) (s : AcceptanceSequence) (i : UpdateId)
      → get (d, s) m.acceptance_order ≡ some i
      → get (d, s) n.acceptance_order ≡ some i
  order_kept d s i h =
      elim (Bool-cases (◌==◌ {K = DocumentId × AcceptanceSequence} (d, s) (d₀, s₀))) [
        | inl same ↦
            let eq = ==→eq {K = DocumentId × AcceptanceSequence} (d, s) (d₀, s₀) same in
            absurd (ground (arith, unused, eq))
        | inr other ↦ order_after m n u done (d, s) ∙ rw other h
      ]

  order_new : get (d₀, s₀) n.acceptance_order ≡ some u.update_id
  order_new =
      order_after m n u done (d₀, s₀) ∙ rw (==_refl {K = DocumentId × AcceptanceSequence} (d₀, s₀))

  updates_new : get (d₀, u.update_id) n.updates ≡ some (new m n u done)
  updates_new =
      updates_after m n u done (d₀, u.update_id)
      ∙ rw (==_refl {K = DocumentId × UpdateId} (d₀, u.update_id))

  updates_kept :
      (d : DocumentId) (i : UpdateId) (a : AcceptedUpdate)
      → get (d, i) m.updates ≡ some a
      → get (d, i) n.updates ≡ some a
  updates_kept d i a h =
      elim (Bool-cases (◌==◌ {K = DocumentId × UpdateId} (d, i) (d₀, u.update_id))) [
        | inl same ↦
            let eq = ==→eq {K = DocumentId × UpdateId} (d, i) (d₀, u.update_id) same in
            absurd (ground (arith, fresh m n u done, eq))
        | inr other ↦ updates_after m n u done (d, i) ∙ rw other h
      ]

  recorded_after :
      (d : DocumentId) (i : UpdateId) (a : AcceptedUpdate)
      → get (d, i) n.updates ≡ some a
      → (get (d, a.sequence) n.acceptance_order ≡ some i)
        × (a.update.document_id ≡ d)
        × (a.update.update_id ≡ i)
  recorded_after d i a h =
      elim (Bool-cases (◌==◌ {K = DocumentId × UpdateId} (d, i) (d₀, u.update_id))) [
        | inl same ↦
            let eq = ==→eq {K = DocumentId × UpdateId} (d, i) (d₀, u.update_id) same in
            let value : new m n u done ≡ a = ground (arith, updates_after m n u done (d, i)) in
            let doc : d ≡ d₀ = ap (λ p. p.0) eq in
            let upd : i ≡ u.update_id = ap (λ p. p.1) eq in
            rw (← value, doc, upd) (order_new, refl, refl)
        | inr other ↦
            let (at, doc, upd) =
              w.recorded d i a (ground (arith, updates_after m n u done (d, i))) in
            (order_kept d a.sequence i at, doc, upd)
      ]

  named_after :
      (d : DocumentId) (s : AcceptanceSequence) (i : UpdateId)
      → get (d, s) n.acceptance_order ≡ some i
      → (a : AcceptedUpdate) × (get (d, i) n.updates ≡ some a) × (a.sequence ≡ s)
  named_after d s i h =
      elim (Bool-cases (◌==◌ {K = DocumentId × AcceptanceSequence} (d, s) (d₀, s₀))) [
        | inl same ↦
            let eq = ==→eq {K = DocumentId × AcceptanceSequence} (d, s) (d₀, s₀) same in
            let value : u.update_id ≡ i = ground (arith, order_after m n u done (d, s)) in
            let doc : d ≡ d₀ = ap (λ p. p.0) eq in
            let seq : s ≡ s₀ = ap (λ p. p.1) eq in
            (new m n u done, rw (doc, ← value) updates_new, sym seq)
        | inr other ↦
            let (a, at, seq) = w.named d s i (ground (arith, order_after m n u done (d, s))) in
            (a, updates_kept d i a at, seq)
      ]

  grows : (d : DocumentId) → next_sequence_of m d ≤ next_sequence_of n d
  grows d = ground (arith, next_after m n u done d)

  grows_new : next_sequence_of n d₀ ≡ s₀ + 1
  grows_new = next_after m n u done d₀ ∙ rw (==_refl d₀)

  bounded_after :
      (d : DocumentId) (s : AcceptanceSequence) (i : UpdateId)
      → get (d, s) n.acceptance_order ≡ some i
      → (1 ≤ s) × (s < next_sequence_of n d)
  bounded_after d s i h =
      elim (Bool-cases (◌==◌ {K = DocumentId × AcceptanceSequence} (d, s) (d₀, s₀))) [
        | inl same ↦
            let eq = ==→eq {K = DocumentId × AcceptanceSequence} (d, s) (d₀, s₀) same in
            let doc : d ≡ d₀ = ap (λ p. p.0) eq in
            let seq : s ≡ s₀ = ap (λ p. p.1) eq in
            rw (doc, seq) (omega (arith, w.positive d₀), omega (arith, grows_new))
        | inr other ↦
            let old = w.bounded d s i (ground (arith, order_after m n u done (d, s))) in
            (old.0, omega (arith, old.1, grows d))
      ]

  dense_after :
      (d : DocumentId) (s : AcceptanceSequence)
      → 1 ≤ s
      → s < next_sequence_of n d
      → (i : UpdateId) × (get (d, s) n.acceptance_order ≡ some i)
  dense_after d s low high =
      elim (Bool-cases (◌==◌ {K = DocumentId × AcceptanceSequence} (d, s) (d₀, s₀))) [
        | inl same ↦ (u.update_id, order_after m n u done (d, s) ∙ rw same)
        | inr other ↦
            let (i, found) = w.dense d s low (earlier d s high other) in (i, order_kept d s i found)
      ]
    where
      earlier :
          (d : DocumentId) (s : AcceptanceSequence)
          → s < next_sequence_of n d
          → ◌==◌ {K = DocumentId × AcceptanceSequence} (d, s) (d₀, s₀) ≡ false
          → s < next_sequence_of m d
      earlier d s high other = elim (Bool-cases (d == d₀)) [
        | inl same ↦
            let doc : d ≡ d₀ = ==→eq d d₀ same in
            elim (Bool-cases (ltb s (next_sequence_of m d))) [
              | inl below ↦ ltb→lt s (next_sequence_of m d) below
              | inr above ↦
                  let seq : s ≡ s₀ = ground (arith, next_after m n u done d, doc) in
                  let hit : ◌==◌ {K = DocumentId × AcceptanceSequence} (d, s) (d₀, s₀) ≡ true =
                    rw (doc, seq) (==_refl {K = DocumentId × AcceptanceSequence} (d₀, s₀)) in
                  absurd (ground arith)
            ]
        | inr beside ↦ ground (arith, next_after m n u done d)
      ]

  -- Accepting an update keeps an ordered model ordered: its sequences stay gap-free from 1, each names one update
  -- of the document, and no sequence passes the 64-bit bound.
  pub inserted-IsOrdered : IsOrdered n
  inserted-IsOrdered = record {
    recorded = recorded_after;
    named = named_after;
    bounded = bounded_after;
    dense = dense_after;
    positive = λ d. (
      omega (arith, w.positive d, grows d),
      ground (arith, next_after m n u done d, counted m n u done, w.positive d, ==→eq d d₀),
    );
  }
