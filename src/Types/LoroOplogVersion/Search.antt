-- ===== src/Types/LoroOplogVersion/Search.antt =====
-- `LoroOplogVersion` of crates/renee-types/src/lib.rs: its search, and a scan of the entries.
use renee.Prelude.{
  ℕ, zero, suc, ◌+◌, ◌-◌, ◌/◌, ◌≤◌, ◌<◌, ◌≡◌, ◌≢◌, ◌↔◌, ◌⊎◌, inl, inr, refl, ap, ltb, ltb→lt,
  ltb_false→le, ◌==◌, ==→eq, true, false, if◌then◌else◌, Bool-cases, Option-cases, length,
  get_elem?, Option, none, some, List, [], ◌∷◌, ok, arith,
}
use renee.Types.LoroRange.{max_loro_peers}
use renee.Types.PublicLoroRanges.Canonical.{Above}
use renee.Types.LoroOplogVersion.{
  LoroOplogVersionEntry, LoroOplogVersion, check_entries, new, search_base, end_counter_for,
}

abbrev pub Entry : Type 0
Entry = LoroOplogVersionEntry

abbrev pub Ascending : Option ℕ → List Entry → Type 0
Ascending q [] = Unit
Ascending q (e ∷ es) = Above q e.peer_id × Ascending (some e.peer_id) es

-- The first entry of the peer, or 0.
unfoldable pub scan : List Entry → ℕ → ℕ
scan [] p = 0
scan (e ∷ es) p = if e.peer_id == p then e.end_counter else scan es p

Ascending-weaken :
    (q q' : ℕ) (es : List Entry) → q' ≤ q → Ascending (some q) es → Ascending (some q') es
Ascending-weaken q q' [] h a = tt
Ascending-weaken q q' (e ∷ es) h a = (omega arith, a.1)

above_lem :
    (q : ℕ) (es : List Entry) (i : ℕ) (e : Entry)
    → Ascending (some q) es
    → get_elem? es i ≡ some e
    → q < e.peer_id
above_lem q [] i e a g = cc
above_lem q (x ∷ es) zero e a g = ground arith
above_lem q (x ∷ es) (suc i) e a g =
    above_lem q es i e (Ascending-weaken x.peer_id q es (omega arith) a.1) g

-- Later entries have larger peers.
Ascending-lt :
    (q : Option ℕ) (es : List Entry) (i j : ℕ) (d e : Entry)
    → Ascending q es
    → get_elem? es i ≡ some d
    → get_elem? es j ≡ some e
    → i < j
    → d.peer_id < e.peer_id
Ascending-lt q [] i j d e a g k h = cc
Ascending-lt q (x ∷ es) i zero d e a g k h = absurd (omega arith)
Ascending-lt q (x ∷ es) zero (suc j) d e a g k h = ground (arith, above_lem x.peer_id es j e a.1)
Ascending-lt q (x ∷ es) (suc i) (suc j) d e a g k h =
    Ascending-lt (some x.peer_id) es i j d e a.1 g k (omega arith)

get_elem?_lt : (es : List Entry) (i : ℕ) → i < length es → (e : Entry) × (get_elem? es i ≡ some e)
get_elem?_lt [] i h = absurd (omega arith)
get_elem?_lt (x ∷ es) zero h = (x, refl)
get_elem?_lt (x ∷ es) (suc i) h = get_elem?_lt es i (omega arith)

lt_of_get_elem? : (es : List Entry) (i : ℕ) {e : Entry} → get_elem? es i ≡ some e → i < length es
lt_of_get_elem? [] i h = cc
lt_of_get_elem? (x ∷ es) zero h = omega arith
lt_of_get_elem? (x ∷ es) (suc i) h = omega (arith, lt_of_get_elem? es i h)

module _ (es : List Entry) (a : Ascending none es) (p : ℕ) (i : ℕ) (e : Entry)
    (at : get_elem? es i ≡ some e) (key : e.peer_id ≡ p) where
  left_of : (j : ℕ) (m : Entry) → get_elem? es j ≡ some m → p < m.peer_id → i < j
  left_of j m g h = elim (Bool-cases (ltb i j)) [
    | inl before ↦ omega (arith, ltb→lt i j before)
    | inr below ↦ elim (Bool-cases (ltb j i)) [
      | inl after ↦ absurd (omega (arith, Ascending-lt none es j i m e a g at (ltb→lt j i after)))
      | inr same ↦
          let equal : i ≡ j = ground arith in
          let twice : m ≡ e = cc in absurd (omega (arith, ap (λ (d : Entry). d.peer_id) twice))
    ]
  ]

  right_of : (j : ℕ) (m : Entry) → get_elem? es j ≡ some m → m.peer_id ≤ p → j ≤ i
  right_of j m g h = elim (Bool-cases (ltb i j)) [
    | inl before ↦ absurd (omega (arith, Ascending-lt none es i j e m a at g (ltb→lt i j before)))
    | inr other ↦ omega (arith, ltb_false→le i j other)
  ]

  -- The range from `base` keeps the entry, and ends with it alone.
  search_base_finds :
      (fuel base size : ℕ)
      → size ≤ fuel + 1
      → base ≤ i
      → i < base + size
      → base + size ≤ length es
      → search_base fuel es p base size ≡ i
  unfolding search_base
  search_base_finds zero base size f lo hi room = omega arith
  search_base_finds (suc fuel) base size f lo hi room =
      step (get_elem?_lt es (base + size / 2) (omega arith))
        (search_base_finds fuel base (size - size / 2))
        (search_base_finds fuel (base + size / 2) (size - size / 2))
    where
      step :
          (m : Entry) × (get_elem? es (base + size / 2) ≡ some m)
          → (size - size / 2 ≤ fuel + 1
              → base ≤ i
              → i < base + (size - size / 2)
              → base + (size - size / 2) ≤ length es
              → search_base fuel es p base (size - size / 2) ≡ i)
          → (size - size / 2 ≤ fuel + 1
              → base + size / 2 ≤ i
              → i < base + size / 2 + (size - size / 2)
              → base + size / 2 + (size - size / 2) ≤ length es
              → search_base fuel es p (base + size / 2) (size - size / 2) ≡ i)
          → search_base (suc fuel) es p base size ≡ i
      step (m, found) left right = ground (
        arith,
        found,
        left_of (base + size / 2) m found,
        right_of (base + size / 2) m found,
        left,
        right,
      )

scan_found :
    (q : Option ℕ) (es : List Entry) (p i : ℕ) (e : Entry)
    → Ascending q es
    → get_elem? es i ≡ some e
    → e.peer_id ≡ p
    → scan es p ≡ e.end_counter
unfolding scan
scan_found q [] p i e a g k = cc
scan_found q (x ∷ es) p zero e a g k = ground arith
scan_found q (x ∷ es) p (suc i) e a g k =
    ground (arith, above_lem x.peer_id es i e a.1, scan_found (some x.peer_id) es p i e a.1)

abbrev Found : List Entry → ℕ → Type 0
Found es p = (i : ℕ) × (e : Entry) × (get_elem? es i ≡ some e) × (e.peer_id ≡ p)

abbrev Absent : List Entry → ℕ → Type 0
Absent es p = (scan es p ≡ 0) × ((i : ℕ) (e : Entry) → get_elem? es i ≡ some e → e.peer_id ≢ p)

scan_cases : (es : List Entry) (p : ℕ) → Found es p ⊎ Absent es p
unfolding scan
scan_cases [] p = inr (refl, λ i e g. cc)
scan_cases (x ∷ es) p = step (Bool-cases (x.peer_id == p)) (scan_cases es p)
  where
    miss :
        x.peer_id ≢ p
        → ((i : ℕ) (e : Entry) → get_elem? es i ≡ some e → e.peer_id ≢ p)
        → (i : ℕ) (e : Entry) → get_elem? (x ∷ es) i ≡ some e
        → e.peer_id ≢ p
    miss n h zero e g = λ k. n (ground arith)
    miss n h (suc i) e g = h i e g

    step :
        ((x.peer_id == p) ≡ true) ⊎ ((x.peer_id == p) ≡ false)
        → Found es p ⊎ Absent es p
        → Found (x ∷ es) p ⊎ Absent (x ∷ es) p
    step (inl here) _ = inl (0, x, refl, ==→eq x.peer_id p here)
    step (inr there) (inl (i, e, g, k)) = inl (suc i, e, g, k)
    step (inr there) (inr (z, h)) = inr (rw there z, miss (ground arith) h)

check_entries_sound : (q : Option ℕ) (es : List Entry) → check_entries q es ≡ ok tt → Ascending q es
unfolding check_entries
check_entries_sound q [] h = tt
check_entries_sound none (e ∷ es) h = ground (arith, check_entries_sound (some e.peer_id) es)
check_entries_sound (some q) (e ∷ es) h = ground (arith, check_entries_sound (some e.peer_id) es)

check_entries_complete :
    (q : Option ℕ) (es : List Entry) → Ascending q es → check_entries q es ≡ ok tt
unfolding check_entries
check_entries_complete q [] a = refl
check_entries_complete none (e ∷ es) a =
    ground (arith, check_entries_complete (some e.peer_id) es a.1)
check_entries_complete (some q) (e ∷ es) a =
    ground (arith, check_entries_complete (some e.peer_id) es a.1)

-- `new` accepts exactly the lists of at most 256 entries with strictly ascending peers, and keeps
-- them as they are.
new-Ascending_iff :
    (es : List Entry) (v : LoroOplogVersion)
    → (new es ≡ ok v) ↔ ((v.entries ≡ es) × (length es ≤ max_loro_peers) × Ascending none es)
unfolding new
new-Ascending_iff es v = (
  λ h. ground (arith, check_entries_sound none es),
  λ h. ground (arith, check_entries_complete none es h.2),
)

end_counter_for_cases :
    (v : LoroOplogVersion) (p : ℕ)
    → Ascending none v.entries
    → Found v.entries p ⊎ Absent v.entries p
    → end_counter_for v p ≡ scan v.entries p
unfolding end_counter_for
end_counter_for_cases v p asc (inl (i, e, g, k)) =
    let n = length v.entries in
    let base : search_base n v.entries p 0 n ≡ i =
      search_base_finds v.entries asc p i e g k n 0 n (omega arith) (omega arith)
        (omega (arith, lt_of_get_elem? v.entries i g)) (omega arith) in
    rw (end_counter_for, base, g, scan_found none v.entries p i e asc g k) (ground arith)
end_counter_for_cases v p asc (inr (z, h)) =
    let base = search_base (length v.entries) v.entries p 0 (length v.entries) in
    elim (Option-cases (get_elem? v.entries base)) [
      | inl gone ↦ rw (end_counter_for, gone, z)
      | inr (e, g) ↦ rw (end_counter_for, g, z) (ground (arith, h base e g))
    ]

-- On a version that `new` made, the binary search of `end_counter_for` is the scan: the end counter
-- of the peer's entry, or 0.
pub end_counter_for-eq-scan :
    (es : List Entry) (v : LoroOplogVersion) (p : ℕ)
    → new es ≡ ok v
    → end_counter_for v p ≡ scan es p
end_counter_for-eq-scan es v p h =
    let (same, _, asc) = (new-Ascending_iff es v).0 h in
    rw (← same) (end_counter_for_cases v p (rw same asc) (scan_cases v.entries p))
