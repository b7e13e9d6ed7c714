-- ===== src/Model/Capability/Chains.antt =====
-- The bounded loops of crates/renee-model/src/lib.rs over a capability's ancestors, and ancestries
-- without a bound.
use mathlib.Core.Path.{subst}
use renee.Prelude.{
  ℕ, zero, suc, ◌+◌, ◌≤◌, ◌<◌, ◌≡◌, ◌↔◌, inl, inr, refl, sym, true, false, Bool-cases, Option-cases,
  none, some, arith,
}
use renee.Bytes.{bytes_eq}
use renee.Bytes.Words.{bytes_eq_iff}
use renee.Types.{CapabilityId}
use renee.Maps.{get}
use renee.Maps.Keys.{bytes_key}
use renee.Model.Capability.{
  ModelCapability, CapabilityDocument, chain_is_live, reaches, is_descendant, has_capacity,
  issuer_has_descendant_capacity,
}

-- A parentless capability, or a child of one whose ancestry is known; `n` counts the nodes.
pub data Ancestry (d : CapabilityDocument) : CapabilityId → ℕ → Type 0 where
  top :
      (id : CapabilityId) (c : ModelCapability)
      → get id d.capabilities ≡ some c
      → c.parent ≡ none
      → Ancestry d id 1
  child :
      (id p : CapabilityId) (c : ModelCapability) (n : ℕ)
      → get id d.capabilities ≡ some c
      → c.parent ≡ some p
      → Ancestry d p n
      → Ancestry d id (suc n)

-- The same where no node is revoked.
pub data Live (d : CapabilityDocument) : CapabilityId → ℕ → Type 0 where
  top :
      (id : CapabilityId) (c : ModelCapability)
      → get id d.capabilities ≡ some c
      → c.revoked ≡ false
      → c.parent ≡ none
      → Live d id 1
  child :
      (id p : CapabilityId) (c : ModelCapability) (n : ℕ)
      → get id d.capabilities ≡ some c
      → c.revoked ≡ false
      → c.parent ≡ some p
      → Live d p n
      → Live d id (suc n)

-- `id` is `k` steps below `a`.
pub data Below (d : CapabilityDocument) (a : CapabilityId) : CapabilityId → ℕ → Type 0 where
  self : (id : CapabilityId) → id ≡ a → Below d a id 0
  up :
      (id p : CapabilityId) (c : ModelCapability) (k : ℕ)
      → get id d.capabilities ≡ some c
      → c.parent ≡ some p
      → Below d a p k
      → Below d a id (suc k)

module _ (d : CapabilityDocument) where
  chain_none : (rounds : ℕ) → chain_is_live rounds d none ≡ true → 0 < rounds
  unfolding chain_is_live
  chain_none zero h = absurd (ground arith)
  chain_none (suc rounds) h = omega arith

  chain_step :
      (rounds : ℕ) (id : CapabilityId)
      → ((id : CapabilityId)
          → chain_is_live rounds d (some id) ≡ true
          → (n : ℕ) × Live d id n × (n < rounds))
      → chain_is_live (suc rounds) d (some id) ≡ true
      → (n : ℕ) × Live d id n × (n < suc rounds)
  unfolding chain_is_live
  chain_step rounds id ih h = elim (Option-cases (get id d.capabilities)) [
    | inl gone ↦ absurd (ground arith)
    | inr (c, found) ↦ elim (Bool-cases c.revoked) [
      | inl dead ↦ absurd (ground arith)
      | inr live ↦ elim (Option-cases c.parent) [
        | inl root ↦
            (1, Live.top id c found live root, omega (arith, chain_none rounds (ground arith)))
        | inr (p, parent) ↦
            let (n, rest, short) = ih p (ground arith) in
            (suc n, Live.child id p c n found live parent rest, omega arith)
      ]
    ]
  ]

  chain_is_live_sound :
      (rounds : ℕ) (id : CapabilityId)
      → chain_is_live rounds d (some id) ≡ true
      → (n : ℕ) × Live d id n × (n < rounds)
  chain_is_live_sound zero id h = absurd (unfold chain_is_live in ground arith)
  chain_is_live_sound (suc rounds) id h = chain_step rounds id (chain_is_live_sound rounds) h

  chain_is_live_complete :
      (rounds : ℕ) (id : CapabilityId) (n : ℕ)
      → Live d id n
      → n < rounds
      → chain_is_live rounds d (some id) ≡ true
  unfolding chain_is_live
  chain_is_live_complete (suc (suc rounds)) id n (Live.top _ c found live parent) h = ground arith
  chain_is_live_complete (suc rounds) id n (Live.child _ p c m found live parent rest) h =
      ground (arith, chain_is_live_complete rounds p m rest)
  chain_is_live_complete _ id n _ h = absurd (omega arith)

  -- The loop of `authorizes` accepts exactly the capabilities with a live ancestry of fewer nodes
  -- than its rounds.
  pub chain_is_live_iff :
      (rounds : ℕ) (id : CapabilityId)
      → (chain_is_live rounds d (some id) ≡ true) ↔ ((n : ℕ) × Live d id n × (n < rounds))
  chain_is_live_iff rounds id =
      (chain_is_live_sound rounds id, λ h. chain_is_live_complete rounds id h.0 h.1 h.2)

  capacity_step :
      (rounds count : ℕ) (id : CapabilityId)
      → ((id : CapabilityId)
          → has_capacity rounds (count + 1) d id ≡ true
          → (n : ℕ) × Ancestry d id n × (n + (count + 1) ≤ 64))
      → has_capacity (suc rounds) count d id ≡ true
      → (n : ℕ) × Ancestry d id n × (n + count ≤ 64)
  unfolding has_capacity
  capacity_step rounds count id ih h = elim (Option-cases (get id d.capabilities)) [
    | inl gone ↦ absurd (ground arith)
    | inr (c, found) ↦ elim (Option-cases c.parent) [
      | inl root ↦ (1, Ancestry.top id c found root, ground arith)
      | inr (p, parent) ↦
          let (n, rest, short) = ih p (ground arith) in
          (suc n, Ancestry.child id p c n found parent rest, omega arith)
    ]
  ]

  capacity_sound :
      (rounds count : ℕ) (id : CapabilityId)
      → has_capacity rounds count d id ≡ true
      → (n : ℕ) × Ancestry d id n × (n + count ≤ 64)
  capacity_sound zero count id h = absurd (unfold has_capacity in ground arith)
  capacity_sound (suc rounds) count id h =
      capacity_step rounds count id (capacity_sound rounds (count + 1)) h

  capacity_complete :
      (rounds count : ℕ) (id : CapabilityId) (n : ℕ)
      → Ancestry d id n
      → n ≤ rounds
      → n + count ≤ 64
      → has_capacity rounds count d id ≡ true
  unfolding has_capacity
  capacity_complete (suc rounds) count id n (Ancestry.top _ c found root) h k = ground arith
  capacity_complete (suc rounds) count id n (Ancestry.child _ p c m found parent rest) h k =
      ground (arith, capacity_complete rounds (count + 1) p m rest)
  capacity_complete zero count id n (Ancestry.top _ c found root) h k = absurd (omega arith)
  capacity_complete zero count id n (Ancestry.child _ p c m found parent rest) h k =
      absurd (omega arith)

  -- An issuer may grant exactly when its ancestry, itself included, has at most 63 nodes.
  pub issuer_has_descendant_capacity_iff :
      (id : CapabilityId)
      → (issuer_has_descendant_capacity d id ≡ true) ↔ ((n : ℕ) × Ancestry d id n × (n ≤ 63))
  unfolding issuer_has_descendant_capacity
  issuer_has_descendant_capacity_iff id = (
    λ h. let (n, a, short) = capacity_sound 64 1 id h in (n, a, omega arith),
    λ h. capacity_complete 64 1 id h.0 h.1 (omega (arith, h.2)) (omega (arith, h.2)),
  )

  reaches-none : (rounds : ℕ) (a : CapabilityId) → reaches rounds d a none ≡ false
  unfolding reaches
  reaches-none zero a = refl
  reaches-none (suc rounds) a = refl

  reaches_step :
      (rounds : ℕ) (a id : CapabilityId)
      → ((id : CapabilityId)
          → reaches rounds d a (some id) ≡ true
          → (k : ℕ) × Below d a id k × (k < rounds))
      → reaches (suc rounds) d a (some id) ≡ true
      → (k : ℕ) × Below d a id k × (k < suc rounds)
  unfolding reaches
  reaches_step rounds a id ih h = elim (Bool-cases (bytes_eq id a)) [
    | inl same ↦ (0, Below.self id ((bytes_eq_iff id a).0 same), omega arith)
    | inr other ↦ elim (Option-cases (get id d.capabilities)) [
      | inl gone ↦ absurd (ground (arith, reaches-none rounds a))
      | inr (c, found) ↦ elim (Option-cases c.parent) [
        | inl root ↦ absurd (ground (arith, reaches-none rounds a))
        | inr (p, parent) ↦
            let (k, rest, short) = ih p (ground arith) in
            (suc k, Below.up id p c k found parent rest, omega arith)
      ]
    ]
  ]

  reaches_sound :
      (rounds : ℕ) (a id : CapabilityId)
      → reaches rounds d a (some id) ≡ true
      → (k : ℕ) × Below d a id k × (k < rounds)
  reaches_sound zero a id h = absurd (unfold reaches in ground arith)
  reaches_sound (suc rounds) a id h = reaches_step rounds a id (reaches_sound rounds a) h

  reaches_complete :
      (rounds : ℕ) (a id : CapabilityId) (k : ℕ)
      → Below d a id k
      → k < rounds
      → reaches rounds d a (some id) ≡ true
  unfolding reaches
  reaches_complete (suc rounds) a id k (Below.self _ same) h =
      ground (arith, (bytes_eq_iff id a).1 same)
  reaches_complete (suc rounds) a id k (Below.up _ p c m found parent rest) h =
      ground (arith, reaches_complete rounds a p m rest)
  reaches_complete zero a id k b h = absurd (omega arith)

  -- `is_descendant` holds exactly of what is at most 63 steps below the ancestor.
  pub is_descendant_iff :
      (a id : CapabilityId) → (is_descendant d a id ≡ true) ↔ ((k : ℕ) × Below d a id k × (k < 64))
  unfolding is_descendant
  is_descendant_iff a id = (reaches_sound 64 a id, λ h. reaches_complete 64 a id h.0 h.1 h.2)

-- A capability has one ancestry, so one number of nodes.
pub Ancestry-unique :
    (d : CapabilityDocument) (id : CapabilityId) (n m : ℕ)
    → Ancestry d id n
    → Ancestry d id m
    → n ≡ m
Ancestry-unique d id n m (Ancestry.top _ c f r) (Ancestry.top _ c' f' r') = refl
Ancestry-unique d id n m (Ancestry.top _ c f r) (Ancestry.child _ p c' k f' q a) =
    absurd (ground arith)
Ancestry-unique d id n m (Ancestry.child _ p c k f q a) (Ancestry.top _ c' f' r) =
    absurd (ground arith)
Ancestry-unique d id n m (Ancestry.child _ p c k f q a) (Ancestry.child _ p' c' k' f' q' a') =
    let same : p ≡ p' = ground arith in
    omega (arith, Ancestry-unique d p k k' a (subst (λ x. Ancestry d x k') (sym same) a'))

pub Live-Ancestry :
    (d : CapabilityDocument) (id : CapabilityId) (n : ℕ) → Live d id n → Ancestry d id n
Live-Ancestry d id n (Live.top _ c f l r) = Ancestry.top id c f r
Live-Ancestry d id n (Live.child _ p c m f l q rest) =
    Ancestry.child id p c m f q (Live-Ancestry d p m rest)
