-- ===== src/Stored/Broker/Revocation.antt =====
-- crates/renee-stored/src/store.rs: the subscriptions and passes that a committed revocation ends.
use renee.Prelude.{
  ℕ, ◌≡◌, ◌⊎◌, refl, inl, inr, Bool, true, false, not, ◌==◌, Option-cases, Result-cases,
  if◌then◌else◌, some, List, [], ◌∷◌, ok, arith,
}
use renee.Bytes.{Bytes}
use renee.Types.{DocumentId, CapabilityId, RequestId, Authenticator}
use renee.Maps.{get, contains_key, get-adjust, Member}
use renee.Maps.Keys.{nat_key, ==_refl}
use renee.Stored.Tables.{Tables}
use renee.Stored.Authority.{is_descendant_or_self}
use renee.Stored.Control.{StoreControlOutcome, inserted}
use renee.Stored.Control.Commands.{revoke_capability}
use renee.Stored.Subscription.{
  SubscriptionEntry, UpdateSubscriptionRegistry, UpdateSubscriptionEnd, revoked, Shared, Cells,
  active, encode_end, invalidate, invalidate_shared, state_of,
}
use renee.Stored.Subscription.Ending.{Evolves, retain-Evolves, end_if-IsGrowing}
use renee.Stored.Subscription.Registry.{
  retain, end_if, mentions, contexts, contexts_of, on_document, invalidate_subscriptions,
}
use renee.Stored.Passes.{EnumerationPass, VectorBackfillPass, keep_if}
use renee.Stored.Broker.{
  DurableUpdateStore, revoked_ids, is_revoked_pass, publish_revocation, revoke_capability_in,
}

-- The cell of a subscription that has ended.
abbrev pub Over : ℕ → Cells → Type 0
Over id cells = (x : Shared) × (get id cells ≡ some x) × ((x.state == active) ≡ false)

Over-Evolves : (id : ℕ) (a b : Cells) → Evolves a b → Over id a → Over id b
Over-Evolves id a b evolves (x, found, past) =
    let (y, later, grown) = evolves.present id x found in
    elim grown.kept [
      | inl live ↦ absurd (ground (arith, past, live))
      | inr same ↦ (y, later, rw same past)
    ]

invalidate-Over :
    (id : ℕ) (reason : UpdateSubscriptionEnd) (c : Shared) (cells : Cells)
    → get id cells ≡ some c
    → Over id (invalidate id reason cells)
unfolding invalidate encode_end
invalidate-Over id reason c cells here = (
  invalidate_shared reason c,
  rw (get-adjust id id (invalidate_shared reason) cells, ==_refl id, here) refl,
  ground arith,
)

ended-Member :
    (p : SubscriptionEntry → Bool) (reason : UpdateSubscriptionEnd) (e : SubscriptionEntry)
    (c : Shared) (es : List SubscriptionEntry) (cells : Cells)
    → Member e es
    → p e ≡ true
    → get e.subscription_id cells ≡ some c
    → Over e.subscription_id (retain (end_if p reason) es cells).1
unfolding retain
ended-Member p reason e c [] cells m selected here = absurd m
ended-Member p reason e c (f ∷ es) cells (inl same) selected here =
    let over : Over e.subscription_id (end_if p reason e cells).1 =
      unfold end_if in rw selected (invalidate-Over e.subscription_id reason c cells here) in
    rw (← same) (
      Over-Evolves e.subscription_id (end_if p reason e cells).1 _
        (retain-Evolves (end_if p reason) es (end_if p reason e cells).1
          (end_if-IsGrowing p reason))
        over)
ended-Member p reason e c (f ∷ es) cells (inr m) selected here =
    let (d, found, grown) = (end_if-IsGrowing p reason f cells).present e.subscription_id c here in
    ended-Member p reason e d es (end_if p reason f cells).1 m selected found

mentions_revoked :
    (t : Tables) (d : DocumentId) (target : CapabilityId) (r : UpdateSubscriptionRegistry)
    (e : SubscriptionEntry) (es : List SubscriptionEntry)
    → Member e es
    → on_document d e ≡ true
    → state_of e.subscription_id r.cells ≡ active
    → contains_key e.channel r.leases ≡ true
    → is_descendant_or_self t d target e.capability_id ≡ true
    → mentions (revoked_ids t d target (contexts_of r d es)) e.subscription_id ≡ true
unfolding mentions revoked_ids contexts_of
mentions_revoked t d target r e [] m named live held below = absurd m
mentions_revoked t d target r e (f ∷ es) (inl same) named live held below =
    rw (← same) (rw (named, live, held, below) (ground arith))
mentions_revoked t d target r e (f ∷ es) (inr m) named live held below =
    let rest = mentions_revoked t d target r e es m named live held below in ground (arith, rest)

live_cell :
    (id : ℕ) (cells : Cells) → state_of id cells ≡ active → (c : Shared) × (get id cells ≡ some c)
unfolding encode_end
live_cell id cells live = elim (Option-cases (get id cells)) [
  | inl gone ↦ absurd (ground (arith, live, gone))
  | inr found ↦ found
]

keep_case :
    {A : Type 0} (a b : A) (rest : List A) (keep : Bool)
    → Member a (if keep then b ∷ rest else rest)
    → ((keep ≡ true) × (a ≡ b)) ⊎ Member a rest
keep_case a b rest true (inl same) = inl (refl, same)
keep_case a b rest true (inr m) = inr m
keep_case a b rest false m = inr m

keep_if-Member :
    {A : Type 0} (p : A → Bool) (a : A) (items : List A) → Member a (keep_if p items) → p a ≡ true
unfolding keep_if
keep_if-Member p a [] m = absurd m
keep_if-Member p a (b ∷ items) m = elim (keep_case a b (keep_if p items) (p b) m) [
  | inl (kept, same) ↦ rw same kept
  | inr rest ↦ keep_if-Member p a items rest
]

not-true : (b : Bool) → not b ≡ true → b ≡ false
not-true b h = ground arith

module _ (sha256 : Bytes → Bytes) where
  answered_outcome :
      (s after : DurableUpdateStore) (d : DocumentId) (i : CapabilityId)
      (authenticator : Authenticator) (q : RequestId) (target : CapabilityId)
      (outcome : StoreControlOutcome) (committed : Tables)
      → revoke_capability sha256 s.tables d i authenticator q target ≡ ok (outcome, committed)
      → revoke_capability_in sha256 s d i authenticator q target ≡ (ok inserted, after)
      → publish_revocation s committed d target ≡ after
  unfolding revoke_capability_in
  answered_outcome s after d i authenticator q target outcome committed good h =
      ground (arith, good, h)

  answered :
      (s after : DurableUpdateStore) (d : DocumentId) (i : CapabilityId)
      (authenticator : Authenticator) (q : RequestId) (target : CapabilityId)
      → revoke_capability_in sha256 s d i authenticator q target ≡ (ok inserted, after)
      → (committed : Tables) × (publish_revocation s committed d target ≡ after)
  unfolding revoke_capability_in
  answered s after d i authenticator q target h =
      elim (Result-cases (revoke_capability sha256 s.tables d i authenticator q target)) [
        | inr (e, bad) ↦ absurd (ground (arith, h, bad))
        | inl ((outcome, committed), good) ↦ (
          committed,
          answered_outcome s after d i authenticator q target outcome committed good h,
        )
      ]

  -- When a revocation is answered as inserted, every live subscription of the document whose capability
  -- is the target or below it has ended, and every pass that is left is of another document or of
  -- a capability that is not below the target.
  pub revocation_ends :
      (s after : DurableUpdateStore) (d : DocumentId) (i : CapabilityId)
      (authenticator : Authenticator) (q : RequestId) (target : CapabilityId)
      → revoke_capability_in sha256 s d i authenticator q target ≡ (ok inserted, after)
      → ((e : SubscriptionEntry)
          → Member e s.subscriptions.subscriptions
          → on_document d e ≡ true
          → state_of e.subscription_id s.subscriptions.cells ≡ active
          → contains_key e.channel s.subscriptions.leases ≡ true
          → is_descendant_or_self s.tables d target e.capability_id ≡ true
          → Over e.subscription_id after.subscriptions.cells)
        × ((p : EnumerationPass)
            → Member p after.enumeration_passes
            → is_revoked_pass s.tables d target p.document_id p.capability_id ≡ false)
        × ((p : VectorBackfillPass)
            → Member p after.vector_passes
            → is_revoked_pass s.tables d target p.document_id p.capability_id ≡ false)
  unfolding publish_revocation contexts invalidate_subscriptions
  revocation_ends s after d i authenticator q target h =
      let (committed, same) = answered s after d i authenticator q target h in
      let ids = revoked_ids s.tables d target (contexts s.subscriptions d) in
      rw (← same) (
        λ e m named live held below.
            let (c, here) = live_cell e.subscription_id s.subscriptions.cells live in
            ended-Member (λ f. mentions ids f.subscription_id) revoked e c
              s.subscriptions.subscriptions s.subscriptions.cells m
              (mentions_revoked s.tables d target s.subscriptions e s.subscriptions.subscriptions m
                named live held below)
              here,
        λ p m. not-true _ (keep_if-Member _ p s.enumeration_passes m),
        λ p m. not-true _ (keep_if-Member _ p s.vector_passes m),
      )
