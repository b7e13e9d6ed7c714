-- ===== src/Stored/Subscription/Lifetime.antt =====
-- crates/renee-stored/src/subscription.rs: the subscriptions of a registry over all of its steps.
use mathlib.Core.Path.{subst}
use renee.Prelude.{
  ℕ, ◌+◌, ◌^◌, ◌<◌, ◌≡◌, ◌≢◌, refl, sym, ap, inl, inr, true, false, ltb, Bool-cases, Option-cases,
  some, [], arith,
}
use renee.Types.{CapabilityId, DocumentId}
use renee.Maps.{get, insert, get-insert}
use renee.Maps.Keys
use renee.Maps.Keys.{nat_key, ==→eq}
use renee.Stored.Subscription.{
  BrokerChannel, UpdateSubscriptionRegistry, channel_lost, broker_shutdown, Shared, active,
}
use renee.Stored.Subscription.Registry.{
  Verdict, retained, on_channel, on_document, is_full, add_entry, register, recognizes, prune,
  prune_entry, notify_entry, end_if, mentions, open_channel, new, notify, invalidate_subscriptions,
  invalidate_document, drop_channel, close_channel, shutdown,
}
use renee.Stored.Subscription.Subscriber.{next, cancel}
use renee.Stored.Subscription.Ending.{
  Grows, Grows-refl, Grows-trans, Evolves, Evolves-refl, IsGrowing, retain-Evolves,
  end_if-IsGrowing, prune-IsGrowing, notify-IsGrowing, next-Evolves, next_frame, cancel-Evolves,
}
use renee.Stored.Subscription.Steps.{Step, Reach}

-- A cell is that of an identifier already given.
pub record IsValid (r : UpdateSubscriptionRegistry) : Type 0 where
  pub fresh : (id : ℕ) (c : Shared) → get id r.cells ≡ some c → id < r.next_subscription_id

pub record Progress (r s : UpdateSubscriptionRegistry) : Type 0 where
  pub grown :
      (id : ℕ) (c : Shared)
      → get id r.cells ≡ some c
      → (e : Shared) × (get id s.cells ≡ some e) × Grows c e
  pub valid : IsValid s

Evolves-Progress :
    (r s : UpdateSubscriptionRegistry)
    → s.next_subscription_id ≡ r.next_subscription_id
    → Evolves r.cells s.cells
    → IsValid r
    → Progress r s
Evolves-Progress r s same e v = record {
  grown = e.present;
  valid = record { fresh = λ id c found. rw same (held id c found) };
}
  where
    held : (id : ℕ) (c : Shared) → get id s.cells ≡ some c → id < r.next_subscription_id
    held id c found = elim (Option-cases (get id r.cells)) [
      | inl gone ↦ absurd (ground (arith, e.absent id gone, found))
      | inr (d, here) ↦ v.fresh id d here
    ]

retained-Progress :
    (v : Verdict) (r : UpdateSubscriptionRegistry)
    → IsGrowing v
    → IsValid r
    → Progress r (retained v r)
retained-Progress v r g =
    Evolves-Progress r (retained v r) refl (retain-Evolves v r.subscriptions r.cells g)

add_entry-Progress :
    (r : UpdateSubscriptionRegistry) (channel : BrokerChannel) (d : DocumentId) (c : CapabilityId)
    → IsValid r
    → Progress r (add_entry r channel d c)
unfolding add_entry
add_entry-Progress r channel d c v = record {
  grown = λ id e found. (e, kept id e found, Grows-refl e);
  valid = record { fresh = held };
}
  where
    made : Shared
    made = record { state = active; queue = []; closed = false }

    kept :
        (id : ℕ) (e : Shared)
        → get id r.cells ≡ some e
        → get id (insert r.next_subscription_id made r.cells) ≡ some e
    kept id e found = elim (Bool-cases (Keys.◌==◌ id r.next_subscription_id)) [
      | inl same ↦ absurd (omega (arith, v.fresh id e found, ==→eq id r.next_subscription_id same))
      | inr other ↦ rw (get-insert r.next_subscription_id id made r.cells, other) found
    ]

    held :
        (id : ℕ) (e : Shared)
        → get id (insert r.next_subscription_id made r.cells) ≡ some e
        → id < r.next_subscription_id + 1
    held id e found = elim (Bool-cases (Keys.◌==◌ id r.next_subscription_id)) [
      | inl same ↦ omega (arith, ==→eq id r.next_subscription_id same)
      | inr other ↦
          let here : get id r.cells ≡ some e =
            ground (arith, get-insert r.next_subscription_id id made r.cells, other, found) in
          omega (arith, v.fresh id e here)
    ]

Progress-trans : (r s u : UpdateSubscriptionRegistry) → Progress r s → Progress s u → Progress r u
Progress-trans r s u p q = record {
  grown = λ id c found.
      let (d, there, grown) = p.grown id c found in
      let (e, later, more) = q.grown id d there in (e, later, Grows-trans c d e grown more);
  valid = q.valid;
}

register-Progress :
    (r : UpdateSubscriptionRegistry) (channel : BrokerChannel) (d : DocumentId) (c : CapabilityId)
    → IsValid r
    → Progress r (register r channel d c).1
unfolding register
register-Progress r channel d c v = elim (Bool-cases (recognizes r channel)) [
  | inr foreign ↦ rw foreign (Evolves-Progress r r refl (Evolves-refl r.cells) v)
  | inl known ↦ rw known (elim (Bool-cases (is_full (prune r) channel d)) [
    | inl full ↦ rw full pruned
    | inr room ↦ rw room (elim (Bool-cases (ltb ((prune r).next_subscription_id + 1) (2 ^ 64))) [
      | inr last ↦ rw last pruned
      | inl more ↦ rw more (
          Progress-trans r (prune r) (add_entry (prune r) channel d c) pruned
            (add_entry-Progress (prune r) channel d c pruned.valid))
    ])
  ])
]
  where
    pruned : Progress r (prune r)
    pruned = unfold prune in retained-Progress (prune_entry r.leases) r (prune-IsGrowing r.leases) v

drop_frame :
    (r : UpdateSubscriptionRegistry) (channel : BrokerChannel)
    → ((drop_channel r channel).cells ≡ r.cells)
      × ((drop_channel r channel).next_subscription_id ≡ r.next_subscription_id)
unfolding drop_channel
drop_frame r channel = ground arith

same_cells :
    (r s : UpdateSubscriptionRegistry)
    → s.cells ≡ r.cells
    → s.next_subscription_id ≡ r.next_subscription_id
    → IsValid r
    → Progress r s
same_cells r s cells next_id v =
    Evolves-Progress r s next_id (subst (λ x. Evolves r.cells x) (sym cells) (Evolves-refl r.cells))
      v

drop-Progress :
    (r : UpdateSubscriptionRegistry) (channel : BrokerChannel)
    → IsValid r
    → Progress r (drop_channel r channel)
drop-Progress r channel v =
    same_cells r (drop_channel r channel) (drop_frame r channel).0 (drop_frame r channel).1 v

close-Progress :
    (r : UpdateSubscriptionRegistry) (channel : BrokerChannel)
    → IsValid r
    → Progress r (close_channel r channel)
unfolding close_channel
close-Progress r channel v = elim (Bool-cases (recognizes r channel)) [
  | inr foreign ↦ rw foreign (Evolves-Progress r r refl (Evolves-refl r.cells) v)
  | inl known ↦ rw known (
      let ended_ = end_if (on_channel r.leases channel.lease) channel_lost in
      let first =
        retained-Progress ended_ r
          (end_if-IsGrowing (on_channel r.leases channel.lease) channel_lost) v in
      Progress-trans r (retained ended_ r) (drop_channel (retained ended_ r) channel) first
        (drop-Progress (retained ended_ r) channel first.valid))
]

open_frame :
    (r s : UpdateSubscriptionRegistry) (channel : BrokerChannel)
    → open_channel r ≡ some (channel, s)
    → (s.cells ≡ r.cells) × (s.next_subscription_id ≡ r.next_subscription_id)
unfolding open_channel
open_frame r s channel h = ground arith

Step-Progress : {r s : UpdateSubscriptionRegistry} → Step r s → IsValid r → Progress r s
Step-Progress (Step.opens r s channel h) v =
    same_cells r s (open_frame r s channel h).0 (open_frame r s channel h).1 v
Step-Progress (Step.registers r channel d c) v = register-Progress r channel d c v
Step-Progress (Step.notifies r send d u) v =
    unfold notify in
    retained-Progress (notify_entry send r.leases d u) r (notify-IsGrowing send r.leases d u) v
Step-Progress (Step.invalidates r ids reason) v =
    unfold invalidate_subscriptions in
    retained-Progress (end_if (λ entry. mentions ids entry.subscription_id) reason) r
      (end_if-IsGrowing (λ entry. mentions ids entry.subscription_id) reason) v
Step-Progress (Step.invalidates_document r d reason) v =
    unfold invalidate_document in
    retained-Progress (end_if (on_document d) reason) r (end_if-IsGrowing (on_document d) reason) v
Step-Progress (Step.drops_channel r channel) v = drop-Progress r channel v
Step-Progress (Step.closes_channel r channel) v = close-Progress r channel v
Step-Progress (Step.shuts_down r) v =
    unfold shutdown in
    retained-Progress (end_if (λ _. true) broker_shutdown) r
      (end_if-IsGrowing (λ _. true) broker_shutdown) v
Step-Progress (Step.polls r s) v =
    Evolves-Progress r (next r s).1 (ap (λ x. x.next_subscription_id) (next_frame r s))
      (next-Evolves r s) v
Step-Progress (Step.cancels r s) v =
    Evolves-Progress r (cancel r s) (unfold cancel in refl) (cancel-Evolves r s) v

Reach-Progress : {r s : UpdateSubscriptionRegistry} → IsValid r → Reach r s → Progress r s
Reach-Progress {r} v Reach.here = Evolves-Progress r r refl (Evolves-refl r.cells) v
Reach-Progress {r} {s} v (Reach.step {s = m} before last) =
    let p = Reach-Progress v before in Progress-trans r m s p (Step-Progress last p.valid)

pub new-IsValid : (broker : ℕ) → IsValid (new broker)
unfolding new get
new-IsValid broker = record { fresh = λ id c h. absurd (ground arith) }

-- A subscription that has ended in a reachable registry keeps its reason, whatever operations
-- follow.
pub ended_stays :
    (broker : ℕ) {r s : UpdateSubscriptionRegistry} (id : ℕ) (c : Shared)
    → Reach (new broker) r
    → Reach r s
    → get id r.cells ≡ some c
    → c.state ≢ active
    → (e : Shared) × (get id s.cells ≡ some e) × (e.state ≡ c.state)
ended_stays broker id c reached later found over =
    let p = Reach-Progress (Reach-Progress (new-IsValid broker) reached).valid later in
    let (e, there, grown) = p.grown id c found in
    (e, there, elim grown.kept [ inl live ↦ absurd (over live) | inr same ↦ same ])
