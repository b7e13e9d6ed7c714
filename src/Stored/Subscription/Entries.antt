-- ===== src/Stored/Subscription/Entries.antt =====
-- crates/renee-stored/src/subscription.rs: invariants of the entries of a registry, which the
-- operations only retain some of or add one to.
use renee.Prelude.{
  ℕ, ◌+◌, ◌^◌, ◌≡◌, refl, sym, ap, inl, inr, true, false, ltb, Bool-cases, arith, List, [],
}
use mathlib.Core.Path.{subst}
use renee.Types.{CapabilityId, DocumentId}
use renee.Stored.Subscription.{
  BrokerChannel, SubscriptionEntry, UpdateSubscriptionRegistry, Cells, channel_lost,
  broker_shutdown,
}
use renee.Stored.Subscription.Registry.{
  Verdict, retain, retained, on_channel, on_document, is_full, add_entry, register, recognizes,
  prune, prune_entry, notify_entry, end_if, mentions, open_channel, new, notify,
  invalidate_subscriptions, invalidate_document, drop_channel, close_channel, shutdown,
}
use renee.Stored.Subscription.Subscriber.{next, cancel}
use renee.Stored.Subscription.Ending.{next_frame}
use renee.Stored.Subscription.Steps.{Step, Reach}

-- A property of the entries and the next identifier that every operation keeps.
pub record EntryInvariant (P : List SubscriptionEntry → ℕ → Type 0) : Type 0 where
  pub starts : P [] 1
  pub retains :
      (v : Verdict) (es : List SubscriptionEntry) (cells : Cells) (n : ℕ)
      → P es n
      → P (retain v es cells).0 n
  pub adds :
      (r : UpdateSubscriptionRegistry) (channel : BrokerChannel) (d : DocumentId) (c : CapabilityId)
      → is_full (prune r) channel d ≡ false
      → P (prune r).subscriptions (prune r).next_subscription_id
      → P
          (add_entry (prune r) channel d c).subscriptions
          (add_entry (prune r) channel d c).next_subscription_id

module _ {P : List SubscriptionEntry → ℕ → Type 0} (inv : EntryInvariant P) where
  abbrev pub Holds : UpdateSubscriptionRegistry → Type 0
  Holds r = P r.subscriptions r.next_subscription_id

  retained-Holds : (v : Verdict) (r : UpdateSubscriptionRegistry) → Holds r → Holds (retained v r)
  retained-Holds v r h = inv.retains v r.subscriptions r.cells r.next_subscription_id h

  register-Holds :
      (r : UpdateSubscriptionRegistry) (channel : BrokerChannel) (d : DocumentId) (c : CapabilityId)
      → Holds r
      → Holds (register r channel d c).1
  unfolding register
  register-Holds r channel d c h = elim (Bool-cases (recognizes r channel)) [
    | inr foreign ↦ rw foreign h
    | inl known ↦ rw known (elim (Bool-cases (is_full (prune r) channel d)) [
      | inl full ↦ rw full pruned
      | inr room ↦ rw room (elim (Bool-cases (ltb ((prune r).next_subscription_id + 1) (2 ^ 64))) [
        | inr last ↦ rw last pruned
        | inl more ↦ rw more (inv.adds r channel d c room pruned)
      ])
    ])
  ]
    where
      pruned : Holds (prune r)
      pruned = unfold prune in retained-Holds (prune_entry r.leases) r h

  same-Holds :
      (r s : UpdateSubscriptionRegistry)
      → s.subscriptions ≡ r.subscriptions
      → s.next_subscription_id ≡ r.next_subscription_id
      → Holds r
      → Holds s
  same-Holds r s entries next_id h =
      subst (λ n. P s.subscriptions n) (sym next_id)
        (subst (λ es. P es r.next_subscription_id) (sym entries) h)

  drop-Holds :
      (r : UpdateSubscriptionRegistry) (channel : BrokerChannel)
      → Holds r
      → Holds (drop_channel r channel)
  drop-Holds r channel h =
      same-Holds r (drop_channel r channel) (unfold drop_channel in ground arith)
        (unfold drop_channel in ground arith) h

  close-Holds :
      (r : UpdateSubscriptionRegistry) (channel : BrokerChannel)
      → Holds r
      → Holds (close_channel r channel)
  unfolding close_channel
  close-Holds r channel h = elim (Bool-cases (recognizes r channel)) [
    | inr foreign ↦ rw foreign h
    | inl known ↦ rw known (
        drop-Holds (retained (end_if (on_channel r.leases channel.lease) channel_lost) r) channel
          (retained-Holds (end_if (on_channel r.leases channel.lease) channel_lost) r h))
  ]

  Step-Holds : {r s : UpdateSubscriptionRegistry} → Step r s → Holds r → Holds s
  Step-Holds (Step.opens r s channel opened) h =
      same-Holds r s (unfold open_channel in ground arith) (unfold open_channel in ground arith) h
  Step-Holds (Step.registers r channel d c) h = register-Holds r channel d c h
  Step-Holds (Step.notifies r send d u) h =
      unfold notify in retained-Holds (notify_entry send r.leases d u) r h
  Step-Holds (Step.invalidates r ids reason) h =
      unfold invalidate_subscriptions in
      retained-Holds (end_if (λ entry. mentions ids entry.subscription_id) reason) r h
  Step-Holds (Step.invalidates_document r d reason) h =
      unfold invalidate_document in retained-Holds (end_if (on_document d) reason) r h
  Step-Holds (Step.drops_channel r channel) h = drop-Holds r channel h
  Step-Holds (Step.closes_channel r channel) h = close-Holds r channel h
  Step-Holds (Step.shuts_down r) h =
      unfold shutdown in retained-Holds (end_if (λ _. true) broker_shutdown) r h
  Step-Holds (Step.polls r s) h =
      same-Holds r (next r s).1 (ap (λ x. x.subscriptions) (next_frame r s))
        (ap (λ x. x.next_subscription_id) (next_frame r s)) h
  Step-Holds (Step.cancels r s) h =
      same-Holds r (cancel r s) (unfold cancel in refl) (unfold cancel in refl) h

  pub Reach-Holds : (broker : ℕ) {r : UpdateSubscriptionRegistry} → Reach (new broker) r → Holds r
  Reach-Holds broker Reach.here = unfold new in inv.starts
  Reach-Holds broker (Reach.step before last) = Step-Holds last (Reach-Holds broker before)
