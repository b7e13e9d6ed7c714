-- ===== src/Stored/Subscription/Delivery.antt =====
-- crates/renee-stored/src/subscription.rs: what `notify` does to the subscriptions of a document.
use renee.Prelude.{
  ℕ, ◌≡◌, ◌≢◌, refl, sym, ◌∙◌, inl, inr, true, false, ◌==◌, Bool-cases, Option-cases, some, List,
  [], ◌∷◌, ◌++◌, arith, All,
}
use renee.Bytes.Words.{bytes_eq_iff}
use renee.Types.{DocumentId, UpdateId}
use renee.Maps.{get, contains_key, insert, get-insert, get-adjust, Member}
use renee.Maps.Keys.{nat_key, ==_refl, ==_false}
use renee.Stored.Subscription.{
  SubscriptionEntry, UpdateSubscriptionRegistry, UpdateSubscriptionEnd, cancelled, channel_lost,
  overflowed, update_notification_queue_capacity, Shared, Cells, Leases, active, encode_end,
  invalidate, invalidate_shared, state_of,
}
use renee.Stored.Subscription.Registry.{
  Channel, retain, on_document, new, notify, notify_entry, try_send,
}
use renee.Stored.Subscription.Ending.{TrySend-cases}
use renee.Stored.Subscription.Steps.{Reach}
use renee.Stored.Subscription.Entries.{Reach-Holds}
use renee.Stored.Subscription.Identities.{Distinct, IsDistinct-entries, All-Member}

-- What a notification does to one subscription: the update is queued last, or the subscription ends.
pub data Notified (u : UpdateId) (c e : Shared) : Type 0 where
  queued : e.state ≡ c.state → e.queue ≡ c.queue ++ (u ∷ []) → Notified u c e
  over : (e.state == active) ≡ false → Notified u c e

-- The cell of `id` after a step on the cells, by the one before it.
abbrev After : UpdateId → ℕ → Shared → Cells → Type 0
After u id c cells = (e : Shared) × (get id cells ≡ some e) × Notified u c e

invalidate_other :
    (id j : ℕ) (reason : UpdateSubscriptionEnd) (cells : Cells)
    → j ≢ id
    → get j (invalidate id reason cells) ≡ get j cells
unfolding invalidate
invalidate_other id j reason cells apart =
    rw (get-adjust id j (invalidate_shared reason) cells, ==_false j id apart) refl

invalidate_self :
    (id : ℕ) (reason : UpdateSubscriptionEnd) (u : UpdateId) (c : Shared) (cells : Cells)
    → get id cells ≡ some c
    → After u id c (invalidate id reason cells)
unfolding invalidate encode_end
invalidate_self id reason u c cells here = (
  invalidate_shared reason c,
  rw (get-adjust id id (invalidate_shared reason) cells, ==_refl id, here) refl,
  Notified.over (ground arith),
)

insert_other :
    (id j : ℕ) (c : Shared) (cells : Cells) → j ≢ id → get j (insert id c cells) ≡ get j cells
insert_other id j c cells apart = rw (get-insert id j c cells, ==_false j id apart) refl

insert_self : (id : ℕ) (c : Shared) (cells : Cells) → get id (insert id c cells) ≡ some c
insert_self id c cells = rw (get-insert id id c cells, ==_refl id) refl

try_send_other :
    (send : Channel) (u : UpdateId) (e : SubscriptionEntry) (j : ℕ) (cells : Cells)
    → j ≢ e.subscription_id
    → get j (try_send send u e cells).1 ≡ get j cells
unfolding try_send
try_send_other send u e j cells apart = elim (Option-cases (get e.subscription_id cells)) [
  | inl gone ↦ rw (gone, try_send) refl
  | inr (c, here) ↦
      rw (here, try_send)
        (elim (TrySend-cases (send update_notification_queue_capacity c u)) [
          | inl sent ↦ rw (sent, try_send) (insert_other e.subscription_id j _ cells apart)
          | inr (inl crowded) ↦
              rw (crowded, try_send) (invalidate_other e.subscription_id j overflowed cells apart)
          | inr (inr gone) ↦
              rw (gone, try_send) (invalidate_other e.subscription_id j cancelled cells apart)
        ])
]

notify_other :
    (send : Channel) (leases : Leases) (d : DocumentId) (u : UpdateId) (e : SubscriptionEntry)
    (j : ℕ) (cells : Cells)
    → j ≢ e.subscription_id
    → get j (notify_entry send leases d u e cells).1 ≡ get j cells
unfolding notify_entry
notify_other send leases d u e j cells apart =
    elim (Bool-cases (state_of e.subscription_id cells == active)) [
      | inr past ↦ rw past refl
      | inl live ↦ rw live (elim (Bool-cases (contains_key e.channel leases)) [
        | inr lost ↦ rw lost (invalidate_other e.subscription_id j channel_lost cells apart)
        | inl here ↦ rw here (elim (Bool-cases (on_document d e)) [
          | inr other ↦ rw other refl
          | inl named ↦ rw named (try_send_other send u e j cells apart)
        ])
      ])
    ]

try_send_self :
    (send : Channel) (u : UpdateId) (e : SubscriptionEntry) (c : Shared) (cells : Cells)
    → get e.subscription_id cells ≡ some c
    → After u e.subscription_id c (try_send send u e cells).1
try_send_self send u e c cells here =
    elim (TrySend-cases (send update_notification_queue_capacity c u)) [
      | inl taken ↦
          let more : Shared = record c { queue = c.queue ++ (u ∷ []) } in
          let sent : (try_send send u e cells).1 ≡ insert e.subscription_id more cells =
            unfold try_send in rw (here, try_send, taken) refl in
          rw sent (more, insert_self e.subscription_id more cells, Notified.queued refl refl)
      | inr (inl crowded) ↦
          let sent : (try_send send u e cells).1 ≡ invalidate e.subscription_id overflowed cells =
            unfold try_send in rw (here, try_send, crowded) refl in
          rw sent (invalidate_self e.subscription_id overflowed u c cells here)
      | inr (inr gone) ↦
          let sent : (try_send send u e cells).1 ≡ invalidate e.subscription_id cancelled cells =
            unfold try_send in rw (here, try_send, gone) refl in
          rw sent (invalidate_self e.subscription_id cancelled u c cells here)
    ]

notify_self :
    (send : Channel) (leases : Leases) (d : DocumentId) (u : UpdateId) (e : SubscriptionEntry)
    (c : Shared) (cells : Cells)
    → on_document d e ≡ true
    → get e.subscription_id cells ≡ some c
    → After u e.subscription_id c (notify_entry send leases d u e cells).1
unfolding notify_entry
notify_self send leases d u e c cells named here =
    elim (Bool-cases (state_of e.subscription_id cells == active)) [
      | inr past ↦ rw past (c, here, Notified.over (ground (arith, here, past)))
      | inl live ↦ rw live (elim (Bool-cases (contains_key e.channel leases)) [
        | inr lost ↦ rw lost (invalidate_self e.subscription_id channel_lost u c cells here)
        | inl held ↦ rw (held, named) (try_send_self send u e c cells here)
      ])
    ]

retain_other :
    (send : Channel) (leases : Leases) (d : DocumentId) (u : UpdateId) (j : ℕ)
    (es : List SubscriptionEntry) (cells : Cells)
    → All (λ f. f.subscription_id ≢ j) es
    → get j (retain (notify_entry send leases d u) es cells).1 ≡ get j cells
unfolding retain
retain_other send leases d u j [] cells h = refl
retain_other send leases d u j (e ∷ es) cells h =
    retain_other send leases d u j es (notify_entry send leases d u e cells).1 h.1
    ∙ notify_other send leases d u e j cells (λ same. h.0 (sym same))

retain-Member :
    (send : Channel) (leases : Leases) (d : DocumentId) (u : UpdateId) (e : SubscriptionEntry)
    (c : Shared) (es : List SubscriptionEntry) (cells : Cells)
    → Distinct es
    → Member e es
    → on_document d e ≡ true
    → get e.subscription_id cells ≡ some c
    → After u e.subscription_id c (retain (notify_entry send leases d u) es cells).1
unfolding retain
retain-Member send leases d u e c [] cells h m named here = absurd m
retain-Member send leases d u e c (f ∷ es) cells h (inl same) named here =
    let apart : All (λ g. g.subscription_id ≢ e.subscription_id) es = rw same h.0 in
    let (x, found, done) = notify_self send leases d u e c cells named here in
    let later =
      retain_other send leases d u e.subscription_id es (notify_entry send leases d u e cells).1
        apart in
    rw (← same) (x, later ∙ found, done)
retain-Member send leases d u e c (f ∷ es) cells h (inr m) named here =
    let apart = All-Member (λ g. g.subscription_id ≢ f.subscription_id) e es h.0 m in
    retain-Member send leases d u e c es (notify_entry send leases d u f cells).1 h.1 m named
      (notify_other send leases d u f e.subscription_id cells apart ∙ here)

-- No wakeup is lost silently, whatever the channels answer: in a reachable registry, notifying an
-- update of a document either puts the update at the end of the queue of a subscription of the
-- document, whose state stays, or leaves that subscription ended.
pub notify_delivers :
    (send : Channel) (broker : ℕ) {r : UpdateSubscriptionRegistry} (d : DocumentId) (u : UpdateId)
    (e : SubscriptionEntry) (c : Shared)
    → Reach (new broker) r
    → Member e r.subscriptions
    → e.document_id ≡ d
    → get e.subscription_id r.cells ≡ some c
    → (x : Shared) × (get e.subscription_id (notify send r d u).cells ≡ some x) × Notified u c x
unfolding notify
notify_delivers send broker {r} d u e c reached m named here =
    retain-Member send r.leases d u e c r.subscriptions r.cells
      (Reach-Holds IsDistinct-entries broker reached).1 m ((bytes_eq_iff e.document_id d).1 named)
      here
