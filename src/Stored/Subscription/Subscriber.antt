-- ===== src/Stored/Subscription/Subscriber.antt =====
-- crates/renee-stored/src/subscription.rs: `UpdateSubscription`, the receiver of one subscription. It
-- is known by its identifier and its channel.
use renee.Prelude.{
  ℕ, Bool, true, false, ◌&&◌, ◌||◌, ◌==◌, if◌then◌else◌, Option, none, some, List, [], ◌∷◌,
}
use renee.Maps.{get, contains_key, insert, adjust}
use renee.Maps.Keys.{nat_key}
use renee.Stored.Subscription.{
  UpdateSubscriptionEnd, cancelled, channel_lost, broker_shutdown, UpdateSubscriptionPoll,
  notification, pending, invalidated, Cells, Leases, Shared, UpdateSubscriptionRegistry, active,
  SubscriptionEntry, decode_end, invalidate, state_of,
}

pub record UpdateSubscription : Type 0 where
  pub channel : ℕ
  pub subscription_id : ℕ

-- `ended`, and the cells that it leaves.
unfoldable pub ended : UpdateSubscription → Leases → Cells → Option UpdateSubscriptionEnd × Cells
ended s leases cells =
    let after =
      if contains_key s.channel leases
      then cells
      else invalidate s.subscription_id channel_lost cells in
    (decode_end (state_of s.subscription_id after), after)

-- Whether the sender still exists: an entry that a registry drops takes its sender along.
unfoldable pub has_sender : List SubscriptionEntry → ℕ → Bool
has_sender [] subscription_id = false
has_sender (entry ∷ entries) subscription_id =
    entry.subscription_id == subscription_id || has_sender entries subscription_id

abbrev map_or : Option UpdateSubscriptionEnd → UpdateSubscriptionPoll → UpdateSubscriptionPoll
map_or none poll = poll
map_or (some reason) poll = invalidated reason

abbrev pub with_cells : UpdateSubscriptionRegistry → Cells → UpdateSubscriptionRegistry
with_cells r cells = record r { cells = cells }

-- The branch of `next` on the receiver, which has no update.
unfoldable pub receive_none :
    UpdateSubscriptionRegistry
    → UpdateSubscription
    → Cells
    → UpdateSubscriptionPoll × UpdateSubscriptionRegistry
receive_none r s cells =
    if has_sender r.subscriptions s.subscription_id
    then (pending, with_cells r cells)
    else let (end_, after) = ended s r.leases cells in
      (map_or end_ (invalidated broker_shutdown), with_cells r after)

-- The receiver's branch of `next`.
unfoldable pub next_active :
    UpdateSubscriptionRegistry
    → UpdateSubscription
    → Cells
    → UpdateSubscriptionPoll × UpdateSubscriptionRegistry
next_active r s cells = elim (get s.subscription_id cells) [
  | none ↦ receive_none r s cells
  | some c ↦ elim c.queue [
    | [] ↦ receive_none r s cells
    | update_id ∷ queue ↦
        let (end_after, after) =
          ended s r.leases (insert s.subscription_id (record c { queue = queue }) cells) in
        (map_or end_after (notification update_id), with_cells r after)
  ]
]

-- One poll of `next`, `pending` where it waits. A lost channel is seen by `ended` before the select
-- is, so that its branch is not reached in a poll that nothing interrupts.
unfoldable pub next :
    UpdateSubscriptionRegistry
    → UpdateSubscription
    → UpdateSubscriptionPoll × UpdateSubscriptionRegistry
next r s =
    let (end_, cells) = ended s r.leases r.cells in
    elim end_ [
      | some reason ↦ (invalidated reason, with_cells r cells)
      | none ↦ next_active r s cells
    ]

abbrev pub close_shared : Shared → Shared
close_shared c = record c { closed = true }

unfoldable pub cancel : UpdateSubscriptionRegistry → UpdateSubscription → UpdateSubscriptionRegistry
cancel r s =
    with_cells r
      (adjust s.subscription_id close_shared (invalidate s.subscription_id cancelled r.cells))

-- `UpdateSubscriptionEmission::is_authorized`.
unfoldable pub is_authorized : UpdateSubscriptionRegistry → UpdateSubscription → Bool
is_authorized r s = contains_key s.channel r.leases && state_of s.subscription_id r.cells == active
