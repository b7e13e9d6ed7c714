-- ===== src/Stored/Subscription/Registry.antt =====
-- crates/renee-stored/src/subscription.rs: the operations of `UpdateSubscriptionRegistry`.
use renee.Prelude.{
  ℕ, suc, ◌+◌, ◌^◌, Bool, true, false, not, ◌&&◌, ◌||◌, ltb, leb, ◌==◌, if◌then◌else◌, length,
  Option, none, some, List, [], ◌∷◌, ◌++◌, Result, ok, err,
}
use renee.Bytes.{bytes_eq}
use renee.Types.{CapabilityId, DocumentId, UpdateId}
use renee.Maps.{get, contains_key, insert}
use renee.Maps.Keys.{nat_key}
use renee.Stored.Subscription.{
  UpdateSubscriptionEnd, overflowed, cancelled, channel_lost, broker_shutdown, Shared, Cells,
  Leases, BrokerChannel, SubscriptionEntry, UpdateSubscriptionRegistry, active, invalidate,
  state_of, update_notification_queue_capacity, max_update_subscriptions,
  max_update_subscriptions_per_channel, max_update_subscriptions_per_document,
}

pub data RegisterError : Type 0 where
  invalid_channel backpressure : RegisterError

pub record SubscriptionContext : Type 0 where
  pub capability_id : CapabilityId
  pub subscription_id : ℕ

-- `broker` tells the identity of one registry from that of another.
unfoldable pub new : ℕ → UpdateSubscriptionRegistry
new broker = record {
  broker = broker;
  next_channel_id = 1;
  next_subscription_id = 1;
  subscriptions = [];
  leases = [];
  cells = [];
}

unfoldable pub open_channel :
    UpdateSubscriptionRegistry → Option (BrokerChannel × UpdateSubscriptionRegistry)
open_channel r =
    if ltb (r.next_channel_id + 1) (2 ^ 64)
    then some (
      record { broker = r.broker; lease = r.next_channel_id },
      record r {
        next_channel_id = r.next_channel_id + 1;
        leases = insert r.next_channel_id tt r.leases;
      },
    )
    else none

unfoldable pub recognizes : UpdateSubscriptionRegistry → BrokerChannel → Bool
recognizes r channel = r.broker == channel.broker

-- The answer of a `retain` closure: whether it keeps the entry, and the cells that it leaves.
abbrev pub Verdict : Type 0
Verdict = SubscriptionEntry → Cells → Bool × Cells

unfoldable pub retain : Verdict → List SubscriptionEntry → Cells → List SubscriptionEntry × Cells
retain verdict [] cells = ([], cells)
retain verdict (entry ∷ entries) cells =
    let (keep, after) = verdict entry cells in
    let (kept, final) = retain verdict entries after in (if keep then entry ∷ kept else kept, final)

abbrev pub retained : Verdict → UpdateSubscriptionRegistry → UpdateSubscriptionRegistry
retained verdict r =
    let after = retain verdict r.subscriptions r.cells in
    record r { subscriptions = after.0; cells = after.1 }

abbrev pub is_closed : SubscriptionEntry → Cells → Bool
is_closed entry cells = elim (get entry.subscription_id cells) [ none ↦ true | some c ↦ c.closed ]

-- The closure of `prune`.
unfoldable pub prune_entry : Leases → Verdict
prune_entry leases entry cells =
    if not (state_of entry.subscription_id cells == active)
    then (false, cells)
    else if not (contains_key entry.channel leases)
    then (false, invalidate entry.subscription_id channel_lost cells)
    else (not (is_closed entry cells), cells)

unfoldable pub prune : UpdateSubscriptionRegistry → UpdateSubscriptionRegistry
unfolding retain prune_entry
prune r = retained (prune_entry r.leases) r

-- `filter(…).count()`.
unfoldable pub count_entries : (SubscriptionEntry → Bool) → List SubscriptionEntry → ℕ
count_entries p [] = 0
count_entries p (entry ∷ entries) =
    if p entry then suc (count_entries p entries) else count_entries p entries

abbrev pub on_channel : Leases → ℕ → SubscriptionEntry → Bool
on_channel leases lease entry = contains_key entry.channel leases && entry.channel == lease

abbrev pub on_document : DocumentId → SubscriptionEntry → Bool
on_document document_id entry = bytes_eq entry.document_id document_id

unfoldable pub is_full : UpdateSubscriptionRegistry → BrokerChannel → DocumentId → Bool
unfolding count_entries
is_full r channel document_id =
    leb max_update_subscriptions (length r.subscriptions)
    || (leb max_update_subscriptions_per_channel
          (count_entries (on_channel r.leases channel.lease) r.subscriptions)
        || leb max_update_subscriptions_per_document
            (count_entries (on_document document_id) r.subscriptions))

-- The registry that `register` leaves, once a subscription fits.
unfoldable pub add_entry :
    UpdateSubscriptionRegistry
    → BrokerChannel
    → DocumentId
    → CapabilityId
    → UpdateSubscriptionRegistry
add_entry r channel document_id capability_id = record r {
  next_subscription_id = r.next_subscription_id + 1;
  subscriptions =
      r.subscriptions
      ++ (record {
        capability_id = capability_id;
        channel = channel.lease;
        document_id = document_id;
        subscription_id = r.next_subscription_id;
      }
          ∷ []);
  cells =
      insert r.next_subscription_id (record { state = active; queue = []; closed = false }) r.cells;
}

-- `register`: the identifier of the new subscription, and the registry that the call leaves.
unfoldable pub register :
    UpdateSubscriptionRegistry
    → BrokerChannel
    → DocumentId
    → CapabilityId
    → Result RegisterError ℕ × UpdateSubscriptionRegistry
register r channel document_id capability_id =
    if not (recognizes r channel)
    then (err invalid_channel, r)
    else let pruned = prune r in
      if is_full pruned channel document_id
      then (err backpressure, pruned)
      else if not (ltb (pruned.next_subscription_id + 1) (2 ^ 64))
      then (err backpressure, pruned)
      else (ok pruned.next_subscription_id, add_entry pruned channel document_id capability_id)

unfoldable pub contexts_of :
    UpdateSubscriptionRegistry → DocumentId → List SubscriptionEntry → List SubscriptionContext
contexts_of r document_id [] = []
contexts_of r document_id (entry ∷ entries) =
    let rest = contexts_of r document_id entries in
    if on_document document_id entry
      && (state_of entry.subscription_id r.cells == active && contains_key entry.channel r.leases)
    then record { capability_id = entry.capability_id; subscription_id = entry.subscription_id }
      ∷ rest
    else rest

unfoldable pub contexts : UpdateSubscriptionRegistry → DocumentId → List SubscriptionContext
unfolding contexts_of
contexts r document_id = contexts_of r document_id r.subscriptions

-- What `try_send` of a channel answers: `Ok`, or a `TrySendError`.
pub data TrySend : Type 0 where
  send_ok send_full send_closed : TrySend

-- The channels of the `tokio` crate: the answer of one of a capacity, with what it holds, to an update.
abbrev pub Channel : Type 0
Channel = ℕ → Shared → UpdateId → TrySend

-- What `notify` makes of the answer of `try_send`. An update that is accepted is queued last.
unfoldable pub try_send : Channel → UpdateId → Verdict
try_send send update_id entry cells = elim (get entry.subscription_id cells) [
  | none ↦ (false, cells)
  | some c ↦ elim (send update_notification_queue_capacity c update_id) [
    | send_ok ↦ (
      true,
      insert entry.subscription_id (record c { queue = c.queue ++ (update_id ∷ []) }) cells,
    )
    | send_full ↦ (false, invalidate entry.subscription_id overflowed cells)
    | send_closed ↦ (false, invalidate entry.subscription_id cancelled cells)
  ]
]

-- The closure of `notify`.
unfoldable pub notify_entry : Channel → Leases → DocumentId → UpdateId → Verdict
notify_entry send leases document_id update_id entry cells =
    if not (state_of entry.subscription_id cells == active)
    then (false, cells)
    else if not (contains_key entry.channel leases)
    then (false, invalidate entry.subscription_id channel_lost cells)
    else if not (on_document document_id entry)
    then (true, cells)
    else try_send send update_id entry cells

unfoldable pub notify :
    Channel → UpdateSubscriptionRegistry → DocumentId → UpdateId → UpdateSubscriptionRegistry
unfolding retain notify_entry
notify send r document_id update_id = retained (notify_entry send r.leases document_id update_id) r

-- A `retain` closure that ends the subscriptions that a test selects.
unfoldable pub end_if : (SubscriptionEntry → Bool) → UpdateSubscriptionEnd → Verdict
end_if selected reason entry cells =
    if selected entry then (false, invalidate entry.subscription_id reason cells) else (true, cells)

unfoldable pub mentions : List ℕ → ℕ → Bool
mentions [] id = false
mentions (j ∷ js) id = j == id || mentions js id

unfoldable pub invalidate_subscriptions :
    UpdateSubscriptionRegistry → List ℕ → UpdateSubscriptionEnd → UpdateSubscriptionRegistry
unfolding retain end_if mentions
invalidate_subscriptions r subscription_ids reason =
    retained (end_if (λ entry. mentions subscription_ids entry.subscription_id) reason) r

unfoldable pub invalidate_document :
    UpdateSubscriptionRegistry → DocumentId → UpdateSubscriptionEnd → UpdateSubscriptionRegistry
unfolding retain end_if
invalidate_document r document_id reason = retained (end_if (on_document document_id) reason) r

unfoldable pub remove_lease : ℕ → Leases → Leases
remove_lease lease [] = []
remove_lease lease ((j, u) ∷ leases) =
    if j == lease then remove_lease lease leases else (j, u) ∷ remove_lease lease leases

-- The last reference to a channel is dropped.
unfoldable pub drop_channel :
    UpdateSubscriptionRegistry → BrokerChannel → UpdateSubscriptionRegistry
unfolding remove_lease
drop_channel r channel =
    if r.broker == channel.broker
    then record r { leases = remove_lease channel.lease r.leases }
    else r

unfoldable pub close_channel :
    UpdateSubscriptionRegistry → BrokerChannel → UpdateSubscriptionRegistry
close_channel r channel =
    if not (recognizes r channel)
    then r
    else drop_channel (retained (end_if (on_channel r.leases channel.lease) channel_lost) r) channel

-- `drain(..)` and `invalidate`.
unfoldable pub shutdown : UpdateSubscriptionRegistry → UpdateSubscriptionRegistry
unfolding retain end_if
shutdown r = retained (end_if (λ _. true) broker_shutdown) r
