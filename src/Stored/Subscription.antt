-- ===== src/Stored/Subscription.antt =====
-- crates/renee-stored/src/subscription.rs: the registry of update subscriptions. What a registry entry
-- shares with its subscriber (the atomic state and the queue) is a cell of a store, at the
-- subscription's identifier; a channel lease is alive while its identifier is in `leases`. The locks
-- of the emission gates are left out.
pub mod Registry
pub mod Subscriber
pub mod Steps
pub mod Entries
pub mod Bounds
pub mod Ending
pub mod Lifetime
pub mod Identities
pub mod Reporting
pub mod Delivery
use renee.Prelude.{ℕ, ◌==◌, Bool, true, false, if◌then◌else◌, Option, none, some, List, []}
use renee.Types.{CapabilityId, DocumentId, UpdateId}
use renee.Maps.{BTreeMap, get, contains_key, adjust}
use renee.Maps.Keys.{nat_key}

abbrev pub update_notification_queue_capacity : ℕ
update_notification_queue_capacity = 8

abbrev pub max_update_subscriptions : ℕ
max_update_subscriptions = 1024

abbrev pub max_update_subscriptions_per_channel : ℕ
max_update_subscriptions_per_channel = 32

abbrev pub max_update_subscriptions_per_document : ℕ
max_update_subscriptions_per_document = 128

abbrev pub active : ℕ
active = 0

pub data UpdateSubscriptionEnd : Type 0 where
  overflowed cancelled revoked retired channel_lost broker_shutdown : UpdateSubscriptionEnd

pub data UpdateSubscriptionPoll : Type 0 where
  notification : UpdateId → UpdateSubscriptionPoll
  pending : UpdateSubscriptionPoll
  invalidated : UpdateSubscriptionEnd → UpdateSubscriptionPoll

unfoldable pub encode_end : UpdateSubscriptionEnd → ℕ
encode_end overflowed = 1
encode_end cancelled = 2
encode_end revoked = 3
encode_end retired = 4
encode_end channel_lost = 5
encode_end broker_shutdown = 6

unfoldable pub decode_end : ℕ → Option UpdateSubscriptionEnd
decode_end state =
    if state == active
    then none
    else if state == 1
    then some overflowed
    else if state == 2
    then some cancelled
    else if state == 3
    then some revoked
    else if state == 4
    then some retired
    else if state == 5
    then some channel_lost
    else some broker_shutdown

-- What an entry and its subscriber share: the atomic, the queue, and whether the receiver is closed.
pub record Shared : Type 0 where
  pub state : ℕ
  pub queue : List UpdateId
  pub closed : Bool

abbrev pub Cells : Type 0
Cells = BTreeMap ℕ Shared

abbrev pub Leases : Type 0
Leases = BTreeMap ℕ (Unit {0})

pub record BrokerChannel : Type 0 where
  pub broker : ℕ
  pub lease : ℕ

pub record SubscriptionEntry : Type 0 where
  pub capability_id : CapabilityId
  pub channel : ℕ
  pub document_id : DocumentId
  pub subscription_id : ℕ

pub record UpdateSubscriptionRegistry : Type 0 where
  pub broker : ℕ
  pub next_channel_id : ℕ
  pub next_subscription_id : ℕ
  pub subscriptions : List SubscriptionEntry
  pub leases : Leases
  pub cells : Cells

abbrev pub invalidate_shared : UpdateSubscriptionEnd → Shared → Shared
invalidate_shared reason c = if c.state == active then record c { state = encode_end reason } else c

-- `compare_exchange` from `ACTIVE`.
unfoldable pub invalidate : ℕ → UpdateSubscriptionEnd → Cells → Cells
invalidate subscription_id reason cells = adjust subscription_id (invalidate_shared reason) cells

abbrev pub state_of : ℕ → Cells → ℕ
state_of subscription_id cells = elim (get subscription_id cells) [
  | none ↦ encode_end broker_shutdown
  | some c ↦ c.state
]
