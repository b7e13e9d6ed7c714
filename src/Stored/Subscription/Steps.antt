-- ===== src/Stored/Subscription/Steps.antt =====
-- crates/renee-stored/src/subscription.rs: the operations of the registry and of its subscribers as
-- steps, in any order.
use renee.Prelude.{ℕ, ◌≡◌, some, List}
use renee.Types.{CapabilityId, DocumentId, UpdateId}
use renee.Stored.Subscription.{BrokerChannel, UpdateSubscriptionEnd, UpdateSubscriptionRegistry}
use renee.Stored.Subscription.Registry.{
  Channel, open_channel, register, notify, invalidate_subscriptions, invalidate_document,
  drop_channel, close_channel, shutdown,
}
use renee.Stored.Subscription.Subscriber.{UpdateSubscription, next, cancel}

pub data Step : UpdateSubscriptionRegistry → UpdateSubscriptionRegistry → Type 0 where
  opens :
      (r s : UpdateSubscriptionRegistry) (channel : BrokerChannel)
      → open_channel r ≡ some (channel, s)
      → Step r s
  registers :
      (r : UpdateSubscriptionRegistry) (channel : BrokerChannel) (d : DocumentId) (c : CapabilityId)
      → Step r (register r channel d c).1
  notifies :
      (r : UpdateSubscriptionRegistry) (send : Channel) (d : DocumentId) (u : UpdateId)
      → Step r (notify send r d u)
  invalidates :
      (r : UpdateSubscriptionRegistry) (ids : List ℕ) (reason : UpdateSubscriptionEnd)
      → Step r (invalidate_subscriptions r ids reason)
  invalidates_document :
      (r : UpdateSubscriptionRegistry) (d : DocumentId) (reason : UpdateSubscriptionEnd)
      → Step r (invalidate_document r d reason)
  drops_channel :
      (r : UpdateSubscriptionRegistry) (channel : BrokerChannel) → Step r (drop_channel r channel)
  closes_channel :
      (r : UpdateSubscriptionRegistry) (channel : BrokerChannel) → Step r (close_channel r channel)
  shuts_down : (r : UpdateSubscriptionRegistry) → Step r (shutdown r)
  polls : (r : UpdateSubscriptionRegistry) (s : UpdateSubscription) → Step r (next r s).1
  cancels : (r : UpdateSubscriptionRegistry) (s : UpdateSubscription) → Step r (cancel r s)

-- The registries that a sequence of steps leads to.
pub data Reach (r : UpdateSubscriptionRegistry) : UpdateSubscriptionRegistry → Type 0 where
  here : Reach r r
  step : {s u : UpdateSubscriptionRegistry} → Reach r s → Step s u → Reach r u
