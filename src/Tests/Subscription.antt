-- ===== src/Tests/Subscription.antt =====
-- A registry with one channel and one subscription, which is notified and cancelled.
use renee.Prelude.{◌≡◌, leb, if◌then◌else◌, refl, inl, true, false, length, some, [], ◌∷◌, arith}
use renee.Types.{CapabilityId, DocumentId, UpdateId}
use renee.Maps.{get, contains_key, insert, adjust}
use renee.Maps.Keys.{nat_key}
use renee.Stored.Subscription.{
  BrokerChannel, SubscriptionEntry, UpdateSubscriptionRegistry, cancelled, invalidated, Shared,
  invalidate, encode_end,
}
use renee.Stored.Subscription.Registry.{
  send_ok, send_full, send_closed, Channel, new, open_channel, register, recognizes, retain, prune,
  is_full, count_entries, add_entry, notify,
}
use renee.Stored.Subscription.Subscriber.{UpdateSubscription, next, cancel, is_authorized}
use renee.Stored.Subscription.Steps.{Step, Reach}
use renee.Stored.Subscription.Bounds.{IsBounded, Reach-IsBounded}
use renee.Stored.Subscription.Lifetime.{ended_stays}
use renee.Stored.Subscription.Delivery.{Notified, notify_delivers}
use renee.Stored.Subscription.Reporting.{reason_reported}

abbrev document_id : DocumentId
document_id = 9 ∷ []

abbrev capability_id : CapabilityId
capability_id = 1 ∷ []

abbrev update_id : UpdateId
update_id = 5 ∷ []

-- Channels that hold as many updates as their capacity.
abbrev channels : Channel
channels capacity c update =
    if c.closed then send_closed else if leb capacity (length c.queue) then send_full else send_ok

abbrev channel : BrokerChannel
channel = record { broker = 7; lease = 1 }

abbrev opened : UpdateSubscriptionRegistry
opened = record {
  broker = 7;
  next_channel_id = 2;
  next_subscription_id = 1;
  subscriptions = [];
  leases = (1, tt) ∷ [];
  cells = [];
}

opens : open_channel (new 7) ≡ some (channel, opened)
unfolding open_channel new insert
opens = refl

abbrev registered : UpdateSubscriptionRegistry
registered = (register opened channel document_id capability_id).1

registered_reached : Reach (new 7) registered
registered_reached =
    Reach.step (Reach.step Reach.here (Step.opens (new 7) opened channel opens))
      (Step.registers opened channel document_id capability_id)

abbrev entry : SubscriptionEntry
entry = record {
  capability_id = capability_id;
  channel = 1;
  document_id = document_id;
  subscription_id = 1;
}

abbrev cell : Shared
cell = record { state = 0; queue = []; closed = false }

entry_there : (registered.subscriptions ≡ entry ∷ []) × (get 1 registered.cells ≡ some cell)
unfolding register recognizes prune retain is_full count_entries add_entry get contains_key insert
entry_there = (refl, refl)

notify_delivers_example :
    (x : Shared) × (get 1 (notify channels registered document_id update_id).cells ≡ some x)
    × Notified update_id cell x
notify_delivers_example =
    notify_delivers channels 7 document_id update_id entry cell registered_reached
      (rw entry_there.0 (inl refl)) refl entry_there.1

Reach-IsBounded_example : IsBounded registered.subscriptions
Reach-IsBounded_example = Reach-IsBounded 7 registered_reached

abbrev subscription : UpdateSubscription
subscription = record { channel = 1; subscription_id = 1 }

abbrev over : UpdateSubscriptionRegistry
over = cancel registered subscription

over_reached : Reach (new 7) over
over_reached = Reach.step registered_reached (Step.cancels registered subscription)

abbrev over_cell : Shared
over_cell = record { state = 2; queue = []; closed = true }

over_there : get 1 over.cells ≡ some over_cell
unfolding cancel register recognizes prune retain is_full count_entries add_entry get contains_key
    insert adjust invalidate encode_end
over_there = refl

abbrev notified : UpdateSubscriptionRegistry
notified = notify channels over document_id update_id

notified_reached : Reach over notified
notified_reached = Reach.step Reach.here (Step.notifies over channels document_id update_id)

ended_stays_example : (e : Shared) × (get 1 notified.cells ≡ some e) × (e.state ≡ 2)
ended_stays_example =
    ended_stays 7 1 over_cell over_reached notified_reached over_there (λ e. omega arith)

reason_reported_example :
    ((next notified subscription).0 ≡ invalidated cancelled)
    × (is_authorized notified subscription ≡ false)
reason_reported_example =
    reason_reported 7 subscription over_cell cancelled over_reached notified_reached over_there
      (unfold encode_end in refl)
