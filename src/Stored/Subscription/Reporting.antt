-- ===== src/Stored/Subscription/Reporting.antt =====
-- crates/renee-stored/src/subscription.rs: what a subscriber is told once its subscription has ended.
use renee.Prelude.{ℕ, ◌≡◌, ◌≢◌, refl, sym, ap, ◌∙◌, inl, inr, false, Bool-cases, some, arith}
use renee.Maps.{get, contains_key}
use renee.Maps.Keys.{nat_key}
use renee.Stored.Subscription.{
  UpdateSubscriptionRegistry, UpdateSubscriptionEnd, invalidated, Shared, Cells, Leases, active,
  encode_end, decode_end, state_of, channel_lost,
}
use renee.Stored.Subscription.Registry.{new}
use renee.Stored.Subscription.Subscriber.{UpdateSubscription, next, ended, is_authorized}
use renee.Stored.Subscription.Ending.{invalidate-Evolves}
use renee.Stored.Subscription.Lifetime.{ended_stays}
use renee.Stored.Subscription.Steps.{Reach}

-- The reason is read back as it was written, and only the active state reads as no reason.
decode-encode_end :
    (reason : UpdateSubscriptionEnd)
    → (decode_end (encode_end reason) ≡ some reason) × (encode_end reason ≢ active)
unfolding encode_end decode_end
decode-encode_end reason = ground arith

state_found :
    (id : ℕ) (cells : Cells) (c : Shared) → get id cells ≡ some c → state_of id cells ≡ c.state
state_found id cells c here = rw (here, state_of) refl

ended_state :
    (s : UpdateSubscription) (leases : Leases) (cells : Cells) (c : Shared)
    → get s.subscription_id cells ≡ some c
    → c.state ≢ active
    → (ended s leases cells).0 ≡ decode_end c.state
unfolding ended
ended_state s leases cells c here over = elim (Bool-cases (contains_key s.channel leases)) [
  | inl held ↦ rw held (ap decode_end (state_found s.subscription_id cells c here))
  | inr lost ↦
      let (e, found, grown) =
        (invalidate-Evolves s.subscription_id channel_lost cells).present s.subscription_id c
          here in
      let same : e.state ≡ c.state = elim grown.kept [
        | inl live ↦ absurd (over live)
        | inr same ↦ same
      ] in
      rw lost (ap decode_end (state_found s.subscription_id _ e found ∙ same))
]

next_over :
    (r : UpdateSubscriptionRegistry) (s : UpdateSubscription) (reason : UpdateSubscriptionEnd)
    → (ended s r.leases r.cells).0 ≡ some reason
    → (next r s).0 ≡ invalidated reason
unfolding next
next_over r s reason e = rw (e, next) refl

-- Once a subscription of a reachable registry has ended for a reason, after any further operations
-- its subscriber's next poll reports that reason, no queued update comes out any more, and no
-- notification of it may be written.
pub reason_reported :
    (broker : ℕ) {r t : UpdateSubscriptionRegistry} (s : UpdateSubscription) (c : Shared)
    (reason : UpdateSubscriptionEnd)
    → Reach (new broker) r
    → Reach r t
    → get s.subscription_id r.cells ≡ some c
    → c.state ≡ encode_end reason
    → ((next t s).0 ≡ invalidated reason) × (is_authorized t s ≡ false)
unfolding is_authorized
reason_reported broker {r} {t} s c reason reached later here over =
    let past : c.state ≢ active = λ live. (decode-encode_end reason).1 (sym over ∙ live) in
    let (e, found, same) = ended_stays broker s.subscription_id c reached later here past in
    let still : e.state ≢ active = λ live. past (sym same ∙ live) in
    let told : (ended s t.leases t.cells).0 ≡ some reason =
      ended_state s t.leases t.cells e found still ∙ rw (same, over) (decode-encode_end reason).0 in
    (next_over t s reason told, ground (arith, found, still))
