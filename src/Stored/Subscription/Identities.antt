-- ===== src/Stored/Subscription/Identities.antt =====
-- crates/renee-stored/src/subscription.rs: the identifiers of the entries of a registry.
use renee.Prelude.{
  ℕ, ◌+◌, ◌<◌, ◌≢◌, inl, inr, Bool-cases, List, [], ◌∷◌, ◌++◌, arith, All, append-All,
}
use renee.Maps.{Member}
use renee.Stored.Subscription.{SubscriptionEntry, Cells}
use renee.Stored.Subscription.Registry.{Verdict, retain, add_entry, prune}
use renee.Stored.Subscription.Entries.{EntryInvariant}

abbrev pub Distinct : List SubscriptionEntry → Type 0
Distinct [] = Unit {0}
Distinct (e ∷ es) = All (λ f. f.subscription_id ≢ e.subscription_id) es × Distinct es

-- The identifiers are those already given, and no two entries have the same one.
abbrev pub IsDistinct : List SubscriptionEntry → ℕ → Type 0
IsDistinct es n = All (λ e. e.subscription_id < n) es × Distinct es

All-retain :
    (P : SubscriptionEntry → Type 0) (v : Verdict) (es : List SubscriptionEntry) (cells : Cells)
    → All P es
    → All P (retain v es cells).0
unfolding retain
All-retain P v [] cells h = tt
All-retain P v (e ∷ es) cells h = elim (Bool-cases (v e cells).0) [
  | inl keep ↦ rw keep (h.0, All-retain P v es (v e cells).1 h.1)
  | inr drop ↦ rw drop (All-retain P v es (v e cells).1 h.1)
]

Distinct-retain :
    (v : Verdict) (es : List SubscriptionEntry) (cells : Cells)
    → Distinct es
    → Distinct (retain v es cells).0
unfolding retain
Distinct-retain v [] cells h = tt
Distinct-retain v (e ∷ es) cells h = elim (Bool-cases (v e cells).0) [
  | inl keep ↦ rw keep (
    All-retain (λ f. f.subscription_id ≢ e.subscription_id) v es (v e cells).1 h.0,
    Distinct-retain v es (v e cells).1 h.1,
  )
  | inr drop ↦ rw drop (Distinct-retain v es (v e cells).1 h.1)
]

below_next :
    (es : List SubscriptionEntry) (n : ℕ)
    → All (λ e. e.subscription_id < n) es
    → All (λ e. e.subscription_id < n + 1) es
below_next [] n h = tt
below_next (e ∷ es) n h = (omega (arith, h.0), below_next es n h.1)

Distinct-append :
    (es : List SubscriptionEntry) (f : SubscriptionEntry)
    → All (λ e. e.subscription_id < f.subscription_id) es
    → Distinct es
    → Distinct (es ++ (f ∷ []))
Distinct-append [] f h k = (tt, tt)
Distinct-append (e ∷ es) f h k = (
  append-All (λ g. g.subscription_id ≢ e.subscription_id) es (f ∷ []) k.0
      ((λ same. omega (arith, same, h.0)), tt),
  Distinct-append es f h.1 k.1,
)

pub IsDistinct-entries : EntryInvariant IsDistinct
IsDistinct-entries = record {
  starts = (tt, tt);
  retains = λ v es cells n h.
      (All-retain (λ e. e.subscription_id < n) v es cells h.0, Distinct-retain v es cells h.1);
  adds = λ r channel d c room h.
      unfold add_entry in
      (
        append-All (λ e. e.subscription_id < (prune r).next_subscription_id + 1)
            (prune r).subscriptions _
            (below_next (prune r).subscriptions (prune r).next_subscription_id h.0)
            (omega arith, tt),
        Distinct-append (prune r).subscriptions _ h.0 h.1,
      );
}

pub All-Member :
    (P : SubscriptionEntry → Type 0) (e : SubscriptionEntry) (es : List SubscriptionEntry)
    → All P es
    → Member e es
    → P e
All-Member P e [] h m = absurd m
All-Member P e (f ∷ es) h (inl same) = rw same h.0
All-Member P e (f ∷ es) h (inr m) = All-Member P e es h.1 m
