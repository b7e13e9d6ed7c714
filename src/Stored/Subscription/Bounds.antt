-- ===== src/Stored/Subscription/Bounds.antt =====
-- crates/renee-stored/src/subscription.rs: the numbers of subscriptions that a registry holds.
use renee.Prelude.{
  ℕ, ◌+◌, ◌≤◌, ◌<◌, ◌≡◌, refl, inl, inr, Bool, false, ◌==◌, Bool-cases, length, List, [], ◌∷◌, ◌++◌,
  arith, length-append,
}
use renee.Bytes.{bytes_eq}
use renee.Bytes.Words.{bytes_eq_iff}
use renee.Types.{CapabilityId, DocumentId}
use renee.Maps.{contains_key}
use renee.Maps.Keys.{nat_key}
use renee.Stored.Subscription.{
  BrokerChannel, SubscriptionEntry, UpdateSubscriptionRegistry, Cells, Leases,
}
use renee.Stored.Subscription.Registry.{
  Verdict, retain, count_entries, on_channel, on_document, is_full, add_entry, prune, prune_entry,
  new,
}
use renee.Stored.Subscription.Steps.{Reach}
use renee.Stored.Subscription.Entries.{EntryInvariant, Reach-Holds}

abbrev of_lease : ℕ → SubscriptionEntry → Bool
of_lease lease entry = entry.channel == lease

pub record IsBounded (es : List SubscriptionEntry) : Type 0 where
  pub total : length es ≤ 1024
  pub per_channel : (lease : ℕ) → count_entries (of_lease lease) es ≤ 32
  pub per_document : (d : DocumentId) → count_entries (on_document d) es ≤ 128

retain_count :
    (p : SubscriptionEntry → Bool) (v : Verdict) (es : List SubscriptionEntry) (cells : Cells)
    → count_entries p (retain v es cells).0 ≤ count_entries p es
unfolding retain count_entries
retain_count p v [] cells = omega arith
retain_count p v (e ∷ es) cells = elim (Bool-cases (v e cells).0) [
  | inl keep ↦ ground (arith, retain_count p v es (v e cells).1, keep)
  | inr drop ↦ ground (arith, retain_count p v es (v e cells).1, drop)
]

length-retain :
    (v : Verdict) (es : List SubscriptionEntry) (cells : Cells)
    → length (retain v es cells).0 ≤ length es
unfolding retain
length-retain v [] cells = omega arith
length-retain v (e ∷ es) cells = elim (Bool-cases (v e cells).0) [
  | inl keep ↦ ground (arith, length-retain v es (v e cells).1, keep)
  | inr drop ↦ ground (arith, length-retain v es (v e cells).1, drop)
]

retain-IsBounded :
    (v : Verdict) (es : List SubscriptionEntry) (cells : Cells)
    → IsBounded es
    → IsBounded (retain v es cells).0
retain-IsBounded v es cells b = record {
  total = omega (arith, b.total, length-retain v es cells);
  per_channel =
      λ lease. omega (arith, b.per_channel lease, retain_count (of_lease lease) v es cells);
  per_document = λ d. omega (arith, b.per_document d, retain_count (on_document d) v es cells);
}

prune_live :
    (leases : Leases) (lease : ℕ) (es : List SubscriptionEntry) (cells : Cells)
    → count_entries (of_lease lease) (retain (prune_entry leases) es cells).0
      ≡ count_entries (on_channel leases lease) (retain (prune_entry leases) es cells).0
unfolding retain count_entries prune_entry
prune_live leases lease [] cells = refl
prune_live leases lease (e ∷ es) cells = elim (Bool-cases (contains_key e.channel leases)) [
  | inl live ↦ ground (arith, prune_live leases lease es (prune_entry leases e cells).1, live)
  | inr lost ↦ ground (arith, prune_live leases lease es (prune_entry leases e cells).1, lost)
]

count-append :
    (p : SubscriptionEntry → Bool) (xs ys : List SubscriptionEntry)
    → count_entries p (xs ++ ys) ≡ count_entries p xs + count_entries p ys
unfolding count_entries
count-append p [] ys = omega arith
count-append p (x ∷ xs) ys = ground (arith, count-append p xs ys)

-- What `register` asks of the registry before it adds an entry.
record HasRoom (r : UpdateSubscriptionRegistry) (lease : ℕ) (d : DocumentId) : Type 0 where
  total : length r.subscriptions < 1024
  channel : count_entries (of_lease lease) r.subscriptions < 32
  document : count_entries (on_document d) r.subscriptions < 128

prune_room :
    (r : UpdateSubscriptionRegistry) (channel : BrokerChannel) (d : DocumentId)
    → is_full (prune r) channel d ≡ false
    → HasRoom (prune r) channel.lease d
prune_room r channel d h =
    let (a, (b, c)) = parts in
    record { total = a; channel = omega (arith, b, same_count); document = c }
  where
    parts :
        (length (prune r).subscriptions < 1024)
        × ((count_entries (on_channel r.leases channel.lease) (prune r).subscriptions < 32)
            × (count_entries (on_document d) (prune r).subscriptions < 128))
    parts = unfold is_full prune in ground arith

    same_count :
        count_entries (of_lease channel.lease) (prune r).subscriptions
        ≡ count_entries (on_channel r.leases channel.lease) (prune r).subscriptions
    same_count = unfold prune in prune_live r.leases channel.lease r.subscriptions r.cells

add_entry-IsBounded :
    (r : UpdateSubscriptionRegistry) (channel : BrokerChannel) (d : DocumentId) (c : CapabilityId)
    → IsBounded r.subscriptions
    → HasRoom r channel.lease d
    → IsBounded (add_entry r channel d c).subscriptions
unfolding add_entry
add_entry-IsBounded r channel d c b room = record {
  total = omega (arith, room.total, length-append r.subscriptions (added ∷ []));
  per_channel = λ lease. elim (Bool-cases (channel.lease == lease)) [
    | inl same ↦
        let e : channel.lease ≡ lease = ground arith in
        let few : count_entries (of_lease lease) r.subscriptions < 32 = rw (← e) room.channel in
        omega (
          arith,
          count-append (of_lease lease) r.subscriptions (added ∷ []),
          one_more (of_lease lease),
          few,
        )
    | inr other ↦ omega (
      arith,
      count-append (of_lease lease) r.subscriptions (added ∷ []),
      none_more (of_lease lease) other,
      b.per_channel lease,
    )
  ];
  per_document = λ e. elim (Bool-cases (bytes_eq d e)) [
    | inl same ↦
        let few : count_entries (on_document e) r.subscriptions < 128 =
          rw (← (bytes_eq_iff d e).0 same) room.document in
        omega (
          arith,
          count-append (on_document e) r.subscriptions (added ∷ []),
          one_more (on_document e),
          few,
        )
    | inr other ↦ omega (
      arith,
      count-append (on_document e) r.subscriptions (added ∷ []),
      none_more (on_document e) other,
      b.per_document e,
    )
  ];
}
  where
    added : SubscriptionEntry
    added = record {
      capability_id = c;
      channel = channel.lease;
      document_id = d;
      subscription_id = r.next_subscription_id;
    }

    one_more : (p : SubscriptionEntry → Bool) → count_entries p (added ∷ []) ≤ 1
    one_more p = unfold count_entries in ground arith

    none_more : (p : SubscriptionEntry → Bool) → p added ≡ false → count_entries p (added ∷ []) ≡ 0
    none_more p h = unfold count_entries in ground arith

IsBounded-entries : EntryInvariant (λ es _. IsBounded es)
IsBounded-entries = record {
  starts = record {
    total = omega arith;
    per_channel = λ lease. unfold count_entries in omega arith;
    per_document = λ d. unfold count_entries in omega arith;
  };
  retains = λ v es cells _. retain-IsBounded v es cells;
  adds = λ r channel d c room b.
      add_entry-IsBounded (prune r) channel d c b (prune_room r channel d room);
}

-- Whatever the order of its operations, a registry holds at most 1024 subscriptions, at most 32 of
-- one channel and at most 128 of one document.
pub Reach-IsBounded :
    (broker : ℕ) {r : UpdateSubscriptionRegistry} → Reach (new broker) r → IsBounded r.subscriptions
Reach-IsBounded broker reached = Reach-Holds IsBounded-entries broker reached
