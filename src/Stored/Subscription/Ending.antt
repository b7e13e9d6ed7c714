-- ===== src/Stored/Subscription/Ending.antt =====
-- crates/renee-stored/src/subscription.rs: what becomes of a subscription's state and queue.
use renee.Prelude.{
  ℕ, ◌≡◌, ◌⊎◌, refl, inl, inr, Bool, true, ◌==◌, Bool-cases, Option-cases, List-cases, none, some,
  List, [], ◌∷◌, ◌++◌, arith,
}
use renee.Types.{DocumentId, UpdateId}
use renee.Maps.{get, contains_key, insert, adjust, get-insert}
use renee.Maps.Keys
use renee.Maps.Keys.{nat_key, ==→eq}
use renee.Stored.Subscription.{
  SubscriptionEntry, UpdateSubscriptionRegistry, UpdateSubscriptionEnd, cancelled, channel_lost,
  overflowed, update_notification_queue_capacity, Shared, Cells, Leases, active, invalidate,
  invalidate_shared, state_of,
}
use renee.Stored.Subscription.Registry.{
  Verdict, TrySend, send_ok, send_full, send_closed, Channel, retain, on_document, prune_entry,
  notify_entry, try_send, end_if,
}
use renee.Stored.Subscription.Subscriber.{
  UpdateSubscription, next, next_active, has_sender, ended, receive_none, cancel, close_shared,
  with_cells,
}

-- A cell now and later: a state that has ended stays, and a closed receiver stays closed.
pub record Grows (c e : Shared) : Type 0 where
  pub kept : (c.state ≡ 0) ⊎ (e.state ≡ c.state)
  pub closed : c.closed ≡ true → e.closed ≡ true

pub record Evolves (a b : Cells) : Type 0 where
  pub absent : (id : ℕ) → get id a ≡ none → get id b ≡ none
  pub present :
      (id : ℕ) (c : Shared) → get id a ≡ some c → (e : Shared) × (get id b ≡ some e) × Grows c e

pub Grows-refl : (c : Shared) → Grows c c
Grows-refl c = record { kept = inr refl; closed = λ h. h }

pub Grows-trans : (c d e : Shared) → Grows c d → Grows d e → Grows c e
Grows-trans c d e g h = record {
  kept = elim g.kept [
    | inl live ↦ inl live
    | inr same ↦ elim h.kept [ inl live ↦ inl (ground arith) | inr equal ↦ inr (ground arith) ]
  ];
  closed = λ k. h.closed (g.closed k);
}

pub Evolves-refl : (a : Cells) → Evolves a a
Evolves-refl a = record { absent = λ id h. h; present = λ id c h. (c, h, Grows-refl c) }

Evolves-trans : (a b d : Cells) → Evolves a b → Evolves b d → Evolves a d
Evolves-trans a b d f g = record {
  absent = λ id h. g.absent id (f.absent id h);
  present = λ id c h.
      let (e, found, grown) = f.present id c h in
      let (k, later, more) = g.present id e found in (k, later, Grows-trans c e k grown more);
}

Evolves-insert :
    (id : ℕ) (c e : Shared) (a : Cells) → get id a ≡ some c → Grows c e → Evolves a (insert id e a)
Evolves-insert id c e a here g = record {
  absent = λ j gone. elim (Bool-cases (Keys.◌==◌ j id)) [
    | inl same ↦ let equal : j ≡ id = ==→eq j id same in absurd (ground (arith, gone, here))
    | inr other ↦ rw (get-insert id j e a, other) gone
  ];
  present = λ j d found. elim (Bool-cases (Keys.◌==◌ j id)) [
    | inl same ↦
        let equal : j ≡ id = ==→eq j id same in
        let one : d ≡ c = ground (arith, found, here) in
        (e, rw (get-insert id j e a, same) refl, rw one g)
    | inr other ↦ (d, rw (get-insert id j e a, other) found, Grows-refl d)
  ];
}

Evolves-adjust :
    (id : ℕ) (f : Shared → Shared) (a : Cells)
    → ((c : Shared) → Grows c (f c))
    → Evolves a (adjust id f a)
unfolding adjust
Evolves-adjust id f a grows = elim (Option-cases (get id a)) [
  | inl gone ↦ rw (gone, adjust) (Evolves-refl a)
  | inr (c, here) ↦ rw (here, adjust) (Evolves-insert id c (f c) a here (grows c))
]

invalidate-Grows :
    (reason : UpdateSubscriptionEnd) (c : Shared) → Grows c (invalidate_shared reason c)
invalidate-Grows reason c = elim (Bool-cases (c.state == active)) [
  | inl live ↦ record { kept = inl (ground arith); closed = λ h. rw live h }
  | inr over ↦ rw over (Grows-refl c)
]

pub invalidate-Evolves :
    (id : ℕ) (reason : UpdateSubscriptionEnd) (a : Cells) → Evolves a (invalidate id reason a)
unfolding invalidate
invalidate-Evolves id reason a =
    Evolves-adjust id (invalidate_shared reason) a (invalidate-Grows reason)

abbrev pub IsGrowing : Verdict → Type 0
IsGrowing v = (e : SubscriptionEntry) (cells : Cells) → Evolves cells (v e cells).1

pub retain-Evolves :
    (v : Verdict) (es : List SubscriptionEntry) (cells : Cells)
    → IsGrowing v
    → Evolves cells (retain v es cells).1
unfolding retain
retain-Evolves v [] cells g = Evolves-refl cells
retain-Evolves v (e ∷ es) cells g =
    Evolves-trans cells (v e cells).1 (retain v es (v e cells).1).1 (g e cells)
      (retain-Evolves v es (v e cells).1 g)

pub end_if-IsGrowing :
    (p : SubscriptionEntry → Bool) (reason : UpdateSubscriptionEnd) → IsGrowing (end_if p reason)
unfolding end_if
end_if-IsGrowing p reason e cells = elim (Bool-cases (p e)) [
  | inl selected ↦ rw selected (invalidate-Evolves e.subscription_id reason cells)
  | inr other ↦ rw other (Evolves-refl cells)
]

pub prune-IsGrowing : (leases : Leases) → IsGrowing (prune_entry leases)
unfolding prune_entry
prune-IsGrowing leases e cells = elim (Bool-cases (state_of e.subscription_id cells == active)) [
  | inr over ↦ rw over (Evolves-refl cells)
  | inl live ↦ rw live (elim (Bool-cases (contains_key e.channel leases)) [
    | inr lost ↦ rw lost (invalidate-Evolves e.subscription_id channel_lost cells)
    | inl here ↦ rw here (Evolves-refl cells)
  ])
]

queue-Grows :
    (c : Shared) (update_id : UpdateId) → Grows c (record c { queue = c.queue ++ (update_id ∷ []) })
queue-Grows c update_id = record { kept = inr refl; closed = λ h. h }

pub TrySend-cases : (a : TrySend) → (a ≡ send_ok) ⊎ ((a ≡ send_full) ⊎ (a ≡ send_closed))
TrySend-cases send_ok = inl refl
TrySend-cases send_full = inr (inl refl)
TrySend-cases send_closed = inr (inr refl)

try_send-IsGrowing : (send : Channel) (update_id : UpdateId) → IsGrowing (try_send send update_id)
unfolding try_send
try_send-IsGrowing send update_id e cells = elim (Option-cases (get e.subscription_id cells)) [
  | inl gone ↦ rw (gone, try_send) (Evolves-refl cells)
  | inr (c, here) ↦
      rw (here, try_send)
        (elim (TrySend-cases (send update_notification_queue_capacity c update_id)) [
          | inl sent ↦
              rw (sent, try_send)
                (Evolves-insert e.subscription_id c _ cells here (queue-Grows c update_id))
          | inr (inl over) ↦
              rw (over, try_send) (invalidate-Evolves e.subscription_id overflowed cells)
          | inr (inr gone) ↦
              rw (gone, try_send) (invalidate-Evolves e.subscription_id cancelled cells)
        ])
]

pub notify-IsGrowing :
    (send : Channel) (leases : Leases) (d : DocumentId) (update_id : UpdateId)
    → IsGrowing (notify_entry send leases d update_id)
unfolding notify_entry
notify-IsGrowing send leases d update_id e cells =
    elim (Bool-cases (state_of e.subscription_id cells == active)) [
      | inr over ↦ rw over (Evolves-refl cells)
      | inl live ↦ rw live (elim (Bool-cases (contains_key e.channel leases)) [
        | inr lost ↦ rw lost (invalidate-Evolves e.subscription_id channel_lost cells)
        | inl here ↦ rw here (elim (Bool-cases (on_document d e)) [
          | inr other ↦ rw other (Evolves-refl cells)
          | inl named ↦ rw named (try_send-IsGrowing send update_id e cells)
        ])
      ])
    ]

ended-Evolves :
    (s : UpdateSubscription) (leases : Leases) (cells : Cells)
    → Evolves cells (ended s leases cells).1
unfolding ended
ended-Evolves s leases cells = elim (Bool-cases (contains_key s.channel leases)) [
  | inl here ↦ rw here (Evolves-refl cells)
  | inr lost ↦ rw lost (invalidate-Evolves s.subscription_id channel_lost cells)
]

receive_none-Evolves :
    (r : UpdateSubscriptionRegistry) (s : UpdateSubscription) (cells : Cells)
    → Evolves cells (receive_none r s cells).1.cells
unfolding receive_none
receive_none-Evolves r s cells = elim (Bool-cases (has_sender r.subscriptions s.subscription_id)) [
  | inl held ↦ rw held (Evolves-refl cells)
  | inr dropped ↦ rw dropped (ended-Evolves s r.leases cells)
]

pop-Grows :
    (c : Shared) (u : UpdateId) (us : List UpdateId)
    → c.queue ≡ u ∷ us
    → Grows c (record c { queue = us })
pop-Grows c u us e = record { kept = inr refl; closed = λ h. h }

next_cells-Evolves :
    (r : UpdateSubscriptionRegistry) (s : UpdateSubscription) (cells : Cells)
    → Evolves cells (next_active r s cells).1.cells
unfolding next_active
next_cells-Evolves r s cells = elim (Option-cases (get s.subscription_id cells)) [
  | inl gone ↦ rw (gone, next_active) (receive_none-Evolves r s cells)
  | inr (c, here) ↦ elim (List-cases c.queue) [
    | inl empty ↦ rw (here, next_active, empty) (receive_none-Evolves r s cells)
    | inr (u, us, full) ↦
        rw (here, next_active, full)
          (Evolves-trans cells (insert s.subscription_id (record c { queue = us }) cells) _
            (Evolves-insert s.subscription_id c _ cells here (pop-Grows c u us full))
            (ended-Evolves s r.leases (insert s.subscription_id (record c { queue = us }) cells)))
  ]
]

pub next-Evolves :
    (r : UpdateSubscriptionRegistry) (s : UpdateSubscription) → Evolves r.cells (next r s).1.cells
unfolding next
next-Evolves r s = elim (Option-cases (ended s r.leases r.cells).0) [
  | inl live ↦
      rw (live, next)
        (Evolves-trans r.cells (ended s r.leases r.cells).1 _ (ended-Evolves s r.leases r.cells)
          (next_cells-Evolves r s (ended s r.leases r.cells).1))
  | inr (reason, over) ↦ rw (over, next) (ended-Evolves s r.leases r.cells)
]

pub cancel-Evolves :
    (r : UpdateSubscriptionRegistry) (s : UpdateSubscription) → Evolves r.cells (cancel r s).cells
unfolding cancel
cancel-Evolves r s =
    Evolves-trans r.cells (invalidate s.subscription_id cancelled r.cells) _
      (invalidate-Evolves s.subscription_id cancelled r.cells)
      (Evolves-adjust s.subscription_id close_shared _
        (λ c. record { kept = inr refl; closed = λ _. refl }))

-- A poll changes the cells only.
receive_frame :
    (r : UpdateSubscriptionRegistry) (s : UpdateSubscription) (cells : Cells)
    → (receive_none r s cells).1 ≡ with_cells r (receive_none r s cells).1.cells
unfolding receive_none
receive_frame r s cells = elim (Bool-cases (has_sender r.subscriptions s.subscription_id)) [
  | inl held ↦ rw held refl
  | inr dropped ↦ rw dropped refl
]

active_frame :
    (r : UpdateSubscriptionRegistry) (s : UpdateSubscription) (cells : Cells)
    → (next_active r s cells).1 ≡ with_cells r (next_active r s cells).1.cells
unfolding next_active
active_frame r s cells = elim (Option-cases (get s.subscription_id cells)) [
  | inl gone ↦ rw (gone, next_active) (receive_frame r s cells)
  | inr (c, here) ↦ elim (List-cases c.queue) [
    | inl empty ↦ rw (here, next_active, empty) (receive_frame r s cells)
    | inr (u, us, full) ↦ rw (here, next_active, full) refl
  ]
]

pub next_frame :
    (r : UpdateSubscriptionRegistry) (s : UpdateSubscription)
    → (next r s).1 ≡ with_cells r (next r s).1.cells
unfolding next
next_frame r s = elim (Option-cases (ended s r.leases r.cells).0) [
  | inl live ↦ rw (live, next) (active_frame r s (ended s r.leases r.cells).1)
  | inr (reason, over) ↦ rw (over, next) refl
]
