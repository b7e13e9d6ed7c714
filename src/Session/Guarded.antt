-- ===== src/Session/Guarded.antt =====
-- crates/renee-sessiond/src/main.rs: what a session lets pass, from its start.
use renee.Prelude.{
  ◌≡◌, ◌⊎◌, sym, ap, ◌∙◌, inl, inr, true, some, List, [], ◌∷◌, ◌++◌, append-nil, append_assoc, ok,
  arith, All, All-map,
}
use renee.Bytes.{Bytes}
use renee.Session.{
  Session, started, RelayFrame, gateway, Turn, continues, stopped, failed, turn, run,
}
use renee.Session.Relay.{IsRequest}
use renee.Session.Turns.{Accepts, Ends, Ends-map, IsTurn, turn-IsTurn}

-- The frames hold an acceptable hello.
abbrev pub HasHello : List RelayFrame → Type 0
HasHello [] = ⊥
HasHello (frame ∷ frames) = Accepts frame ⊎ HasHello frames

-- The gateway sends the body in one of the frames.
abbrev pub Sends : Bytes → List RelayFrame → Type 0
Sends body [] = ⊥
Sends body (frame ∷ frames) = (gateway (ok (some body)) ≡ frame) ⊎ Sends body frames

-- The gateway sends the body after an acceptable hello.
abbrev pub SendsLater : Bytes → List RelayFrame → Type 0
SendsLater body [] = ⊥
SendsLater body (frame ∷ frames) = (Accepts frame × Sends body frames) ⊎ SendsLater body frames

-- A session that the frames lead to from its start: it is negotiated only by an acceptable hello,
-- and what the store gets are requests that the gateway sends after one.
pub record IsGuarded (frames : List RelayFrame) (s : Session) : Type 0 where
  pub negotiated : s.negotiated ≡ true → HasHello frames
  pub requests : All (λ body. IsRequest body × SendsLater body frames) s.store_output

-- What the frames do to a session that may be negotiated already.
record IsRun (frames : List RelayFrame) (s last : Session) : Type 0 where
  negotiated : last.negotiated ≡ true → (s.negotiated ≡ true) ⊎ HasHello frames
  passed :
      (new : List Bytes) × (last.store_output ≡ s.store_output ++ new)
      × All
          (λ body.
            IsRequest body × (((s.negotiated ≡ true) × Sends body frames) ⊎ SendsLater body frames))
          new

after_turn :
    (frame : RelayFrame) (frames : List RelayFrame) (s next last : Session)
    → IsTurn frame s next
    → IsRun frames next last
    → IsRun (frame ∷ frames) s last
after_turn frame frames s next last t r = record {
  negotiated = λ n. elim (r.negotiated n) [
    | inl before ↦ elim (t.negotiated before) [ inl held ↦ inl held | inr now ↦ inr (inl now) ]
    | inr later ↦ inr (inr later)
  ];
  passed =
      let (new, shape, all) = r.passed in
      elim t.passed [
        | inl same ↦ (new, shape ∙ ap (λ x. x ++ new) same, All-map _ _ new shifted all)
        | inr (body, more, sent, request, held) ↦ (
          body ∷ new,
          (shape ∙ ap (λ x. x ++ new) more) ∙ append_assoc s.store_output (body ∷ []) new,
          ((request, inl (held, inl sent)), All-map _ _ new shifted all),
        )
      ];
}
  where
    shifted :
        (body : Bytes)
        → (IsRequest body
            × (((next.negotiated ≡ true) × Sends body frames) ⊎ SendsLater body frames))
        → (IsRequest body
            × (((s.negotiated ≡ true) × Sends body (frame ∷ frames))
                ⊎ SendsLater body (frame ∷ frames)))
    shifted body (request, inl (before, sends)) = elim (t.negotiated before) [
      | inl held ↦ (request, inl (held, inr sends))
      | inr now ↦ (request, inr (inl (now, sends)))
    ]
    shifted body (request, inr later) = (request, inr (inr later))

idle-IsRun : (frames : List RelayFrame) (s : Session) → IsRun frames s s
idle-IsRun frames s = record {
  negotiated = λ n. inl n;
  passed = ([], sym (append-nil s.store_output), tt);
}

rest-IsRun :
    (frame : RelayFrame) (frames : List RelayFrame) (s : Session) (t : Turn)
    → ((next : Session) → Ends (IsRun frames next) (run next frames))
    → Ends (IsTurn frame s) t
    → Ends (IsRun (frame ∷ frames) s) (elim t [
      | continues next ↦ run next frames
      | stopped next ↦ stopped next
      | failed next ↦ failed next
    ])
rest-IsRun frame frames s (continues next) ih h =
    Ends-map _ _ (run next frames) (λ last r. after_turn frame frames s next last h r) (ih next)
rest-IsRun frame frames s (stopped next) ih h =
    after_turn frame frames s next next h (idle-IsRun frames next)
rest-IsRun frame frames s (failed next) ih h =
    after_turn frame frames s next next h (idle-IsRun frames next)

run-IsRun : (s : Session) (frames : List RelayFrame) → Ends (IsRun frames s) (run s frames)
unfolding run
run-IsRun s [] = idle-IsRun [] s
run-IsRun s (frame ∷ frames) =
    rest-IsRun frame frames s (turn s frame) (λ next. run-IsRun next frames) (turn-IsTurn s frame)

-- In every session, over any frames from the gateway and the store and however it ends, the session
-- is negotiated only if the gateway has sent a hello of the daemon's version and profile, and what is
-- written to the store are bodies of well-formed messages that are not hellos, each of which the
-- gateway sent after such a hello.
pub relay-IsGuarded : (frames : List RelayFrame) → Ends (IsGuarded frames) (run started frames)
relay-IsGuarded frames = Ends-map _ _ (run started frames) guarded (run-IsRun started frames)
  where
    guarded : (last : Session) → IsRun frames started last → IsGuarded frames last
    guarded last r =
        let (new, shape, all) = r.passed in
        record {
          negotiated =
              λ n. elim (r.negotiated n) [ inl early ↦ absurd (ground arith) | inr has ↦ has ];
          requests = rw shape (All-map _ _ new later all);
        }
      where
        later :
            (body : Bytes)
            → (IsRequest body
                × (((started.negotiated ≡ true) × Sends body frames) ⊎ SendsLater body frames))
            → IsRequest body × SendsLater body frames
        later body (request, inl (early, sends)) = absurd (ground arith)
        later body (request, inr sends) = (request, sends)
