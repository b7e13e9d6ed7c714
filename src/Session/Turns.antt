-- ===== src/Session/Turns.antt =====
-- crates/renee-sessiond/src/main.rs: what one frame does to a session.
use renee.Prelude.{
  ◌≡◌, ◌⊎◌, refl, inl, inr, Bool, true, false, not, ◌||◌, ltb, ◌==◌, Bool-cases, length, none, some,
  [], ◌∷◌, ◌++◌, ok, err, arith, Result-cases,
}
use renee.Bytes.{Bytes, bytes_eq}
use renee.Bytes.Words.{bytes_eq_iff}
use renee.Wire.Greeting.{Greeting, decode_greeting}
use renee.Wire.Limits.{max_body_length}
use renee.Wire.Envelope.{Envelope, decode_body, encode_body, client_hello, server_hello, version_0}
use renee.Session
use renee.Session.{
  Session, started, RelayFrame, gateway, store, Turn, continues, stopped, failed, negotiate, greet,
  answer, write_output, write_store, gateway_body, turn, run,
}
use renee.Session.Relay.{IsRequest}

-- A hello that is acceptable: it has the daemon's version, and its greeting names the daemon's profile.
pub record IsAcceptable (request : Envelope) : Type 0 where
  pub hello : request.message_type ≡ client_hello
  pub version : request.version ≡ version_0
  pub greeting : Greeting
  pub decoded : decode_greeting request.payload ≡ ok greeting
  pub profile : greeting.profile ≡ Session.profile

-- A frame of the gateway with such a hello.
abbrev pub Accepts : RelayFrame → Type 0
Accepts (gateway (ok (some body))) =
    (request : Envelope) × (decode_body body ≡ ok request) × IsAcceptable request
Accepts _ = ⊥

-- The session that a turn ends in satisfies a predicate.
abbrev pub Ends : (Session → Type 0) → Turn → Type 0
Ends P (continues s) = P s
Ends P (stopped s) = P s
Ends P (failed s) = P s

pub Ends-map :
    (P Q : Session → Type 0) (t : Turn) → ((s : Session) → P s → Q s) → Ends P t → Ends Q t
Ends-map P Q (continues s) f h = f s h
Ends-map P Q (stopped s) f h = f s h
Ends-map P Q (failed s) f h = f s h

-- What one frame does to a session: it negotiates only by an acceptable hello, and passes on at most
-- its own body, to a negotiated session.
pub record IsTurn (frame : RelayFrame) (s next : Session) : Type 0 where
  pub negotiated : next.negotiated ≡ true → (s.negotiated ≡ true) ⊎ Accepts frame
  pub passed :
      (next.store_output ≡ s.store_output)
      ⊎ ((body : Bytes) × (next.store_output ≡ s.store_output ++ (body ∷ []))
          × (gateway (ok (some body)) ≡ frame)
          × IsRequest body
          × (s.negotiated ≡ true))

write_output-IsTurn :
    (frame : RelayFrame) (s next : Session) (body : Bytes)
    → IsTurn frame s next
    → Ends (IsTurn frame s) (write_output next body)
unfolding write_output
write_output-IsTurn frame s next body h = elim (Bool-cases (ltb max_body_length (length body))) [
  | inl long ↦ rw long h
  | inr short ↦ rw short (record { negotiated = h.negotiated; passed = h.passed })
]

idle-IsTurn : (frame : RelayFrame) (s : Session) → IsTurn frame s s
idle-IsTurn frame s = record { negotiated = λ n. inl n; passed = inl refl }

-- The answer is the greeting of the daemon only to an acceptable hello.
greet-IsAcceptable :
    (request response : Envelope)
    → request.message_type ≡ client_hello
    → request.version ≡ version_0
    → greet request ≡ ok response
    → (response.message_type == server_hello) ≡ true
    → IsAcceptable request
unfolding greet
greet-IsAcceptable request response kind known h greeted =
    elim (Result-cases (decode_greeting request.payload)) [
      | inr (e, bad) ↦ absurd (ground (arith, h, bad, greeted))
      | inl (greeting, good) ↦ elim (Bool-cases (bytes_eq greeting.profile Session.profile)) [
        | inr foreign ↦ absurd (ground (arith, h, good, foreign, greeted))
        | inl same ↦ record {
          hello = kind;
          version = known;
          greeting = greeting;
          decoded = good;
          profile = (bytes_eq_iff greeting.profile Session.profile).0 same;
        }
      ]
    ]

negotiate-IsAcceptable :
    (request response : Envelope) (negotiated : Bool)
    → negotiate request negotiated ≡ ok response
    → (response.message_type == server_hello) ≡ true
    → IsAcceptable request
unfolding negotiate
negotiate-IsAcceptable request response true h greeted = absurd (ground (arith, h, greeted))
negotiate-IsAcceptable request response false h greeted =
    elim (Bool-cases (request.version == version_0)) [
      | inr other ↦ absurd (ground (arith, h, other, greeted))
      | inl known ↦ elim (Bool-cases (request.message_type == client_hello)) [
        | inr early ↦ absurd (ground (arith, h, known, early, greeted))
        | inl kind ↦
            greet-IsAcceptable request response (ground (arith, kind)) (ground (arith, known))
              (ground (arith, h, known, kind)) greeted
      ]
    ]

answer-IsTurn :
    (s : Session) (body : Bytes) (request : Envelope)
    → decode_body body ≡ ok request
    → Ends (IsTurn (gateway (ok (some body))) s) (answer s request)
unfolding answer
answer-IsTurn s body request decoded = elim (Result-cases (negotiate request s.negotiated)) [
  | inr (e, h) ↦ rw (h, answer) (idle-IsTurn (gateway (ok (some body))) s)
  | inl (response, h) ↦
      let told = record s { negotiated = s.negotiated || response.message_type == server_hello } in
      let turned : IsTurn (gateway (ok (some body))) s told = record {
        negotiated = λ n. elim (Bool-cases s.negotiated) [
          | inl before ↦ inl before
          | inr new ↦ inr (
            request,
            decoded,
            negotiate-IsAcceptable request response s.negotiated h (ground (arith, n, new)),
          )
        ];
        passed = inl refl;
      } in
      elim (Result-cases (encode_body response)) [
        | inr (e, k) ↦ rw (h, answer, k) turned
        | inl (out, k) ↦
            rw (h, answer, k) (write_output-IsTurn (gateway (ok (some body))) s told out turned)
      ]
]

write_store-IsTurn :
    (s : Session) (body : Bytes)
    → s.negotiated ≡ true
    → IsRequest body
    → Ends (IsTurn (gateway (ok (some body))) s) (write_store s body)
unfolding write_store
write_store-IsTurn s body negotiated request =
    elim (Bool-cases (ltb max_body_length (length body))) [
      | inl long ↦ rw long (idle-IsTurn (gateway (ok (some body))) s)
      | inr short ↦
          rw short (record {
            negotiated = λ n. inl n;
            passed = inr (body, refl, refl, request, negotiated);
          })
    ]

body-IsTurn :
    (s : Session) (body : Bytes) → Ends (IsTurn (gateway (ok (some body))) s) (gateway_body s body)
unfolding gateway_body
body-IsTurn s body = elim (Result-cases (decode_body body)) [
  | inr (e, h) ↦ rw (h, gateway_body) (idle-IsTurn (gateway (ok (some body))) s)
  | inl (request, h) ↦
      elim (Bool-cases (not s.negotiated || request.message_type == client_hello)) [
        | inl early ↦ rw (h, gateway_body, early) (answer-IsTurn s body request h)
        | inr late ↦
            rw (h, gateway_body, late)
              (write_store-IsTurn s body (ground arith)
                (record { envelope = request; decoded = h; no_hello = ground arith }))
      ]
]

pub turn-IsTurn : (s : Session) (frame : RelayFrame) → Ends (IsTurn frame s) (turn s frame)
unfolding turn
turn-IsTurn s (gateway (err e)) = idle-IsTurn (gateway (err e)) s
turn-IsTurn s (gateway (ok none)) = idle-IsTurn (gateway (ok none)) s
turn-IsTurn s (gateway (ok (some body))) = body-IsTurn s body
turn-IsTurn s (store (err e)) = idle-IsTurn (store (err e)) s
turn-IsTurn s (store (ok none)) = idle-IsTurn (store (ok none)) s
turn-IsTurn s (store (ok (some response))) =
    write_output-IsTurn (store (ok (some response))) s s response
      (idle-IsTurn (store (ok (some response))) s)
