-- ===== src/Session/Negotiation.antt =====
-- crates/renee-sessiond/src/main.rs: `negotiate` beside the negotiation model of
-- crates/renee-model/src/lib.rs.
use renee.Prelude.{
  ℕ, ◌≡◌, refl, sym, ap, ◌∙◌, inl, inr, Bool, true, false, ◌||◌, ◌==◌, not, ltb, length, some,
  Bool-cases, Result-cases, Result, ok, err, arith,
}
use renee.Bytes.{Bytes, bytes_eq}
use renee.Wire.Envelope.{
  Envelope, IoError, decode_body, encode_body, client_hello, server_hello, protocol_error,
  version_0,
}
use renee.Wire.Limits.{max_body_length}
use renee.Wire.Greeting.{Greeting, encode_greeting, decode_greeting}
use renee.Model.Negotiation.{
  NegotiationState, awaiting_hello, ready, ClientHello, NegotiationOutcome, selected,
  unsupported_version, unsupported_profile, already_negotiated, hello, experimental_profile,
}
use renee.Session.{
  Session, gateway, continues, answer, write_output, gateway_body, turn, negotiate, greet, profile,
  error_unsupported_version, error_unsupported_profile, error_already_negotiated,
}

abbrev pub model_state : Bool → NegotiationState
model_state true = ready
model_state false = awaiting_hello

abbrev pub hello_of : Envelope → Greeting → ClientHello
hello_of request greeting = record {
  banner = greeting.banner;
  profile = greeting.profile;
  version = request.version;
}

abbrev response_to : Envelope → ℕ → Bytes → Envelope
response_to request message_type payload = record {
  correlation_id = request.correlation_id;
  message_type = message_type;
  payload = payload;
  version = version_0;
}

-- The message that carries an outcome of the model.
abbrev pub rendered : Envelope → NegotiationOutcome → Result IoError Envelope
rendered request (selected banner) = elim (encode_greeting profile banner) [
  | err e ↦ err e
  | ok payload ↦ ok (response_to request server_hello payload)
]
rendered request unsupported_version =
    ok (response_to request protocol_error error_unsupported_version)
rendered request unsupported_profile =
    ok (response_to request protocol_error error_unsupported_profile)
rendered request already_negotiated =
    ok (response_to request protocol_error error_already_negotiated)

-- The daemon answers a hello whose greeting is well formed as the model does: its response is the
-- message for the model's outcome.
pub negotiate-hello :
    (request : Envelope) (greeting : Greeting) (negotiated : Bool)
    → request.message_type ≡ client_hello
    → decode_greeting request.payload ≡ ok greeting
    → negotiate request negotiated
      ≡ rendered request (hello (model_state negotiated) (hello_of request greeting)).0
unfolding negotiate greet hello
negotiate-hello request greeting true kind decoded = refl
negotiate-hello request greeting false kind decoded = elim (Bool-cases (request.version == 0)) [
  | inr other ↦ rw other refl
  | inl known ↦ elim (Bool-cases (bytes_eq greeting.profile experimental_profile)) [
    | inr foreign ↦ rw (known, kind, decoded, greet, foreign) refl
    | inl same ↦ rw (known, kind, decoded, greet, same) refl
  ]
]

abbrev is_selected : NegotiationOutcome → Bool
is_selected (selected banner) = true
is_selected _ = false

rendered_kind :
    (request response : Envelope) (outcome : NegotiationOutcome)
    → rendered request outcome ≡ ok response
    → (response.message_type == server_hello) ≡ is_selected outcome
rendered_kind request response (selected banner) h = ground arith
rendered_kind request response unsupported_version h = ground arith
rendered_kind request response unsupported_profile h = ground arith
rendered_kind request response already_negotiated h = ground arith

hello_ready :
    (h : ClientHello)
    → model_state (is_selected (hello awaiting_hello h).0) ≡ (hello awaiting_hello h).1
unfolding hello
hello_ready h = ground arith

answer_ready :
    (request response : Envelope) (greeting : Greeting) (negotiated : Bool)
    → request.message_type ≡ client_hello
    → decode_greeting request.payload ≡ ok greeting
    → negotiate request negotiated ≡ ok response
    → model_state (negotiated || response.message_type == server_hello)
      ≡ (hello (model_state negotiated) (hello_of request greeting)).1
answer_ready request response greeting true kind decoded h = unfold hello in refl
answer_ready request response greeting false kind decoded h =
    ap model_state (
      rendered_kind request response (hello awaiting_hello (hello_of request greeting)).0
        (sym (negotiate-hello request greeting false kind decoded) ∙ h))
    ∙ hello_ready (hello_of request greeting)

write_output_frame :
    (s next : Session) (body : Bytes)
    → write_output s body ≡ continues next
    → next.negotiated ≡ s.negotiated
unfolding write_output
write_output_frame s next body h = elim (Bool-cases (ltb max_body_length (length body))) [
  | inl long ↦ absurd (ground (arith, h, long))
  | inr short ↦ ground (arith, h, short)
]

-- The flag that a turn leaves which answers a request.
answer_told :
    (s next : Session) (request : Envelope)
    → answer s request ≡ continues next
    → (response : Envelope) × (negotiate request s.negotiated ≡ ok response)
      × (next.negotiated ≡ s.negotiated || response.message_type == server_hello)
unfolding answer
answer_told s next request h = elim (Result-cases (negotiate request s.negotiated)) [
  | inr (e, bad) ↦ absurd (ground (arith, h, bad))
  | inl (response, good) ↦ elim (Result-cases (encode_body response)) [
    | inr (e, bad) ↦ absurd (ground (arith, h, good, bad))
    | inl (body, k) ↦ (
      response,
      good,
      write_output_frame
          (record s { negotiated = s.negotiated || response.message_type == server_hello }) next
          body (ground (arith, h, good, k)),
    )
  ]
]

-- When the turn of the loop for a hello with a well-formed greeting goes on, the session that it
-- leaves is negotiated exactly when the model is ready after that hello.
pub turn-hello :
    (s next : Session) (body : Bytes) (request : Envelope) (greeting : Greeting)
    → decode_body body ≡ ok request
    → request.message_type ≡ client_hello
    → decode_greeting request.payload ≡ ok greeting
    → turn s (gateway (ok (some body))) ≡ continues next
    → model_state next.negotiated ≡ (hello (model_state s.negotiated) (hello_of request greeting)).1
unfolding turn gateway_body
turn-hello s next body request greeting received kind decoded h =
    let early : (not s.negotiated || request.message_type == client_hello) ≡ true =
      ground (arith, kind) in
    let answered : answer s request ≡ continues next = ground (arith, h, received, early) in
    let (response, good, told) = answer_told s next request answered in
    ap model_state told ∙ answer_ready request response greeting s.negotiated kind decoded good
