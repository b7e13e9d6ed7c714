-- ===== src/Session.antt =====
-- crates/renee-sessiond/src/main.rs: the negotiation and the relay between the gateway and the store.
-- A queued frame is one event. What the daemon writes is a list of bodies for each of its two
-- streams.
pub mod Negotiation
pub mod Relay
pub mod Turns
pub mod Guarded
use renee.Prelude.{
  ℕ, Bool, true, false, not, ◌&&◌, ◌||◌, ◌==◌, if◌then◌else◌, length, ltb, Option, none, some, List,
  [], ◌∷◌, ◌++◌, Result, ok, err,
}
use renee.Bytes.{Bytes, bytes_eq}
use renee.Texts.{ascii}
use renee.Wire.Envelope.{
  Envelope, IoError, invalid_input, encode_body, decode_body, client_hello, server_hello,
  protocol_error, version_0,
}
use renee.Wire.Greeting.{Greeting, encode_greeting, decode_greeting}
use renee.Wire.Limits.{max_body_length}

-- "renee-experimental-v0"
abbrev pub profile : Bytes
profile = ascii "renee-experimental-v0"

-- "I've been expecting you"
abbrev pub renee_banner : Bytes
renee_banner = ascii "I've been expecting you"

abbrev pub error_unsupported_version : Bytes
error_unsupported_version = ascii "unsupported-version"

abbrev pub error_unsupported_profile : Bytes
error_unsupported_profile = ascii "unsupported-profile"

abbrev pub error_expected_hello : Bytes
error_expected_hello = ascii "expected-client-hello"

abbrev pub error_already_negotiated : Bytes
error_already_negotiated = ascii "already-negotiated"

abbrev pub error_malformed_hello : Bytes
error_malformed_hello = ascii "malformed-client-hello"

abbrev answered : Envelope → ℕ → Bytes → Result IoError Envelope
answered request message_type payload = ok (record {
  correlation_id = request.correlation_id;
  message_type = message_type;
  payload = payload;
  version = version_0;
})

-- The `match` on the greeting of a hello.
unfoldable pub greet : Envelope → Result IoError Envelope
greet request = elim (decode_greeting request.payload) [
  | err _ ↦ answered request protocol_error error_malformed_hello
  | ok greeting ↦
      if not (bytes_eq greeting.profile profile)
      then answered request protocol_error error_unsupported_profile
      else elim (encode_greeting profile renee_banner) [
        | err e ↦ err e
        | ok payload ↦ answered request server_hello payload
      ]
]

unfoldable pub negotiate : Envelope → Bool → Result IoError Envelope
unfolding greet
negotiate request negotiated =
    if negotiated
    then answered request protocol_error error_already_negotiated
    else if not (request.version == version_0)
    then answered request protocol_error error_unsupported_version
    else if not (request.message_type == client_hello)
    then answered request protocol_error error_expected_hello
    else greet request

-- The state of the loop: `negotiated`, and what is written to the gateway and to the store.
pub record Session : Type 0 where
  pub negotiated : Bool
  pub output : List Bytes
  pub store_output : List Bytes

abbrev pub started : Session
started = record { negotiated = false; output = []; store_output = [] }

-- A relayed frame, by its source.
pub data RelayFrame : Type 0 where
  gateway store : Result IoError (Option Bytes) → RelayFrame

-- What one turn of the loop ends in, with what has been written: the next turn, the end of the
-- session, or an error of the session.
pub data Turn : Type 0 where
  continues stopped failed : Session → Turn

-- `write_body` refuses a body that is too long.
abbrev is_writable : Bytes → Bool
is_writable body = not (ltb max_body_length (length body))

unfoldable pub write_output : Session → Bytes → Turn
write_output s body =
    if is_writable body then continues (record s { output = s.output ++ (body ∷ []) }) else failed s

unfoldable pub write_store : Session → Bytes → Turn
write_store s body =
    if is_writable body
    then continues (record s { store_output = s.store_output ++ (body ∷ []) })
    else failed s

-- The answer to a hello, or to any message before one.
unfoldable pub answer : Session → Envelope → Turn
answer s request = elim (negotiate request s.negotiated) [
  | err _ ↦ failed s
  | ok response ↦
      let told = record s { negotiated = s.negotiated || response.message_type == server_hello } in
      elim (encode_body response) [ err _ ↦ failed told | ok body ↦ write_output told body ]
]

unfoldable pub gateway_body : Session → Bytes → Turn
gateway_body s body = elim (decode_body body) [
  | err _ ↦ stopped s
  | ok request ↦
      if not s.negotiated || request.message_type == client_hello
      then answer s request
      else write_store s body
]

-- One turn of the `while` loop.
unfoldable pub turn : Session → RelayFrame → Turn
turn s (gateway (err _)) = failed s
turn s (gateway (ok none)) = stopped s
turn s (gateway (ok (some body))) = gateway_body s body
turn s (store (err _)) = failed s
turn s (store (ok none)) = failed s
turn s (store (ok (some response))) = write_output s response

-- The loop, over the frames in the order in which they are received.
unfoldable pub run : Session → List RelayFrame → Turn
unfolding turn
run s [] = continues s
run s (frame ∷ frames) = elim (turn s frame) [
  | continues next ↦ run next frames
  | stopped next ↦ stopped next
  | failed next ↦ failed next
]
