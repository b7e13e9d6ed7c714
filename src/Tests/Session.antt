-- ===== src/Tests/Session.antt =====
-- A hello, a request of the client and a response of the store.
use renee.Prelude.{◌≡◌, refl, true, false, replicate, some, List, [], ◌∷◌, ◌++◌, ok}
use renee.Bytes.{Bytes, to_be, to_le, from_be, from_le, bytes_eq}
use renee.Texts.{ascii}
use renee.Wire.Envelope.{Envelope, decode_body, encode_body, copy_array}
use renee.Wire.Slices.{get_range}
use renee.Wire.Greeting.{Greeting, encode_greeting, decode_greeting, decode_greeting_field, is_utf8}
use renee.Model.Negotiation.{hello}
use renee.Session.{
  Session, RelayFrame, started, gateway, store, continues, negotiate, greet, answer, gateway_body,
  write_output, turn, run,
}
use renee.Session.Negotiation.{model_state, hello_of, rendered, negotiate-hello, turn-hello}
use renee.Session.Turns.{Ends}
use renee.Session.Guarded.{IsGuarded, relay-IsGuarded}
use renee.Session.Relay.{IsRequest, run-relayed}

abbrev greeting_payload : Bytes
greeting_payload = 0 ∷ 21 ∷ (ascii "renee-experimental-v0" ++ (0 ∷ 0 ∷ []))

abbrev greeting : Greeting
greeting = record { banner = []; profile = ascii "renee-experimental-v0" }

abbrev hello_request : Envelope
hello_request = record {
  correlation_id = replicate 16 7;
  message_type = 1;
  payload = greeting_payload;
  version = 1;
}

abbrev known_request : Envelope
known_request = record hello_request { version = 0 }

greeting_decoded : decode_greeting greeting_payload ≡ ok greeting
unfolding decode_greeting decode_greeting_field get_range from_be from_le is_utf8
greeting_decoded = refl

negotiate-hello_example :
    negotiate known_request false
    ≡ rendered known_request (hello (model_state false) (hello_of known_request greeting)).0
negotiate-hello_example = negotiate-hello known_request greeting false refl greeting_decoded

abbrev body : Bytes
body = b'R' ∷ b'N' ∷ b'E' ∷ b'0' ∷ 0 ∷ 0 ∷ 0 ∷ 10 ∷ (replicate 16 3 ++ (1 ∷ 2 ∷ []))

abbrev hello_body : Bytes
hello_body = b'R' ∷ b'N' ∷ b'E' ∷ b'0' ∷ 0 ∷ 0 ∷ 0 ∷ 1 ∷ (replicate 16 3 ++ greeting_payload)

abbrev frames : List RelayFrame
frames = gateway (ok (some hello_body)) ∷ gateway (ok (some body)) ∷ store (ok (some body)) ∷ []

relay-IsGuarded_example : Ends (IsGuarded frames) (run started frames)
relay-IsGuarded_example = relay-IsGuarded frames

abbrev hello_received : Envelope
hello_received = record {
  correlation_id = replicate 16 3;
  message_type = 1;
  payload = greeting_payload;
  version = 0;
}

hello_decoded : decode_body hello_body ≡ ok hello_received
unfolding decode_body copy_array get_range from_be from_le bytes_eq
hello_decoded = refl

abbrev greeted : Session
greeted = record {
  negotiated = true;
  output =
      (b'R'
        ∷ b'N'
        ∷ b'E'
        ∷ b'0'
        ∷ 0
        ∷ 0
        ∷ 0
        ∷ 2
        ∷ (replicate 16 3
            ++ (0
                ∷ 21
                ∷ (ascii "renee-experimental-v0" ++ (0 ∷ 23 ∷ ascii "I've been expecting you")))))
      ∷ [];
  store_output = [];
}

hello_answered : turn started (gateway (ok (some hello_body))) ≡ continues greeted
unfolding turn gateway_body answer negotiate greet write_output encode_body encode_greeting
    decode_greeting decode_greeting_field get_range from_be from_le is_utf8 bytes_eq to_be to_le
hello_answered = rw (gateway_body, hello_decoded, answer) refl

turn-hello_example :
    model_state true ≡ (hello (model_state false) (hello_of hello_received greeting)).1
turn-hello_example =
    turn-hello started greeted hello_body hello_received greeting hello_decoded refl
      greeting_decoded hello_answered

body-IsRequest : IsRequest body
unfolding decode_body copy_array get_range from_be from_le bytes_eq
body-IsRequest = record {
  envelope = record {
    correlation_id = replicate 16 3;
    message_type = 10;
    payload = 1 ∷ 2 ∷ [];
    version = 0;
  };
  decoded = refl;
  no_hello = refl;
}

abbrev session : Session
session = record { negotiated = true; output = []; store_output = [] }

run-relayed_example :
    run session (gateway (ok (some body)) ∷ store (ok (some (4 ∷ []))) ∷ [])
    ≡ continues (record { negotiated = true; output = (4 ∷ []) ∷ []; store_output = body ∷ [] })
run-relayed_example =
    run-relayed session (gateway (ok (some body)) ∷ store (ok (some (4 ∷ []))) ∷ []) refl
      ((body-IsRequest, refl), (refl, tt))
