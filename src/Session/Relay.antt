-- ===== src/Session/Relay.antt =====
-- crates/renee-sessiond/src/main.rs: what the relay passes on.
use renee.Prelude.{
  ◌≡◌, refl, sym, ap, ap₂, ◌∙◌, true, false, ltb, ◌==◌, length, none, some, List, [], ◌∷◌, ◌++◌,
  append-nil, append_assoc, ok, err, All,
}
use renee.Bytes.{Bytes}
use renee.Wire.Limits.{max_body_length}
use renee.Wire.Envelope.{Envelope, decode_body, client_hello}
use renee.Session.{
  Session, RelayFrame, gateway, store, continues, write_output, write_store, gateway_body, turn,
  run,
}

-- A body that the store may see: that of a message other than a hello.
pub record IsRequest (body : Bytes) : Type 0 where
  pub envelope : Envelope
  pub decoded : decode_body body ≡ ok envelope
  pub no_hello : (envelope.message_type == client_hello) ≡ false

-- The bodies of the frames of a negotiated session that pass to the store, and those to the gateway.
abbrev pub to_store : List RelayFrame → List Bytes
to_store [] = []
to_store (gateway (ok (some body)) ∷ frames) = body ∷ to_store frames
to_store (_ ∷ frames) = to_store frames

abbrev pub to_gateway : List RelayFrame → List Bytes
to_gateway [] = []
to_gateway (store (ok (some body)) ∷ frames) = body ∷ to_gateway frames
to_gateway (_ ∷ frames) = to_gateway frames

-- A frame that is relayed as it is: a request from the gateway or a body from the store.
abbrev pub IsRelayed : RelayFrame → Type 0
IsRelayed (gateway (ok (some body))) = IsRequest body × (ltb max_body_length (length body) ≡ false)
IsRelayed (store (ok (some body))) = ltb max_body_length (length body) ≡ false
IsRelayed _ = ⊥

to_store_cons :
    (frame : RelayFrame) (frames : List RelayFrame)
    → to_store (frame ∷ frames) ≡ to_store (frame ∷ []) ++ to_store frames
to_store_cons (gateway (ok (some body))) frames = refl
to_store_cons (gateway (ok none)) frames = refl
to_store_cons (gateway (err _)) frames = refl
to_store_cons (store _) frames = refl

to_gateway_cons :
    (frame : RelayFrame) (frames : List RelayFrame)
    → to_gateway (frame ∷ frames) ≡ to_gateway (frame ∷ []) ++ to_gateway frames
to_gateway_cons (store (ok (some body))) frames = refl
to_gateway_cons (store (ok none)) frames = refl
to_gateway_cons (store (err _)) frames = refl
to_gateway_cons (gateway _) frames = refl

abbrev passed : Session → RelayFrame → Session
passed s frame = record s {
  output = s.output ++ to_gateway (frame ∷ []);
  store_output = s.store_output ++ to_store (frame ∷ []);
}

relay_turn :
    (s : Session) (frame : RelayFrame)
    → s.negotiated ≡ true
    → IsRelayed frame
    → turn s frame ≡ continues (passed s frame)
unfolding turn gateway_body write_store write_output
relay_turn s (gateway (ok (some body))) n (request, short) =
    rw (request.decoded, gateway_body, n, request.no_hello, write_store, short, append-nil s.output)
      refl
relay_turn s (store (ok (some body))) n short =
    rw (write_output, short, append-nil s.store_output) refl
relay_turn s (gateway (ok none)) n h = absurd h
relay_turn s (gateway (err _)) n h = absurd h
relay_turn s (store (ok none)) n h = absurd h
relay_turn s (store (err _)) n h = absurd h

-- In a negotiated session the relay is transparent: the requests from the gateway go to the store and
-- the bodies of the store to the gateway, all of them, unchanged and in their orders.
pub run-relayed :
    (s : Session) (frames : List RelayFrame)
    → s.negotiated ≡ true
    → All IsRelayed frames
    → run s frames
      ≡ continues (record s {
        output = s.output ++ to_gateway frames;
        store_output = s.store_output ++ to_store frames;
      })
unfolding run
run-relayed s [] n h = rw (append-nil s.output, append-nil s.store_output) refl
run-relayed s (frame ∷ frames) n h =
    let later = run-relayed (passed s frame) frames n h.1 in
    rw (run, relay_turn s frame n h.0)
      (later ∙ ap₂ (λ o p. continues (record s { output = o; store_output = p })) out out_store)
  where
    out :
        (s.output ++ to_gateway (frame ∷ [])) ++ to_gateway frames
        ≡ s.output ++ to_gateway (frame ∷ frames)
    out =
        append_assoc s.output (to_gateway (frame ∷ [])) (to_gateway frames)
        ∙ ap (λ x. s.output ++ x) (sym (to_gateway_cons frame frames))

    out_store :
        (s.store_output ++ to_store (frame ∷ [])) ++ to_store frames
        ≡ s.store_output ++ to_store (frame ∷ frames)
    out_store =
        append_assoc s.store_output (to_store (frame ∷ [])) (to_store frames)
        ∙ ap (λ x. s.store_output ++ x) (sym (to_store_cons frame frames))
