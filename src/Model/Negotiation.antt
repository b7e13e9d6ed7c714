-- ===== src/Model/Negotiation.antt =====
-- crates/renee-model/src/lib.rs: `NegotiationModel`. A text is its bytes.
use renee.Prelude.{ℕ, not, ◌==◌, if◌then◌else◌}
use renee.Bytes.{Bytes, bytes_eq}
use renee.Texts.{ascii}

pub data NegotiationState : Type 0 where
  awaiting_hello ready : NegotiationState

pub record ClientHello : Type 0 where
  pub banner : Bytes
  pub profile : Bytes
  pub version : ℕ

pub data NegotiationOutcome : Type 0 where
  selected : Bytes → NegotiationOutcome
  unsupported_version unsupported_profile already_negotiated : NegotiationOutcome

-- "renee-experimental-v0"
abbrev pub experimental_profile : Bytes
experimental_profile = ascii "renee-experimental-v0"

-- "I've been expecting you"
abbrev pub renee_banner : Bytes
renee_banner = ascii "I've been expecting you"

-- `hello`: the outcome, and the state that the call leaves.
unfoldable pub hello : NegotiationState → ClientHello → NegotiationOutcome × NegotiationState
hello ready h = (already_negotiated, ready)
hello awaiting_hello h =
    if not (h.version == 0)
    then (unsupported_version, awaiting_hello)
    else if not (bytes_eq h.profile experimental_profile)
    then (unsupported_profile, awaiting_hello)
    else (selected renee_banner, ready)
