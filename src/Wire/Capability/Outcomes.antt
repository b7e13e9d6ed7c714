-- ===== src/Wire/Capability/Outcomes.antt =====
-- crates/renee-wire/src/capability.rs: the one-byte responses and errors.
use renee.Prelude.{◌≡◌, ◌↔◌, ◌==◌, if◌then◌else◌, [], ◌∷◌, Result, ok, err, arith}
use renee.Bytes.{Bytes}
use renee.Wire.Capability.{CapabilityCodecError, trailing_bytes, invalid_discriminant}

pub data CreateDocumentOutcome : Type 0 where
  inserted already_present : CreateDocumentOutcome

pub data ControlMutationOutcome : Type 0 where
  inserted already_present : ControlMutationOutcome

pub data CapabilityErrorCode : Type 0 where
  malformed authorization_denied identifier_conflict request_conflict : CapabilityErrorCode
  counter_exhausted limit_exceeded : CapabilityErrorCode

unfoldable pub encode_create_document_response : CreateDocumentOutcome → Bytes
encode_create_document_response CreateDocumentOutcome.inserted = 0 ∷ []
encode_create_document_response CreateDocumentOutcome.already_present = 1 ∷ []

unfoldable pub decode_create_document_response :
    Bytes → Result CapabilityCodecError CreateDocumentOutcome
decode_create_document_response (b ∷ []) =
    if b == 0
    then ok CreateDocumentOutcome.inserted
    else if b == 1
    then ok CreateDocumentOutcome.already_present
    else err invalid_discriminant
decode_create_document_response _ = err trailing_bytes

unfoldable pub encode_control_mutation_response : ControlMutationOutcome → Bytes
encode_control_mutation_response ControlMutationOutcome.inserted = 0 ∷ []
encode_control_mutation_response ControlMutationOutcome.already_present = 1 ∷ []

unfoldable pub decode_control_mutation_response :
    Bytes → Result CapabilityCodecError ControlMutationOutcome
decode_control_mutation_response (b ∷ []) =
    if b == 0
    then ok ControlMutationOutcome.inserted
    else if b == 1
    then ok ControlMutationOutcome.already_present
    else err invalid_discriminant
decode_control_mutation_response _ = err trailing_bytes

unfoldable pub encode_capability_error : CapabilityErrorCode → Bytes
encode_capability_error malformed = 0 ∷ []
encode_capability_error authorization_denied = 1 ∷ []
encode_capability_error identifier_conflict = 2 ∷ []
encode_capability_error request_conflict = 3 ∷ []
encode_capability_error counter_exhausted = 4 ∷ []
encode_capability_error limit_exceeded = 5 ∷ []

unfoldable pub decode_capability_error : Bytes → Result CapabilityCodecError CapabilityErrorCode
decode_capability_error (b ∷ []) =
    if b == 0
    then ok malformed
    else if b == 1
    then ok authorization_denied
    else if b == 2
    then ok identifier_conflict
    else if b == 3
    then ok request_conflict
    else if b == 4
    then ok counter_exhausted
    else if b == 5
    then ok limit_exceeded
    else err invalid_discriminant
decode_capability_error _ = err trailing_bytes

module _ (bs : Bytes) where
  -- A create response is decoded from its own byte and from nothing else.
  decode_create_document_response_iff :
      (o : CreateDocumentOutcome)
      → (decode_create_document_response bs ≡ ok o) ↔ (bs ≡ encode_create_document_response o)
  unfolding decode_create_document_response encode_create_document_response
  decode_create_document_response_iff CreateDocumentOutcome.inserted = ground arith
  decode_create_document_response_iff CreateDocumentOutcome.already_present = ground arith

  -- A control response is decoded from its own byte and from nothing else.
  decode_control_mutation_response_iff :
      (o : ControlMutationOutcome)
      → (decode_control_mutation_response bs ≡ ok o) ↔ (bs ≡ encode_control_mutation_response o)
  unfolding decode_control_mutation_response encode_control_mutation_response
  decode_control_mutation_response_iff ControlMutationOutcome.inserted = ground arith
  decode_control_mutation_response_iff ControlMutationOutcome.already_present = ground arith

  -- A capability error is decoded from its own byte, and from no other payload.
  decode_capability_error_iff :
      (c : CapabilityErrorCode)
      → (decode_capability_error bs ≡ ok c) ↔ (bs ≡ encode_capability_error c)
  unfolding decode_capability_error encode_capability_error
  decode_capability_error_iff malformed = ground arith
  decode_capability_error_iff _ = ground arith
