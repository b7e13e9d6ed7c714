-- ===== src/Wire/Limits.antt =====
-- crates/renee-wire/src/lib.rs: the limits that the codecs share.
use renee.Prelude.{ℕ, ◌+◌, ◌-◌}

abbrev pub max_body_length : ℕ
max_body_length = 4096

abbrev pub envelope_header_length : ℕ
envelope_header_length = 24

abbrev pub max_application_payload_length : ℕ
max_application_payload_length = max_body_length - envelope_header_length

abbrev pub capability_authority_length : ℕ
capability_authority_length = 16 + 32

abbrev pub max_update_record_length : ℕ
max_update_record_length = max_application_payload_length - capability_authority_length

abbrev pub max_greeting_field_length : ℕ
max_greeting_field_length = 256
