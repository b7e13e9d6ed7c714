-- ===== src/Wire/Envelope.antt =====
-- crates/renee-wire/src/lib.rs: the envelope, `encode_body` and `decode_body`.
pub mod RoundTrip
use renee.Prelude.{
  ℕ, ◌+◌, not, Bool, false, ltb, if◌then◌else◌, length, drop, Option, none, some, [], ◌∷◌, ◌++◌,
  Result, ok, err,
}
use renee.Bytes.{Bytes, to_be, from_be, bytes_eq}
use renee.Wire.Limits.{max_body_length, envelope_header_length}
use renee.Wire.Slices.{get_range}

-- The bytes of `RNE0`.
abbrev pub magic : Bytes
magic = b'R' ∷ b'N' ∷ b'E' ∷ b'0' ∷ []

abbrev pub version_0 : ℕ
version_0 = 0

abbrev pub client_hello : ℕ
client_hello = 1

abbrev pub server_hello : ℕ
server_hello = 2

abbrev pub protocol_error : ℕ
protocol_error = 3

pub record Envelope : Type 0 where
  pub correlation_id : Bytes
  pub message_type : ℕ
  pub payload : Bytes
  pub version : ℕ

pub data DecodeError : Type 0 where
  too_long truncated invalid_magic : DecodeError

-- The kinds of `io::Error` that the framing makes.
pub data IoError : Type 0 where
  invalid_input invalid_data unexpected_eof : IoError

unfoldable pub encode_body : Envelope → Result IoError Bytes
encode_body e =
    if ltb max_body_length (envelope_header_length + length e.payload)
    then err invalid_input
    else ok (
        magic ++ (to_be 2 e.version ++ (to_be 2 e.message_type ++ (e.correlation_id ++ e.payload))))

-- `copy_array`: the `n` bytes at `offset`.
unfoldable pub copy_array : ℕ → Bytes → ℕ → Result DecodeError Bytes
copy_array n body offset = elim (get_range offset (offset + n) body) [
  | none ↦ err truncated
  | some bs ↦ ok bs
]

infixl 5 ◌>>=◌
abbrev ◌>>=◌ {ℓ κ} :
    {A : Type ℓ} {B : Type κ}
    → Result DecodeError A
    → (A → Result DecodeError B)
    → Result DecodeError B
ok a >>= f = f a
err e >>= f = err e

-- `body.get(..4) != Some(MAGIC)`.
abbrev has_magic : Bytes → Bool
has_magic body = elim (get_range 0 4 body) [ none ↦ false | some bs ↦ bytes_eq bs magic ]

unfoldable pub decode_body : Bytes → Result DecodeError Envelope
unfolding copy_array
decode_body body =
    if ltb max_body_length (length body)
    then err too_long
    else if ltb (length body) envelope_header_length
    then err truncated
    else if not (has_magic body)
    then err invalid_magic
    else do
      version ← copy_array 2 body 4
      message_type ← copy_array 2 body 6
      correlation_id ← copy_array 16 body 8
      ok (record {
        correlation_id = correlation_id;
        message_type = from_be message_type;
        payload = drop envelope_header_length body;
        version = from_be version;
      })
