-- ===== src/Wire/Greeting/RoundTrip.antt =====
-- Greetings of crates/renee-wire/src/lib.rs, encoded and then decoded.
use renee.Prelude.{
  ℕ, ◌+◌, ◌≤◌, ◌≡◌, refl, true, leb, ◌==◌, length, length-append, [], ◌++◌, append_assoc,
  append-nil, ok, arith,
}
use renee.Bytes.{Bytes, to_be, from_be}
use renee.Bytes.Words.{length-to_be, from_be-to_be}
use renee.Wire.Limits.{max_greeting_field_length}
use renee.Wire.Slices.{get_range-append}
use renee.Wire.Greeting.{is_utf8, encode_greeting, decode_greeting_field, decode_greeting}

abbrev field_bytes : Bytes → Bytes
field_bytes f = to_be 2 (length f) ++ f

-- A field that `append_greeting_field` takes and `str` allows.
pub record IsField (f : Bytes) : Type 0 where
  pub short : length f ≤ max_greeting_field_length
  pub text : is_utf8 f ≡ true

length-field_bytes : (f : Bytes) → length (field_bytes f) ≡ length f + 2
length-field_bytes f =
    omega (arith, length-append (to_be 2 (length f)) f, length-to_be 2 (length f))

field_at :
    (pre f post : Bytes) (offset : ℕ)
    → length pre ≡ offset
    → IsField f
    → decode_greeting_field (pre ++ (field_bytes f ++ post)) offset ≡ ok (f, offset + 2 + length f)
unfolding decode_greeting_field
field_at pre f post offset h v =
    let size = to_be 2 (length f) in
    let hs = length-to_be 2 (length f) in
    let at = get_range-append pre size (f ++ post) offset 2 h hs in
    let read : from_be size ≡ length f = from_be-to_be 2 (length f) (omega (arith, v.short)) in
    let room : leb (from_be size) max_greeting_field_length ≡ true = ground (arith, v.short) in
    let field =
      get_range-append (pre ++ size) f post (offset + 2) (length f)
        (omega (arith, length-append pre size)) refl in
    rw append_assoc (cc (at, read, room, rw append_assoc at field, v.text))

-- Two fields of text of at most 256 bytes each are encoded, and decoded as they were.
decode-encode_greeting :
    (profile banner : Bytes)
    → IsField profile
    → IsField banner
    → (bs : Bytes) × (encode_greeting profile banner ≡ ok bs)
      × (decode_greeting bs ≡ ok (record { banner = banner; profile = profile }))
unfolding encode_greeting decode_greeting
decode-encode_greeting profile banner vp vb =
    let whole = field_bytes profile ++ field_bytes banner in
    let first = field_at [] profile (field_bytes banner) 0 refl vp in
    let second = rw append-nil at (
      field_at (field_bytes profile) banner [] (0 + 2 + length profile)
        (omega (arith, length-field_bytes profile)) vb) in
    let end : ((0 + 2 + length profile + 2 + length banner) == length whole) ≡ true = ground (
      arith,
      length-append (field_bytes profile) (field_bytes banner),
      length-field_bytes profile,
      length-field_bytes banner,
    ) in
    (whole, ground (arith, vp.short, vb.short), cc (first, second, end))
