-- ===== src/Wire/Greeting.antt =====
-- crates/renee-wire/src/lib.rs: the greeting that hello messages carry, two text fields with
-- lengths. A `str` is its bytes, which are valid UTF-8.
pub mod RoundTrip
use renee.Prelude.{
  ℕ, ◌+◌, ◌^◌, Bool, true, false, ◌&&◌, ltb, leb, ◌==◌, if◌then◌else◌, length, Option, none, some,
  List, [], ◌∷◌, ◌++◌, Result, ok, err,
}
use renee.Bytes.{Bytes, to_be, from_be}
use renee.Wire.Limits.{max_greeting_field_length}
use renee.Wire.Slices.{get_range}
use renee.Wire.Envelope.{IoError, invalid_input}

pub record Greeting : Type 0 where
  pub banner : Bytes
  pub profile : Bytes

pub data GreetingDecodeError : Type 0 where
  truncated field_too_long trailing_bytes invalid_utf8 : GreetingDecodeError

-- The ranges of the bytes that may follow the first byte of a character, in `str::from_utf8`.
utf8_tail : ℕ → Option (List (ℕ × ℕ))
utf8_tail b =
    let any : ℕ × ℕ = (0x80, 0xbf) in
    if ltb b 0x80
    then some []
    else if leb 0xc2 b && leb b 0xdf
    then some (any ∷ [])
    else if b == 0xe0
    then some ((0xa0, 0xbf) ∷ any ∷ [])
    else if b == 0xed
    then some ((0x80, 0x9f) ∷ any ∷ [])
    else if leb 0xe1 b && leb b 0xef
    then some (any ∷ any ∷ [])
    else if b == 0xf0
    then some ((0x90, 0xbf) ∷ any ∷ any ∷ [])
    else if leb 0xf1 b && leb b 0xf3
    then some (any ∷ any ∷ any ∷ [])
    else if b == 0xf4
    then some ((0x80, 0x8f) ∷ any ∷ any ∷ [])
    else none

-- `pending` are the ranges that the character in progress still asks for.
utf8_from : List (ℕ × ℕ) → Bytes → Bool
utf8_from [] [] = true
utf8_from (p ∷ pending) [] = false
utf8_from ((lo, hi) ∷ pending) (b ∷ bs) = leb lo b && leb b hi && utf8_from pending bs
utf8_from [] (b ∷ bs) = elim (utf8_tail b) [ none ↦ false | some pending ↦ utf8_from pending bs ]

-- `str::from_utf8(bs).is_ok()`.
unfoldable pub is_utf8 : Bytes → Bool
unfolding utf8_from utf8_tail
is_utf8 bs = utf8_from [] bs

unfoldable pub append_greeting_field : Bytes → Bytes → Result IoError Bytes
append_greeting_field payload field =
    if ltb max_greeting_field_length (length field)
    then err invalid_input
    else if ltb (length field) (2 ^ 16)
    then ok (payload ++ (to_be 2 (length field) ++ field))
    else err invalid_input

unfoldable pub encode_greeting : Bytes → Bytes → Result IoError Bytes
unfolding append_greeting_field
encode_greeting profile banner = elim (append_greeting_field [] profile) [
  | err e ↦ err e
  | ok payload ↦ append_greeting_field payload banner
]

infixl 5 ◌>>=◌ ◌>>◌
abbrev ◌>>=◌ :
    {A B : Type 0}
    → Result GreetingDecodeError A
    → (A → Result GreetingDecodeError B)
    → Result GreetingDecodeError B
ok a >>= f = f a
err e >>= f = err e

abbrev ◌>>◌ :
    {B : Type 0}
    → Result GreetingDecodeError (Unit {0})
    → Result GreetingDecodeError B
    → Result GreetingDecodeError B
m >> k = m >>= λ _. k

abbrev check : Bool → GreetingDecodeError → Result GreetingDecodeError (Unit {0})
check true e = ok tt
check false e = err e

abbrev or_truncated : Option Bytes → Result GreetingDecodeError Bytes
or_truncated none = err truncated
or_truncated (some bs) = ok bs

-- The field at `offset`, and the offset behind it.
unfoldable pub decode_greeting_field : Bytes → ℕ → Result GreetingDecodeError (Bytes × ℕ)
decode_greeting_field payload offset = do
  length_bytes ← or_truncated (get_range offset (offset + 2) payload)
  let n = from_be length_bytes
  check (leb n max_greeting_field_length) field_too_long
  field ← or_truncated (get_range (offset + 2) (offset + 2 + n) payload)
  check (is_utf8 field) invalid_utf8
  ok (field, offset + 2 + n)

unfoldable pub decode_greeting : Bytes → Result GreetingDecodeError Greeting
decode_greeting payload = do
  (profile, after_profile) ← decode_greeting_field payload 0
  (banner, after_banner) ← decode_greeting_field payload after_profile
  check (after_banner == length payload) trailing_bytes
  ok (record { banner = banner; profile = profile })
