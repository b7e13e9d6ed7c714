-- ===== src/Wire/Frame.antt =====
-- crates/renee-wire/src/lib.rs: length-delimited frames on a byte stream. A stream is the list of
-- the bytes that arrive before its end; a read returns what it leaves of them.
pub mod Stream
use renee.Prelude.{
  ℕ, ◌^◌, ltb, leb, if◌then◌else◌, length, Option, none, some, [], ◌∷◌, ◌++◌, Result, ok, err,
}
use renee.Bytes.{Bytes, to_be, from_be}
use renee.Wire.Limits.{max_body_length}
use renee.Wire.Decoder
use renee.Wire.Decoder.{Decoding, pure, check, ◌>>=◌, ◌>>◌}
use renee.Wire.Envelope.{
  Envelope, IoError, invalid_input, invalid_data, unexpected_eof, encode_body,
}

-- `u32::try_from(body.len())`, then the prefix and the body.
unfoldable pub prefixed : Bytes → Result IoError Bytes
prefixed body =
    if ltb (length body) (2 ^ 32) then ok (to_be 4 (length body) ++ body) else err invalid_input

unfoldable pub encode_frame : Envelope → Result IoError Bytes
unfolding prefixed
encode_frame e = elim (encode_body e) [ err f ↦ err f | ok body ↦ prefixed body ]

unfoldable pub write_body : Bytes → Result IoError Bytes
unfolding prefixed
write_body body = if ltb max_body_length (length body) then err invalid_input else prefixed body

-- `read_exact`: the next `n` bytes, or an end of the stream that comes too early.
unfoldable pub read_exact : ℕ → Decoding IoError Bytes
read_exact n = Decoder.take unexpected_eof n

-- The body behind the prefix whose first byte is `b`.
read_rest : ℕ → Decoding IoError (Option Bytes)
read_rest b = do
  remaining_prefix ← read_exact 3
  let n = from_be (b ∷ remaining_prefix)
  check (leb n max_body_length) invalid_data
  body ← read_exact n
  pure (some body)

-- `read_body`: nothing at the end of the stream, else one bounded body.
unfoldable pub read_body : Decoding IoError (Option Bytes)
unfolding read_rest read_exact
read_body [] = ok (none, [])
read_body (b ∷ bs) = read_rest b bs
