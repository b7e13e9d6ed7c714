-- ===== src/Wire/Frame/Stream.antt =====
-- Frames of crates/renee-wire/src/lib.rs on a stream.
use renee.Prelude.{
  ℕ, ◌+◌, ◌≤◌, ◌≡◌, sym, true, leb, length, length-append, some, [], ◌∷◌, ◌++◌, append_assoc, ok,
  arith,
}
use renee.Bytes.{Bytes, to_be, from_be}
use renee.Bytes.Words.{length-to_be, from_be-to_be}
use renee.Wire.Limits.{max_body_length}
use renee.Wire.Decoder.Reads.{take-append_ok}
use renee.Wire.Envelope.{unexpected_eof}
use renee.Wire.Frame.{write_body, read_exact, read_rest, read_body}

read_rest_ok :
    (b : ℕ) (ps body rest : Bytes)
    → length ps ≡ 3
    → from_be (b ∷ ps) ≡ length body
    → length body ≤ max_body_length
    → read_rest b (ps ++ (body ++ rest)) ≡ ok (some body, rest)
unfolding read_rest read_exact
read_rest_ok b ps body rest h e fits =
    let room : leb (from_be (b ∷ ps)) max_body_length ≡ true = ground arith in
    cc (
      take-append_ok unexpected_eof 3 ps (body ++ rest) h,
      room,
      take-append_ok unexpected_eof (from_be (b ∷ ps)) body rest (sym e),
    )

prefix_read :
    (p body rest : Bytes)
    → length p ≡ 4
    → from_be p ≡ length body
    → length body ≤ max_body_length
    → read_body (p ++ (body ++ rest)) ≡ ok (some body, rest)
unfolding read_body
prefix_read [] body rest h e fits = absurd (omega arith)
prefix_read (b ∷ ps) body rest h e fits = read_rest_ok b ps body rest (omega arith) e fits

-- A body within the limit is written as one frame of four more bytes, and read back whole, leaving
-- exactly what follows the frame.
pub read_body-write_body :
    (body rest : Bytes)
    → length body ≤ max_body_length
    → (frame : Bytes) × (write_body body ≡ ok frame)
      × (length frame ≡ length body + 4)
      × (read_body (frame ++ rest) ≡ ok (some body, rest))
unfolding write_body
read_body-write_body body rest fits =
    let p = to_be 4 (length body) in
    (
      p ++ body,
      ground arith,
      omega (arith, length-append p body, length-to_be 4 (length body)),
      rw append_assoc (
          prefix_read p body rest (length-to_be 4 (length body))
            (from_be-to_be 4 (length body) (omega arith)) fits),
    )
