-- ===== src/Wire/Update/Requests/RoundTrip.antt =====
-- Requests of crates/renee-wire/src/update.rs, encoded and then decoded.
use renee.Prelude.{ℕ, ◌<◌, ◌≡◌, refl, ◌++◌, [], ◌∷◌, ok, arith}
use renee.Bytes.{Bytes, to_be, to_le}
use renee.Types.{IsArray, identifier_length}
use renee.Wire.Decoder.{take_word}
use renee.Wire.Decoder.Reads.{take-append_ok, take_ok, take_word_ok, complete_ok}
use renee.Wire.Capability.{CapabilityAuthority, IsAuthority, encode_authority}
use renee.Wire.Update.{
  truncated, trailing_bytes, EnumerateStart, start_origin, continue, after_tail, EnumerateRequest,
  FetchRequest, enumeration_continuation_length, take_array,
}
use renee.Wire.Update.Subscriptions.RoundTrip.{take_authority_ok}
use renee.Wire.Update.Requests.{
  take_start, take_enumerate_request, encode_enumerate_request, decode_enumerate_request,
  take_fetch_request, encode_fetch_request, decode_fetch_request,
}

-- A cursor is one of the broker's: 32 bytes.
abbrev pub IsStart : EnumerateStart → Type 0
IsStart start_origin = Unit
IsStart (continue cursor) = IsArray enumeration_continuation_length cursor
IsStart (after_tail cursor) = IsArray enumeration_continuation_length cursor

to_be_byte : (b : ℕ) → b < 256 → to_be 1 b ≡ b ∷ []
unfolding to_be to_le
to_be_byte b h = ground arith

pub take_byte_ok :
    (b : ℕ) (rest : Bytes) → b < 256 → take_word truncated 1 (b ∷ rest) ≡ ok (b, rest)
take_byte_ok b rest h = rw (to_be_byte b h) at (take_word_ok truncated 1 b rest h)

enumerate_at :
    (a : CapabilityAuthority) (d : Bytes) (start : EnumerateStart)
    → IsAuthority a
    → IsArray identifier_length d
    → IsStart start
    → (bs : Bytes) × (encode_enumerate_request
          (record { authority = a; document_id = d; start = start })
        ≡ ok bs)
      × (decode_enumerate_request bs
          ≡ ok (record { authority = a; document_id = d; start = start }))
unfolding encode_enumerate_request decode_enumerate_request take_array take_start
enumerate_at a d start_origin va vd vs = (
  _,
  refl,
  complete_ok trailing_bytes take_enumerate_request _ (
      cc (
        take_authority_ok a (d ++ (0 ∷ (to_be 2 0 ++ []))) va,
        take-append_ok truncated identifier_length d (0 ∷ (to_be 2 0 ++ [])) vd.0,
        take_byte_ok 0 (to_be 2 0 ++ []) (omega arith),
        take_word_ok truncated 2 0 [] (omega arith),
      )),
)
enumerate_at a d (continue c) va vd vs = (
  encode_authority a ++ (d ++ (1 ∷ (to_be 2 32 ++ c))),
  ground (arith, vs.0),
  complete_ok trailing_bytes take_enumerate_request _ (
      cc (
        take_authority_ok a (d ++ (1 ∷ (to_be 2 32 ++ c))) va,
        take-append_ok truncated identifier_length d (1 ∷ (to_be 2 32 ++ c)) vd.0,
        take_byte_ok 1 (to_be 2 32 ++ c) (omega arith),
        take_word_ok truncated 2 32 c (omega arith),
        take_ok truncated 32 c vs.0,
      )),
)
enumerate_at a d (after_tail c) va vd vs = (
  encode_authority a ++ (d ++ (2 ∷ (to_be 2 32 ++ c))),
  ground (arith, vs.0),
  complete_ok trailing_bytes take_enumerate_request _ (
      cc (
        take_authority_ok a (d ++ (2 ∷ (to_be 2 32 ++ c))) va,
        take-append_ok truncated identifier_length d (2 ∷ (to_be 2 32 ++ c)) vd.0,
        take_byte_ok 2 (to_be 2 32 ++ c) (omega arith),
        take_word_ok truncated 2 32 c (omega arith),
        take_ok truncated 32 c vs.0,
      )),
)

-- An enumeration request whose identifiers and secret have their lengths, and whose cursor, if it
-- has one, is 32 bytes long, is encoded, and decoded as it was.
decode-encode_enumerate_request :
    (r : EnumerateRequest)
    → IsAuthority r.authority
    → IsArray identifier_length r.document_id
    → IsStart r.start
    → (bs : Bytes) × (encode_enumerate_request r ≡ ok bs) × (decode_enumerate_request bs ≡ ok r)
decode-encode_enumerate_request r a d s = enumerate_at r.authority r.document_id r.start a d s

-- A fetch request whose identifiers and authority have their lengths is decoded as it was.
decode-encode_fetch_request :
    (r : FetchRequest)
    → IsAuthority r.authority
    → IsArray identifier_length r.document_id
    → IsArray identifier_length r.update_id
    → decode_fetch_request (encode_fetch_request r) ≡ ok r
unfolding decode_fetch_request encode_fetch_request take_array
decode-encode_fetch_request r a d u = complete_ok trailing_bytes take_fetch_request _ (
    cc (
      take_authority_ok r.authority (r.document_id ++ r.update_id) a,
      take-append_ok truncated identifier_length r.document_id r.update_id d.0,
      take_ok truncated identifier_length r.update_id u.0,
    ))
