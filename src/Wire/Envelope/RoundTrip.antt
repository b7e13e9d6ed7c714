-- ===== src/Wire/Envelope/RoundTrip.antt =====
-- Envelopes of crates/renee-wire/src/lib.rs, encoded and decoded, in both orders.
use mathlib.Core.Path.{subst}
use renee.Prelude.{
  ℕ, ◌+◌, ◌≤◌, ◌<◌, ◌^◌, ◌≡◌, refl, sym, ltb, false, Bool-cases, inl, inr, if◌then◌else◌, length,
  length-append, take, drop, drop-append, [], ◌++◌, append_assoc, All-append, ok, err, arith,
}
use renee.Bytes.{Bytes, IsByte, IsBytes, to_be, from_be, bytes_eq}
use renee.Bytes.Words.{
  length-to_be, from_be-to_be, to_be-from_be, from_be-lt, bytes_eq_refl, bytes_eq_iff,
}
use renee.Types.{IsArray}
use renee.Wire.Limits.{max_body_length, envelope_header_length, max_application_payload_length}
use renee.Wire.Slices.{get_range-append, split_at}
use renee.Wire.Envelope.{
  Envelope, invalid_magic, magic, encode_body, decode_body, copy_array, has_magic,
}

copy_array_at :
    (pre mid post : Bytes) (offset n : ℕ)
    → length pre ≡ offset
    → length mid ≡ n
    → copy_array n (pre ++ (mid ++ post)) offset ≡ ok mid
unfolding copy_array
copy_array_at pre mid post offset n p q = cc (get_range-append pre mid post offset n p q)

-- A body by its five fields.
abbrev assemble : Bytes → Bytes → Bytes → Bytes → Bytes → Bytes
assemble m v t c p = m ++ (v ++ (t ++ (c ++ p)))

abbrev header : Bytes → Bytes → Bytes → Bytes → Envelope
header v t c p = record {
  correlation_id = c;
  message_type = from_be t;
  payload = p;
  version = from_be v;
}

module _ (m v t c p : Bytes) (hm : length m ≡ 4) (hv : length v ≡ 2) (ht : length t ≡ 2)
    (hc : length c ≡ 16) (fits : length p ≤ max_application_payload_length) where
  length-parts : length (assemble m v t c p) ≡ 24 + length p
  length-parts = omega (
    arith,
    length-append m (v ++ (t ++ (c ++ p))),
    length-append v (t ++ (c ++ p)),
    length-append t (c ++ p),
    length-append c p,
  )

  version_at : copy_array 2 (assemble m v t c p) 4 ≡ ok v
  version_at = copy_array_at m v (t ++ (c ++ p)) 4 2 hm hv

  type_at : copy_array 2 (assemble m v t c p) 6 ≡ ok t
  type_at =
      rw append_assoc at
        (copy_array_at (m ++ v) t (c ++ p) 6 2 (omega (arith, length-append m v)) ht)

  correlation_at : copy_array 16 (assemble m v t c p) 8 ≡ ok c
  correlation_at =
      rw (append_assoc, append_assoc) at
        (copy_array_at ((m ++ v) ++ t) c p 8 16
          (omega (arith, length-append (m ++ v) t, length-append m v)) hc)

  payload_at : drop 24 (assemble m v t c p) ≡ p
  payload_at =
      rw (append_assoc, append_assoc, append_assoc) at
        (drop-append (((m ++ v) ++ t) ++ c) p 24 (
          omega (
            arith,
            length-append ((m ++ v) ++ t) c,
            length-append (m ++ v) t,
            length-append m v,
            hm,
            hv,
            ht,
            hc,
          )))

  magic_at : has_magic (assemble m v t c p) ≡ bytes_eq m magic
  magic_at = rw (has_magic, get_range-append [] m (v ++ (t ++ (c ++ p))) 0 4 refl hm)

  decode_parts :
      decode_body (assemble m v t c p)
      ≡ (if bytes_eq m magic then ok (header v t c p) else err invalid_magic)
  unfolding decode_body
  decode_parts =
      let long : ltb max_body_length (length (assemble m v t c p)) ≡ false =
        ground (arith, length-parts) in
      let short : ltb (length (assemble m v t c p)) envelope_header_length ≡ false =
        ground (arith, length-parts) in
      rw (long, short, magic_at, version_at, type_at, correlation_at, payload_at)
        (elim (Bool-cases (bytes_eq m magic)) [ inl e ↦ rw e | inr e ↦ rw e ])

-- What the types of an envelope's fields promise.
pub record IsEnvelope (e : Envelope) : Type 0 where
  pub correlation_id : IsArray 16 e.correlation_id
  pub message_type : e.message_type < 2 ^ 16
  pub payload : IsBytes e.payload
  pub version : e.version < 2 ^ 16

-- An envelope whose fields have their lengths and whose payload is at most 4,072 bytes is encoded,
-- to at most 4,096 bytes, and decoded as it was.
decode-encode_body :
    (e : Envelope)
    → IsEnvelope e
    → length e.payload ≤ max_application_payload_length
    → (bs : Bytes) × (encode_body e ≡ ok bs)
      × (length bs ≤ max_body_length)
      × (decode_body bs ≡ ok e)
unfolding encode_body
decode-encode_body e v fits =
    let version = to_be 2 e.version in
    let message_type = to_be 2 e.message_type in
    let hv = length-to_be 2 e.version in
    let ht = length-to_be 2 e.message_type in
    let decoded =
      decode_parts magic version message_type e.correlation_id e.payload refl hv ht
        v.correlation_id.0 fits in
    (
      assemble magic version message_type e.correlation_id e.payload,
      ground arith,
      omega (
        arith,
        length-parts magic version message_type e.correlation_id e.payload refl hv ht
            v.correlation_id.0 fits,
      ),
      rw
          (
            bytes_eq_refl magic,
            from_be-to_be 2 e.version v.version,
            from_be-to_be 2 e.message_type v.message_type,
          )
          at decoded,
    )

assembled_canonical :
    (m v t c p : Bytes) (e : Envelope)
    → length m ≡ 4
    → length v ≡ 2
    → length t ≡ 2
    → length c ≡ 16
    → length p ≤ max_application_payload_length
    → IsBytes (assemble m v t c p)
    → decode_body (assemble m v t c p) ≡ ok e
    → (encode_body e ≡ ok (assemble m v t c p)) × IsEnvelope e
unfolding encode_body
assembled_canonical m v t c p e hm hv ht hc fits bytes h = elim (Bool-cases (bytes_eq m magic)) [
  | inr other ↦ absurd (ground (arith, decode_parts m v t c p hm hv ht hc fits))
  | inl same ↦
      let is_magic : m ≡ magic = (bytes_eq_iff m magic).0 same in
      let is_header : header v t c p ≡ e =
        ground (arith, decode_parts m v t c p hm hv ht hc fits) in
      let tail = (All-append IsByte m _ bytes).1 in
      let vs = All-append IsByte v _ tail in
      let ts = All-append IsByte t _ vs.1 in
      let cs = All-append IsByte c p ts.1 in
      let version : to_be 2 (from_be v) ≡ v = rw hv at (to_be-from_be v vs.0) in
      let kind : to_be 2 (from_be t) ≡ t = rw ht at (to_be-from_be t ts.0) in
      rw (← is_header, is_magic)
        (
          rw (version, kind) (ground arith),
          record {
            correlation_id = (hc, cs.0);
            message_type = rw ht at (from_be-lt t ts.0);
            payload = cs.1;
            version = rw hv at (from_be-lt v vs.0);
          },
        )
]

decode_body-length :
    (bs : Bytes) (e : Envelope)
    → decode_body bs ≡ ok e
    → (envelope_header_length ≤ length bs) × (length bs ≤ max_body_length)
unfolding decode_body
decode_body-length bs e h = ground arith

-- A body that is decoded is the encoding of its envelope, whose fields have their lengths.
pub body_canonical :
    (bs : Bytes) (e : Envelope)
    → IsBytes bs
    → decode_body bs ≡ ok e
    → (encode_body e ≡ ok bs) × IsEnvelope e
body_canonical bs e bytes h =
    let (long, short) = decode_body-length bs e h in
    let a = split_at 4 bs (omega arith) in
    let b = split_at 2 (drop 4 bs) (omega arith) in
    let c = split_at 2 (drop 2 (drop 4 bs)) (omega arith) in
    let d = split_at 16 (drop 2 (drop 2 (drop 4 bs))) (omega arith) in
    let whole : assemble (take 4 bs) (take 2 (drop 4 bs)) (take 2 (drop 2 (drop 4 bs)))
          (take 16 (drop 2 (drop 2 (drop 4 bs)))) (drop 16 (drop 2 (drop 2 (drop 4 bs))))
        ≡ bs =
      rw (d.2, c.2, b.2) a.2 in
    subst (λ x. (encode_body e ≡ ok x) × IsEnvelope e) whole
      (assembled_canonical _ _ _ _ _ e a.0 b.0 c.0 d.0 (omega arith)
        (subst IsBytes (sym whole) bytes) (subst (λ x. decode_body x ≡ ok e) (sym whole) h))
