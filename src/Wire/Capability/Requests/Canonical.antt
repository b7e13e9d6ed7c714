-- ===== src/Wire/Capability/Requests/Canonical.antt =====
-- Requests of crates/renee-wire/src/capability.rs, decoded and then encoded.
use mathlib.Core.Path.{subst}
use renee.Prelude.{ℕ, ◌≡◌, append-nil, ok}
use renee.Bytes.{Bytes, IsBytes}
use renee.Types.{IsArray, identifier_length, secret_length}
use renee.Wire.Decoder.Consumes.{
  Consumes, Consumes-pure, Consumes-take, Consumes-take_word, Consumes-bind, Consumes-lift,
  complete-Consumes,
}
use renee.Wire.Capability.{
  CreateDocumentRequest, GrantCapabilityRequest, RevokeCapabilityRequest, truncated, trailing_bytes,
  encode_authority, encode_create_authority, take_array, take_authority, take_create_authority,
  IsAuthority, IsCreateAuthority,
}
use renee.Wire.Capability.Requests.{
  encode_create_document_request, take_create_document_request, decode_create_document_request,
  encode_grant_capability_request, take_grant_capability_request, decode_grant_capability_request,
  encode_revoke_capability_request, take_revoke_capability_request,
  decode_revoke_capability_request,
}
use renee.Wire.Capability.Requests.RoundTrip.{
  IsCreateDocumentRequest, IsGrantCapabilityRequest, IsRevokeCapabilityRequest, operations_of_iff,
}

Consumes-array : (n : ℕ) → Consumes (take_array n) (λ xs used. (used ≡ xs) × IsArray n xs)
unfolding take_array
Consumes-array n = record {
  reads = λ bs rest xs bytes h.
      let s = (Consumes-take truncated n).reads bs rest xs bytes h in
      record {
        used = s.used;
        splits = s.splits;
        used_bytes = s.used_bytes;
        rest_bytes = s.rest_bytes;
        holds = (s.holds.0, (s.holds.1, subst IsBytes s.holds.0 s.used_bytes));
      };
}

Consumes-authority : Consumes take_authority (λ a used. (used ≡ encode_authority a) × IsAuthority a)
unfolding take_authority encode_authority
Consumes-authority = Consumes-bind _ _ _ _ (Consumes-array identifier_length) λ i u _ hi.
    Consumes-bind _ _ _ _ (Consumes-array secret_length)
      λ s v _ hs. Consumes-pure _ _ (rw (hi.0, hs.0, append-nil), (hi.1, hs.1))

Consumes-IsCreateAuthority :
    Consumes take_create_authority
      (λ a used. (used ≡ encode_create_authority a) × IsCreateAuthority a)
unfolding take_create_authority encode_create_authority
Consumes-IsCreateAuthority = Consumes-bind _ _ _ _ (Consumes-array identifier_length) λ i u _ hi.
    Consumes-bind _ _ _ _ (Consumes-array secret_length)
      λ s v _ hs. Consumes-pure _ _ (rw (hi.0, hs.0, append-nil), (hi.1, hs.1))

Consumes-create_document :
    Consumes take_create_document_request
      (λ r used. (used ≡ encode_create_document_request r) × IsCreateDocumentRequest r)
unfolding take_create_document_request encode_create_document_request
Consumes-create_document = Consumes-bind _ _ _ _ Consumes-IsCreateAuthority λ a ua _ ha.
    Consumes-bind _ _ _ _ (Consumes-array identifier_length) λ q uq _ hq.
      Consumes-bind _ _ _ _ (Consumes-array identifier_length) λ d ud _ hd.
        Consumes-bind _ _ _ _ Consumes-authority λ r ur _ hr. Consumes-pure _ _ (
          rw (ha.0, hq.0, hd.0, hr.0, append-nil),
          record { create_authority = ha.1; request_id = hq.1; document_id = hd.1; root = hr.1 },
        )

Consumes-grant :
    Consumes take_grant_capability_request
      (λ r used. (used ≡ encode_grant_capability_request r) × IsGrantCapabilityRequest r)
unfolding take_grant_capability_request encode_grant_capability_request
Consumes-grant = Consumes-bind _ _ _ _ (Consumes-array identifier_length) λ d ud _ hd.
    Consumes-bind _ _ _ _ Consumes-authority λ i ui _ hi.
      Consumes-bind _ _ _ _ (Consumes-array identifier_length) λ q uq _ hq.
        Consumes-bind _ _ _ _ Consumes-authority λ e ue _ he.
          Consumes-bind _ _ _ _ (Consumes-take_word truncated 2) λ b ub _ hb.
            Consumes-lift _ _ _ λ o known.
              let (same, canonical, live) = (operations_of_iff b o hb.1).0 known in
              Consumes-pure _ _ (
                rw (hd.0, hi.0, hq.0, he.0, hb.0, append-nil, same),
                record {
                  document_id = hd.1;
                  issuer = hi.1;
                  request_id = hq.1;
                  descendant = he.1;
                  operations = canonical;
                  nonempty = live;
                },
              )

Consumes-revoke :
    Consumes take_revoke_capability_request
      (λ r used. (used ≡ encode_revoke_capability_request r) × IsRevokeCapabilityRequest r)
unfolding take_revoke_capability_request encode_revoke_capability_request
Consumes-revoke = Consumes-bind _ _ _ _ (Consumes-array identifier_length) λ d ud _ hd.
    Consumes-bind _ _ _ _ Consumes-authority λ i ui _ hi.
      Consumes-bind _ _ _ _ (Consumes-array identifier_length) λ q uq _ hq.
        Consumes-bind _ _ _ _ (Consumes-array identifier_length) λ t ut _ ht. Consumes-pure _ _ (
          rw (hd.0, hi.0, hq.0, ht.0, append-nil),
          record {
            document_id = hd.1;
            issuer = hi.1;
            request_id = hq.1;
            target_capability_id = ht.1;
          },
        )

-- A create request is decoded only from the bytes that encode it, and its fields have their lengths.
create_document_canonical :
    (bs : Bytes) (r : CreateDocumentRequest)
    → IsBytes bs
    → decode_create_document_request bs ≡ ok r
    → (bs ≡ encode_create_document_request r) × IsCreateDocumentRequest r
unfolding decode_create_document_request
create_document_canonical bs r bytes h =
    complete-Consumes trailing_bytes _ _ bs r Consumes-create_document bytes h

-- A grant request is decoded only from the bytes that encode it; its fields have their lengths, and
-- its operation set is canonical and not empty.
pub grant_capability_canonical :
    (bs : Bytes) (r : GrantCapabilityRequest)
    → IsBytes bs
    → decode_grant_capability_request bs ≡ ok r
    → (bs ≡ encode_grant_capability_request r) × IsGrantCapabilityRequest r
unfolding decode_grant_capability_request
grant_capability_canonical bs r bytes h =
    complete-Consumes trailing_bytes _ _ bs r Consumes-grant bytes h

-- A revoke request is decoded only from the bytes that encode it, and its fields have their lengths.
revoke_capability_canonical :
    (bs : Bytes) (r : RevokeCapabilityRequest)
    → IsBytes bs
    → decode_revoke_capability_request bs ≡ ok r
    → (bs ≡ encode_revoke_capability_request r) × IsRevokeCapabilityRequest r
unfolding decode_revoke_capability_request
revoke_capability_canonical bs r bytes h =
    complete-Consumes trailing_bytes _ _ bs r Consumes-revoke bytes h
