-- ===== src/Wire/Update/Records/Canonical.antt =====
-- Update records of crates/renee-wire/src/update.rs, decoded and then encoded.
use mathlib.Core.Path.{subst}
use renee.Prelude.{
  ℕ, zero, suc, ◌≤◌, ◌≡◌, ◌≢◌, refl, sym, ap, ◌∙◌, not, ◌||◌, ltb, ◌==◌, ==→eq, length, append-nil,
  All, Result, ok, err, map_err, arith,
}
use renee.Bytes.{Bytes, IsBytes, bytes_eq}
use renee.Bytes.Words.{bytes_eq_iff}
use renee.Types.{IsArray, identifier_length}
use renee.Types.LoroRange.{LoroRange, LoroMetadataError, max_loro_peers, new-IsValid, new_parts}
use renee.Types.LoroRange
use renee.Types.PublicLoroRanges.{PublicLoroRanges}
use renee.Types.PublicLoroRanges
use renee.Types.PublicLoroRanges.Canonical.{new-IsCanonical_iff}
use renee.Types.ImmutableUpdate.{ImmutableUpdate}
use renee.Wire.Limits.{max_update_record_length}
use renee.Wire.Decoder.{pure, lift, check, ◌>>=◌, ◌>>◌}
use renee.Wire.Decoder
use renee.Wire.Decoder.Consumes.{
  Consumes, Consumes-pure, Consumes-take, Consumes-take_word, Consumes-bind, Consumes-check,
  Consumes-lift, complete-Consumes,
}
use renee.Wire.Update.{truncated, trailing_bytes, invalid_loro_metadata, take_array}
use renee.Wire.Update.Records.{
  record_magic, encode_range, encode_ranges, take_range, take_ranges, take_update_record,
  record_bytes, encode_update_record, decode_update_record,
}
use renee.Wire.Update.Records.RoundTrip.{IsUpdate, length-record_bytes, encodes}

pub Consumes-array : (n : ℕ) → Consumes (take_array n) (λ xs used. (used ≡ xs) × IsArray n xs)
unfolding take_array
Consumes-array n = record {
  reads = λ bs rest xs bytes h.
      let s = (Consumes-take truncated n).reads bs rest xs bytes h in
      record {
        used = s.used;
        splits = s.splits;
        used_bytes = s.used_bytes;
        rest_bytes = s.rest_bytes;
        holds = (s.holds.0, (s.holds.1, subst IsBytes s.holds.0 s.used_bytes));
      };
}

map_err_ok : {E F A : Type 0} (f : E → F) (r : Result E A) (a : A) → map_err f r ≡ ok a → r ≡ ok a
map_err_ok f (ok b) a h = ground arith
map_err_ok f (err e) a h = absurd (ground arith)

Consumes-range : Consumes take_range (λ r used. (used ≡ encode_range r) × LoroRange.IsValid r)
unfolding take_range
Consumes-range = Consumes-bind _ _ _ _ (Consumes-take_word truncated 8) λ p up _ hp.
    Consumes-bind _ _ _ _ (Consumes-take_word truncated 4) λ s us _ hs.
      Consumes-bind _ _ _ _ (Consumes-take_word truncated 4) λ e ue _ he.
        Consumes-lift (map_err (λ _. invalid_loro_metadata) (LoroRange.new p s e)) _ _ λ r made.
          let h = map_err_ok (λ _. invalid_loro_metadata) (LoroRange.new p s e) r made in
          let (same_p, same_s, same_e) = new_parts p s e h in
          Consumes-pure _ _ (
            rw (hp.0, hs.0, he.0, append-nil, same_p, same_s, same_e),
            new-IsValid p s e (omega (arith, hp.1)) h,
          )

Consumes-ranges :
    (n : ℕ)
    → Consumes
        (take_ranges n)
        (λ rs used. (used ≡ encode_ranges rs) × (length rs ≡ n) × All LoroRange.IsValid rs)
unfolding take_ranges encode_ranges
Consumes-ranges zero = Consumes-pure _ _ (refl, refl, tt)
Consumes-ranges (suc n) = Consumes-bind _ _ _ _ Consumes-range λ r ur _ hr.
    Consumes-bind _ _ _ _ (Consumes-ranges n)
      λ rs us _ hs. Consumes-pure _ _ (rw (hr.0, hs.0, append-nil), ap suc hs.1, (hr.1, hs.2))

Consumes-record :
    Consumes take_update_record
      (λ u used. (used ≡ record_bytes u) × IsUpdate u × (length u.encrypted_payload ≢ 0))
unfolding take_update_record record_bytes
Consumes-record = Consumes-bind _ _ _ _ (Consumes-array 8) λ m um _ hm.
    Consumes-check (bytes_eq m record_magic) _ _ _ λ is_magic.
      Consumes-bind _ _ _ _ (Consumes-take_word truncated 2) λ v uv _ hv.
        Consumes-check (v == 1) _ _ _ λ is_version.
          Consumes-bind _ _ _ _ (Consumes-take_word truncated 2) λ p up _ hp.
            Consumes-check (p == 1) _ _ _ λ is_profile.
              Consumes-bind _ _ _ _ (Consumes-array identifier_length) λ d ud _ hd.
                Consumes-bind _ _ _ _ (Consumes-array identifier_length) λ i ui _ hi.
                  Consumes-bind _ _ _ _ (Consumes-take_word truncated 2) λ n un _ hn.
                    Consumes-check (not (n == 0 || ltb max_loro_peers n)) _ _ _ λ few.
                      Consumes-bind _ _ _ _ (Consumes-ranges n) λ rs us _ hs.
                        Consumes-lift
                          (map_err (λ _. invalid_loro_metadata) (PublicLoroRanges.new rs)) _ _
                          λ r made.
                            Consumes-bind _ _ _ _ (Consumes-take_word truncated 4) λ k uk _ hk.
                              Consumes-check (not (k == 0)) _ _ _ λ some_payload.
                                Consumes-bind _ _ _ _ (Consumes-array k) λ e ue _ he.
                                  let (same, canonical) = (new-IsCanonical_iff rs r).0 (
                                    map_err_ok (λ _. invalid_loro_metadata)
                                      (PublicLoroRanges.new rs) r made) in
                                  let one_v : v ≡ 1 = ==→eq v 1 is_version in
                                  let one_p : p ≡ 1 = ==→eq p 1 is_profile in
                                  let u : ImmutableUpdate = record {
                                    document_id = d;
                                    encrypted_payload = e;
                                    public_loro_ranges = r;
                                    update_id = i;
                                  } in
                                  Consumes-pure u _ (
                                    rw (
                                      hm.0,
                                      (bytes_eq_iff m record_magic).0 is_magic,
                                      hv.0,
                                      one_v,
                                      hp.0,
                                      one_p,
                                      hd.0,
                                      hi.0,
                                      hn.0,
                                      hs.0,
                                      hk.0,
                                      he.0,
                                      append-nil,
                                      same,
                                      hs.1,
                                      he.1.0,
                                    ),
                                    record {
                                      document_id = hd.1;
                                      update_id = hi.1;
                                      ranges = rw same canonical;
                                      valid = rw same hs.2;
                                      payload = he.1.1;
                                    },
                                    ground arith,
                                  )

complete_of_decode :
    (bs : Bytes) (u : ImmutableUpdate)
    → decode_update_record bs ≡ ok u
    → (Decoder.complete trailing_bytes take_update_record bs ≡ ok u)
      × (length bs ≤ max_update_record_length)
unfolding decode_update_record
complete_of_decode bs u h = ground arith

-- An update record is decoded only from the bytes that encode it: the update's ranges are then
-- canonical, its payload is not empty, and encoding it gives the same bytes.
pub encode-decode_update_record :
    (bs : Bytes) (u : ImmutableUpdate)
    → IsBytes bs
    → decode_update_record bs ≡ ok u
    → (encode_update_record u ≡ ok bs) × IsUpdate u × (length u.encrypted_payload ≢ 0)
encode-decode_update_record bs u bytes h =
    let (done, short) = complete_of_decode bs u h in
    let (same, v, nonempty) =
      complete-Consumes trailing_bytes _ _ bs u Consumes-record bytes done in
    let size = length-record_bytes u v in
    let written : encode_update_record u ≡ ok (record_bytes u) =
      encodes u v nonempty (omega (arith, ap length same)) in
    (written ∙ ap ok (sym same), v, nonempty)
