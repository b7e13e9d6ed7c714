-- ===== src/Model/Capability/Revoking.antt =====
-- `revoke` of crates/renee-model/src/lib.rs, where it inserts.
use mathlib.Core.Option
use renee.Prelude.{
  ℕ, suc, ◌≡◌, refl, true, false, Bool-cases, Option-cases, Bool-iff, inl, inr, some, arith,
  if◌then◌else◌,
}
use renee.Bytes.{Bytes}
use renee.Types.{CapabilityId, RequestId}
use renee.Types.Operations.{Operation}
use renee.Maps.{get}
use renee.Maps.Keys.{bytes_key}
use renee.Model.Capability.{ModelCapability, CapabilityDocument, ControlOutcome, is_descendant}
use renee.Model.Capability.Chains.{Live, Below, is_descendant_iff}
use renee.Model.Capability.Marking.{revoked_copy, get-revoke_all}
use renee.Model.Capability.Commands.{document_authorizes, revoke_in}
use renee.Model.Capability.Attenuation.{document_authorizes_iff, live_ancestor, live_ancestor}

-- What authorizes has a live node at its foot.
Live-alive :
    (d : CapabilityDocument) (id : CapabilityId) (n : ℕ) (c : ModelCapability)
    → Live d id n
    → get id d.capabilities ≡ some c
    → c.revoked ≡ false
Live-alive d id n c (Live.top _ b f l r) found = ground arith
Live-alive d id n c (Live.child _ p b m f l q rest) found = ground arith

module _ (d e : CapabilityDocument) (issuer : CapabilityId) (request : RequestId)
    (target : CapabilityId)
    (done : revoke_in d issuer request target ≡ (ControlOutcome.inserted, e)) where
  revoked-get :
      (j : CapabilityId)
      → get j e.capabilities ≡ (
          if is_descendant d target j
          then Option.map revoked_copy (get j d.capabilities)
          else get j d.capabilities)
  unfolding revoke_in
  revoked-get j = ground (arith, get-revoke_all target j d)

  pub after :
      (j : CapabilityId) (c : ModelCapability)
      → get j d.capabilities ≡ some c
      → get j e.capabilities ≡ some (if is_descendant d target j then revoked_copy c else c)
  after j c found = ground (arith, revoked-get j)

  before :
      (j : CapabilityId) (c : ModelCapability)
      → get j e.capabilities ≡ some c
      → c.revoked ≡ false
      → get j d.capabilities ≡ some c
  before j c found alive = elim (Option-cases (get j d.capabilities)) [
    | inl gone ↦ absurd (ground (arith, revoked-get j))
    | inr (b, there) ↦ ground (arith, after j b there)
  ]

  Below-after : (a id : CapabilityId) (k : ℕ) → Below d a id k → Below e a id k
  Below-after a id k (Below.self _ same) = Below.self id same
  Below-after a id k (Below.up _ p c m found parent rest) =
      Below.up id p (if is_descendant d target id then revoked_copy c else c) m (after id c found)
        (ground arith) (Below-after a p m rest)

  -- After a revocation of a capability that the document holds, no capability at or below that
  -- target is authorized for any operation, whatever is presented for it, however deep it lies.
  pub revoked_not_authorized :
      (id : CapabilityId) (k : ℕ) (live : Bytes) (o : Operation) (c : ModelCapability)
      → get target d.capabilities ≡ some c
      → Below d target id k
      → document_authorizes e id live o ≡ false
  revoked_not_authorized id k live o c there b =
      elim (Bool-cases (document_authorizes e id live o)) [
        | inr denied ↦ denied
        | inl granted ↦
            let s = (document_authorizes_iff e id live o).0 granted in
            let marked : is_descendant d target target ≡ true =
              (is_descendant_iff d target target).1 (0, Below.self target refl, omega arith) in
            let alive =
              live_ancestor e target id k s.nodes _ s.ancestry (Below-after target id k b)
                (after target c there) in
            absurd (ground arith)
      ]

  pub kept :
      (id : CapabilityId) (c : ModelCapability)
      → ((k : ℕ) → ¬ (Below d target id k))
      → get id d.capabilities ≡ some c
      → get id e.capabilities ≡ some c
  kept id c apart found = elim (Bool-cases (is_descendant d target id)) [
    | inl below ↦ let (k, b, _) = (is_descendant_iff d target id).0 below in absurd (apart k b)
    | inr beside ↦ ground (arith, after id c found)
  ]

  Live-after :
      (id : CapabilityId) (n : ℕ) → ((k : ℕ) → ¬ (Below d target id k)) → Live d id n → Live e id n
  Live-after id n apart (Live.top _ c f l r) = Live.top id c (kept id c apart f) l r
  Live-after id n apart (Live.child _ p c m f l q rest) =
      Live.child id p c m (kept id c apart f) l q
        (Live-after p m (λ k b. apart (suc k) (Below.up id p c k f q b)) rest)

  Live-before : (id : CapabilityId) (n : ℕ) → Live e id n → Live d id n
  Live-before id n (Live.top _ c f l r) = Live.top id c (before id c f l) l r
  Live-before id n (Live.child _ p c m f l q rest) =
      Live.child id p c m (before id c f l) l q (Live-before p m rest)

  -- What does not lie below the target is authorized after a revocation for just what it was
  -- authorized for before.
  pub revoked_frame :
      (id : CapabilityId) (live : Bytes) (o : Operation)
      → ((k : ℕ) → ¬ (Below d target id k))
      → document_authorizes e id live o ≡ document_authorizes d id live o
  revoked_frame id live o apart =
      Bool-iff _ _
        (λ h.
          let s = (document_authorizes_iff e id live o).0 h in
          (document_authorizes_iff d id live o).1 (record {
            capability = s.capability;
            found =
                before id s.capability s.found
                  (Live-alive e id s.nodes s.capability s.ancestry s.found);
            verified = s.verified;
            permitted = s.permitted;
            nodes = s.nodes;
            ancestry = Live-before id s.nodes s.ancestry;
            short = s.short;
          }))
        (λ h.
          let s = (document_authorizes_iff d id live o).0 h in
          (document_authorizes_iff e id live o).1 (record {
            capability = s.capability;
            found = kept id s.capability apart s.found;
            verified = s.verified;
            permitted = s.permitted;
            nodes = s.nodes;
            ancestry = Live-after id s.nodes apart s.ancestry;
            short = s.short;
          }))
