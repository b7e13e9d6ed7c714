-- ===== src/Model/Capability/Granting.antt =====
-- `grant` of crates/renee-model/src/lib.rs, where it inserts.
use mathlib.Core.Path.{subst}
use renee.Prelude.{
  ℕ, suc, ◌<◌, ◌≡◌, ◌↔◌, refl, sym, ap, ◌∙◌, true, false, Bool-cases, Option-cases, Bool-iff, inl,
  inr, none, some, arith, if◌then◌else◌,
}
use renee.Bytes.{Bytes}
use renee.Types.{CapabilityId, RequestId}
use renee.Types.Operations.{Operation, OperationSet, contains, allows}
use renee.Types.Operations.Attenuation.{IsCanonical}
use renee.Maps.{get, get-insert, contains_key}
use renee.Maps.Keys.{bytes_key, ◌==◌, ==→eq, ==_refl}
use renee.Model.Capability.{
  ModelCapability, ModelVerifierPair, CapabilityDocument, ControlOutcome,
  issuer_has_descendant_capacity,
}
use renee.Model.Capability.Chains.{
  Ancestry, Live, Live-Ancestry, Ancestry-unique, issuer_has_descendant_capacity_iff,
}
use renee.Model.Capability.Commands.{document_authorizes, grant_in}
use renee.Model.Capability.Attenuation.{Authorized, document_authorizes_iff, IsWellFormed}

module _ (d e : CapabilityDocument) (issuer : CapabilityId) (request : RequestId)
    (descendant : CapabilityId) (verifiers : ModelVerifierPair) (operations : OperationSet)
    (done : grant_in d issuer request descendant verifiers operations
      ≡ (ControlOutcome.inserted, e)) where
  abbrev granted : ModelCapability
  granted = record {
    operations = operations;
    parent = some issuer;
    revoked = false;
    verifiers = verifiers;
  }

  capacity : issuer_has_descendant_capacity d issuer ≡ true
  unfolding grant_in
  capacity = ground arith

  issuing :
      (c : ModelCapability) × (get issuer d.capabilities ≡ some c)
      × (allows c.operations operations ≡ true)
  unfolding grant_in
  issuing = elim (Option-cases (get issuer d.capabilities)) [
    | inl gone ↦ absurd (ground arith)
    | inr (c, found) ↦ (c, found, ground arith)
  ]

  fresh : get descendant d.capabilities ≡ none
  unfolding grant_in contains_key
  fresh = ground arith

  granted-get :
      (j : CapabilityId)
      → get j e.capabilities ≡ (if j == descendant then some granted else get j d.capabilities)
  unfolding grant_in
  granted-get j = ground (arith, get-insert descendant j granted d.capabilities)

  pub kept :
      (j : CapabilityId) (c : ModelCapability)
      → get j d.capabilities ≡ some c
      → get j e.capabilities ≡ some c
  kept j c found = elim (Bool-cases (j == descendant)) [
    | inl same ↦ absurd (ground (arith, fresh, ==→eq j descendant same))
    | inr other ↦ granted-get j ∙ rw other found
  ]

  pub here : get descendant e.capabilities ≡ some granted
  here = granted-get descendant ∙ rw (==_refl descendant)

  Ancestry-after : (id : CapabilityId) (n : ℕ) → Ancestry d id n → Ancestry e id n
  Ancestry-after id n (Ancestry.top _ c f r) = Ancestry.top id c (kept id c f) r
  Ancestry-after id n (Ancestry.child _ p c m f q rest) =
      Ancestry.child id p c m (kept id c f) q (Ancestry-after p m rest)

  Live-after : (id : CapabilityId) (n : ℕ) → Live d id n → Live e id n
  Live-after id n (Live.top _ c f l r) = Live.top id c (kept id c f) l r
  Live-after id n (Live.child _ p c m f l q rest) =
      Live.child id p c m (kept id c f) l q (Live-after p m rest)

  Live-before :
      IsWellFormed d
      → (id : CapabilityId) (n : ℕ) (b : ModelCapability) → get id d.capabilities ≡ some b
      → Live e id n
      → Live d id n
  Live-before w id n b there (Live.top _ c f l r) =
      let same : b ≡ c = ground (arith, kept id b there) in Live.top id c (there ∙ ap some same) l r
  Live-before w id n b there (Live.child _ p c m f l q rest) =
      let same : b ≡ c = ground (arith, kept id b there) in
      let (t, held, _) = w.attenuated id p c (there ∙ ap some same) q in
      Live.child id p c m (there ∙ ap some same) l q (Live-before w p m t held rest)

  -- A grant of a canonical operation set keeps a well-formed document well-formed: the new capability is
  -- attenuated and its ancestry has at most 64 nodes.
  pub granted-IsWellFormed : IsWellFormed d → IsCanonical operations → IsWellFormed e
  granted-IsWellFormed w canonical = record {
    canonical = λ id c f. elim (Bool-cases (id == descendant)) [
      | inl same ↦
          let new : granted ≡ c = ground (arith, granted-get id) in
          subst (λ x. IsCanonical x.operations) new canonical
      | inr other ↦ w.canonical id c (ground (arith, granted-get id))
    ];
    attenuated = λ id p c f q. elim (Bool-cases (id == descendant)) [
      | inl same ↦
          let (t, found, less) = issuing in
          let new : granted ≡ c = ground (arith, granted-get id) in
          (t, ground (arith, kept issuer t found), ground arith)
      | inr other ↦
          let (t, held, less) = w.attenuated id p c (ground (arith, granted-get id)) q in
          (t, kept p t held, less)
    ];
    rooted = λ id c f. elim (Bool-cases (id == descendant)) [
      | inl same ↦
          let (n, a, short) = (issuer_has_descendant_capacity_iff d issuer).0 capacity in
          (
            suc n,
            subst (λ x. Ancestry e x (suc n)) (sym (==→eq id descendant same))
                (Ancestry.child descendant issuer granted n here refl (Ancestry-after issuer n a)),
            omega arith,
          )
      | inr other ↦
          let (n, a, short) = w.rooted id c (ground (arith, granted-get id)) in
          (n, Ancestry-after id n a, short)
    ];
  }

  -- In a well-formed document a grant leaves the authorization of every capability that was there
  -- as it was.
  pub granted_frame :
      (id : CapabilityId) (b : ModelCapability) (live : Bytes) (o : Operation)
      → IsWellFormed d
      → get id d.capabilities ≡ some b
      → document_authorizes e id live o ≡ document_authorizes d id live o
  granted_frame id b live o w there =
      Bool-iff _ _
        (λ h.
          let s = (document_authorizes_iff e id live o).0 h in
          let same : b ≡ s.capability = ground (arith, kept id b there, s.found) in
          (document_authorizes_iff d id live o).1 (record {
            capability = s.capability;
            found = there ∙ ap some same;
            verified = s.verified;
            permitted = s.permitted;
            nodes = s.nodes;
            ancestry = Live-before w id s.nodes b there s.ancestry;
            short = s.short;
          }))
        (λ h.
          let s = (document_authorizes_iff d id live o).0 h in
          (document_authorizes_iff e id live o).1 (record {
            capability = s.capability;
            found = kept id s.capability s.found;
            verified = s.verified;
            permitted = s.permitted;
            nodes = s.nodes;
            ancestry = Live-after id s.nodes s.ancestry;
            short = s.short;
          }))

  granted_sound :
      IsWellFormed d
      → (live : Bytes) (o : Operation) → Authorized e descendant live o
      → (verifiers.live ≡ live)
        × (contains operations o ≡ true)
        × ((n : ℕ) × Live d issuer n × (n < 63))
  granted_sound w live o s =
      let new : granted ≡ s.capability = ground (arith, here, s.found) in
      (
        subst (λ x. x.verifiers.live ≡ live) (sym new) s.verified,
        subst (λ x. contains x.operations o ≡ true) (sym new) s.permitted,
        parent_live w s.nodes s.ancestry s.short,
      )
    where
      parent_live :
          IsWellFormed d
          → (n : ℕ) → Live e descendant n
          → n < 64
          → ((n : ℕ) × Live d issuer n × (n < 63))
      parent_live w n (Live.top _ c f l r) h = absurd (ground (arith, here))
      parent_live w n (Live.child _ p c m f l q rest) h =
          let same : p ≡ issuer = ground (arith, here) in
          let (t, found, _) = issuing in
          (m, Live-before w issuer m t found (subst (λ x. Live e x m) same rest), omega arith)

  -- In a well-formed document the capability just granted is authorized for an operation exactly
  -- when it is presented with its live verifier, was granted the operation, and its issuer has a
  -- live ancestry of fewer than 63 nodes.
  pub granted_authorized_iff :
      (live : Bytes) (o : Operation)
      → IsWellFormed d
      → (document_authorizes e descendant live o ≡ true) ↔ (
          (verifiers.live ≡ live)
          × (contains operations o ≡ true)
          × ((n : ℕ) × Live d issuer n × (n < 63)))
  granted_authorized_iff live o w = (
    λ h. granted_sound w live o ((document_authorizes_iff e descendant live o).0 h),
    λ h.
        let (n, alive, short) = h.2 in
        (document_authorizes_iff e descendant live o).1 (record {
          capability = granted;
          found = here;
          verified = h.0;
          permitted = h.1;
          nodes = suc n;
          ancestry =
              Live.child descendant issuer granted n here refl refl (Live-after issuer n alive);
          short = omega arith;
        }),
  )

  -- In a well-formed document an issuer whose ancestry has 63 nodes is granted a capability that is
  -- never authorized for anything.
  granted_too_deep :
      (live : Bytes) (o : Operation)
      → IsWellFormed d
      → Ancestry d issuer 63
      → document_authorizes e descendant live o ≡ false
  granted_too_deep live o w deep = elim (Bool-cases (document_authorizes e descendant live o)) [
    | inr denied ↦ denied
    | inl h ↦
        let parts = (granted_authorized_iff live o w).0 h in
        let (n, alive, short) = parts.2 in
        absurd (omega (arith, Ancestry-unique d issuer 63 n deep (Live-Ancestry d issuer n alive)))
  ]
