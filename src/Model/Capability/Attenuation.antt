-- ===== src/Model/Capability/Attenuation.antt =====
-- `authorizes` of crates/renee-model/src/lib.rs and the ancestries that it walks.
use mathlib.Core.Path.{subst}
use renee.Prelude.{ℕ, ◌≤◌, ◌<◌, ◌≡◌, ◌↔◌, true, false, Option-cases, inl, inr, some, arith}
use renee.Bytes.{Bytes}
use renee.Bytes.Words.{bytes_eq_iff}
use renee.Types.{CapabilityId}
use renee.Types.Operations.{Operation, contains, allows}
use renee.Types.Operations.Attenuation.{IsCanonical, allows_iff}
use renee.Maps.{get}
use renee.Maps.Keys.{bytes_key}
use renee.Model.Capability.{ModelCapability, CapabilityDocument, chain_is_live}
use renee.Model.Capability.Chains.{Ancestry, Live, Below, chain_is_live_iff}
use renee.Model.Capability.Commands.{document_authorizes}

-- The capability is there, with this live verifier and this operation, and so are its ancestors, not
-- revoked and fewer than 64 nodes in all.
pub record Authorized (d : CapabilityDocument) (id : CapabilityId) (live : Bytes) (o : Operation)
    : Type 0 where
  pub capability : ModelCapability
  pub found : get id d.capabilities ≡ some capability
  pub verified : capability.verifiers.live ≡ live
  pub permitted : contains capability.operations o ≡ true
  pub nodes : ℕ
  pub ancestry : Live d id nodes
  pub short : nodes < 64

module _ (d : CapabilityDocument) (id : CapabilityId) (live : Bytes) (o : Operation) where
  authorizes_parts :
      (c : ModelCapability)
      → get id d.capabilities ≡ some c
      → document_authorizes d id live o ≡ true
      → (c.verifiers.live ≡ live)
        × (contains c.operations o ≡ true)
        × (chain_is_live 64 d (some id) ≡ true)
  unfolding document_authorizes
  authorizes_parts c found h = ground (arith, bytes_eq_iff c.verifiers.live live)

  authorizes_found :
      document_authorizes d id live o ≡ true
      → (c : ModelCapability) × (get id d.capabilities ≡ some c)
  unfolding document_authorizes
  authorizes_found h = elim (Option-cases (get id d.capabilities)) [
    | inl gone ↦ absurd (ground arith)
    | inr found ↦ found
  ]

  authorizes_sound : document_authorizes d id live o ≡ true → Authorized d id live o
  authorizes_sound h =
      let (c, found) = authorizes_found h in
      let (verified, permitted, chain) = authorizes_parts c found h in
      let (n, alive, short) = (chain_is_live_iff d 64 id).0 chain in
      record {
        capability = c;
        found = found;
        verified = verified;
        permitted = permitted;
        nodes = n;
        ancestry = alive;
        short = short;
      }

  authorizes_complete : Authorized d id live o → document_authorizes d id live o ≡ true
  unfolding document_authorizes
  authorizes_complete a = ground (
    arith,
    a.found,
    a.permitted,
    (bytes_eq_iff a.capability.verifiers.live live).1 a.verified,
    (chain_is_live_iff d 64 id).1 (a.nodes, a.ancestry, a.short),
  )

  -- A document authorizes an operation exactly when the capability is there with the presented live
  -- verifier and the operation, and its ancestry is whole, free of revoked nodes, and shorter than
  -- 64 nodes.
  pub document_authorizes_iff : (document_authorizes d id live o ≡ true) ↔ Authorized d id live o
  document_authorizes_iff = (authorizes_sound, authorizes_complete)

-- The invariant of a document: operation sets are canonical, a parent is there and allows its
-- child's operations, and an ancestry has at most 64 nodes.
pub record IsWellFormed (d : CapabilityDocument) : Type 0 where
  pub canonical :
      (id : CapabilityId) (c : ModelCapability)
      → get id d.capabilities ≡ some c
      → IsCanonical c.operations
  pub attenuated :
      (id p : CapabilityId) (c : ModelCapability)
      → get id d.capabilities ≡ some c
      → c.parent ≡ some p
      → (q : ModelCapability) × (get p d.capabilities ≡ some q)
        × (allows q.operations c.operations ≡ true)
  pub rooted :
      (id : CapabilityId) (c : ModelCapability)
      → get id d.capabilities ≡ some c
      → (n : ℕ) × Ancestry d id n × (n ≤ 64)

-- No capability holds an operation that an ancestor of it lacks.
ancestor_holds :
    (d : CapabilityDocument) (a id : CapabilityId) (k : ℕ) (ca c : ModelCapability) (o : Operation)
    → IsWellFormed d
    → Below d a id k
    → get a d.capabilities ≡ some ca
    → get id d.capabilities ≡ some c
    → contains c.operations o ≡ true
    → contains ca.operations o ≡ true
ancestor_holds d a id k ca c o w (Below.self _ same) fa fc h = ground arith
ancestor_holds d a id k ca c o w (Below.up _ p c' m found parent rest) fa fc h =
    let (q, fq, less) = w.attenuated id p c' found parent in
    let same : c ≡ c' = ground arith in
    let holds : contains c'.operations o ≡ true = rw (← same) h in
    ancestor_holds d a p m ca q o w rest fa fq (
      ((allows_iff q.operations c'.operations (w.canonical p q fq) (w.canonical id c' found)).0
          less).1
        o holds)

pub live_ancestor :
    (d : CapabilityDocument) (a id : CapabilityId) (k n : ℕ) (ca : ModelCapability)
    → Live d id n
    → Below d a id k
    → get a d.capabilities ≡ some ca
    → ca.revoked ≡ false
live_ancestor d a id k n ca (Live.top _ c f l r) (Below.self _ same) fa = ground arith
live_ancestor d a id k n ca (Live.top _ c f l r) (Below.up _ p c' m f' q b) fa =
    absurd (ground arith)
live_ancestor d a id k n ca (Live.child _ p c m f l q rest) (Below.self _ same) fa = ground arith
live_ancestor d a id k n ca (Live.child _ p c m f l q rest) (Below.up _ p' c' m' f' q' b) fa =
    let same : p' ≡ p = ground arith in
    live_ancestor d a p m' m ca rest (subst (λ x. Below d a x m') same b) fa

-- In a well-formed document a capability is authorized for an operation only if every ancestor holds
-- that operation too and is not revoked.
pub authorized_ancestor_holds :
    (d : CapabilityDocument) (a id : CapabilityId) (k : ℕ) (ca : ModelCapability) (live : Bytes)
    (o : Operation)
    → IsWellFormed d
    → document_authorizes d id live o ≡ true
    → Below d a id k
    → get a d.capabilities ≡ some ca
    → (contains ca.operations o ≡ true) × (ca.revoked ≡ false)
authorized_ancestor_holds d a id k ca live o w h b fa =
    let s = (document_authorizes_iff d id live o).0 h in
    (
      ancestor_holds d a id k ca s.capability o w b fa s.found s.permitted,
      live_ancestor d a id k s.nodes ca s.ancestry b fa,
    )
