-- ===== src/Model/Capability/Marking.antt =====
-- The loop of `revoke` in crates/renee-model/src/lib.rs.
use mathlib.Core.Option
use renee.Prelude.{
  ℕ, zero, suc, ◌≡◌, inl, inr, refl, sym, ap, ◌∙◌, true, false, ◌&&◌, Bool-cases, Option-cases,
  if◌then◌else◌, Option, none, some, List, [], ◌∷◌, arith,
}
use renee.Bytes.{bytes_eq}
use renee.Types.{CapabilityId}
use renee.Maps.{get, adjust, get-adjust, keys, keys_hold, Member}
use renee.Maps.Keys.{bytes_key, ◌==◌, ==→eq, ==_refl}
use renee.Model.Capability.{ModelCapability, CapabilityDocument, reaches, is_descendant, revoke_all}

abbrev pub revoked_copy : ModelCapability → ModelCapability
revoked_copy c = record c { revoked = true }

abbrev pub parent_of : CapabilityDocument → CapabilityId → Option CapabilityId
parent_of d id = elim (get id d.capabilities) [ none ↦ none | some c ↦ c.parent ]

-- One round of the loop.
abbrev mark : CapabilityId → CapabilityId → CapabilityDocument → CapabilityDocument
mark target id d =
    if is_descendant d target id
    then record d { capabilities = adjust id revoked_copy d.capabilities }
    else d

reaches_parents :
    (d e : CapabilityDocument)
    → ((id : CapabilityId) → parent_of d id ≡ parent_of e id)
    → (rounds : ℕ) (a : CapabilityId) (current : Option CapabilityId)
    → reaches rounds d a current ≡ reaches rounds e a current
unfolding reaches
reaches_parents d e h zero a current = refl
reaches_parents d e h (suc rounds) a none = refl
reaches_parents d e h (suc rounds) a (some id) = elim (Bool-cases (bytes_eq id a)) [
  | inl same ↦ rw same
  | inr other ↦ ground (
    arith,
    h id,
    reaches_parents d e h rounds a (parent_of d id),
    reaches_parents d e h rounds a none,
  )
]

get-mark :
    (target id j : CapabilityId) (d : CapabilityDocument)
    → get j (mark target id d).capabilities ≡ (
        if j == id && is_descendant d target j
        then Option.map revoked_copy (get j d.capabilities)
        else get j d.capabilities)
get-mark target id j d = elim (Bool-cases (is_descendant d target id)) [
  | inl below ↦ rw below (
      get-adjust id j revoked_copy d.capabilities
      ∙ ground (arith, ==→eq j id, ap (is_descendant d target) {x = j} {y = id}))
  | inr beside ↦ rw beside (ground (arith, ==→eq j id))
]

mark_parents :
    (target id : CapabilityId) (d : CapabilityDocument) (j : CapabilityId)
    → parent_of (mark target id d) j ≡ parent_of d j
mark_parents target id d j = ground (arith, get-mark target id j d)

mark_descendants :
    (target id : CapabilityId) (d : CapabilityDocument) (a j : CapabilityId)
    → is_descendant (mark target id d) a j ≡ is_descendant d a j
unfolding is_descendant
mark_descendants target id d a j =
    reaches_parents (mark target id d) d (mark_parents target id d) 64 a (some j)

map_twice :
    (o : Option ModelCapability)
    → Option.map revoked_copy (Option.map revoked_copy o) ≡ Option.map revoked_copy o
map_twice none = refl
map_twice (some c) = refl

marked_twice :
    (target id j : CapabilityId) (d : CapabilityDocument)
    → Option.map revoked_copy (get j (mark target id d).capabilities)
      ≡ Option.map revoked_copy (get j d.capabilities)
marked_twice target id j d = elim (Bool-cases (j == id && is_descendant d target j)) [
  | inl marked ↦
      ap (Option.map revoked_copy) (get-mark target id j d ∙ rw marked)
      ∙ map_twice (get j d.capabilities)
  | inr other ↦ ap (Option.map revoked_copy) (get-mark target id j d ∙ rw other)
]

module _ (target j : CapabilityId) where
  -- What is not below the target stays as it is.
  get-revoke_all_beside :
      (ids : List CapabilityId) (d : CapabilityDocument)
      → is_descendant d target j ≡ false
      → get j (revoke_all target ids d).capabilities ≡ get j d.capabilities
  unfolding revoke_all
  get-revoke_all_beside [] d h = refl
  get-revoke_all_beside (id ∷ ids) d h =
      get-revoke_all_beside ids (mark target id d) (mark_descendants target id d target j ∙ h)
      ∙ ground (arith, get-mark target id j d)

  -- So does what is marked already.
  get-revoke_all_marked :
      (ids : List CapabilityId) (d : CapabilityDocument)
      → Option.map revoked_copy (get j d.capabilities) ≡ get j d.capabilities
      → get j (revoke_all target ids d).capabilities ≡ get j d.capabilities
  unfolding revoke_all
  get-revoke_all_marked [] d h = refl
  get-revoke_all_marked (id ∷ ids) d h =
      let same : get j (mark target id d).capabilities ≡ get j d.capabilities =
        ground (arith, get-mark target id j d) in
      get-revoke_all_marked ids (mark target id d)
        (ap (Option.map revoked_copy) same ∙ h ∙ sym same)
      ∙ same

  -- What is below the target, and among the keys, is marked.
  get-revoke_all_below :
      (ids : List CapabilityId) (d : CapabilityDocument)
      → is_descendant d target j ≡ true
      → Member j ids
      → get j (revoke_all target ids d).capabilities
        ≡ Option.map revoked_copy (get j d.capabilities)
  unfolding revoke_all
  get-revoke_all_below [] d h m = absurd m
  get-revoke_all_below (id ∷ ids) d h (inl here) =
      let at_key : (j == id) ≡ true = rw here (==_refl id) in
      let marked : get j (mark target id d).capabilities
          ≡ Option.map revoked_copy (get j d.capabilities) =
        get-mark target id j d ∙ rw (at_key, h) in
      get-revoke_all_marked ids (mark target id d)
        (ap (Option.map revoked_copy) marked ∙ map_twice (get j d.capabilities) ∙ sym marked)
      ∙ marked
  get-revoke_all_below (id ∷ ids) d h (inr later) =
      get-revoke_all_below ids (mark target id d) (mark_descendants target id d target j ∙ h) later
      ∙ marked_twice target id j d

-- After the loop over all keys exactly the descendants of the target are marked.
pub get-revoke_all :
    (target j : CapabilityId) (d : CapabilityDocument)
    → get j (revoke_all target (keys d.capabilities) d).capabilities ≡ (
        if is_descendant d target j
        then Option.map revoked_copy (get j d.capabilities)
        else get j d.capabilities)
get-revoke_all target j d = elim (Bool-cases (is_descendant d target j)) [
  | inr beside ↦ rw beside (get-revoke_all_beside target j (keys d.capabilities) d beside)
  | inl below ↦ rw below (elim (Option-cases (get j d.capabilities)) [
    | inr (c, found) ↦
        get-revoke_all_below target j (keys d.capabilities) d below
          (keys_hold j c d.capabilities found)
    | inl gone ↦ get-revoke_all_marked target j (keys d.capabilities) d (rw gone) ∙ rw gone
  ])
]
