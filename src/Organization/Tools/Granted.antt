-- ===== src/Organization/Tools/Granted.antt =====
-- What a tool that is not denied finds: the connector profile that its call will use
-- (crates/frank-orchestrator/src/validate.rs).
use frank.Prelude.{
  ℕ, ◌≡◌, refl, String, Bool, true, false, not, ◌&&◌, ◌==◌, text_eq, Option, none, some, List, [],
  ◌∷◌, is_some_and, and_then, any, find, find_map, find-some, any-In, In, here, there, inl, inr,
  Bool-cases, Option-cases, arith, if◌then◌else◌, is_some, ◌∙◌,
}
use frank.Protocol.Connector.{OrganizationCapabilityKind}
use frank.Protocol.Records.{
  OrganizationGraph, OrganizationNode, OrganizationRelation, ConnectorProfileView, Snapshot,
}
use frank.Organization.{organization_node_for_agent}
use frank.Organization.Tools.{
  organization_tool_permission, gives_access, live_profile, usable, has_capability, serves,
  grants_tool, organization_tool_denial, profile_of, organization_tool_profile,
}

module _ {ℓ} {A : Type ℓ} where
  -- The first that passes a test is the first that passes a sharper one, if it does.
  find-sharper :
      (p q : A → Bool) (xs : List A) (a : A)
      → find p xs ≡ some a
      → q a ≡ true
      → find (λ x. p x && q x) xs ≡ some a
  find-sharper p q [] a h k = h
  find-sharper p q (x ∷ xs) a h k = elim (Bool-cases (p x)) [
    | inl t ↦ ground (arith, h, k, t)
    | inr f ↦ ground (arith, h, k, f, find-sharper p q xs a)
  ]

module _ {ℓ κ} {A : Type ℓ} {B : Type κ} where
  find_map-In :
      (f : A → Option B) (xs : List A) (a : A)
      → In a xs
      → is_some (f a) ≡ true
      → is_some (find_map f xs) ≡ true
  find_map-In f [] a m h = elim m [ ]
  find_map-In f (_ ∷ xs) a here h = ground (arith, h)
  find_map-In f (x ∷ xs) a (there m) h = ground (arith, find_map-In f xs a m h)

  find_map-some :
      (f : A → Option B) (xs : List A) (b : B) → find_map f xs ≡ some b → (a : A) × (f a ≡ some b)
  find_map-some f [] b h = absurd (cc)
  find_map-some f (x ∷ xs) b h = first (f x) refl h (find_map-some f xs b)
    where
      first :
          (o : Option B)
          → f x ≡ o
          → elim o [ some c ↦ some c | none ↦ find_map f xs ] ≡ some b
          → (find_map f xs ≡ some b → (a : A) × (f a ≡ some b))
          → (a : A) × (f a ≡ some b)
      first none e h rest = rest h
      first (some c) e h rest = (x, e ∙ h)

  and_then-some :
      (o : Option A) (f : A → Option B) (b : B)
      → and_then o f ≡ some b
      → (a : A) × (o ≡ some a) × (f a ≡ some b)
  and_then-some none f b h = absurd (cc)
  and_then-some (some a) f b h = (a, refl, h)

  and_then-of :
      (o : Option A) (f : A → Option B) (a : A) (b : Option B)
      → o ≡ some a
      → f a ≡ b
      → and_then o f ≡ b
  and_then-of o f a b e h = rw e h

is_some_and-some {ℓ} :
    {A : Type ℓ} (o : Option A) (q : A → Bool)
    → is_some_and o q ≡ true
    → (a : A) × (o ≡ some a) × (q a ≡ true)
is_some_and-some none q h = absurd (cc)
is_some_and-some (some a) q h = (a, refl, h)

is_some-some {ℓ} : {A : Type ℓ} (o : Option A) → is_some o ≡ true → (a : A) × (o ≡ some a)
is_some-some none h = absurd (cc)
is_some-some (some a) h = (a, refl)

serves-profile :
    (s : Snapshot) (capability : OrganizationCapabilityKind) (node : OrganizationNode)
    → serves s capability node ≡ true
    → (has_capability capability node ≡ true)
      × (is_some (and_then node.connector_profile_id (live_profile s)) ≡ true)
unfolding serves
serves-profile s capability node h =
    let linked =
      is_some_and-some node.connector_profile_id
        (λ profile_id. is_some_and (live_profile s profile_id) (usable capability))
        (ground arith) in
    let live = is_some_and-some (live_profile s linked.0) (usable capability) linked.2 in
    (ground arith, rw linked.1 (rw live.1 refl))

grants_tool-profile_of :
    (s : Snapshot) (graph : OrganizationGraph) (capability : OrganizationCapabilityKind)
    (permission : String) (staff_node : OrganizationNode) (relation : OrganizationRelation)
    → grants_tool s graph capability permission staff_node relation ≡ true
    → is_some (profile_of s graph capability permission staff_node relation) ≡ true
unfolding grants_tool profile_of
grants_tool-profile_of s graph capability permission staff_node relation h =
    let target =
      is_some_and-some (find (λ node. text_eq node.id relation.target_node_id) graph.nodes)
        (serves s capability) (ground arith) in
    let profile = serves-profile s capability target.0 target.2 in
    let sharper =
      find-sharper (λ node. text_eq node.id relation.target_node_id) (has_capability capability)
        graph.nodes target.0 target.1 profile.0 in
    let gives : gives_access permission staff_node relation ≡ true = ground arith in
    rw gives (rw sharper profile.1)

live_profile-live :
    (s : Snapshot) (profile_id : ℕ) (profile : ConnectorProfileView)
    → live_profile s profile_id ≡ some profile
    → (profile.archived ≡ false) × In profile s.connector_profiles
unfolding live_profile
live_profile-live s profile_id profile h =
    let found =
      find-some (λ profile. profile.id == profile_id && not profile.archived) s.connector_profiles
        profile h in
    (ground (arith, found.0), found.1)

profile_of-live :
    (s : Snapshot) (graph : OrganizationGraph) (capability : OrganizationCapabilityKind)
    (permission : String) (staff_node : OrganizationNode) (relation : OrganizationRelation)
    (profile : ConnectorProfileView)
    → profile_of s graph capability permission staff_node relation ≡ some profile
    → (profile.archived ≡ false) × In profile s.connector_profiles
unfolding profile_of
profile_of-live s graph capability permission staff_node relation profile h =
    elim (Bool-cases (gives_access permission staff_node relation)) [
      | inl gives ↦
          let node =
            and_then-some
              (find
                (λ node. text_eq node.id relation.target_node_id && has_capability capability node)
                graph.nodes)
              (λ node. and_then node.connector_profile_id (live_profile s)) profile
              (rw gives at h) in
          let linked = and_then-some node.0.connector_profile_id (live_profile s) profile node.2 in
          live_profile-live s linked.0 profile linked.2
      | inr apart ↦ absurd (none_ne_some (rw apart at h))
    ]
  where
    none_ne_some : none ≡ some profile → ⊥
    none_ne_some e = cc

-- A graph with a granted relation yields a profile, which is live.
granted-profile :
    (s : Snapshot) (graph : OrganizationGraph) (capability : OrganizationCapabilityKind)
    (permission : String) (staff_node : OrganizationNode)
    → any (grants_tool s graph capability permission staff_node) graph.relations ≡ true
    → (profile : ConnectorProfileView) × (find_map
          (profile_of s graph capability permission staff_node)
          graph.relations
        ≡ some profile)
      × (profile.archived ≡ false)
      × In profile s.connector_profiles
granted-profile s graph capability permission staff_node h =
    let grants = any-In (grants_tool s graph capability permission staff_node) graph.relations h in
    let resolve = profile_of s graph capability permission staff_node in
    let profile = is_some-some (find_map resolve graph.relations) (
      find_map-In resolve graph.relations grants.0 grants.1
        (grants_tool-profile_of s graph capability permission staff_node grants.0 grants.2)) in
    let source = find_map-some resolve graph.relations profile.0 profile.1 in
    let live =
      profile_of-live s graph capability permission staff_node source.0 profile.0 source.1 in
    (profile.0, profile.1, live.0, live.1)

allowed-true {ℓ} :
    {A : Type ℓ} (b : Bool) (reason : A) → (if b then none else some reason) ≡ none → b ≡ true
allowed-true true reason h = refl
allowed-true false reason h = absurd (cc)

tool_profile-found :
    (s : Snapshot) (graph : OrganizationGraph) (agent_id : ℕ) (tool : String)
    (required : OrganizationCapabilityKind × String) (staff_node : OrganizationNode)
    (found : Option ConnectorProfileView)
    → organization_tool_permission tool ≡ some required
    → s.published ≡ some graph
    → organization_node_for_agent s graph agent_id ≡ some staff_node
    → find_map (profile_of s graph required.0 required.1 staff_node) graph.relations ≡ found
    → organization_tool_profile s agent_id tool ≡ found
unfolding organization_tool_profile
tool_profile-found s graph agent_id tool required staff_node found governed published present h =
    and_then-of (organization_tool_permission tool) _ required found governed (
      and_then-of s.published _ graph found published
        (and_then-of (organization_node_for_agent s graph agent_id) _ staff_node found present h))

-- Where a graph is published, a tool that needs a grant and is not denied to an agent has a
-- connector profile: the profile that the call resolves is one of the workspace, and not archived.
pub organization_tool_denial-profile :
    (s : Snapshot) (graph : OrganizationGraph) (agent_id : ℕ) (tool : String)
    → is_some (organization_tool_permission tool) ≡ true
    → s.published ≡ some graph
    → organization_tool_denial s agent_id tool ≡ none
    → (profile : ConnectorProfileView) × (organization_tool_profile s agent_id tool ≡ some profile)
      × (profile.archived ≡ false)
      × In profile s.connector_profiles
unfolding organization_tool_denial organization_tool_profile
organization_tool_denial-profile s graph agent_id tool governed published allowed =
    let required = is_some-some (organization_tool_permission tool) governed in
    let required_lem = required.1 in
    elim (Option-cases (organization_node_for_agent s graph agent_id)) [
      | inl absent ↦ absurd (ground (arith, required_lem, absent, published, allowed))
      | inr (staff_node, present) ↦
          let found =
            granted-profile s graph required.0.0 required.0.1 staff_node
              (ground (arith, required_lem, present, allowed)) in
          (
            found.0,
            tool_profile-found s graph agent_id tool required.0 staff_node (some found.0) required.1
                published present found.1,
            found.2,
            found.3,
          )
    ]
