-- ===== src/Organization.antt =====
-- The questions that the reducers ask of the published Organization graph
-- (crates/frank-orchestrator/src/validate.rs).
pub mod Tools
use frank.Prelude.{
  ℕ, String, Bool, true, false, not, ◌&&◌, ◌||◌, Option, none, some, ◌==◌, text_eq, is_some_of,
  and_then, any, find, find_map, if◌then◌else◌,
}
use frank.Protocol.Status.{is_staff, is_role, is_v2, is_handoff, is_review_relation}
use frank.Protocol.Records.{
  AgentView, OrganizationGraph, OrganizationNode, OrganizationRelation, OrganizationHandoffContract,
  Snapshot,
}

-- `agents.iter().any(|agent| agent.id == id && !agent.archived)`
abbrev pub is_live_agent : Snapshot → ℕ → Bool
is_live_agent s agent_id = any (λ agent. agent.id == agent_id && not agent.archived) s.agents

-- `agents.iter().find(|agent| agent.id == id && !agent.archived)`
abbrev pub find_live_agent : Snapshot → ℕ → Option AgentView
find_live_agent s agent_id = find (λ agent. agent.id == agent_id && not agent.archived) s.agents

abbrev staff_node : ℕ → OrganizationNode → Bool
staff_node agent_id node = is_staff node.kind && is_some_of node.agent_id agent_id

abbrev role_node : ℕ → OrganizationNode → Bool
role_node role_id node = is_role node.kind && is_some_of node.role_id role_id

live_role : Snapshot → ℕ → Option ℕ
live_role s agent_id = and_then (find_live_agent s agent_id) (λ agent. agent.role_id)

graph_allows_agent : Snapshot → ℕ → OrganizationGraph → Bool
unfolding live_role
graph_allows_agent s agent_id graph =
    if any (staff_node agent_id) graph.nodes then true else elim (live_role s agent_id) [
      | none ↦ false
      | some role_id ↦ any (role_node role_id) graph.nodes
    ]

unfoldable pub organization_allows_agent : Snapshot → ℕ → Bool
unfolding graph_allows_agent
organization_allows_agent s agent_id = elim s.published [
  | none ↦ true
  | some graph ↦ graph_allows_agent s agent_id graph
]

unfoldable pub organization_node_for_agent :
    Snapshot → OrganizationGraph → ℕ → Option OrganizationNode
unfolding live_role
organization_node_for_agent s graph agent_id = elim (find (staff_node agent_id) graph.nodes) [
  | some node ↦ some node
  | none ↦ and_then (live_role s agent_id) (λ role_id. find (role_node role_id) graph.nodes)
]

abbrev relates :
    (OrganizationRelation → Bool)
    → OrganizationGraph
    → Option OrganizationNode
    → Option OrganizationNode
    → Bool
relates kind graph none target = false
relates kind graph (some source) none = false
relates kind graph (some source) (some target) =
    any
      (λ relation.
        kind relation
        && text_eq relation.source_node_id source.id
        && text_eq relation.target_node_id target.id)
      graph.relations

graph_allows_handoff : ℕ → ℕ → OrganizationGraph → Bool
graph_allows_handoff source target graph =
    if any (λ node. is_v2 node.kind) graph.nodes
    then false
    else relates (λ relation. is_handoff relation.kind) graph (find (staff_node source) graph.nodes)
        (find (staff_node target) graph.nodes)

unfoldable pub organization_allows_handoff : Snapshot → ℕ → ℕ → Bool
unfolding graph_allows_handoff
organization_allows_handoff s source target =
    if source == target
    then true
    else elim s.published [ none ↦ true | some graph ↦ graph_allows_handoff source target graph ]

graph_allows_review : Snapshot → ℕ → ℕ → OrganizationGraph → Bool
unfolding organization_node_for_agent
graph_allows_review s source reviewer graph =
    if any (λ node. is_v2 node.kind) graph.nodes
    then false
    else relates (λ relation. is_review_relation relation.kind) graph
        (organization_node_for_agent s graph source) (organization_node_for_agent s graph reviewer)

unfoldable pub organization_allows_review : Snapshot → ℕ → ℕ → Bool
unfolding graph_allows_review
organization_allows_review s source reviewer = elim s.published [
  | none ↦ true
  | some graph ↦ graph_allows_review s source reviewer graph
]

-- The reviewer that one relation gives, if it is a review of this source by a live staff member.
relation_reviewer :
    Snapshot → OrganizationGraph → OrganizationNode → OrganizationRelation → Option ℕ
relation_reviewer s graph source relation =
    if not (is_review_relation relation.kind) || not (text_eq relation.source_node_id source.id)
    then none
    else and_then
        (find (λ node. text_eq node.id relation.target_node_id && is_staff node.kind) graph.nodes)
        (λ target.
          and_then target.agent_id
            (λ reviewer. if is_live_agent s reviewer then some reviewer else none))

unfoldable pub organization_review_target : Snapshot → ℕ → Option ℕ
unfolding organization_node_for_agent relation_reviewer
organization_review_target s source_agent = and_then s.published (λ graph.
    and_then (organization_node_for_agent s graph source_agent)
      (λ source. find_map (relation_reviewer s graph source) graph.relations))

relation_contract :
    OrganizationNode
    → OrganizationNode
    → OrganizationRelation
    → Option (String × OrganizationHandoffContract)
relation_contract source reviewer relation =
    if not (is_review_relation relation.kind)
      || not (text_eq relation.source_node_id source.id)
      || not (text_eq relation.target_node_id reviewer.id)
    then none
    else some (relation.id, relation.contract)

unfoldable pub organization_review_contract :
    Snapshot → ℕ → ℕ → Option (String × OrganizationHandoffContract)
unfolding organization_node_for_agent relation_contract
organization_review_contract s source_agent reviewer_agent = and_then s.published (λ graph.
    and_then (organization_node_for_agent s graph source_agent) (λ source.
      and_then (organization_node_for_agent s graph reviewer_agent)
        (λ reviewer. find_map (relation_contract source reviewer) graph.relations)))
