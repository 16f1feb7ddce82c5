-- ===== src/Organization/Tools.antt =====
-- Tool grants of the published Organization graph: `organization_tool_denial` and
-- `organization_tool_profile` of crates/frank-orchestrator/src/validate.rs, on the permissions of
-- crates/frank-tool-catalog/src/lib.rs.
pub mod Granted
use frank.Prelude.{
  ℕ, String, Bool, true, false, not, ◌&&◌, ◌||◌, ◌==◌, Option, none, some, List, [], ◌∷◌, text_eq,
  is_some_and, and_then, any, find, find_map, concat, if◌then◌else◌,
}
use frank.Protocol.Connector.{
  OrganizationCapabilityKind, ConnectorKind, is_unhealthy, debug, is_some_capability,
}
use frank.Protocol.Status.{is_tool_access, is_capability}
use frank.Protocol.Records.{
  OrganizationGraph, OrganizationNode, OrganizationRelation, ConnectorProfileView, Snapshot,
}
use frank.Organization.{organization_node_for_agent}

unfoldable pub organization_permission : String → Option (String × String)
organization_permission name =
    if text_eq name "email_search" || text_eq name "email_read"
    then some ("email", "read")
    else if text_eq name "email_send"
    then some ("email", "send")
    else if text_eq name "calendar_list"
    then some ("calendar", "read")
    else if text_eq name "calendar_create"
    then some ("calendar", "create")
    else if text_eq name "calendar_update"
    then some ("calendar", "update")
    else if text_eq name "drive_search" || text_eq name "drive_read"
    then some ("drive", "read")
    else if text_eq name "drive_write"
    then some ("drive", "write")
    else if text_eq name "drive_share"
    then some ("drive", "share")
    else if text_eq name "taskboard_read"
    then some ("taskboard", "read")
    else if text_eq name "taskboard_create"
    then some ("taskboard", "create")
    else if text_eq name "taskboard_update"
    then some ("taskboard", "update")
    else if text_eq name "taskboard_assign"
    then some ("taskboard", "assign")
    else if text_eq name "browser_browse" || text_eq name "browser_extract"
    then some ("browser", "browse")
    else if text_eq name "browser_download"
    then some ("browser", "download")
    else if text_eq name "terminal_execute" || text_eq name "shell_exec"
    then some ("terminal", "execute")
    else if text_eq name "database_inspect"
    then some ("database", "inspect")
    else if text_eq name "database_read"
    then some ("database", "read")
    else if text_eq name "database_write"
    then some ("database", "write")
    else none

-- The capability that a name of the catalog stands for; `taskboard` and unknown names have none.
unfoldable pub capability_named : String → Option OrganizationCapabilityKind
capability_named name =
    if text_eq name "email"
    then some OrganizationCapabilityKind.email
    else if text_eq name "calendar"
    then some OrganizationCapabilityKind.calendar
    else if text_eq name "drive"
    then some OrganizationCapabilityKind.drive
    else if text_eq name "taskboard"
    then none
    else if text_eq name "browser"
    then some OrganizationCapabilityKind.browser
    else if text_eq name "terminal"
    then some OrganizationCapabilityKind.terminal
    else if text_eq name "database"
    then some OrganizationCapabilityKind.database
    else none

unfoldable pub organization_tool_permission : String → Option (OrganizationCapabilityKind × String)
unfolding organization_permission capability_named
organization_tool_permission tool =
    and_then (organization_permission tool)
      (λ found. and_then (capability_named found.0) (λ capability. some (capability, found.1)))

unfoldable pub profile_supports : ConnectorKind → OrganizationCapabilityKind → Bool
profile_supports ConnectorKind.google_workspace OrganizationCapabilityKind.email = true
profile_supports ConnectorKind.google_workspace OrganizationCapabilityKind.calendar = true
profile_supports ConnectorKind.google_workspace OrganizationCapabilityKind.drive = true
profile_supports ConnectorKind.browser OrganizationCapabilityKind.browser = true
profile_supports ConnectorKind.terminal OrganizationCapabilityKind.terminal = true
profile_supports ConnectorKind.postgres OrganizationCapabilityKind.database = true
profile_supports ConnectorKind.sqlite OrganizationCapabilityKind.database = true
profile_supports _ _ = false

-- The first guard on a relation: tool access from the agent's node that holds the permission.
unfoldable pub gives_access : String → OrganizationNode → OrganizationRelation → Bool
gives_access permission staff_node relation =
    is_tool_access relation.kind
    && text_eq relation.source_node_id staff_node.id
    && any (λ value. text_eq value permission) relation.permissions

unfoldable pub live_profile : Snapshot → ℕ → Option ConnectorProfileView
live_profile s profile_id =
    find (λ profile. profile.id == profile_id && not profile.archived) s.connector_profiles

unfoldable pub usable : OrganizationCapabilityKind → ConnectorProfileView → Bool
unfolding profile_supports
usable capability profile =
    not (is_unhealthy profile.health) && profile_supports profile.kind capability

unfoldable pub has_capability : OrganizationCapabilityKind → OrganizationNode → Bool
has_capability capability node =
    is_capability node.kind && is_some_capability node.capability capability

unfoldable pub serves : Snapshot → OrganizationCapabilityKind → OrganizationNode → Bool
unfolding live_profile usable has_capability
serves s capability node =
    has_capability capability node
    && is_some_and node.connector_profile_id
        (λ profile_id. is_some_and (live_profile s profile_id) (usable capability))

unfoldable pub grants_tool :
    Snapshot
    → OrganizationGraph
    → OrganizationCapabilityKind
    → String
    → OrganizationNode
    → OrganizationRelation
    → Bool
unfolding gives_access serves
grants_tool s graph capability permission staff_node relation =
    gives_access permission staff_node relation
    && is_some_and (find (λ node. text_eq node.id relation.target_node_id) graph.nodes)
        (serves s capability)

unfoldable pub organization_tool_denial : Snapshot → ℕ → String → Option String
unfolding organization_tool_permission organization_node_for_agent grants_tool
organization_tool_denial s agent_id tool = and_then (organization_tool_permission tool) (λ required.
    and_then s.published (λ graph. elim (organization_node_for_agent s graph agent_id) [
      | none ↦ some "agent is not present on a published Organization staff node"
      | some staff_node ↦
          if any (grants_tool s graph required.0 required.1 staff_node) graph.relations
          then none
          else some (
              concat (
                "Organization tool grant is missing: "
                ∷ tool
                ∷ " requires "
                ∷ required.1
                ∷ " on "
                ∷ debug required.0
                ∷ []))
    ]))

unfoldable pub profile_of :
    Snapshot
    → OrganizationGraph
    → OrganizationCapabilityKind
    → String
    → OrganizationNode
    → OrganizationRelation
    → Option ConnectorProfileView
unfolding gives_access has_capability live_profile
profile_of s graph capability permission staff_node relation =
    if gives_access permission staff_node relation
    then and_then
        (find (λ node. text_eq node.id relation.target_node_id && has_capability capability node)
          graph.nodes)
        (λ node. and_then node.connector_profile_id (live_profile s))
    else none

unfoldable pub organization_tool_profile : Snapshot → ℕ → String → Option ConnectorProfileView
unfolding organization_tool_permission organization_node_for_agent profile_of
organization_tool_profile s agent_id tool =
    and_then (organization_tool_permission tool) (λ required. and_then s.published (λ graph.
      and_then (organization_node_for_agent s graph agent_id) (λ staff_node.
        find_map (profile_of s graph required.0 required.1 staff_node) graph.relations)))
