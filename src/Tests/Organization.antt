-- ===== src/Tests/Organization.antt =====
-- Runs of the tool grants of the Organization graph.
use frank.Prelude.{ℕ, String, ◌≡◌, refl, true, false, Option, none, some, [], ◌∷◌, is_some, In}
use frank.Protocol.Connector.{OrganizationCapabilityKind, ConnectorKind, ConnectorHealth}
use frank.Protocol.Status.{OrganizationNodeKind, OrganizationRelationKind}
use frank.Protocol.Records.{
  OrganizationGraph, OrganizationNode, OrganizationRelation, ConnectorProfileView, Snapshot,
}
use frank.Organization.Tools.{
  organization_tool_permission, organization_tool_denial, organization_tool_profile,
}
use frank.Organization.Tools.Granted.{organization_tool_denial-profile}
use frank.Tests.Data.{workspace}

abbrev tool_node : String → Option ℕ → OrganizationNode
tool_node id profile_id = record {
  id = id;
  kind = OrganizationNodeKind.capability;
  agent_id = none;
  capability = some OrganizationCapabilityKind.database;
  connector_profile_id = profile_id;
  role_id = none;
  taskboard_id = none;
}

abbrev worker_node : OrganizationNode
worker_node = record {
  id = "worker";
  kind = OrganizationNodeKind.staff;
  agent_id = some 2;
  capability = none;
  connector_profile_id = none;
  role_id = none;
  taskboard_id = none;
}

abbrev access : String → String → OrganizationRelation
access target permission = record {
  id = target;
  kind = OrganizationRelationKind.tool_access;
  source_node_id = "worker";
  target_node_id = target;
  permissions = permission ∷ [];
  contract = record { input_summary = ""; expected_output = "" };
}

abbrev database_profile : ℕ → ConnectorHealth → ConnectorProfileView
database_profile id health = record {
  id = id;
  name = "database";
  kind = ConnectorKind.sqlite;
  health = health;
  configured = true;
  archived = false;
}

-- Two database nodes: the first with a profile that is out of order.
abbrev tool_graph : OrganizationGraph
tool_graph = record {
  id = 1;
  draft_revision = 1;
  published_revision = 1;
  nodes = worker_node ∷ tool_node "old" (some 8) ∷ tool_node "new" (some 9) ∷ [];
  relations = access "old" "read" ∷ access "new" "read" ∷ [];
}

abbrev office : Snapshot
office = record (workspace [] []) {
  published = some tool_graph;
  connector_profiles =
      database_profile 8 ConnectorHealth.unhealthy
      ∷ database_profile 9 ConnectorHealth.healthy
      ∷ [];
}

reading-governed : is_some (organization_tool_permission "database_read") ≡ true
unfolding organization_tool_permission
reading-governed = refl

reading-allowed : organization_tool_denial office 2 "database_read" ≡ none
unfolding organization_tool_denial
reading-allowed = refl

writing-denied : is_some (organization_tool_denial office 2 "database_write") ≡ true
unfolding organization_tool_denial
writing-denied = refl

-- The grant rests on the healthy profile, the call gets the first one.
reading-unhealthy :
    organization_tool_profile office 2 "database_read"
    ≡ some (database_profile 8 ConnectorHealth.unhealthy)
unfolding organization_tool_profile
reading-unhealthy = refl

organization_tool_denial-profile_example :
    (profile : ConnectorProfileView) × (organization_tool_profile office 2 "database_read"
      ≡ some profile)
    × (profile.archived ≡ false)
    × In profile office.connector_profiles
organization_tool_denial-profile_example =
    organization_tool_denial-profile office tool_graph 2 "database_read" reading-governed refl
      reading-allowed
