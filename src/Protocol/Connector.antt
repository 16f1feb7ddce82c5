-- ===== src/Protocol/Connector.antt =====
-- Connector kinds, their health, and the capabilities of crates/frank-protocol/src/team.rs.
use frank.Prelude.{String, Bool, true, false, Option, none, some}

pub data OrganizationCapabilityKind : Type 0 where
  email calendar drive browser terminal database : OrganizationCapabilityKind

pub data ConnectorKind : Type 0 where
  google_workspace browser terminal postgres sqlite : ConnectorKind

pub data ConnectorHealth : Type 0 where
  unknown healthy degraded unhealthy : ConnectorHealth

abbrev pub is_unhealthy : ConnectorHealth → Bool
is_unhealthy ConnectorHealth.unhealthy = true
is_unhealthy _ = false

-- `{capability:?}`
abbrev pub debug : OrganizationCapabilityKind → String
debug OrganizationCapabilityKind.email = "Email"
debug OrganizationCapabilityKind.calendar = "Calendar"
debug OrganizationCapabilityKind.drive = "Drive"
debug OrganizationCapabilityKind.browser = "Browser"
debug OrganizationCapabilityKind.terminal = "Terminal"
debug OrganizationCapabilityKind.database = "Database"

abbrev capability_eq : OrganizationCapabilityKind → OrganizationCapabilityKind → Bool
capability_eq OrganizationCapabilityKind.email OrganizationCapabilityKind.email = true
capability_eq OrganizationCapabilityKind.calendar OrganizationCapabilityKind.calendar = true
capability_eq OrganizationCapabilityKind.drive OrganizationCapabilityKind.drive = true
capability_eq OrganizationCapabilityKind.browser OrganizationCapabilityKind.browser = true
capability_eq OrganizationCapabilityKind.terminal OrganizationCapabilityKind.terminal = true
capability_eq OrganizationCapabilityKind.database OrganizationCapabilityKind.database = true
capability_eq _ _ = false

-- `node.capability == Some(capability)`
abbrev pub is_some_capability :
    Option OrganizationCapabilityKind → OrganizationCapabilityKind → Bool
is_some_capability none capability = false
is_some_capability (some own) capability = capability_eq own capability
