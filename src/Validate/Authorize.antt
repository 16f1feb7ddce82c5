-- ===== src/Validate/Authorize.antt =====
-- Who may give a command: `authorize` of crates/frank-orchestrator/src/validate.rs.
pub mod Permits
use frank.Prelude.{
  Bool, true, false, not, ◌&&◌, Result, ok, err, OrchestratorError, forbidden, refuse, ◌>>=◌, ◌>>◌,
  if◌then◌else◌,
}
use frank.Protocol.Status.{ActorKind, is_agent}
use frank.Protocol.Command.{CommandKind, DeviceRole, can_mutate, can_admin}

abbrev pub is_pair : CommandKind → Bool
is_pair CommandKind.pair = true
is_pair _ = false

abbrev pub is_system : ActorKind → Bool
is_system ActorKind.system = true
is_system _ = false

-- The first `matches!`.
unfoldable pub agent_may : CommandKind → Bool
agent_may CommandKind.update_task = true
agent_may CommandKind.create_task = true
agent_may CommandKind.set_task_status = true
agent_may CommandKind.assign_task = true
agent_may CommandKind.claim_task = true
agent_may CommandKind.task_accept = true
agent_may CommandKind.decide_review = true
agent_may CommandKind.release_task = true
agent_may CommandKind.add_task_comment = true
agent_may CommandKind.send_message = true
agent_may CommandKind.ack_message = true
agent_may CommandKind.complete_message = true
agent_may CommandKind.request_approval = true
agent_may CommandKind.propose_memory = true
agent_may CommandKind.read_memory = true
agent_may CommandKind.publish_artifact = true
agent_may CommandKind.begin_artifact_upload = true
agent_may CommandKind.finalize_artifact_upload = true
agent_may CommandKind.create_work_item = true
agent_may CommandKind.drop_work_item = true
agent_may CommandKind.spawn_child_work_items = true
agent_may CommandKind.respond_work_offer = true
agent_may CommandKind.request_human_input = true
agent_may CommandKind.request_task_rework = true
agent_may _ = false

-- The second.
unfoldable pub owner_only : CommandKind → Bool
owner_only CommandKind.update_settings = true
owner_only CommandKind.create_project = true
owner_only CommandKind.clone_project = true
owner_only CommandKind.archive_project = true
owner_only CommandKind.create_agent = true
owner_only CommandKind.update_agent = true
owner_only CommandKind.archive_agent = true
owner_only CommandKind.create_role = true
owner_only CommandKind.update_role = true
owner_only CommandKind.archive_role = true
owner_only CommandKind.set_agent_role = true
owner_only CommandKind.create_taskboard = true
owner_only CommandKind.update_taskboard = true
owner_only CommandKind.archive_taskboard = true
owner_only CommandKind.save_organization_draft = true
owner_only CommandKind.publish_organization = true
owner_only CommandKind.create_connector_profile = true
owner_only CommandKind.update_connector_profile = true
owner_only CommandKind.archive_connector_profile = true
owner_only CommandKind.prepare_update = true
owner_only CommandKind.apply_update = true
owner_only CommandKind.rollback_update = true
owner_only CommandKind.request_organization_drain = true
owner_only CommandKind.resume_organization = true
owner_only CommandKind.fire_agent = true
owner_only CommandKind.grant_task_access = true
owner_only CommandKind.revoke_task_grant = true
owner_only _ = false

unfoldable pub authorize : CommandKind → ActorKind → DeviceRole → Result (Unit {0})
unfolding agent_may owner_only
authorize command actor_kind role =
    if is_pair command
    then ok tt
    else if is_system actor_kind
    then ok tt
    else refuse (is_agent actor_kind && not (agent_may command)) forbidden
      >> refuse (not (can_mutate role)) forbidden
      >> refuse (owner_only command && not (can_admin role)) forbidden
      >> ok tt
