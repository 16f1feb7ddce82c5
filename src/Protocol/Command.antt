-- ===== src/Protocol/Command.antt =====
-- The kinds of command of crates/frank-protocol/src/command.rs: the constructors of `Command`
-- without what they carry.
use frank.Prelude.{Bool, true, false}

pub data CommandKind : Type 0 where
  pair update_settings create_project clone_project archive_project create_agent : CommandKind
  update_agent archive_agent create_role update_role archive_role set_agent_role : CommandKind
  create_taskboard update_taskboard archive_taskboard save_organization_draft : CommandKind
  publish_organization create_connector_profile update_connector_profile : CommandKind
  archive_connector_profile create_mission set_mission_status retry_mission_plan : CommandKind
  create_task create_work_item drop_work_item spawn_child_work_items update_task : CommandKind
  set_task_status assign_task claim_task release_task create_work_offer : CommandKind
  respond_work_offer add_task_comment request_human_input resolve_human_input : CommandKind
  request_task_rework request_organization_drain complete_organization_drain : CommandKind
  resume_organization relocate_work_items fire_agent send_message ack_message : CommandKind
  complete_message request_approval decide_approval grant_task_access : CommandKind
  revoke_task_grant adjust_budget propose_memory read_memory publish_artifact : CommandKind
  begin_artifact_upload finalize_artifact_upload task_accept decide_review : CommandKind
  submit_supervisor_plan cancel_operation retry_operation check_for_update : CommandKind
  prepare_update apply_update rollback_update deliver_mission open_terminal : CommandKind
  take_control renew_control release_control close_terminal pause_mission : CommandKind
  resume_mission : CommandKind

pub data DeviceRole : Type 0 where
  owner operator observer : DeviceRole

abbrev pub can_mutate : DeviceRole → Bool
can_mutate DeviceRole.observer = false
can_mutate _ = true

abbrev pub can_admin : DeviceRole → Bool
can_admin DeviceRole.owner = true
can_admin _ = false
