-- ===== src/Validate/Authorize/Permits.antt =====
-- `authorize` by one table (crates/frank-orchestrator/src/validate.rs).
use frank.Prelude.{
  ◌≡◌, refl, Bool, true, false, not, ◌&&◌, ◌||◌, Result, ok, err, forbidden, refuse, ◌>>◌, arith,
  if◌then◌else◌,
}
use frank.Protocol.Status.{ActorKind, is_agent}
use frank.Protocol.Command.{CommandKind, DeviceRole, can_mutate, can_admin}
use frank.Validate.Authorize.{authorize, is_system, is_pair, agent_may, owner_only}

-- What a command asks of the one who gives it: nothing, a working agent or device, a device that
-- may change the workspace, or its owner.
pub data Access : Type 0 where
  open_to_all work operate administer : Access

pub access : CommandKind → Access
access CommandKind.pair = Access.open_to_all
access CommandKind.update_task = Access.work
access CommandKind.create_task = Access.work
access CommandKind.set_task_status = Access.work
access CommandKind.assign_task = Access.work
access CommandKind.claim_task = Access.work
access CommandKind.task_accept = Access.work
access CommandKind.decide_review = Access.work
access CommandKind.release_task = Access.work
access CommandKind.add_task_comment = Access.work
access CommandKind.send_message = Access.work
access CommandKind.ack_message = Access.work
access CommandKind.complete_message = Access.work
access CommandKind.request_approval = Access.work
access CommandKind.propose_memory = Access.work
access CommandKind.read_memory = Access.work
access CommandKind.publish_artifact = Access.work
access CommandKind.begin_artifact_upload = Access.work
access CommandKind.finalize_artifact_upload = Access.work
access CommandKind.create_work_item = Access.work
access CommandKind.drop_work_item = Access.work
access CommandKind.spawn_child_work_items = Access.work
access CommandKind.respond_work_offer = Access.work
access CommandKind.request_human_input = Access.work
access CommandKind.request_task_rework = Access.work
access CommandKind.create_mission = Access.operate
access CommandKind.set_mission_status = Access.operate
access CommandKind.retry_mission_plan = Access.operate
access CommandKind.create_work_offer = Access.operate
access CommandKind.resolve_human_input = Access.operate
access CommandKind.complete_organization_drain = Access.operate
access CommandKind.relocate_work_items = Access.operate
access CommandKind.decide_approval = Access.operate
access CommandKind.adjust_budget = Access.operate
access CommandKind.submit_supervisor_plan = Access.operate
access CommandKind.cancel_operation = Access.operate
access CommandKind.retry_operation = Access.operate
access CommandKind.check_for_update = Access.operate
access CommandKind.deliver_mission = Access.operate
access CommandKind.open_terminal = Access.operate
access CommandKind.take_control = Access.operate
access CommandKind.renew_control = Access.operate
access CommandKind.release_control = Access.operate
access CommandKind.close_terminal = Access.operate
access CommandKind.pause_mission = Access.operate
access CommandKind.resume_mission = Access.operate
access CommandKind.update_settings = Access.administer
access CommandKind.create_project = Access.administer
access CommandKind.clone_project = Access.administer
access CommandKind.archive_project = Access.administer
access CommandKind.create_agent = Access.administer
access CommandKind.update_agent = Access.administer
access CommandKind.archive_agent = Access.administer
access CommandKind.create_role = Access.administer
access CommandKind.update_role = Access.administer
access CommandKind.archive_role = Access.administer
access CommandKind.set_agent_role = Access.administer
access CommandKind.create_taskboard = Access.administer
access CommandKind.update_taskboard = Access.administer
access CommandKind.archive_taskboard = Access.administer
access CommandKind.save_organization_draft = Access.administer
access CommandKind.publish_organization = Access.administer
access CommandKind.create_connector_profile = Access.administer
access CommandKind.update_connector_profile = Access.administer
access CommandKind.archive_connector_profile = Access.administer
access CommandKind.prepare_update = Access.administer
access CommandKind.apply_update = Access.administer
access CommandKind.rollback_update = Access.administer
access CommandKind.request_organization_drain = Access.administer
access CommandKind.resume_organization = Access.administer
access CommandKind.fire_agent = Access.administer
access CommandKind.grant_task_access = Access.administer
access CommandKind.revoke_task_grant = Access.administer

-- Each class asks more than the one before; the system may do everything.
abbrev pub permits : Access → ActorKind → DeviceRole → Bool
permits Access.open_to_all kind role = true
permits Access.work kind role = is_system kind || can_mutate role
permits Access.operate kind role = is_system kind || (not (is_agent kind) && can_mutate role)
permits Access.administer kind role = is_system kind || (not (is_agent kind) && can_admin role)

-- The three tests of `authorize` on a command of each class.
abbrev tests : Access → Bool × Bool × Bool
tests Access.open_to_all = (true, false, false)
tests Access.work = (false, true, false)
tests Access.operate = (false, false, false)
tests Access.administer = (false, false, true)

tests-access :
    (command : CommandKind)
    → ◌≡◌ {A = Bool × Bool × Bool}
        (is_pair command, agent_may command, owner_only command)
        (tests (access command))
unfolding access agent_may owner_only
tests-access CommandKind.pair = refl
tests-access _ = refl

abbrev answer : Bool → Bool → Bool → ActorKind → DeviceRole → Result (Unit {0})
answer pair may only kind role =
    if pair
    then ok tt
    else if is_system kind
    then ok tt
    else refuse (is_agent kind && not may) forbidden
      >> refuse (not (can_mutate role)) forbidden
      >> refuse (only && not (can_admin role)) forbidden
      >> ok tt

answer-permits :
    (pair may only : Bool) (class : Access) (kind : ActorKind) (role : DeviceRole)
    → ◌≡◌ {A = Bool × Bool × Bool} (pair, may, only) (tests class)
    → answer pair may only kind role ≡ (if permits class kind role then ok tt else err forbidden)
answer-permits pair may only class kind role h = ground (arith, h)

-- A command is accepted exactly where the class of the command permits it to the kind of actor
-- with the role of its device; otherwise the answer is Forbidden.
pub authorize-permits :
    (command : CommandKind) (kind : ActorKind) (role : DeviceRole)
    → authorize command kind role
      ≡ (if permits (access command) kind role then ok tt else err forbidden)
unfolding authorize
authorize-permits command kind role =
    answer-permits (is_pair command) (agent_may command) (owner_only command) (access command) kind
      role (tests-access command)
