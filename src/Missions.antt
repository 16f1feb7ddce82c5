-- ===== src/Missions.antt =====
-- The mission commands of crates/frank-orchestrator/src/reduce/mission.rs that change a mission's
-- status or deliver it, and `pause_or_resume` of approval_flow.rs.
pub mod Guards
pub mod Delivery
use frank.Prelude.{
  ℕ, ◌+◌, String, Bool, true, false, not, ◌&&◌, ◌||◌, ◌==◌, Option, none, some, List, [], ◌∷◌, ◌++◌,
  any, find, modify_first, is_some_and, or_else, is_blank, text_eq, concat, if◌then◌else◌, Result,
  ok, err, ◌>>=◌, ◌>>◌, refuse, ok_or, OrchestratorError, validation, invalid_transition, not_found,
}
use frank.Protocol.Mission.{MissionStatus}
use frank.Protocol.Mission
use frank.Protocol.Task
use frank.Protocol.Status.{OperationKind, is_delivery, is_abandoned}
use frank.Protocol.Records.{
  MissionView, TaskView, AgentView, ProjectView, OperationView, Snapshot, Env, Event, CommandResult,
  Reduced,
}
use frank.Git.{workflow_allowed}
use frank.Tasks.Feed.{find_mission}
use frank.Tasks.Provision.{find_project, new_operation}

abbrev pub has_mission_id : ℕ → MissionView → Bool
has_mission_id mission_id mission = mission.id == mission_id

abbrev pub set_mission : ℕ → (MissionView → MissionView) → Snapshot → Snapshot
set_mission mission_id f s = record s {
  missions = modify_first (has_mission_id mission_id) f s.missions;
  draws = s.draws + 1;
}

-- A task of the mission, and one that is not Done.
abbrev pub planned : ℕ → List TaskView → Bool
planned mission_id tasks = any (λ task. task.mission_id == mission_id) tasks

abbrev pub unfinished : ℕ → List TaskView → Bool
unfinished mission_id tasks =
    any (λ task. task.mission_id == mission_id && not (Task.is_done task.status)) tasks

abbrev pub worker_with_model : AgentView → Bool
worker_with_model agent =
    not agent.archived
    && not (text_eq agent.display_name "Frank supervisor")
    && is_some_and (or_else agent.effective_model agent.model) (λ model. not (is_blank model))

abbrev pub git_check : Option String → Result (Unit {0})
git_check none = ok tt
git_check (some message) = err (validation message)

-- The checks before a mission becomes Active.
unfoldable pub check_start : Env → Snapshot → ℕ → MissionView → Result (Unit {0})
check_start env s mission_id mission = do
  refuse (not (planned mission_id s.tasks)) (validation "plan the mission before starting it")
  refuse (not (any worker_with_model s.agents))
      (validation "add a worker with an effective model before starting the mission")
  project ← ok_or (find_project mission.project_id s.projects) not_found
  refuse (not (workflow_allowed env project s.allowed_project_roots))
      (validation "configured path is outside the allowed project roots")
  git_check (env.validate_repository project)

abbrev pub moved_mission : MissionStatus → String → MissionView → MissionView
moved_mission status now mission = record mission {
  status = status;
  last_error = if Mission.is_active status then none else mission.last_error;
  updated_at = now;
}

abbrev transition_error : MissionStatus → MissionStatus → OrchestratorError
transition_error before after = invalid_transition (
    concat (
      "mission cannot transition from " ∷ Mission.debug before ∷ " to " ∷ Mission.debug after ∷ []))

unfoldable pub reduce_set_mission_status : Env → Snapshot → ℕ → MissionStatus → Result Reduced
reduce_set_mission_status env s mission_id status = do
  mission ← ok_or (find_mission mission_id s.missions) not_found
  refuse (not (Mission.can_transition_to mission.status status))
      (transition_error mission.status status)
  refuse
      (Mission.is_completed status
        && (not (planned mission_id s.tasks) || unfinished mission_id s.tasks))
      (validation "all mission tasks must be planned and done before completing the mission")
  (if Mission.is_active status then check_start env s mission_id mission else ok tt)
  ok (
    set_mission mission_id (moved_mission status (env.timestamp s.draws)) s,
    Event.mission_status_changed mission_id status,
    CommandResult.accepted,
  )

unfoldable pub reduce_retry_mission_plan : Env → Snapshot → ℕ → Result Reduced
reduce_retry_mission_plan env s mission_id = do
  mission ← ok_or (find_mission mission_id s.missions) not_found
  refuse (not (Mission.is_draft_or_blocked mission.status))
      (validation "only draft or blocked missions can retry planning")
  ok (
    set_mission mission_id (λ m. record m { last_error = none; updated_at = env.timestamp s.draws })
        s,
    Event.mission_status_changed mission_id mission.status,
    CommandResult.accepted,
  )

unfoldable pub pause_or_resume : Env → Snapshot → ℕ → MissionStatus → Result Reduced
pause_or_resume env s mission_id status = do
  mission ← ok_or (find_mission mission_id s.missions) not_found
  refuse (not (Mission.can_transition_to mission.status status))
      (transition_error mission.status status)
  ok (
    set_mission mission_id (λ m. record m { status = status; updated_at = env.timestamp s.draws })
        s,
    Event.mission_status_changed mission_id status,
    CommandResult.accepted,
  )

-- A delivery of the mission that was neither cancelled nor failed.
abbrev pub delivers : Env → ℕ → OperationView → Bool
delivers env mission_id operation =
    is_delivery operation.kind
    && text_eq operation.resource (env.show_uuid mission_id)
    && not (is_abandoned operation.status)

unfoldable pub start_delivery : Env → Snapshot → ℕ → Option OperationView → Reduced
start_delivery env s mission_id (some operation) =
    (s, Event.operation_changed operation, CommandResult.operation operation)
start_delivery env s mission_id none =
    let operation =
      new_operation env s.draws OperationKind.push_mission (env.show_uuid mission_id) "queued" in
    (
      record s { operations = s.operations ++ (operation ∷ []); draws = s.draws + 1 },
      Event.operation_changed operation,
      CommandResult.operation operation,
    )

unfoldable pub reduce_deliver_mission : Env → Snapshot → ℕ → Result Reduced
reduce_deliver_mission env s mission_id = do
  mission ← ok_or (find_mission mission_id s.missions) not_found
  refuse (not (Mission.is_completed mission.status) || unfinished mission_id s.tasks)
      (validation "all mission tasks must be accepted before delivery")
  ok (start_delivery env s mission_id (find (delivers env mission_id) s.operations))
