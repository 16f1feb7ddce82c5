-- ===== src/Tasks/Provision.antt =====
-- The worktree of a task that starts to run (crates/frank-orchestrator/src/reduce/task/
-- status_review.rs): the plan on the task, and the operation that makes it.
use frank.Prelude.{
  ℕ, ◌+◌, String, Bool, true, false, not, ◌&&◌, ◌==◌, Option, none, some, List, [], ◌∷◌, ◌++◌, ◌⊎◌,
  inl, inr, any, find, text_eq, Result, ok, err, validation, not_found, ◌>>=◌, ◌>>◌, refuse, ok_or,
  if◌then◌else◌,
}
use frank.Protocol.Mission
use frank.Protocol.Status.{OperationKind, OperationStatus, is_create_worktree, is_settled}
use frank.Protocol.Records.{
  TaskView, MissionView, ProjectView, OperationView, CreateWorktreeOperation, Snapshot, Env,
}
use frank.Git.{WorktreePlan, workflow_allowed, branch_plan, task_plan_from_base}
use frank.Tasks.Feed.{find_mission, set_task}

-- `worktree_operation_matches_task` (helpers.rs)
unfoldable pub worktree_operation_matches_task : Env → OperationView → ℕ → Bool
worktree_operation_matches_task env operation task_id =
    is_create_worktree operation.kind && elim (env.decode_worktree operation.resource) [
      | none ↦ text_eq operation.resource (env.show_uuid task_id)
      | some request ↦ request.task_id == task_id
    ]

abbrev pub pending_worktree : Env → ℕ → OperationView → Bool
pending_worktree env task_id operation =
    is_create_worktree operation.kind
    && worktree_operation_matches_task env operation task_id
    && not (is_settled operation.status)

abbrev pub new_operation : Env → ℕ → OperationKind → String → String → OperationView
new_operation env draw kind resource phase = record {
  id = env.uuid draw;
  kind = kind;
  status = OperationStatus.queued;
  resource = resource;
  phase = phase;
  attempt = 0;
  error = none;
  created_at = env.timestamp draw;
  updated_at = env.timestamp draw;
}

abbrev pub or_encode_error : String ⊎ String → Result String
or_encode_error (inl message) = err (validation message)
or_encode_error (inr text) = ok text

worktree_request : Env → ProjectView → MissionView → ℕ → CreateWorktreeOperation
worktree_request env project mission task_id =
    let mission_plan = branch_plan project mission.branch project.base_branch in
    let task_plan = task_plan_from_base env project task_id mission.branch in
    record {
      project_id = mission.project_id;
      mission_id = mission.id;
      mission_branch = mission_plan.branch;
      mission_base = mission_plan.base;
      mission_path = mission_plan.path;
      task_id = task_id;
      task_branch = task_plan.branch;
      task_base = task_plan.base;
      task_path = task_plan.path;
    }

abbrev pub placed_task : WorktreePlan → TaskView → TaskView
placed_task plan task = record task { worktree = some plan.path; branch = some plan.branch }

-- The place of the worktree is written on the task, and the operation that makes it is queued
-- unless one is pending. The Boolean says that one was queued.
unfoldable pub place :
    Env → Snapshot → TaskView → MissionView → ProjectView → Result (Snapshot × Bool)
unfolding worktree_request
place env s task mission project =
    let plan = task_plan_from_base env project task.id mission.branch in
    let placed = set_task task.id (placed_task plan) s in
    if any (pending_worktree env task.id) s.operations then ok (placed, false) else (do
      resource ←
          or_encode_error (env.encode_worktree (worktree_request env project mission task.id))
      ok (
        record placed {
          operations =
              placed.operations
              ++ new_operation env s.draws OperationKind.create_worktree resource "queued" ∷ [];
          draws = s.draws + 1;
        },
        true,
      ))

abbrev pub find_project : ℕ → List ProjectView → Option ProjectView
find_project id projects = find (λ project. project.id == id && not project.archived) projects

-- A task that starts to run wants an active mission and a project in an allowed place.
unfoldable pub provision : Env → Snapshot → TaskView → Result (Snapshot × Bool)
provision env s task = do
  mission ← ok_or (find_mission task.mission_id s.missions) not_found
  refuse (not (Mission.is_active mission.status))
      (validation "a task can run only while its mission is active")
  project ← ok_or (find_project mission.project_id s.projects) not_found
  refuse (not (workflow_allowed env project s.allowed_project_roots))
      (validation "configured path is outside the allowed project roots")
  place env s task mission project
