-- ===== src/Tasks/SetStatus.antt =====
-- `reduce_set_task_status` of crates/frank-orchestrator/src/reduce/task/status_review.rs, composed of
-- its guards (Tasks/Checks), the start of a worktree (Provision) and what is written (Move).
pub mod Guards
pub mod Stages
pub mod After
use frank.Prelude.{
  ℕ, ◌+◌, String, Bool, true, false, not, ◌&&◌, ◌||◌, ◌==◌, Option, none, some, List, [], ◌∷◌, ◌++◌,
  ◌⊎◌, inl, inr, map, any, find, modify_first, is_some_of, is_some_and, is_none_or, is_some,
  is_none, and_then, option_eq, text_eq, concat, Result, ok, err, OrchestratorError, validation,
  invalid_transition, forbidden, not_found, ◌>>=◌, ◌>>◌, refuse, ok_or, if◌then◌else◌,
}
use frank.Protocol.Mission
use frank.Protocol.Task.{TaskStatus}
use frank.Protocol.Task
use frank.Protocol.Status.{
  TaskFeedKind, ReviewWorkItemStatus, OperationKind, OperationStatus, is_pending, is_agent,
  is_create_worktree, is_settled, is_queued,
}
use frank.Protocol.Records.{
  TaskView, MissionView, ProjectView, ActorRef, TaskGrantView, OperationView,
  CreateWorktreeOperation, ReviewWorkItemView, Snapshot, Env, Event, CommandResult, Reduced,
}
use frank.Organization.{
  is_live_agent, organization_allows_agent, organization_review_target,
  organization_review_contract,
}
use frank.Git.{WorktreePlan, workflow_allowed, branch_plan, task_plan_from_base}
use frank.Tasks.Feed.{has_id, find_task, find_mission, any_unfinished, set_task, append_task_feed}
use frank.Tasks.Locks.{update_dependency_locks, update_parent_child_locks}
use frank.Tasks.Assign.{actor_agent}
use frank.Tasks.Checks.{check_reviewer, review_target, check_runner, check_status}
use frank.Tasks.Provision.{
  worktree_operation_matches_task, pending_worktree, new_operation, or_encode_error, placed_task,
  place, find_project, provision,
}
use frank.Tasks.Move.{
  moved_task, ends_attempt, revoke_grant, move_task, is_open_review, answered, review_outcome,
  open_review, close_review, review_step, settle,
}

abbrev queued_worktree : Env → ℕ → OperationView → Bool
queued_worktree env task_id operation =
    is_create_worktree operation.kind
    && worktree_operation_matches_task env operation task_id
    && is_queued operation.status

unfoldable pub status_event :
    TaskStatus → TaskStatus → TaskView → ℕ → Option ReviewWorkItemView → Event
status_event before status task task_id none = Event.task_status_changed task_id status
status_event before status task task_id (some review) =
    if Task.is_review status
    then Event.review_work_item_opened task review
    else if Task.is_review before
    then Event.review_work_item_decided task review
    else Event.task_status_changed task_id status

unfoldable pub finish_status :
    Env
    → Snapshot
    → TaskView
    → TaskView
    → TaskStatus
    → Bool
    → Option ReviewWorkItemView
    → Result Reduced
finish_status env s task moved status provisioned review =
    if provisioned
    then (do
      operation ←
          ok_or (find (queued_worktree env task.id) s.operations)
            (validation "worktree operation disappeared before commit")
      ok (s, Event.task_worktree_provisioning moved operation, CommandResult.operation operation))
    else ok (s, status_event task.status status moved task.id review, CommandResult.accepted)

-- `snapshot.tasks[task_index]` after the move.
abbrev task_after : ℕ → TaskView → Snapshot → TaskView
task_after task_id task s = elim (find_task task_id s.tasks) [ none ↦ task | some moved ↦ moved ]

unfoldable pub reduce_set_task_status : Env → Snapshot → ℕ → TaskStatus → ActorRef → Result Reduced
reduce_set_task_status env s task_id status actor = do
  task ← ok_or (find_task task_id s.tasks) not_found
  target ← check_status env s task status actor
  placed ← (if Task.is_running status then provision env s task else ok (s, false))
  let moved = move_task task_id status target placed.0
  reviewed ← review_step env moved task status target
  finish_status env (settle env reviewed.0 task_id status actor) task
      (task_after task_id task moved) status placed.1 reviewed.1
