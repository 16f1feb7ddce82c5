-- ===== src/Tasks/Checks.antt =====
-- The guards of `reduce_set_task_status` (crates/frank-orchestrator/src/reduce/task/
-- status_review.rs), in the order of its checks.
use frank.Prelude.{
  ℕ, not, ◌&&◌, ◌||◌, Option, none, [], ◌∷◌, find, is_some_of, is_some_and, is_none_or, is_some,
  is_none, and_then, concat, Result, ok, validation, invalid_transition, forbidden, ◌>>=◌, ◌>>◌,
  refuse, ok_or, if◌then◌else◌,
}
use frank.Protocol.Task.{TaskStatus}
use frank.Protocol.Task
use frank.Protocol.Status.{is_agent}
use frank.Protocol.Records.{TaskView, ActorRef, Snapshot, Env}
use frank.Organization.{is_live_agent, organization_allows_agent, organization_review_target}
use frank.Tasks.Feed.{any_unfinished}
use frank.Tasks.Assign.{actor_agent}

-- An agent that answers a review is the task's reviewer.
unfoldable pub check_reviewer : Env → TaskView → TaskStatus → ActorRef → Result (Unit {0})
check_reviewer env task status actor =
    if Task.is_review task.status
      && (Task.is_running status || Task.is_done status)
      && is_agent actor.kind
    then (do
      reviewer ← ok_or (actor_agent env actor) forbidden
      refuse (not (is_some_of task.reviewer_agent reviewer)) forbidden)
    else ok tt

-- Only the staff member that holds a task sends it to review; the target is read from the graph.
unfoldable pub review_target : Env → Snapshot → TaskView → TaskStatus → ActorRef → Result (Option ℕ)
review_target env s task status actor =
    if Task.is_review status
    then (do
      source ←
          ok_or task.assigned_agent (validation "a review task must retain its source staff agent")
      refuse (is_agent actor.kind && not (is_some_of (actor_agent env actor) source)) forbidden
      ok (organization_review_target s source))
    else ok none

-- The checks on the worker of a task that starts to run.
unfoldable pub check_runner : Snapshot → TaskView → Result (Unit {0})
check_runner s task = do
  refuse (is_none_or task.assigned_agent (λ id. not (is_live_agent s id)))
      (validation "assign an active agent before running this task")
  refuse (is_some_and task.assigned_agent (λ id. not (organization_allows_agent s id)))
      (validation "running task agent is not an active Organization staff member")
  refuse
      (is_some_and task.required_role_id (λ role_id. not (
        is_some_of
          (and_then (find (λ agent. is_some_of task.assigned_agent agent.id) s.agents)
            (λ agent. agent.role_id))
          role_id)))
      (validation "running task must be assigned to a member of its role")

unfoldable pub check_status : Env → Snapshot → TaskView → TaskStatus → ActorRef → Result (Option ℕ)
check_status env s task status actor = do
  refuse (not (Task.can_transition_to task.status status)) (
      invalid_transition (
        concat (
          "task cannot transition from "
          ∷ Task.debug task.status
          ∷ " to "
          ∷ Task.debug status
          ∷ [])))
  check_reviewer env task status actor
  target ← review_target env s task status actor
  refuse (Task.is_review status && is_some s.published && is_none target)
      (validation "published Organization has no review target for this staff member")
  refuse
      ((Task.is_ready status || Task.is_running status) && any_unfinished s.tasks task.dependencies)
      (validation "task dependencies must be done before starting this task")
  if Task.is_running status then check_runner s task else ok tt
  refuse (Task.is_done status && any_unfinished s.tasks task.child_task_ids)
      (validation "parent work item cannot complete until every child is done")
  ok target
