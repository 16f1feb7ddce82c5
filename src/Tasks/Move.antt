-- ===== src/Tasks/Move.antt =====
-- What a status change writes (crates/frank-orchestrator/src/reduce/task/status_review.rs): the
-- task, its grants, the review item, the feed and the locks.
use frank.Prelude.{
  ℕ, ◌+◌, String, Bool, true, false, ◌&&◌, ◌==◌, Option, none, some, [], ◌∷◌, ◌++◌, map, find,
  modify_first, is_none, concat, Result, ok, validation, ◌>>=◌, ok_or, if◌then◌else◌,
}
use frank.Protocol.Task.{TaskStatus}
use frank.Protocol.Task
use frank.Protocol.Status.{TaskFeedKind, ReviewWorkItemStatus, is_pending}
use frank.Protocol.Records.{TaskView, ActorRef, TaskGrantView, ReviewWorkItemView, Snapshot, Env}
use frank.Organization.{organization_review_contract}
use frank.Tasks.Feed.{has_id, append_task_feed}
use frank.Tasks.Locks.{update_dependency_locks, update_parent_child_locks}

-- The new status, and the reviewer that goes with it.
abbrev pub moved_task : TaskStatus → Option ℕ → TaskView → TaskView
moved_task status target task = record task {
  status = status;
  reviewer_agent =
      if Task.is_review status
      then target
      else if Task.is_review task.status
      then none
      else task.reviewer_agent;
}

-- `Review | Done | Cancelled`
abbrev pub ends_attempt : TaskStatus → Bool
ends_attempt TaskStatus.review = true
ends_attempt TaskStatus.done = true
ends_attempt TaskStatus.cancelled = true
ends_attempt _ = false

abbrev pub revoke_grant : ℕ → TaskGrantView → TaskGrantView
revoke_grant task_id grant =
    if grant.task_id == task_id then record grant { revoked = true } else grant

unfoldable pub move_task : ℕ → TaskStatus → Option ℕ → Snapshot → Snapshot
move_task task_id status target s = record s {
  tasks = modify_first (has_id task_id) (moved_task status target) s.tasks;
  task_grants =
      if ends_attempt status then map (revoke_grant task_id) s.task_grants else s.task_grants;
}

abbrev pub is_open_review : ℕ → ReviewWorkItemView → Bool
is_open_review task_id review = review.source_task_id == task_id && is_pending review.status

abbrev pub answered : String → ReviewWorkItemStatus → ReviewWorkItemView → ReviewWorkItemView
answered now status review = record review { status = status; updated_at = now }

-- The status that a review item takes when its task leaves Review.
abbrev pub review_outcome : TaskStatus → ReviewWorkItemStatus
review_outcome TaskStatus.done = ReviewWorkItemStatus.approved
review_outcome TaskStatus.running = ReviewWorkItemStatus.rejected
review_outcome TaskStatus.cancelled = ReviewWorkItemStatus.cancelled
review_outcome TaskStatus.blocked = ReviewWorkItemStatus.rejected
review_outcome _ = ReviewWorkItemStatus.cancelled

unfoldable pub open_review :
    Env → Snapshot → TaskView → Option ℕ → Result (Snapshot × Option ReviewWorkItemView)
open_review env s task target = if is_none s.published then ok (s, none) else (do
  source ← ok_or task.assigned_agent (validation "a review task must retain its source staff agent")
  reviewer ← ok_or target (validation "a published review task must have a reviewer")
  relation ←
      ok_or (organization_review_contract s source reviewer)
        (validation "published review relation is missing its contract")
  let review : ReviewWorkItemView = record {
    id = env.uuid s.draws;
    mission_id = task.mission_id;
    source_task_id = task.id;
    source_agent = source;
    reviewer_agent = reviewer;
    relation_id = relation.0;
    contract = relation.1;
    status = ReviewWorkItemStatus.pending;
    decision_reason = none;
    created_at = env.timestamp s.draws;
    updated_at = env.timestamp s.draws;
  }
  ok (record s { review_items = s.review_items ++ review ∷ []; draws = s.draws + 1 }, some review))

unfoldable pub close_review :
    Env → Snapshot → ℕ → ReviewWorkItemStatus → Snapshot × Option ReviewWorkItemView
close_review env s task_id outcome = elim (find (is_open_review task_id) s.review_items) [
  | none ↦ (s, none)
  | some review ↦ (
    record s {
      review_items =
          modify_first (is_open_review task_id) (answered (env.timestamp s.draws) outcome)
            s.review_items;
      draws = s.draws + 1;
    },
    some (answered (env.timestamp s.draws) outcome review),
  )
]

-- `task` is the task before the move, `moved` the same task after it.
unfoldable pub review_step :
    Env
    → Snapshot
    → TaskView
    → TaskStatus
    → Option ℕ
    → Result (Snapshot × Option ReviewWorkItemView)
review_step env s task status target =
    if Task.is_review status
    then open_review env s task target
    else if Task.is_review task.status
    then ok (close_review env s task.id (review_outcome status))
    else ok (s, none)

-- The feed entry and the locks that every status change ends with.
unfoldable pub settle : Env → Snapshot → ℕ → TaskStatus → ActorRef → Snapshot
settle env s task_id status actor =
    let logged =
      append_task_feed env s task_id actor TaskFeedKind.status_changed
        (concat ("Status changed to " ∷ Task.debug status ∷ [])) [] in
    let unlocked = update_dependency_locks env logged task_id actor status in
    if Task.is_done status then update_parent_child_locks env unlocked task_id actor else unlocked
