-- ===== src/Tasks/Review.antt =====
-- `reduce_task_accept` and `reduce_decide_review` of
-- crates/frank-orchestrator/src/reduce/task/status_review.rs.
use frank.Prelude.{
  ℕ, ◌+◌, String, Bool, true, false, not, ◌&&◌, ◌||◌, ◌==◌, Option, none, some, [], ◌∷◌, ◌++◌, any,
  find, modify_first, is_some_of, is_some_and, is_some, text_eq, is_blank, trim, Result, ok,
  validation, invalid_transition, forbidden, not_found, ◌>>=◌, ◌>>◌, refuse, ok_or, if◌then◌else◌,
}
use frank.Protocol.Task.{TaskStatus}
use frank.Protocol.Task
use frank.Protocol.Status.{
  TaskFeedKind, ReviewWorkItemStatus, ReviewDecision, OperationKind, is_pending, is_approved,
  is_agent, is_commit_task, is_in_flight,
}
use frank.Protocol.Records.{
  TaskView, ActorRef, OperationView, ReviewWorkItemView, Snapshot, Env, Event, CommandResult,
  Reduced,
}
use frank.Organization.{organization_allows_review}
use frank.Git.{is_allowed_path}
use frank.Validate.{valid_content_text}
use frank.Tasks.Feed.{find_task, any_unfinished, with_status, set_task, append_task_feed}
use frank.Tasks.Locks.{update_dependency_locks, update_parent_child_locks}
use frank.Tasks.Assign.{actor_agent}
use frank.Tasks.Provision.{new_operation}
use frank.Tasks.Move.{close_review}
use frank.Tasks.SetStatus.{reduce_set_task_status}

-- The reviewer of a task that an agent accepts.
unfoldable pub check_acceptor : Env → Snapshot → TaskView → ActorRef → Result (Unit {0})
check_acceptor env s task actor =
    if is_agent actor.kind
    then (do
      reviewer ← ok_or (actor_agent env actor) forbidden
      source ←
          ok_or task.assigned_agent (validation "a review task must retain its source staff agent")
      refuse
          (is_some s.published
            && (not (is_some_of task.reviewer_agent reviewer)
                || not (organization_allows_review s source reviewer)))
          forbidden)
    else ok tt

abbrev queued_commit : Env → ℕ → OperationView → Bool
queued_commit env task_id operation =
    is_commit_task operation.kind
    && text_eq operation.resource (env.show_uuid task_id)
    && is_in_flight operation.status

-- A task with a worktree: the acceptance is queued as a Git operation, and the status stays.
unfoldable pub queue_commit : Env → Snapshot → ℕ → String → Result Reduced
queue_commit env s task_id worktree = do
  refuse (not (is_allowed_path env worktree s.allowed_project_roots) || not (env.is_dir worktree))
      (validation "task worktree is outside the allowed project roots")
  refuse (any (queued_commit env task_id) s.operations)
      (invalid_transition "task acceptance is already queued")
  let operation =
      new_operation env s.draws OperationKind.commit_task (env.show_uuid task_id) "validate"
  let queued = record s { operations = s.operations ++ operation ∷ []; draws = s.draws + 1 }
  ok (
    (close_review env queued task_id ReviewWorkItemStatus.approved).0,
    Event.operation_changed operation,
    CommandResult.operation operation,
  )

abbrev approved_review : ℕ → ReviewWorkItemView → Bool
approved_review task_id review = review.source_task_id == task_id && is_approved review.status

-- A task without a worktree is done at once.
unfoldable pub accept_now : Env → Snapshot → ℕ → TaskView → ActorRef → Reduced
accept_now env s task_id task actor =
    let done = set_task task_id (with_status TaskStatus.done) s in
    let logged =
      append_task_feed env done task_id actor TaskFeedKind.status_changed
        "Task accepted and marked done" [] in
    let unlocked = update_dependency_locks env logged task_id actor TaskStatus.done in
    let promoted = update_parent_child_locks env unlocked task_id actor in
    let (closed, _) = close_review env promoted task_id ReviewWorkItemStatus.approved in
    (
      closed,
      elim (find (approved_review task_id) closed.review_items) [
        | none ↦ Event.task_status_changed task_id TaskStatus.done
        | some review ↦ Event.review_work_item_decided (with_status TaskStatus.done task) review
      ],
      CommandResult.accepted,
    )

unfoldable pub reduce_task_accept : Env → Snapshot → ℕ → ActorRef → Result Reduced
reduce_task_accept env s task_id actor = do
  task ← ok_or (find_task task_id s.tasks) not_found
  refuse (not (Task.is_review task.status))
      (invalid_transition "only a task in review can be accepted")
  refuse (any_unfinished s.tasks task.child_task_ids)
      (validation "parent work item cannot be accepted until every child is done")
  check_acceptor env s task actor
  elim task.worktree [
    | some worktree ↦ queue_commit env s task_id worktree
    | none ↦ ok (accept_now env s task_id task actor)
  ]

-- The decision is carried out by the command that it stands for.
unfoldable pub decided :
    Env → Snapshot → ReviewWorkItemView → ReviewDecision → ActorRef → Result Reduced
decided env s review ReviewDecision.approve actor =
    reduce_task_accept env s review.source_task_id actor
decided env s review ReviewDecision.reject actor =
    reduce_set_task_status env s review.source_task_id TaskStatus.running actor

-- `reason.filter(|r| !r.trim().is_empty()).map(|r| r.trim().to_owned())`
abbrev kept_reason : Option String → Option String
kept_reason none = none
kept_reason (some reason) = if is_blank reason then none else some (trim reason)

abbrev pub has_review_id : ℕ → ReviewWorkItemView → Bool
has_review_id id item = item.id == id

abbrev is_status_event : Event → Bool
is_status_event (Event.task_status_changed task_id status) = true
is_status_event _ = false

-- The reason is kept on the review item, and a plain status event becomes a decision.
unfoldable pub record_reason :
    Env → ReviewWorkItemView → ℕ → Option String → Reduced → Result Reduced
record_reason env review review_item_id reason (next, event, result) =
    elim (find (has_review_id review_item_id) next.review_items) [
      | none ↦ ok (next, event, result)
      | some item ↦
          let explain = λ (i : ReviewWorkItemView). record i {
            decision_reason = kept_reason reason;
            updated_at = env.timestamp next.draws;
          } in
          let noted = record next {
            review_items = modify_first (has_review_id review_item_id) explain next.review_items;
            draws = next.draws + 1;
          } in
          if is_status_event event
          then (do
            task ← ok_or (find_task review.source_task_id next.tasks) not_found
            ok (noted, Event.review_work_item_decided task (explain item), result))
          else ok (noted, event, result)
    ]

unfoldable pub check_decider : Env → Snapshot → ReviewWorkItemView → ActorRef → Result (Unit {0})
check_decider env s review actor =
    if is_agent actor.kind
    then (do
      reviewer ← ok_or (actor_agent env actor) forbidden
      refuse
          (not (reviewer == review.reviewer_agent)
            || not (organization_allows_review s review.source_agent review.reviewer_agent))
          forbidden)
    else ok tt

unfoldable pub reduce_decide_review :
    Env → ℕ → Snapshot → ℕ → ReviewDecision → Option String → ActorRef → Result Reduced
reduce_decide_review env max_message_bytes s review_item_id decision reason actor = do
  refuse (is_some_and reason (λ r. not (valid_content_text r max_message_bytes)))
      (validation "review decision reason is empty or exceeds the message limit")
  review ← ok_or (find (has_review_id review_item_id) s.review_items) not_found
  refuse (not (is_pending review.status))
      (invalid_transition "review work item has already been decided")
  check_decider env s review actor
  reduced ← decided env s review decision actor
  record_reason env review review_item_id reason reduced
