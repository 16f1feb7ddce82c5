-- ===== src/Tests/Tasks.antt =====
-- Runs of the task handlers.
use frank.Prelude.{
  true, false, refl, ◌≡◌, ◌≢◌, some, [], ◌∷◌, Result, ok, err, All, any, map, contains, is_some_and,
  is_some_of, if◌then◌else◌, arith, ◌&&◌,
}
use frank.Protocol.Task.{TaskStatus}
use frank.Protocol.Task
use frank.Protocol.Status.{TaskClaimSource, TaskFeedKind, is_draining, is_available}
use frank.Protocol.Records.{Snapshot, Reduced, Event, CommandResult}
use frank.Organization.{organization_allows_agent, find_live_agent, organization_review_target}
use frank.Tasks.Feed.{find_task}
use frank.Tasks.Frame.{task_is}
use frank.Tasks.Assign.{assign_task, check_claim, check_handoff, holds_other, commit_claim}
use frank.Tasks.Assign.Claims.{
  assign_task_eligible, assign_task_exclusive, assign_task_taken, GrantOwned, claimable,
}
use frank.Tasks.Locks.{update_dependency_locks}
use frank.Tasks.Locks.Unique.{IsUnique}
use frank.Tasks.Locks.Spec.{tasks-update_dependency_locks, relocked}
use frank.Tasks.Checks.{check_reviewer, review_target, check_runner, check_status}
use frank.Tasks.Move.{review_step, open_review, close_review, move_task}
use frank.Tasks.SetStatus.{reduce_set_task_status, finish_status}
use frank.Tasks.SetStatus.Guards.{move_allowed}
use frank.Tasks.SetStatus.Stages.{set_task_status_allowed, set_task_status_revokes, GrantRevoked}
use frank.Tasks.SetStatus.After.{set_task_status_moved, has_status}
use frank.Tests.Data.{sample_env, sample_task, sample_grant, workspace, person, three_tasks}

abbrev three : Snapshot
three = workspace three_tasks (sample_grant 5 2 ∷ sample_grant 6 3 ∷ [])

abbrev value : Result Reduced → Reduced
value (ok r) = r
value (err e) = (three, Event.task_released 0, CommandResult.accepted)

abbrev next_of : Result Snapshot → Snapshot
next_of (ok s) = s
next_of (err e) = three

abbrev to_review : Result Reduced
to_review = reduce_set_task_status sample_env three 5 TaskStatus.review person

to_review-ok : to_review ≡ ok (value to_review)
unfolding reduce_set_task_status check_status check_reviewer review_target check_runner
    finish_status review_step open_review close_review organization_review_target
    Task.can_transition_to move_task
to_review-ok = refl

set_task_status_allowed_example :
    task_is (move_allowed three TaskStatus.review) 5 three_tasks ≡ true
set_task_status_allowed_example =
    set_task_status_allowed sample_env three 5 TaskStatus.review person (value to_review)
      to_review-ok

set_task_status_revokes_example : All (GrantRevoked 5) (value to_review).0.task_grants
set_task_status_revokes_example =
    set_task_status_revokes sample_env three 5 TaskStatus.review person (value to_review) refl
      to_review-ok

three-IsUnique : IsUnique three_tasks
three-IsUnique = ((refl, (refl, tt)), ((refl, tt), (tt, tt)))

set_task_status_moved_example :
    task_is (has_status TaskStatus.review) 5 (value to_review).0.tasks ≡ true
set_task_status_moved_example =
    set_task_status_moved sample_env three 5 TaskStatus.review person (value to_review)
      three-IsUnique to_review-ok

abbrev claim : Result Snapshot
claim = assign_task sample_env three 6 3 TaskClaimSource.manual TaskFeedKind.claimed person

claim-ok : claim ≡ ok (next_of claim)
unfolding assign_task check_claim check_handoff commit_claim organization_allows_agent
claim-ok = refl

assign_task_eligible_example :
    (organization_allows_agent three 3 ≡ true)
    × (is_draining three.drain_status ≡ false)
    × (is_some_and (find_live_agent three 3) (λ agent.
          is_available agent.status
          && is_some_and (find_task 6 three.tasks) (claimable three agent))
        ≡ true)
assign_task_eligible_example =
    assign_task_eligible sample_env three 6 3 TaskClaimSource.manual TaskFeedKind.claimed person
      (next_of claim) claim-ok

assign_task_exclusive_example :
    (is_some_and (find_task 6 (next_of claim).tasks) (λ t. is_some_of t.assigned_agent 3) ≡ true)
    × (any (holds_other 6 3) (next_of claim).tasks ≡ false)
    × All (GrantOwned 6 3) (next_of claim).task_grants
assign_task_exclusive_example =
    assign_task_exclusive sample_env three 6 3 TaskClaimSource.manual TaskFeedKind.claimed person
      (next_of claim) claim-ok

assign_task_taken_example :
    assign_task sample_env three 5 3 TaskClaimSource.manual TaskFeedKind.claimed person ≢ ok three
assign_task_taken_example =
    assign_task_taken sample_env three 5 3 TaskClaimSource.manual TaskFeedKind.claimed person
      (sample_task 5 TaskStatus.running (4 ∷ []) (some 2)) 2 three refl refl
      (λ e. ground (arith, e))

tasks-update_dependency_locks_example :
    (update_dependency_locks sample_env three 4 person TaskStatus.cancelled).tasks
    ≡ map
        (λ t. if contains t.dependencies 4 then relocked TaskStatus.cancelled three_tasks t else t)
        three_tasks
tasks-update_dependency_locks_example =
    tasks-update_dependency_locks sample_env three 4 person TaskStatus.cancelled three-IsUnique
