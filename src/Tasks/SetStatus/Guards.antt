-- ===== src/Tasks/SetStatus/Guards.antt =====
-- What every accepted status change has been checked for.
use frank.Prelude.{◌≡◌, Bool, true, not, ◌&&◌, ◌||◌, is_some_and, ok, arith}
use frank.Protocol.Task.{TaskStatus}
use frank.Protocol.Task
use frank.Protocol.Records.{TaskView, ActorRef, Snapshot, Env}
use frank.Organization.{is_live_agent, organization_allows_agent}
use frank.Tasks.Feed.{all_done, unfinished-all_done}
use frank.Tasks.Checks.{check_runner, check_status}

-- The worker of a task: live, and admitted by the Organization.
abbrev pub has_worker : Snapshot → TaskView → Bool
has_worker s t =
    is_some_and t.assigned_agent (λ id. is_live_agent s id && organization_allows_agent s id)

abbrev pub implies : Bool → Bool → Bool
implies a b = not a || b

-- What a status change of task `t` to `status` has been checked for.
abbrev pub move_allowed : Snapshot → TaskStatus → TaskView → Bool
move_allowed s status t =
    Task.can_transition_to t.status status
    && implies (Task.is_ready status || Task.is_running status) (all_done s.tasks t.dependencies)
    && implies (Task.is_running status) (has_worker s t)
    && implies (Task.is_done status) (all_done s.tasks t.child_task_ids)

runner-has_worker : (s : Snapshot) (t : TaskView) → check_runner s t ≡ ok tt → has_worker s t ≡ true
unfolding check_runner
runner-has_worker s t h = ground arith

pub check_status-allowed :
    (env : Env) (s : Snapshot) (t : TaskView) (status : TaskStatus) (actor : ActorRef) (target : _)
    → check_status env s t status actor ≡ ok target
    → move_allowed s status t ≡ true
unfolding check_status
check_status-allowed env s t status actor target h = ground (
  arith,
  unfinished-all_done s.tasks t.dependencies,
  unfinished-all_done s.tasks t.child_task_ids,
  runner-has_worker s t,
)
