-- ===== src/Tasks/Locks.antt =====
-- `update_dependency_locks` and `update_parent_child_locks` of
-- crates/frank-orchestrator/src/reduce/task.rs.
pub mod Unique
pub mod Spec
use frank.Prelude.{
  ℕ, not, ◌&&◌, Option, none, some, List, [], ◌∷◌, map, contains, keep, and_then, if◌then◌else◌,
}
use frank.Protocol.Task.{TaskStatus}
use frank.Protocol.Task
use frank.Protocol.Status.{TaskFeedKind}
use frank.Protocol.Records.{TaskView, ActorRef, Snapshot, Env}
use frank.Tasks.Feed.{find_task, all_done, with_status, set_task, append_task_feed}

-- One round of the loop over the dependents, for the task that was found.
unfoldable pub relock : Env → ActorRef → TaskStatus → Snapshot → TaskView → Snapshot
relock env actor dependency_status s task =
    if Task.is_done dependency_status
      && all_done s.tasks task.dependencies
      && Task.is_blocked task.status
    then append_task_feed env (set_task task.id (with_status TaskStatus.ready) s) task.id actor
        TaskFeedKind.dependency_unlocked "Dependency completed; task is now available" []
    else if not (Task.is_done dependency_status) && Task.is_ready task.status
    then append_task_feed env (set_task task.id (with_status TaskStatus.blocked) s) task.id actor
        TaskFeedKind.dependency_locked "Task unavailable until its dependency is done" []
    else s

-- The loop body: a dependent that is no longer there is passed over.
unfoldable pub relock_one : Env → ActorRef → TaskStatus → ℕ → Snapshot → Snapshot
relock_one env actor dependency_status dependent s = elim (find_task dependent s.tasks) [
  | none ↦ s
  | some task ↦ relock env actor dependency_status s task
]

unfoldable pub relock_all : Env → ActorRef → TaskStatus → List ℕ → Snapshot → Snapshot
relock_all env actor dependency_status [] s = s
relock_all env actor dependency_status (dependent ∷ rest) s =
    relock_all env actor dependency_status rest (relock_one env actor dependency_status dependent s)

abbrev pub dependents : ℕ → List TaskView → List ℕ
dependents dependency_id tasks =
    map (λ task. task.id) (keep (λ task. contains task.dependencies dependency_id) tasks)

unfoldable pub update_dependency_locks : Env → Snapshot → ℕ → ActorRef → TaskStatus → Snapshot
update_dependency_locks env s dependency_id actor dependency_status =
    relock_all env actor dependency_status (dependents dependency_id s.tasks) s

-- The parent that was found: promote it when every child is done.
unfoldable pub promote_parent : Env → Snapshot → ActorRef → TaskView → Snapshot
promote_parent env s actor parent =
    if all_done s.tasks parent.child_task_ids && Task.is_blocked parent.status
    then append_task_feed env (set_task parent.id (with_status TaskStatus.ready) s) parent.id actor
        TaskFeedKind.dependency_unlocked "All child work items completed; parent is ready" []
    else s

unfoldable pub promote_found : Env → Snapshot → ActorRef → Option TaskView → Snapshot
promote_found env s actor none = s
promote_found env s actor (some parent) = promote_parent env s actor parent

unfoldable pub promote_of : Env → Snapshot → ActorRef → Option ℕ → Snapshot
unfolding promote_found
promote_of env s actor none = s
promote_of env s actor (some parent_id) = promote_found env s actor (find_task parent_id s.tasks)

unfoldable pub update_parent_child_locks : Env → Snapshot → ℕ → ActorRef → Snapshot
unfolding promote_of
update_parent_child_locks env s child_id actor =
    promote_of env s actor (and_then (find_task child_id s.tasks) (λ task. task.parent_task_id))
