-- ===== src/Tasks/Machine.antt =====
-- `reduce_task` of crates/frank-orchestrator/src/reduce/task.rs, the dispatcher of the task
-- commands, and the runs of commands that it makes.
pub mod Shape
pub mod Status
pub mod Entries
pub mod Added
pub mod WellFormed
use frank.Prelude.{ℕ, ◌≡◌, String, false, Option, List, contains, ok, Result}
use frank.Protocol.Task.{TaskStatus}
use frank.Protocol.Status.{TaskClaimSource, ReviewDecision}
use frank.Protocol.Records.{
  TaskView, TaskSpec, TaskPatch, ActorRef, Snapshot, Env, Event, CommandResult, Reduced,
}
use frank.Validate.Cycle.{nodes}
use frank.Validate.Checks.{task_entries}
use frank.Tasks.Assign.{
  reduce_assign_task, reduce_claim_task, reduce_release_task, reduce_add_task_comment,
}
use frank.Tasks.SetStatus.{reduce_set_task_status}
use frank.Tasks.Review.{reduce_task_accept, reduce_decide_review}
use frank.Tasks.Create.{reduce_create_task, reduce_update_task}

-- The commands of `Command` that concern tasks.
pub data TaskCommand : Type 0 where
  create_task : TaskSpec → TaskCommand
  update_task : ℕ → TaskPatch → TaskCommand
  set_task_status : ℕ → TaskStatus → TaskCommand
  assign_task : ℕ → ℕ → TaskCommand
  claim_task : ℕ → ℕ → TaskClaimSource → TaskCommand
  release_task : ℕ → TaskCommand
  add_task_comment : ℕ → String → List ℕ → TaskCommand
  task_accept : ℕ → TaskCommand
  decide_review : ℕ → ReviewDecision → Option String → TaskCommand

unfoldable pub reduce_task : Env → ℕ → Snapshot → TaskCommand → ActorRef → Result Reduced
reduce_task env limit s (create_task spec) actor = reduce_create_task env s spec actor
reduce_task env limit s (update_task task_id patch) actor =
    reduce_update_task env s task_id patch actor
reduce_task env limit s (set_task_status task_id status) actor =
    reduce_set_task_status env s task_id status actor
reduce_task env limit s (assign_task task_id agent_id) actor =
    reduce_assign_task env s task_id agent_id actor
reduce_task env limit s (claim_task task_id agent_id source) actor =
    reduce_claim_task env s task_id agent_id source actor
reduce_task env limit s (release_task task_id) actor = reduce_release_task env s task_id actor
reduce_task env limit s (add_task_comment task_id body artifact_ids) actor =
    reduce_add_task_comment env limit s task_id body artifact_ids actor
reduce_task env limit s (task_accept task_id) actor = reduce_task_accept env s task_id actor
reduce_task env limit s (decide_review review_item_id decision reason) actor =
    reduce_decide_review env limit s review_item_id decision reason actor

-- The identifier that is drawn next is new to the tasks and their dependencies.
abbrev pub Fresh : Env → Snapshot → Type 0
Fresh env s = contains (nodes (task_entries s.tasks)) (env.uuid s.draws) ≡ false

-- Accepted commands, one after the other; a rejected command changes nothing.
pub data Run (env : Env) (limit : ℕ) : Snapshot → Snapshot → Type 0 where
  idle : {s : Snapshot} → Run env limit s s
  step :
      {s s' : Snapshot} (command : TaskCommand) (actor : ActorRef) (r : Reduced)
      → Fresh env s
      → reduce_task env limit s command actor ≡ ok r
      → Run env limit r.0 s'
      → Run env limit s s'
