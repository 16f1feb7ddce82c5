-- ===== src/Approvals.antt =====
-- `reduce_approval` of crates/frank-orchestrator/src/reduce/approval.rs: requests and decisions, and
-- budgets; its child has the grants of a task.
pub mod Grant
pub mod Grants
use frank.Prelude.{
  ℕ, ◌+◌, String, Bool, true, false, not, ◌&&◌, ◌||◌, ◌==◌, Option, none, some, List, [], ◌∷◌, ◌++◌,
  any, find, modify_first, is_some_and, is_some_of, is_none, unwrap_or, leb, ltb, is_blank,
  has_control, byte_len, text_eq, concat, lower_contains, parse_below, u128_limit, show_number,
  if◌then◌else◌, Result, ok, err, ◌>>=◌, ◌>>◌, refuse, ok_or, OrchestratorError, validation,
  invalid_transition, forbidden, not_found,
}
use frank.Protocol.Task
use frank.Protocol.Task.{TaskStatus}
use frank.Protocol.Status.{is_agent}
use frank.Protocol.Status.{BudgetScope}
use frank.Protocol.Messages.{
  ApprovalView, ApprovalSpec, ApprovalStatus, ApprovalDecision, is_undecided,
}
use frank.Protocol.Records.{
  TaskView, TaskGrantView, TaskGrantEffect, ActorRef, Budget, Snapshot, Env, Event, CommandResult,
  Reduced,
}
use frank.Organization.{is_live_agent}
use frank.Tasks.Feed.{find_task, find_mission, set_task}
use frank.Validate.Checks.{max_message_body_bytes}
use frank.Approvals.Grant.{
  task_grant_effect, has_expired, canonical_worktree, approval_grant, push_grant, grant_at,
  grant_for, grant_with_effect, grant_for_task, direct_grant, direct_grant_at, direct_grant_for,
  reduce_grant_task_access, has_grant_id, revoke, reduce_revoke_task_grant,
}

abbrev bad_text : String → ℕ → Bool
bad_text text limit = ltb limit (byte_len text) || has_control text

unfoldable pub invalid_request : ApprovalSpec → Bool
invalid_request spec =
    is_blank spec.operation
    || is_blank spec.reason
    || bad_text spec.operation 4096
    || bad_text spec.reason max_message_body_bytes
    || bad_text spec.cwd 4096
    || bad_text spec.project 4096

-- `actor.id == Some(id.to_string())`
abbrev is_actor : Env → ActorRef → ℕ → Bool
is_actor env actor id = is_some_and actor.id (λ text. text_eq text (env.show_uuid id))

unfoldable pub new_approval : Env → Snapshot → ApprovalSpec → ApprovalView
new_approval env s spec = record {
  id = env.uuid s.draws;
  agent_id = spec.agent_id;
  task_id = spec.task_id;
  operation = spec.operation;
  cwd = spec.cwd;
  project = spec.project;
  reason = spec.reason;
  status = ApprovalStatus.pending;
  expires_at = show_number (env.seconds s.draws + s.approval_ttl_seconds);
}

unfoldable pub reduce_request_approval : Env → Snapshot → ApprovalSpec → ActorRef → Result Reduced
reduce_request_approval env s spec actor = do
  refuse (invalid_request spec) (validation "approval operation or reason is invalid")
  task ← ok_or (find_task spec.task_id s.tasks) not_found
  refuse (not (is_live_agent s spec.agent_id) || is_none (find_mission task.mission_id s.missions))
      not_found
  refuse (is_agent actor.kind && not (is_actor env actor spec.agent_id)) forbidden
  let approval = new_approval env s spec
  ok (
    record s { approvals = s.approvals ++ approval ∷ []; draws = s.draws + 1 },
    Event.approval_requested approval,
    CommandResult.created (env.show_uuid approval.id),
  )

abbrev has_approval_id : ℕ → ApprovalView → Bool
has_approval_id id approval = approval.id == id

abbrev pub find_approval : ℕ → List ApprovalView → Option ApprovalView
find_approval id approvals = find (has_approval_id id) approvals

abbrev pub set_approval : ℕ → ApprovalStatus → Snapshot → Snapshot
set_approval id status s = record s {
  approvals = modify_first (has_approval_id id) (λ a. record a { status = status }) s.approvals;
}

abbrev pub decided_status : ApprovalDecision → ApprovalStatus
decided_status ApprovalDecision.deny_once = ApprovalStatus.denied
decided_status _ = ApprovalStatus.approved

abbrev pub is_for_task : ApprovalDecision → Bool
is_for_task ApprovalDecision.allow_for_task = true
is_for_task _ = false

unfoldable pub decide : Env → Snapshot → ApprovalView → ApprovalDecision → Result Reduced
decide env s approval decision =
    if has_expired approval.expires_at (env.seconds s.draws)
    then ok (
      set_approval approval.id ApprovalStatus.expired s,
      Event.approval_expired approval.id,
      CommandResult.accepted,
    )
    else if is_for_task decision
    then grant_for_task env (set_approval approval.id (decided_status decision) s) approval
    else ok (
      set_approval approval.id (decided_status decision) s,
      Event.approval_decided approval.id decision,
      CommandResult.accepted,
    )

abbrev pub decide_undecided : Env → Snapshot → ApprovalDecision → ApprovalView → Result Reduced
decide_undecided env s decision approval = do
  refuse (not (is_undecided approval.status)) (invalid_transition "approval is no longer pending")
  decide env s approval decision

unfoldable pub reduce_decide_approval : Env → Snapshot → ℕ → ApprovalDecision → Result Reduced
reduce_decide_approval env s approval_id decision = do
  approval ← ok_or (find_approval approval_id s.approvals) not_found
  decide_undecided env s decision approval

-- The snapshot with the new budget, where the target is there.
unfoldable pub set_budget : Env → Snapshot → BudgetScope → String → Budget → Result Snapshot
set_budget env s BudgetScope.mission scope_id budget = do
  id ← ok_or (env.parse_uuid scope_id) not_found
  mission ← ok_or (find_mission id s.missions) not_found
  ok (record s {
    missions = modify_first (λ m. m.id == id) (λ m. record m { budget = budget }) s.missions;
  })
set_budget env s BudgetScope.agent scope_id budget = do
  id ← ok_or (env.parse_uuid scope_id) not_found
  agent ← ok_or (find (λ a. a.id == id) s.agents) not_found
  ok (record s {
    agents = modify_first (λ a. a.id == id) (λ a. record a { budget = budget }) s.agents;
  })
set_budget env s BudgetScope.task scope_id budget = do
  id ← ok_or (env.parse_uuid scope_id) not_found
  task ← ok_or (find_task id s.tasks) not_found
  ok (set_task id (λ t. record t { budget = budget }) s)

unfoldable pub reduce_adjust_budget :
    Env → Snapshot → BudgetScope → String → Budget → Result Reduced
reduce_adjust_budget env s scope scope_id budget = do
  refuse (is_blank scope_id) (validation "budget scope id is required")
  s' ← set_budget env s scope scope_id budget
  ok (
    s',
    Event.budget_paused scope (concat ("budget updated for " ∷ scope_id ∷ [])),
    CommandResult.accepted,
  )

pub data ApprovalCommand : Type 0 where
  request_approval : ApprovalSpec → ApprovalCommand
  decide_approval : ℕ → ApprovalDecision → ApprovalCommand
  grant_task_access : ℕ → ℕ → String → TaskGrantEffect → String → ApprovalCommand
  revoke_task_grant : String → ApprovalCommand
  adjust_budget : BudgetScope → String → Budget → ApprovalCommand

unfoldable pub reduce_approval : Env → Snapshot → ApprovalCommand → ActorRef → Result Reduced
reduce_approval env s (request_approval spec) actor = reduce_request_approval env s spec actor
reduce_approval env s (decide_approval id decision) actor = reduce_decide_approval env s id decision
reduce_approval env s (grant_task_access task_id agent_id worktree effect expires_at) actor =
    reduce_grant_task_access env s task_id agent_id worktree effect expires_at actor
reduce_approval env s (revoke_task_grant grant_id) actor = reduce_revoke_task_grant s grant_id
reduce_approval env s (adjust_budget scope scope_id budget) actor =
    reduce_adjust_budget env s scope scope_id budget
