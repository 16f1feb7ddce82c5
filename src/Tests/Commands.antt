-- ===== src/Tests/Commands.antt =====
-- Runs of the check of a command's actor (crates/frank-orchestrator/src/validate.rs) and of the
-- approval commands (crates/frank-orchestrator/src/reduce/approval.rs).
use frank.Prelude.{
  ◌≡◌, refl, some, [], ◌∷◌, Result, ok, err, forbidden, if◌then◌else◌, here, there, parse_below,
  lower_contains,
}
use frank.Protocol.Task.{TaskStatus}
use frank.Protocol.Status.{ActorKind}
use frank.Protocol.Command.{CommandKind, DeviceRole}
use frank.Protocol.Messages.{ApprovalView, ApprovalStatus, ApprovalDecision}
use frank.Protocol.Records.{Snapshot, Reduced, Event, CommandResult, TaskGrantView, TaskGrantEffect}
use frank.Validate.Authorize.{authorize}
use frank.Validate.Authorize.Permits.{access, permits, authorize-permits}
use frank.Approvals.{decide_approval, decide, reduce_approval, reduce_decide_approval}
use frank.Approvals.Grant.{canonical_worktree, approval_grant, grant_for_task, task_grant_effect}
use frank.Approvals.Grants.{Source, reduce_approval-Source}
use frank.Tests.Data.{sample_env, sample_task, sample_grant, workspace, person}

authorize-permits_example :
    authorize CommandKind.fire_agent ActorKind.device DeviceRole.operator ≡ (
      if permits (access CommandKind.fire_agent) ActorKind.device DeviceRole.operator
      then ok tt
      else err forbidden)
authorize-permits_example =
    authorize-permits CommandKind.fire_agent ActorKind.device DeviceRole.operator

abbrev sample_approval : ApprovalView
sample_approval = record {
  id = 20;
  agent_id = 2;
  task_id = 5;
  operation = "workspace write";
  cwd = "/work";
  project = "frank";
  reason = "edit";
  status = ApprovalStatus.pending;
  expires_at = "2000";
}

abbrev asked : Snapshot
asked =
    record (workspace (sample_task 5 TaskStatus.running [] (some 2) ∷ []) (sample_grant 6 3 ∷ [])) {
      approvals = sample_approval ∷ [];
    }

abbrev value : Result Reduced → Reduced
value (ok r) = r
value (err e) = (asked, Event.task_released 0, CommandResult.accepted)

abbrev allowing : Result Reduced
allowing =
    reduce_approval sample_env asked (decide_approval 20 ApprovalDecision.allow_for_task) person

allowing-ok : allowing ≡ ok (value allowing)
unfolding reduce_approval reduce_decide_approval decide grant_for_task task_grant_effect
    canonical_worktree approval_grant parse_below lower_contains
allowing-ok = refl

abbrev new_grant : TaskGrantView
new_grant = approval_grant sample_env asked sample_approval TaskGrantEffect.workspace_write "/work"

reduce_approval-Source_example : Source sample_env asked new_grant
unfolding reduce_approval reduce_decide_approval decide grant_for_task task_grant_effect
    canonical_worktree approval_grant parse_below lower_contains
reduce_approval-Source_example =
    reduce_approval-Source sample_env asked (decide_approval 20 ApprovalDecision.allow_for_task)
      person (value allowing) new_grant allowing-ok (there here)
