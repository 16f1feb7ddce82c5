-- ===== src/Approvals/Grant.antt =====
-- The grants of crates/frank-orchestrator/src/reduce/approval.rs: what `AllowForTask` grants, and the
-- direct grant of access and its revocation. `Path::is_dir` and `std::fs::canonicalize` are fields of `Env`; a canonical path is
-- its text.
use frank.Prelude.{
  ℕ, ◌+◌, String, Bool, true, false, not, ◌||◌, Option, none, some, [], ◌∷◌, ◌++◌, find,
  modify_first, is_some_of, unwrap_or, leb, is_blank, text_eq, lower_contains, parse_below,
  u128_limit, if◌then◌else◌, Result, ok, ◌>>=◌, ◌>>◌, refuse, ok_or, validation, forbidden,
  not_found,
}
use frank.Protocol.Task
use frank.Protocol.Task.{TaskStatus}
use frank.Protocol.Status.{is_agent}
use frank.Protocol.Messages.{ApprovalView}
use frank.Protocol.Records.{
  TaskView, TaskGrantView, TaskGrantEffect, ActorRef, Snapshot, Env, Event, CommandResult, Reduced,
}
use frank.Organization.{is_live_agent}
use frank.Tasks.Feed.{find_task}

-- What a grant for the operation would allow, if one may be made at all.
unfoldable pub task_grant_effect : String → Option TaskGrantEffect
task_grant_effect operation =
    if lower_contains operation "network"
      || lower_contains operation "credential"
      || lower_contains operation "sudo"
      || lower_contains operation "privileged"
      || lower_contains operation "external"
    then none
    else if lower_contains operation "check"
        || lower_contains operation "test"
        || lower_contains operation "build"
    then some TaskGrantEffect.check
    else if lower_contains operation "workspace"
        || lower_contains operation "write"
        || lower_contains operation "mcp-tool"
    then some TaskGrantEffect.workspace_write
    else none

-- The time text has passed, or is none.
abbrev pub has_expired : String → ℕ → Bool
has_expired expires_at now = leb (unwrap_or (parse_below u128_limit expires_at) 0) now

-- The worktree of the task, where it is the one that is asked for. The last test is the caller's.
unfoldable pub canonical_worktree : Env → TaskView → String → String → Result (String × String)
canonical_worktree env task asked unavailable = do
  worktree ← ok_or task.worktree (validation "task has no canonical worktree")
  own ← ok_or (env.canonicalize worktree) (validation "task worktree is unavailable")
  other ← ok_or (env.canonicalize asked) (validation unavailable)
  ok (own, other)

unfoldable pub approval_grant :
    Env → Snapshot → ApprovalView → TaskGrantEffect → String → TaskGrantView
approval_grant env s approval effect worktree = record {
  id = env.show_uuid (env.uuid s.draws);
  task_id = approval.task_id;
  agent_id = approval.agent_id;
  worktree = worktree;
  effect = effect;
  expires_at = approval.expires_at;
  revoked = false;
  source_approval_id = some approval.id;
}

abbrev pub push_grant : TaskGrantView → Snapshot → Snapshot
push_grant grant s = record s { task_grants = s.task_grants ++ grant ∷ []; draws = s.draws + 1 }

-- The last test of `AllowForTask`, on the two resolved paths, and the grant.
abbrev pub grant_at :
    Env → Snapshot → ApprovalView → TaskGrantEffect → String × String → Result Reduced
grant_at env s approval effect paths = do
  refuse (not (text_eq paths.0 paths.1) || not (env.is_dir paths.0))
      (validation "approval worktree does not match the task worktree")
  let grant = approval_grant env s approval effect paths.0
  ok (push_grant grant s, Event.task_grant_created grant, CommandResult.accepted)

abbrev pub grant_for : Env → Snapshot → ApprovalView → TaskGrantEffect → TaskView → Result Reduced
grant_for env s approval effect task = do
  refuse
      (not (is_some_of task.assigned_agent approval.agent_id) || not (Task.is_started task.status))
      (validation "a task grant must match the active assigned task")
  paths ← canonical_worktree env task approval.cwd "approval worktree is unavailable"
  grant_at env s approval effect paths

abbrev pub grant_with_effect : Env → Snapshot → ApprovalView → TaskGrantEffect → Result Reduced
grant_with_effect env s approval effect = do
  task ← ok_or (find_task approval.task_id s.tasks) not_found
  grant_for env s approval effect task

-- `AllowForTask`, on the snapshot where the approval is approved.
unfoldable pub grant_for_task : Env → Snapshot → ApprovalView → Result Reduced
grant_for_task env s approval = do
  effect ←
      ok_or (task_grant_effect approval.operation)
        (validation "only workspace writes and non-network checks can be granted for a task")
  grant_with_effect env s approval effect

unfoldable pub direct_grant :
    Env → Snapshot → ℕ → ℕ → TaskGrantEffect → String → String → TaskGrantView
direct_grant env s task_id agent_id effect expires_at worktree = record {
  id = env.show_uuid (env.uuid s.draws);
  task_id = task_id;
  agent_id = agent_id;
  worktree = worktree;
  effect = effect;
  expires_at = expires_at;
  revoked = false;
  source_approval_id = none;
}

-- The last test of `reduce_grant_task_access`, on the two resolved paths, and the grant.
abbrev pub direct_grant_at :
    Env → Snapshot → ℕ → ℕ → TaskGrantEffect → String → String × String → Result Reduced
direct_grant_at env s task_id agent_id effect expires_at paths = do
  refuse
      (not (text_eq paths.1 paths.0)
        || not (env.is_dir paths.1)
        || has_expired expires_at (env.seconds s.draws))
      (validation "task grant worktree or expiry is invalid")
  let grant = direct_grant env s task_id agent_id effect expires_at paths.1
  ok (push_grant grant s, Event.task_grant_created grant, CommandResult.created grant.id)

abbrev pub direct_grant_for :
    Env → Snapshot → ℕ → ℕ → String → TaskGrantEffect → String → TaskView → Result Reduced
direct_grant_for env s task_id agent_id worktree effect expires_at task = do
  refuse (not (is_some_of task.assigned_agent agent_id) || is_blank worktree)
      (validation "a task grant must match the assigned agent and a worktree")
  refuse (not (Task.is_started task.status))
      (validation "task grants are valid only for active or review tasks")
  paths ← canonical_worktree env task worktree "grant worktree is unavailable"
  direct_grant_at env s task_id agent_id effect expires_at paths

unfoldable pub reduce_grant_task_access :
    Env → Snapshot → ℕ → ℕ → String → TaskGrantEffect → String → ActorRef → Result Reduced
reduce_grant_task_access env s task_id agent_id worktree effect expires_at actor = do
  refuse (is_agent actor.kind) forbidden
  refuse (not (is_live_agent s agent_id)) not_found
  task ← ok_or (find_task task_id s.tasks) not_found
  direct_grant_for env s task_id agent_id worktree effect expires_at task

abbrev pub has_grant_id : String → TaskGrantView → Bool
has_grant_id grant_id grant = text_eq grant.id grant_id

abbrev pub revoke : TaskGrantView → TaskGrantView
revoke grant = record grant { revoked = true }

unfoldable pub reduce_revoke_task_grant : Snapshot → String → Result Reduced
reduce_revoke_task_grant s grant_id = do
  grant ← ok_or (find (has_grant_id grant_id) s.task_grants) not_found
  ok (
    record s { task_grants = modify_first (has_grant_id grant_id) revoke s.task_grants },
    Event.task_grant_revoked grant_id,
    CommandResult.accepted,
  )
