-- ===== src/Approvals/Grants/Earned.antt =====
-- A grant is earned where `grant_for_task` or `reduce_grant_task_access` of
-- crates/frank-orchestrator/src/reduce/approval.rs makes it.
use frank.Prelude.{
  ℕ, ◌≡◌, refl, sym, ap, subst, ◌∙◌, String, true, false, not, ◌||◌, some, List, [], ◌∷◌, ◌++◌,
  is_some_of, text_eq, arith, inl, inr, ◌⊎◌, Result, ok, In, here, there, >>=-ok, refuse-ok,
  ok_or-ok, not_found, is_blank, ok_or, eq_iff, validation, forbidden,
}
use frank.Protocol.Task
use frank.Protocol.Messages.{ApprovalView}
use frank.Protocol.Records.{
  TaskView, TaskGrantView, Snapshot, Env, Reduced, ActorRef, TaskGrantEffect, Event, CommandResult,
}
use frank.Tasks.Feed.{find_task}
use frank.Approvals.Grant.{
  reduce_grant_task_access, grant_for_task, approval_grant, direct_grant, push_grant,
  canonical_worktree, has_expired, grant_at, grant_for, grant_with_effect, direct_grant_at,
  direct_grant_for, task_grant_effect,
}
use frank.Protocol.Status.{is_agent}
use frank.Organization.{is_live_agent}

-- A grant that was earned: it is for an active task that its agent holds, and for the directory to
-- which the task's worktree resolves.
pub record IsEarned (env : Env) (s : Snapshot) (grant : TaskGrantView) : Type 0 where
  pub task : TaskView
  pub found : find_task grant.task_id s.tasks ≡ some task
  pub held : is_some_of task.assigned_agent grant.agent_id ≡ true
  pub active : Task.is_started task.status ≡ true
  pub worktree : String
  pub own : task.worktree ≡ some worktree
  pub resolved : env.canonicalize worktree ≡ some grant.worktree
  pub directory : env.is_dir grant.worktree ≡ true

In-push :
    (grants : List TaskGrantView) (grant g : TaskGrantView)
    → In g (grants ++ grant ∷ [])
    → In g grants ⊎ (g ≡ grant)
In-push [] grant _ here = inr refl
In-push [] grant g (there m) = elim m [ ]
In-push (x ∷ grants) grant _ here = inl here
In-push (x ∷ grants) grant g (there m) = elim (In-push grants grant g m) [
  | inl n ↦ inl (there n)
  | inr e ↦ inr e
]

canonical_worktree-ok :
    (env : Env) (task : TaskView) (asked unavailable : String) (paths : String × String)
    → canonical_worktree env task asked unavailable ≡ ok paths
    → (worktree : String) × (task.worktree ≡ some worktree)
      × (env.canonicalize worktree ≡ some paths.0)
      × (env.canonicalize asked ≡ some paths.1)
unfolding canonical_worktree
canonical_worktree-ok env task asked unavailable paths h =
    let (worktree, has, h₁) = >>=-ok _ _ h in
    let (own, first, h₂) = >>=-ok _ _ h₁ in
    let (other, second, h₃) = >>=-ok _ _ h₂ in
    (
      worktree,
      ok_or-ok _ _ has,
      ok_or-ok _ _ first ∙ ap (λ n. some n) (same own other h₃).0,
      ok_or-ok _ _ second ∙ ap (λ n. some n) (same own other h₃).1,
    )
  where
    same : (own other : String) → ok (own, other) ≡ ok paths → (own ≡ paths.0) × (other ≡ paths.1)
    same own other q = (cc, cc)

approval-IsEarned :
    (env : Env) (s : Snapshot) (approval : ApprovalView) (effect : TaskGrantEffect)
    (task : TaskView) (paths : String × String)
    → ok_or (find_task approval.task_id s.tasks) not_found ≡ ok task
    → (not (is_some_of task.assigned_agent approval.agent_id) || not (Task.is_started task.status))
      ≡ false
    → canonical_worktree env task approval.cwd "approval worktree is unavailable" ≡ ok paths
    → (not (text_eq paths.0 paths.1) || not (env.is_dir paths.0)) ≡ false
    → IsEarned env s (approval_grant env s approval effect paths.0)
unfolding approval_grant
approval-IsEarned env s approval effect task paths found may resolved matches =
    let (worktree, has, own, other) =
      canonical_worktree-ok env task approval.cwd _ paths resolved in
    record {
      task = task;
      found = ok_or-ok _ _ found;
      held = ground (arith, may);
      active = ground (arith, may);
      worktree = worktree;
      own = has;
      resolved = own;
      directory = ground (arith, matches);
    }

direct-IsEarned :
    (env : Env) (s : Snapshot) (task_id agent_id : ℕ) (asked : String) (effect : TaskGrantEffect)
    (expires_at : String) (task : TaskView) (paths : String × String)
    → ok_or (find_task task_id s.tasks) not_found ≡ ok task
    → (not (is_some_of task.assigned_agent agent_id) || is_blank asked) ≡ false
    → not (Task.is_started task.status) ≡ false
    → canonical_worktree env task asked "grant worktree is unavailable" ≡ ok paths
    → (not (text_eq paths.1 paths.0)
        || not (env.is_dir paths.1)
        || has_expired expires_at (env.seconds s.draws))
      ≡ false
    → IsEarned env s (direct_grant env s task_id agent_id effect expires_at paths.1)
unfolding direct_grant
direct-IsEarned env s task_id agent_id asked effect expires_at task paths found may active resolved
      matches =
    let (worktree, has, own, other) = canonical_worktree-ok env task asked _ paths resolved in
    let same : paths.1 ≡ paths.0 = ground (arith, matches, eq_iff paths.1 paths.0) in
    record {
      task = task;
      found = ok_or-ok _ _ found;
      held = ground (arith, may);
      active = ground (arith, active);
      worktree = worktree;
      own = has;
      resolved = own ∙ ap (λ n. some n) (sym same);
      directory = ground (arith, matches);
    }

pushed :
    (env : Env) (s : Snapshot) (grant : TaskGrantView) (event : Event) (reply : CommandResult)
    (r : Reduced) (g : TaskGrantView)
    → ◌≡◌ {A = Result Reduced} (ok (push_grant grant s, event, reply)) (ok r)
    → IsEarned env s grant
    → In g r.0.task_grants
    → In g s.task_grants ⊎ IsEarned env s g
pushed env s grant event reply r g h right m =
    elim (In-push s.task_grants grant g (subst (λ (t : Snapshot). In g t.task_grants) (next h) m)) [
      | inl n ↦ inl n
      | inr e ↦ inr (subst (IsEarned env s) (sym e) right)
    ]
  where
    next :
        ◌≡◌ {A = Result Reduced} (ok (push_grant grant s, event, reply)) (ok r)
        → r.0 ≡ push_grant grant s
    next q = cc

pub grant_for_task-Source :
    (env : Env) (s : Snapshot) (approval : ApprovalView) (r : Reduced) (g : TaskGrantView)
    → grant_for_task env s approval ≡ ok r
    → In g r.0.task_grants
    → In g s.task_grants ⊎ IsEarned env s g
unfolding grant_for_task
grant_for_task-Source env s approval r g h m =
    let (effect, allowed, h₁) =
      >>=-ok
        (ok_or (task_grant_effect approval.operation)
          (validation "only workspace writes and non-network checks can be granted for a task"))
        (grant_with_effect env s approval) h in
    let (task, found, h₂) =
      >>=-ok (ok_or (find_task approval.task_id s.tasks) not_found)
        (grant_for env s approval effect) h₁ in
    let (may, h₃) =
      refuse-ok
        (not (is_some_of task.assigned_agent approval.agent_id)
          || not (Task.is_started task.status))
        (validation "a task grant must match the active assigned task") _ h₂ in
    let (paths, resolved, h₄) =
      >>=-ok (canonical_worktree env task approval.cwd "approval worktree is unavailable")
        (grant_at env s approval effect) h₃ in
    let (matches, h₅) =
      refuse-ok (not (text_eq paths.0 paths.1) || not (env.is_dir paths.0))
        (validation "approval worktree does not match the task worktree") _ h₄ in
    pushed env s (approval_grant env s approval effect paths.0)
      (Event.task_grant_created (approval_grant env s approval effect paths.0))
      CommandResult.accepted r g h₅
      (approval-IsEarned env s approval effect task paths found may resolved matches) m

pub reduce_grant_task_access-Source :
    (env : Env) (s : Snapshot) (task_id agent_id : ℕ) (asked : String) (effect : TaskGrantEffect)
    (expires_at : String) (actor : ActorRef) (r : Reduced) (g : TaskGrantView)
    → reduce_grant_task_access env s task_id agent_id asked effect expires_at actor ≡ ok r
    → In g r.0.task_grants
    → In g s.task_grants ⊎ IsEarned env s g
unfolding reduce_grant_task_access
reduce_grant_task_access-Source env s task_id agent_id asked effect expires_at actor r g h m =
    let (person, h₁) = refuse-ok (is_agent actor.kind) forbidden _ h in
    let (live, h₂) = refuse-ok (not (is_live_agent s agent_id)) not_found _ h₁ in
    let (task, found, h₃) =
      >>=-ok (ok_or (find_task task_id s.tasks) not_found)
        (direct_grant_for env s task_id agent_id asked effect expires_at) h₂ in
    let (held, h₄) =
      refuse-ok (not (is_some_of task.assigned_agent agent_id) || is_blank asked)
        (validation "a task grant must match the assigned agent and a worktree") _ h₃ in
    let (active, h₅) =
      refuse-ok (not (Task.is_started task.status))
        (validation "task grants are valid only for active or review tasks") _ h₄ in
    let (paths, resolved, h₆) =
      >>=-ok (canonical_worktree env task asked "grant worktree is unavailable")
        (direct_grant_at env s task_id agent_id effect expires_at) h₅ in
    let (matches, h₇) =
      refuse-ok
        (not (text_eq paths.1 paths.0)
          || not (env.is_dir paths.1)
          || has_expired expires_at (env.seconds s.draws))
        (validation "task grant worktree or expiry is invalid") _ h₆ in
    let grant = direct_grant env s task_id agent_id effect expires_at paths.1 in
    pushed env s grant (Event.task_grant_created grant) (CommandResult.created grant.id) r g h₇
      (direct-IsEarned env s task_id agent_id asked effect expires_at task paths found held active
        resolved matches)
      m
