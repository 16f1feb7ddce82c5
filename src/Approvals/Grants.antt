-- ===== src/Approvals/Grants.antt =====
-- What the approval commands do to the grants of tasks, and to approvals
-- (crates/frank-orchestrator/src/reduce/approval.rs).
mod Earned
use frank.Prelude.{
  ℕ, ◌+◌, ◌≡◌, refl, sym, ap, subst, ◌∙◌, String, Bool, true, false, not, ◌&&◌, ◌||◌, Option, none,
  some, List, [], ◌∷◌, ◌++◌, find, modify_first, is_some_of, text_eq, arith, inl, inr, ◌⊎◌, Result,
  ok, err, In, here, there, Bool-cases, >>=-ok, refuse-ok, ok_or-ok, OrchestratorError, not_found,
  is_blank, Option-cases, Result-cases, ok_or, eq_iff, if◌then◌else◌, validation, forbidden,
  invalid_transition,
}
use frank.Protocol.Status.{BudgetScope}
use frank.Protocol.Messages.{ApprovalView, ApprovalSpec, ApprovalDecision}
use frank.Protocol.Records.{
  TaskView, TaskGrantView, Snapshot, Env, Reduced, ActorRef, Budget, TaskGrantEffect, Event,
  CommandResult,
}
use frank.Tasks.Feed.{find_task}
use frank.Approvals.{
  ApprovalCommand, reduce_approval, reduce_request_approval, reduce_decide_approval,
  reduce_adjust_budget, decide, set_budget, set_approval, is_for_task, decided_status,
  request_approval, decide_approval, grant_task_access, revoke_task_grant, adjust_budget,
  find_approval, decide_undecided,
}
use frank.Approvals.Grant.{
  reduce_grant_task_access, reduce_revoke_task_grant, grant_for_task, approval_grant, direct_grant,
  push_grant, revoke, canonical_worktree, has_expired, has_grant_id, grant_at, grant_for,
  grant_with_effect, direct_grant_at, direct_grant_for, task_grant_effect,
}
use frank.Protocol.Status.{is_agent}
use frank.Organization.{is_live_agent}
use frank.Protocol.Messages.{is_undecided}
use frank.Approvals.Grants.Earned.{IsEarned, grant_for_task-Source, reduce_grant_task_access-Source}

-- Where a grant of the next snapshot comes from.
pub data Source (env : Env) (s : Snapshot) (grant : TaskGrantView) : Type 0 where
  old : In grant s.task_grants → Source env s grant
  revoked :
      (before : TaskGrantView)
      → In before s.task_grants
      → grant ≡ revoke before
      → Source env s grant
  earned : IsEarned env s grant → Source env s grant

In-modify_first :
    (p : TaskGrantView → Bool) (grants : List TaskGrantView) (g : TaskGrantView)
    → In g (modify_first p revoke grants)
    → In g grants ⊎ ((before : TaskGrantView) × In before grants × (g ≡ revoke before))
In-modify_first p [] g m = elim m [ ]
In-modify_first p (x ∷ grants) g m = elim (Bool-cases (p x)) [
  | inl yes_here ↦ changed g (subst (In g) (rw yes_here refl) m)
  | inr not_here ↦ kept g (In-modify_first p grants g) (subst (In g) (rw not_here refl) m)
]
  where
    changed :
        (g : TaskGrantView)
        → In g (revoke x ∷ grants)
        → In g (x ∷ grants)
          ⊎ ((before : TaskGrantView) × In before (x ∷ grants) × (g ≡ revoke before))
    changed _ here = inr (x, here, refl)
    changed g (there n) = inl (there n)

    deeper :
        (g : TaskGrantView)
        → In g grants ⊎ ((before : TaskGrantView) × In before grants × (g ≡ revoke before))
        → In g (x ∷ grants)
          ⊎ ((before : TaskGrantView) × In before (x ∷ grants) × (g ≡ revoke before))
    deeper g (inl n) = inl (there n)
    deeper g (inr (before, n, e)) = inr (before, there n, e)

    kept :
        (g : TaskGrantView)
        → (In g (modify_first p revoke grants)
            → In g grants ⊎ ((before : TaskGrantView) × In before grants × (g ≡ revoke before)))
        → In g (x ∷ modify_first p revoke grants)
        → In g (x ∷ grants)
          ⊎ ((before : TaskGrantView) × In before (x ∷ grants) × (g ≡ revoke before))
    kept _ deep here = inl here
    kept g deep (there n) = deeper g (deep n)

-- The tasks are read, and the approvals are not.
IsEarned-tasks :
    (env : Env) (s s' : Snapshot) (g : TaskGrantView)
    → s'.tasks ≡ s.tasks
    → IsEarned env s' g
    → IsEarned env s g
IsEarned-tasks env s s' g e h = record {
  task = h.task;
  found = ap (find_task g.task_id) (sym e) ∙ h.found;
  held = h.held;
  active = h.active;
  worktree = h.worktree;
  own = h.own;
  resolved = h.resolved;
  directory = h.directory;
}

Source-of :
    (env : Env) (s s' : Snapshot) (g : TaskGrantView)
    → s'.tasks ≡ s.tasks
    → s'.task_grants ≡ s.task_grants
    → In g s'.task_grants ⊎ IsEarned env s' g
    → Source env s g
Source-of env s s' g tasks grants (inl m) = old (subst (In g) grants m)
Source-of env s s' g tasks grants (inr h) = earned (IsEarned-tasks env s s' g tasks h)

decide-Source :
    (env : Env) (s : Snapshot) (approval : ApprovalView) (decision : ApprovalDecision) (r : Reduced)
    (g : TaskGrantView)
    → decide env s approval decision ≡ ok r
    → In g r.0.task_grants
    → Source env s g
unfolding decide
decide-Source env s approval decision r g h m =
    elim (Bool-cases (has_expired approval.expires_at (env.seconds s.draws))) [
      | inl late ↦ old (subst (In g) (ground (arith, h, late)) m)
      | inr open_still ↦ elim (Bool-cases (is_for_task decision)) [
        | inl lasting ↦
            Source-of env s (set_approval approval.id (decided_status decision) s) g refl refl (
              grant_for_task-Source env (set_approval approval.id (decided_status decision) s)
                approval r g (ground (arith, h, open_still, lasting)) m)
        | inr once ↦ old (subst (In g) (ground (arith, h, open_still, once)) m)
      ]
    ]

revoke-grants :
    (env : Env) (s : Snapshot) (grant_id : String) (r : Reduced)
    → reduce_revoke_task_grant s grant_id ≡ ok r
    → r.0.task_grants ≡ modify_first (has_grant_id grant_id) revoke s.task_grants
unfolding reduce_revoke_task_grant
revoke-grants env s grant_id r h =
    elim (Option-cases (find (has_grant_id grant_id) s.task_grants)) [
      | inl e ↦ absurd (ground (arith, h, e))
      | inr (grant, e) ↦ ground (arith, h, e)
    ]

revoke-Source :
    (env : Env) (s : Snapshot) (grant_id : String) (r : Reduced) (g : TaskGrantView)
    → reduce_revoke_task_grant s grant_id ≡ ok r
    → In g r.0.task_grants
    → Source env s g
revoke-Source env s grant_id r g h m =
    elim (In-modify_first (has_grant_id grant_id) s.task_grants g
      (subst (In g) (revoke-grants env s grant_id r h) m)) [
        | inl n ↦ old n
        | inr (before, n, e) ↦ revoked before n e
      ]

request-grants :
    (env : Env) (s : Snapshot) (spec : ApprovalSpec) (actor : ActorRef) (r : Reduced)
    → reduce_request_approval env s spec actor ≡ ok r
    → r.0.task_grants ≡ s.task_grants
unfolding reduce_request_approval
request-grants env s spec actor r h = elim (Option-cases (find_task spec.task_id s.tasks)) [
  | inl e ↦ absurd (ground (arith, h, e))
  | inr (task, e) ↦ ground (arith, h, e)
]

set_budget-grants :
    (env : Env) (s : Snapshot) (scope : BudgetScope) (scope_id : String) (budget : Budget)
    (s' : Snapshot)
    → set_budget env s scope scope_id budget ≡ ok s'
    → s'.task_grants ≡ s.task_grants
unfolding set_budget
set_budget-grants env s BudgetScope.mission scope_id budget s' h = ground (arith, h)
set_budget-grants env s BudgetScope.agent scope_id budget s' h = ground (arith, h)
set_budget-grants env s BudgetScope.task scope_id budget s' h = ground (arith, h)

adjust-grants :
    (env : Env) (s : Snapshot) (scope : BudgetScope) (scope_id : String) (budget : Budget)
    (r : Reduced)
    → reduce_adjust_budget env s scope scope_id budget ≡ ok r
    → r.0.task_grants ≡ s.task_grants
unfolding reduce_adjust_budget
adjust-grants env s scope scope_id budget r h =
    elim (Result-cases (set_budget env s scope scope_id budget)) [
      | inl (e, q) ↦ absurd (ground (arith, h, q))
      | inr (s', q) ↦
          let same : r.0.task_grants ≡ s'.task_grants = ground (arith, h, q) in
          same ∙ set_budget-grants env s scope scope_id budget s' q
    ]

-- After any accepted approval command each grant is one of before, perhaps revoked now, or it is
-- for a task that is Running or in Review and that the grant's agent holds, and for the existing
-- directory to which the worktree of that task resolves.
pub reduce_approval-Source :
    (env : Env) (s : Snapshot) (command : ApprovalCommand) (actor : ActorRef) (r : Reduced)
    (grant : TaskGrantView)
    → reduce_approval env s command actor ≡ ok r
    → In grant r.0.task_grants
    → Source env s grant
unfolding reduce_approval reduce_decide_approval
reduce_approval-Source env s (request_approval spec) actor r g h m =
    old (subst (In g) (request-grants env s spec actor r h) m)
reduce_approval-Source env s (decide_approval id decision) actor r g h m =
    let (approval, found, h₁) =
      >>=-ok (ok_or (find_approval id s.approvals) not_found) (decide_undecided env s decision) h in
    let (undecided, h₂) =
      refuse-ok (not (is_undecided approval.status))
        (invalid_transition "approval is no longer pending") _ h₁ in
    decide-Source env s approval decision r g h₂ m
reduce_approval-Source env s (grant_task_access task_id agent_id asked effect expires_at) actor r g
      h m =
    Source-of env s s g refl refl
      (reduce_grant_task_access-Source env s task_id agent_id asked effect expires_at actor r g h m)
reduce_approval-Source env s (revoke_task_grant grant_id) actor r g h m =
    revoke-Source env s grant_id r g h m
reduce_approval-Source env s (adjust_budget scope scope_id budget) actor r g h m =
    old (subst (In g) (adjust-grants env s scope scope_id budget r h) m)
