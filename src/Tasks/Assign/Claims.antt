-- ===== src/Tasks/Assign/Claims.antt =====
-- What a claim guarantees: who may make it, and that the claimed task then has one owner.
use frank.Prelude.{
  ℕ, ◌≡◌, ◌≢◌, refl, ◌∙◌, Bool, true, false, not, ◌&&◌, ◌||◌, ◌==◌, some, List, [], ◌∷◌, map, All,
  any, modify_first, is_some_of, is_some_and, is_none_or, is_some, ==_refl, ok, arith, inl, inr,
  Option-cases, String,
}
use frank.Protocol.Mission
use frank.Protocol.Task
use frank.Protocol.Status.{TaskClaimSource, TaskFeedKind, is_available, is_draining}
use frank.Protocol.Records.{TaskView, AgentView, ActorRef, TaskGrantView, Snapshot, Env}
use frank.Organization.{find_live_agent, organization_allows_agent}
use frank.Tasks.Feed.{
  has_id, find_task, find_mission, all_done, unfinished-all_done, tasks-append_task_feed,
  grants-append_task_feed,
}
use frank.Tasks.Assign.{
  holds_other, check_claim, commit_claim, assign_task, claimed_task, revoke_others,
}

-- Open work with its dependencies done, for this agent's role, in a mission that goes on.
abbrev pub claimable : Snapshot → AgentView → TaskView → Bool
claimable s agent task =
    not (Task.is_final task.status)
    && not (Task.is_started task.status)
    && all_done s.tasks task.dependencies
    && is_none_or task.required_role_id (λ role_id. is_some_of agent.role_id role_id)
    && is_some_and (find_mission task.mission_id s.missions) (λ m. not (Mission.is_final m.status))

check_claim-claimable :
    (s : Snapshot) (agent_id : ℕ) (agent : AgentView) (task : TaskView) (source : TaskClaimSource)
    → check_claim s agent_id agent task source ≡ ok tt
    → claimable s agent task ≡ true
unfolding check_claim
check_claim-claimable s agent_id agent task source h =
    ground (arith, unfinished-all_done s.tasks task.dependencies)

module _ (env : Env) (s : Snapshot) (task_id agent_id : ℕ) (source : TaskClaimSource)
    (kind : TaskFeedKind) (actor : ActorRef) (s' : Snapshot)
    (h : assign_task env s task_id agent_id source kind actor ≡ ok s') where
  pub assign_task-commit : s' ≡ commit_claim env s task_id agent_id source kind actor
  unfolding assign_task
  assign_task-commit = ground arith

  -- A successful claim was made for a live and available agent that the Organization admits, while
  -- it is not draining, on a task that is neither started nor final, whose dependencies are all
  -- Done, whose role the agent has, and whose mission exists and is not final.
  pub assign_task_eligible :
      (organization_allows_agent s agent_id ≡ true)
      × (is_draining s.drain_status ≡ false)
      × (is_some_and (find_live_agent s agent_id) (λ agent.
            is_available agent.status
            && is_some_and (find_task task_id s.tasks) (claimable s agent))
          ≡ true)
  unfolding assign_task
  assign_task_eligible = elim (Option-cases (find_live_agent s agent_id)) [
    | inl e ↦ ground (arith, e)
    | inr (agent, e) ↦ elim (Option-cases (find_task task_id s.tasks)) [
      | inl q ↦ ground (arith, e, q)
      | inr (task, q) ↦ ground (arith, e, q, check_claim-claimable s agent_id agent task source)
    ]
  ]

-- The claim of a task leaves no other unfinished task with its agent.
other_after :
    (task_id agent_id : ℕ) (source : TaskClaimSource) (now : String) (ts : List TaskView)
    → any
        (holds_other task_id agent_id)
        (modify_first (has_id task_id) (claimed_task agent_id source now) ts)
      ≡ any (holds_other task_id agent_id) ts
other_after task_id agent_id source now [] = refl
other_after task_id agent_id source now (t ∷ ts) =
    ground (arith, other_after task_id agent_id source now ts)

owner_after :
    (task_id agent_id : ℕ) (source : TaskClaimSource) (now : String) (ts : List TaskView)
    → is_some (find_task task_id ts) ≡ true
    → is_some_and
        (find_task task_id (modify_first (has_id task_id) (claimed_task agent_id source now) ts))
        (λ t. is_some_of t.assigned_agent agent_id)
      ≡ true
owner_after task_id agent_id source now [] h = cc
owner_after task_id agent_id source now (t ∷ ts) h =
    ground (arith, ==_refl agent_id, owner_after task_id agent_id source now ts)

-- A grant on the task is revoked unless it is the new owner's.
abbrev pub GrantOwned : ℕ → ℕ → TaskGrantView → Type 0
GrantOwned task_id agent_id grant =
    (not (grant.task_id == task_id) || grant.agent_id == agent_id || grant.revoked) ≡ true

grants_after :
    (task_id agent_id : ℕ) (gs : List TaskGrantView)
    → All (GrantOwned task_id agent_id) (map (revoke_others task_id agent_id) gs)
grants_after task_id agent_id [] = tt
grants_after task_id agent_id (g ∷ gs) = (ground arith, grants_after task_id agent_id gs)

others-commit_claim :
    (env : Env) (s : Snapshot) (task_id agent_id : ℕ) (source : TaskClaimSource)
    (kind : TaskFeedKind) (actor : ActorRef)
    → any
        (holds_other task_id agent_id)
        (commit_claim env s task_id agent_id source kind actor).tasks
      ≡ any (holds_other task_id agent_id) s.tasks
unfolding commit_claim
others-commit_claim env s task_id agent_id source kind actor =
    rw tasks-append_task_feed (other_after task_id agent_id source (env.timestamp s.draws) s.tasks)

module _ (env : Env) (s : Snapshot) (task_id agent_id : ℕ) (source : TaskClaimSource)
    (kind : TaskFeedKind) (actor : ActorRef) where
  owner-commit_claim :
      is_some (find_task task_id s.tasks) ≡ true
      → is_some_and
          (find_task task_id (commit_claim env s task_id agent_id source kind actor).tasks)
          (λ t. is_some_of t.assigned_agent agent_id)
        ≡ true
  unfolding commit_claim
  owner-commit_claim h =
      rw tasks-append_task_feed
        (owner_after task_id agent_id source (env.timestamp s.draws) s.tasks h)

  grants-commit_claim :
      All
        (GrantOwned task_id agent_id)
        (commit_claim env s task_id agent_id source kind actor).task_grants
  unfolding commit_claim
  grants-commit_claim = rw grants-append_task_feed (grants_after task_id agent_id s.task_grants)

  guards-assign_task :
      (s' : Snapshot)
      → assign_task env s task_id agent_id source kind actor ≡ ok s'
      → (any (holds_other task_id agent_id) s.tasks ≡ false)
        × (is_some (find_task task_id s.tasks) ≡ true)
  unfolding assign_task
  guards-assign_task s' h = (ground arith, ground arith)

  -- After a successful claim the task belongs to the agent, no other unfinished task does, and every
  -- grant on the task that is another agent's is revoked.
  pub assign_task_exclusive :
      (s' : Snapshot)
      → assign_task env s task_id agent_id source kind actor ≡ ok s'
      → (is_some_and (find_task task_id s'.tasks) (λ t. is_some_of t.assigned_agent agent_id)
          ≡ true)
        × (any (holds_other task_id agent_id) s'.tasks ≡ false)
        × All (GrantOwned task_id agent_id) s'.task_grants
  assign_task_exclusive s' h =
      let (free, known) = guards-assign_task s' h in
      rw (assign_task-commit env s task_id agent_id source kind actor s' h) (
        owner-commit_claim known,
        others-commit_claim env s task_id agent_id source kind actor ∙ free,
        grants-commit_claim,
      )

  -- A task that another agent holds cannot be claimed, whatever the claim's source.
  pub assign_task_taken :
      (t : TaskView) (owner : ℕ) (s' : Snapshot)
      → find_task task_id s.tasks ≡ some t
      → t.assigned_agent ≡ some owner
      → owner ≢ agent_id
      → assign_task env s task_id agent_id source kind actor ≢ ok s'
  unfolding assign_task check_claim
  assign_task_taken t owner s' e a ne h = ground arith
