-- ===== src/Team/Kept.antt =====
-- Archiving an unused role, making an agent and patching one keep agents and tasks with live roles
-- (crates/frank-orchestrator/src/reduce/role.rs and agent.rs).
use frank.Prelude.{
  ℕ, String, unwrap_or, ◌≡◌, refl, sym, subst, true, false, not, ◌&&◌, ◌||◌, ◌==◌, ==_iff, Option,
  none, some, List, [], ◌∷◌, any, find, modify_first, All, is_some_of, if◌then◌else◌, arith, inl,
  inr, Option-cases, ok,
}
use frank.Protocol.Actors.{AgentSpec, AgentPatch}
use frank.Protocol.Records.{AgentView, RoleView, TaskView, Snapshot, Env}
use frank.Tasks.Assign.{materialize_role}
use frank.Team.{is_live_role}
use frank.Team.Roles.{archive_role, role_in_use}
use frank.Team.Agents.{
  new_agent, updated_agent, requested_role, change_role, change_override, apply_agent_patch,
}
use frank.Team.Staff.{is_live, has_live_role, IsStaffed, IsOffered, live-found}

live-archived :
    (roles : List RoleView) (role_id id : ℕ)
    → (role_id == id) ≡ false
    → is_live roles id ≡ true
    → is_live (modify_first (λ r. r.id == role_id) archive_role roles) id ≡ true
live-archived [] role_id id apart h = h
live-archived (r ∷ roles) role_id id apart h = ground (
  arith,
  h,
  live-archived roles role_id id apart,
  ==_iff r.id role_id,
  ==_iff r.id id,
  ==_iff role_id id,
)

-- The role that is archived is the role of no live agent.
pub agents-archived :
    (roles : List RoleView) (role_id : ℕ) (agents : List AgentView)
    → any (λ agent. is_some_of agent.role_id role_id && not agent.archived) agents ≡ false
    → All (IsStaffed roles) agents
    → All (IsStaffed (modify_first (λ r. r.id == role_id) archive_role roles)) agents
agents-archived roles role_id [] unused h = tt
agents-archived roles role_id (agent ∷ agents) unused h = (
  (still agent.role_id (ground (arith, unused)) h.0.0, h.0.1, h.0.2),
  agents-archived roles role_id agents (ground (arith, unused)) h.1,
)
  where
    still :
        (o : Option ℕ)
        → (is_some_of o role_id && not agent.archived) ≡ false
        → (agent.archived || has_live_role roles o) ≡ true
        → (agent.archived
            || has_live_role (modify_first (λ r. r.id == role_id) archive_role roles) o)
          ≡ true
    still none u e = e
    still (some id) u e =
        ground (arith, u, e, live-archived roles role_id id, ==_iff role_id id, ==_iff id role_id)

pub tasks-archived :
    (roles : List RoleView) (role_id : ℕ) (tasks : List TaskView)
    → any (λ task. is_some_of task.required_role_id role_id) tasks ≡ false
    → All (IsOffered roles) tasks
    → All (IsOffered (modify_first (λ r. r.id == role_id) archive_role roles)) tasks
tasks-archived roles role_id [] unused h = tt
tasks-archived roles role_id (task ∷ tasks) unused h = (
  still task.required_role_id (ground (arith, unused)) h.0,
  tasks-archived roles role_id tasks (ground (arith, unused)) h.1,
)
  where
    still :
        (o : Option ℕ)
        → is_some_of o role_id ≡ false
        → has_live_role roles o ≡ true
        → has_live_role (modify_first (λ r. r.id == role_id) archive_role roles) o ≡ true
    still none u e = refl
    still (some id) u e =
        ground (arith, u, e, live-archived roles role_id id, ==_iff role_id id, ==_iff id role_id)

pub new_agent-IsStaffed :
    (env : Env) (s : Snapshot) (spec : AgentSpec) (role : RoleView)
    → find (is_live_role spec.role_id) s.roles ≡ some role
    → IsStaffed s.roles (new_agent env s spec role)
unfolding new_agent
new_agent-IsStaffed env s spec role h =
    let (same, live) = live-found s.roles spec.role_id role h in
    (subst (λ id. is_live s.roles id ≡ true) same live, refl, refl)

-- The override leaves the role and the archive alone, and the patch gives the role.
role_id-override :
    (roles : List RoleView) (o : Option (Option String)) (agent : AgentView)
    → ((change_override roles o agent).role_id ≡ agent.role_id)
      × ((change_override roles o agent).archived ≡ agent.archived)
unfolding change_override
role_id-override roles none agent = (refl, refl)
role_id-override roles (some model_override) agent = (ground arith, ground arith)

changed_role :
    (s : Snapshot) (asked : Option (Option ℕ)) (role : Option RoleView) (before agent : AgentView)
    → requested_role s asked ≡ ok role
    → agent.role_id ≡ unwrap_or asked before.role_id
    → agent.archived ≡ before.archived
    → (before.archived || has_live_role s.roles before.role_id) ≡ true
    → ((change_role asked role agent).archived
        || has_live_role s.roles (change_role asked role agent).role_id)
      ≡ true
unfolding change_role materialize_role requested_role
changed_role s none none before agent found same kept h =
    subst (λ o. (agent.archived || has_live_role s.roles o) ≡ true) (sym same)
      (subst (λ b. (b || has_live_role s.roles before.role_id) ≡ true) (sym kept) h)
changed_role s none (some role) before agent found same kept h = absurd (ground (arith, found))
changed_role s (some none) none before agent found same kept h = ground arith
changed_role s (some none) (some role) before agent found same kept h =
    absurd (ground (arith, found))
changed_role s (some (some id)) role before agent found same kept h =
    elim (Option-cases (find (is_live_role id) s.roles)) [
      | inl unknown ↦ absurd (ground (arith, found, unknown))
      | inr (r, known) ↦
          let live = (live-found s.roles id r known).1 in
          let is_it : some r ≡ role = ground (arith, found, known) in
          subst
            (λ o.
              ((change_role (some (some id)) o agent).archived
                || has_live_role s.roles (change_role (some (some id)) o agent).role_id)
              ≡ true)
            is_it (ground (arith, live))
    ]

pub updated_agent-IsStaffed :
    (s : Snapshot) (patch : AgentPatch) (role : Option RoleView) (agent : AgentView)
    → requested_role s patch.role_id ≡ ok role
    → IsStaffed s.roles agent
    → IsStaffed s.roles (updated_agent s patch role agent)
unfolding updated_agent apply_agent_patch
updated_agent-IsStaffed s patch role agent found h =
    let override = if patch.clear_model_override then some none else patch.model_override in
    let (same, kept) = role_id-override s.roles override (apply_agent_patch patch agent) in
    (
      changed_role s patch.role_id role agent
          (change_override s.roles override (apply_agent_patch patch agent)) found same kept h.0,
      refl,
      refl,
    )

pub unused_role :
    (role_id : ℕ) (s : Snapshot)
    → role_in_use role_id s ≡ false
    → (any (λ agent. is_some_of agent.role_id role_id && not agent.archived) s.agents ≡ false)
      × (any (λ task. is_some_of task.required_role_id role_id) s.tasks ≡ false)
unfolding role_in_use
unused_role role_id s h = (ground (arith, h), ground (arith, h))
