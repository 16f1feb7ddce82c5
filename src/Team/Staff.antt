-- ===== src/Team/Staff.antt =====
-- The agents and their roles after any commands (crates/frank-orchestrator/src/reduce/role.rs and
-- agent.rs).
use frank.Prelude.{
  ℕ, ◌≡◌, refl, Bool, true, ◌||◌, ==_refl, ==_iff, Option, none, some, List, [], ◌∷◌, ◌++◌, any,
  find, find-some, In-any, modify_first, All, is_none_or, arith, inl, inr, Bool-cases,
}
use frank.Protocol.Actors.{RolePatch}
use frank.Protocol.Records.{AgentView, RoleView, TaskView, Snapshot}
use frank.Tasks.Assign.{materialize_role}
use frank.Team.{is_live_role}
use frank.Team.Roles.{updated_role, apply_role_patch}
use frank.Team.Agents.{source_of}

abbrev pub is_live : List RoleView → ℕ → Bool
is_live roles id = any (is_live_role id) roles

abbrev pub has_live_role : List RoleView → Option ℕ → Bool
has_live_role roles role_id = is_none_or role_id (is_live roles)

-- An agent that is not archived has no role or a live one; the effective model is the model, and its
-- source is the agent where the agent overrides it.
abbrev pub IsStaffed : List RoleView → AgentView → Type 0
IsStaffed roles agent =
    ((agent.archived || has_live_role roles agent.role_id) ≡ true)
    × (agent.effective_model ≡ agent.model)
    × (agent.model_source ≡ source_of agent.model_override)

-- A task requires no role or a live one.
abbrev pub IsOffered : List RoleView → TaskView → Type 0
IsOffered roles task = has_live_role roles task.required_role_id ≡ true

pub record IsTeam (s : Snapshot) : Type 0 where
  pub staffed : All (IsStaffed s.roles) s.agents
  pub offered : All (IsOffered s.roles) s.tasks

-- Live roles stay live.
abbrev pub Keeps : List RoleView → List RoleView → Type 0
Keeps roles roles' = (id : ℕ) → is_live roles id ≡ true → is_live roles' id ≡ true

pub agents-Keeps :
    (roles roles' : List RoleView) (agents : List AgentView)
    → Keeps roles roles'
    → All (IsStaffed roles) agents
    → All (IsStaffed roles') agents
agents-Keeps roles roles' [] k h = tt
agents-Keeps roles roles' (agent ∷ agents) k h =
    ((still agent.role_id h.0.0, h.0.1, h.0.2), agents-Keeps roles roles' agents k h.1)
  where
    still :
        (o : Option ℕ)
        → (agent.archived || has_live_role roles o) ≡ true
        → (agent.archived || has_live_role roles' o) ≡ true
    still none e = e
    still (some id) e = ground (arith, e, k id)

pub tasks-Keeps :
    (roles roles' : List RoleView) (tasks : List TaskView)
    → Keeps roles roles'
    → All (IsOffered roles) tasks
    → All (IsOffered roles') tasks
tasks-Keeps roles roles' [] k h = tt
tasks-Keeps roles roles' (task ∷ tasks) k h =
    (still task.required_role_id h.0, tasks-Keeps roles roles' tasks k h.1)
  where
    still : (o : Option ℕ) → has_live_role roles o ≡ true → has_live_role roles' o ≡ true
    still none e = refl
    still (some id) e = k id e

pub All-modified :
    (P : AgentView → Type 0) (p : AgentView → Bool) (f : AgentView → AgentView)
    (agents : List AgentView)
    → ((a : AgentView) → P a → P (f a))
    → All P agents
    → All P (modify_first p f agents)
All-modified P p f [] k h = tt
All-modified P p f (a ∷ agents) k h = elim (Bool-cases (p a)) [
  | inl e ↦ rw e (k a h.0, h.1)
  | inr e ↦ rw e (h.0, All-modified P p f agents k h.1)
]

pub All-append :
    (P : AgentView → Type 0) (agents : List AgentView) (a : AgentView)
    → All P agents
    → P a
    → All P (agents ++ a ∷ [])
All-append P [] a h k = (k, tt)
All-append P (x ∷ agents) a h k = (h.0, All-append P agents a h.1 k)

pub Keeps-append : (roles : List RoleView) (role : RoleView) → Keeps roles (roles ++ role ∷ [])
Keeps-append [] role id h = absurd (ground (arith, h))
Keeps-append (r ∷ roles) role id h = ground (arith, h, Keeps-append roles role id)

pub Keeps-updated :
    (roles : List RoleView) (role_id : ℕ) (patch : RolePatch)
    → Keeps roles (modify_first (is_live_role role_id) (updated_role patch) roles)
unfolding updated_role apply_role_patch
Keeps-updated [] role_id patch id h = h
Keeps-updated (r ∷ roles) role_id patch id h =
    ground (arith, h, Keeps-updated roles role_id patch id)

pub live-found :
    (roles : List RoleView) (id : ℕ) (role : RoleView)
    → find (is_live_role id) roles ≡ some role
    → (role.id ≡ id) × (is_live roles role.id ≡ true)
live-found roles id role h =
    let (live, within) = find-some (is_live_role id) roles role h in
    let same : role.id ≡ id = (==_iff role.id id).0 (ground (arith, live)) in
    (same, In-any (is_live_role role.id) roles role within (ground (arith, live, ==_refl role.id)))

pub materialize_role-IsStaffed :
    (roles : List RoleView) (id : ℕ) (role : RoleView) (agent : AgentView)
    → find (is_live_role id) roles ≡ some role
    → IsStaffed roles (materialize_role agent role)
unfolding materialize_role
materialize_role-IsStaffed roles id role agent h =
    (ground (arith, (live-found roles id role h).1), refl, refl)
