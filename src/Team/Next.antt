-- ===== src/Team/Next.antt =====
-- What an accepted command on roles or agents changes in the snapshot
-- (crates/frank-orchestrator/src/reduce/role.rs and agent.rs).
use frank.Prelude.{
  ℕ, ◌+◌, ◌≡◌, true, false, ◌==◌, Option, some, [], ◌∷◌, ◌++◌, find, modify_first, or_else, arith,
  inl, inr, Option-cases, ok, Result-cases,
}
use frank.Protocol.Actors.{AgentSpec, AgentPatch, RoleSpec, RolePatch}
use frank.Protocol.Records.{RoleView, Snapshot, Env, Reduced}
use frank.Tasks.Assign.{materialize_role}
use frank.Team.{Catalog, validate_openrouter_model, is_live_role, has_agent_id}
use frank.Team.Roles.{
  reduce_create_role, reduce_update_role, reduce_archive_role, reduce_set_agent_role, updated_role,
  new_role, archive_role, role_in_use, is_live_id, asked_model,
}
use frank.Team.Agents
use frank.Team.Agents.{
  AgentCommand, create_agent, update_agent, archive_agent, reduce_agent, reduce_create_agent,
  reduce_update_agent, reduce_archive_agent, new_agent, updated_agent, requested_role, change_role,
  change_override, apply_agent_patch, source_of,
}

pub next-create_role :
    (env : Env) (catalog : Catalog) (s : Snapshot) (spec : RoleSpec) (r : Reduced)
    → reduce_create_role env catalog s spec ≡ ok r
    → r.0 ≡ record s { roles = s.roles ++ new_role env s spec ∷ []; draws = s.draws + 1 }
unfolding reduce_create_role
next-create_role env catalog s spec r h =
    elim (Result-cases (validate_openrouter_model catalog spec.model)) [
      | inl (e, q) ↦ absurd (ground (arith, h, q))
      | inr (passed, q) ↦ ground (arith, h, q)
    ]

pub next-update_role :
    (catalog : Catalog) (s : Snapshot) (role_id : ℕ) (patch : RolePatch) (r : Reduced)
    → reduce_update_role catalog s role_id patch ≡ ok r
    → r.0 ≡ record s { roles = modify_first (is_live_role role_id) (updated_role patch) s.roles }
unfolding reduce_update_role
next-update_role catalog s role_id patch r h =
    elim (Result-cases (validate_openrouter_model catalog (asked_model patch))) [
      | inl (e, q) ↦ absurd (ground (arith, h, q))
      | inr (passed, q) ↦ elim (Option-cases (find (is_live_role role_id) s.roles)) [
        | inl unknown ↦ absurd (ground (arith, h, q, unknown))
        | inr (role, known) ↦ ground (arith, h, q, known)
      ]
    ]

pub next-archive_role :
    (s : Snapshot) (role_id : ℕ) (r : Reduced)
    → reduce_archive_role s role_id ≡ ok r
    → (role_in_use role_id s ≡ false)
      × (r.0 ≡ record s { roles = modify_first (λ r. r.id == role_id) archive_role s.roles })
unfolding reduce_archive_role
next-archive_role s role_id r h = elim (Option-cases (find (λ r. r.id == role_id) s.roles)) [
  | inl unknown ↦ absurd (ground (arith, h, unknown))
  | inr (role, known) ↦ (ground (arith, h, known), ground (arith, h, known))
]

-- The role that is found, and the change.
pub next-set_agent_role :
    (s : Snapshot) (agent_id role_id : ℕ) (r : Reduced)
    → reduce_set_agent_role s agent_id role_id ≡ ok r
    → (role : RoleView) × (find (is_live_role role_id) s.roles ≡ some role)
      × (r.0 ≡ record s {
        agents = modify_first (is_live_id agent_id) (λ a. materialize_role a role) s.agents;
      })
unfolding reduce_set_agent_role
next-set_agent_role s agent_id role_id r h =
    elim (Option-cases (find (is_live_role role_id) s.roles)) [
      | inl unknown ↦ absurd (ground (arith, h, unknown))
      | inr (role, known) ↦ elim (Option-cases (find (is_live_id agent_id) s.agents)) [
        | inl missing ↦ absurd (ground (arith, h, known, missing))
        | inr (agent, there_is) ↦ (role, known, ground (arith, h, known, there_is))
      ]
    ]

pub next-create_agent :
    (env : Env) (catalog : Catalog) (s : Snapshot) (spec : AgentSpec) (r : Reduced)
    → reduce_create_agent env catalog s spec ≡ ok r
    → (role : RoleView) × (find (is_live_role spec.role_id) s.roles ≡ some role)
      × (r.0
          ≡ record s { agents = s.agents ++ new_agent env s spec role ∷ []; draws = s.draws + 1 })
unfolding reduce_create_agent
next-create_agent env catalog s spec r h =
    elim (Option-cases (find (is_live_role spec.role_id) s.roles)) [
      | inl unknown ↦ absurd (ground (arith, h, unknown))
      | inr (role, known) ↦
          elim (Result-cases
            (validate_openrouter_model catalog (or_else spec.model_override role.model))) [
              | inl (e, q) ↦ absurd (ground (arith, h, known, q))
              | inr (passed, q) ↦ (role, known, ground (arith, h, known, q))
            ]
    ]

pub next-update_agent :
    (catalog : Catalog) (s : Snapshot) (agent_id : ℕ) (patch : AgentPatch) (r : Reduced)
    → reduce_update_agent catalog s agent_id patch ≡ ok r
    → (role : Option RoleView) × (requested_role s patch.role_id ≡ ok role)
      × (r.0 ≡ record s {
        agents = modify_first (has_agent_id agent_id) (updated_agent s patch role) s.agents;
      })
unfolding reduce_update_agent
next-update_agent catalog s agent_id patch r h =
    elim (Option-cases (find (has_agent_id agent_id) s.agents)) [
      | inl missing ↦ absurd (ground (arith, h, missing))
      | inr (agent, known) ↦
          elim (Result-cases (validate_openrouter_model catalog (Agents.asked_model patch))) [
            | inl (e, q) ↦ absurd (ground (arith, h, known, q))
            | inr (passed, q) ↦ elim (Result-cases (requested_role s patch.role_id)) [
              | inl (e, refused) ↦ absurd (ground (arith, h, known, q, refused))
              | inr (role, found) ↦ (role, found, ground (arith, h, known, q, found))
            ]
          ]
    ]

pub next-archive_agent :
    (s : Snapshot) (agent_id : ℕ) (r : Reduced)
    → reduce_archive_agent s agent_id ≡ ok r
    → r.0 ≡ record s {
      agents = modify_first (has_agent_id agent_id) (λ a. record a { archived = true }) s.agents;
    }
unfolding reduce_archive_agent
next-archive_agent s agent_id r h = elim (Option-cases (find (has_agent_id agent_id) s.agents)) [
  | inl missing ↦ absurd (ground (arith, h, missing))
  | inr (agent, known) ↦ ground (arith, h, known)
]
