-- ===== src/Team/Runs.antt =====
-- Runs of the commands on roles and agents (crates/frank-orchestrator/src/reduce/role.rs and
-- agent.rs).
use frank.Prelude.{
  ◌≡◌, refl, sym, subst, true, List, [], ◌∷◌, ◌++◌, modify_first, inl, inr, Result, ok,
  Result-cases,
}
use frank.Protocol.Records.{committed, Snapshot, Env, Reduced}
use frank.Tasks.Assign.{materialize_role}
use frank.Team.{Catalog, is_live_role, has_agent_id}
use frank.Team.Roles.{
  RoleCommand, create_role, update_role, archive_role_command, set_agent_role, reduce_role,
  updated_role, new_role, is_live_id,
}
use frank.Team.Agents.{
  AgentCommand, create_agent, update_agent, archive_agent, reduce_agent, new_agent, updated_agent,
}
use frank.Team.Staff.{
  IsStaffed, IsTeam, agents-Keeps, tasks-Keeps, All-modified, All-append, Keeps-append,
  Keeps-updated, materialize_role-IsStaffed,
}
use frank.Team.Kept.{
  agents-archived, tasks-archived, new_agent-IsStaffed, updated_agent-IsStaffed, unused_role,
}
use frank.Team.Next.{
  next-create_role, next-update_role, next-archive_role, next-set_agent_role, next-create_agent,
  next-update_agent, next-archive_agent,
}

pub data TeamCommand : Type 0 where
  on_roles : RoleCommand → TeamCommand
  on_agents : AgentCommand → TeamCommand

unfoldable pub reduce_team : Env → Catalog → Snapshot → TeamCommand → Result Reduced
reduce_team env catalog s (on_roles c) = reduce_role env catalog s c
reduce_team env catalog s (on_agents c) = reduce_agent env catalog s c

unfoldable pub run_team : Env → Catalog → List TeamCommand → Snapshot → Snapshot
run_team env catalog [] s = s
run_team env catalog (c ∷ commands) s =
    run_team env catalog commands (committed s (reduce_team env catalog s c))

-- Each accepted command keeps the team.
reduce_role-IsTeam :
    (env : Env) (catalog : Catalog) (s : Snapshot) (c : RoleCommand) (r : Reduced)
    → reduce_role env catalog s c ≡ ok r
    → IsTeam s
    → IsTeam r.0
unfolding reduce_role
reduce_role-IsTeam env catalog s (create_role spec) r h t =
    let k = Keeps-append s.roles (new_role env s spec) in
    subst IsTeam (sym (next-create_role env catalog s spec r h)) (record {
      staffed = agents-Keeps s.roles (s.roles ++ new_role env s spec ∷ []) s.agents k t.staffed;
      offered = tasks-Keeps s.roles (s.roles ++ new_role env s spec ∷ []) s.tasks k t.offered;
    })
reduce_role-IsTeam env catalog s (update_role role_id patch) r h t =
    let k = Keeps-updated s.roles role_id patch in
    let roles = modify_first (is_live_role role_id) (updated_role patch) s.roles in
    subst IsTeam (sym (next-update_role catalog s role_id patch r h)) (record {
      staffed = agents-Keeps s.roles roles s.agents k t.staffed;
      offered = tasks-Keeps s.roles roles s.tasks k t.offered;
    })
reduce_role-IsTeam env catalog s (archive_role_command role_id) r h t =
    let (unused, e) = next-archive_role s role_id r h in
    let (by_agents, by_tasks) = unused_role role_id s unused in
    subst IsTeam (sym e) (record {
      staffed = agents-archived s.roles role_id s.agents by_agents t.staffed;
      offered = tasks-archived s.roles role_id s.tasks by_tasks t.offered;
    })
reduce_role-IsTeam env catalog s (set_agent_role agent_id role_id) r h t =
    let (role, known, e) = next-set_agent_role s agent_id role_id r h in
    subst IsTeam (sym e) (record {
      staffed =
          All-modified (IsStaffed s.roles) (is_live_id agent_id) (λ a. materialize_role a role)
            s.agents (λ a _. materialize_role-IsStaffed s.roles role_id role a known) t.staffed;
      offered = t.offered;
    })

reduce_agent-IsTeam :
    (env : Env) (catalog : Catalog) (s : Snapshot) (c : AgentCommand) (r : Reduced)
    → reduce_agent env catalog s c ≡ ok r
    → IsTeam s
    → IsTeam r.0
unfolding reduce_agent
reduce_agent-IsTeam env catalog s (create_agent spec) r h t =
    let (role, known, e) = next-create_agent env catalog s spec r h in
    subst IsTeam (sym e) (record {
      staffed =
          All-append (IsStaffed s.roles) s.agents (new_agent env s spec role) t.staffed
            (new_agent-IsStaffed env s spec role known);
      offered = t.offered;
    })
reduce_agent-IsTeam env catalog s (update_agent agent_id patch) r h t =
    let (role, found, e) = next-update_agent catalog s agent_id patch r h in
    subst IsTeam (sym e) (record {
      staffed =
          All-modified (IsStaffed s.roles) (has_agent_id agent_id) (updated_agent s patch role)
            s.agents (λ a. updated_agent-IsStaffed s patch role a found) t.staffed;
      offered = t.offered;
    })
reduce_agent-IsTeam env catalog s (archive_agent agent_id) r h t =
    subst IsTeam (sym (next-archive_agent s agent_id r h)) (record {
      staffed =
          All-modified (IsStaffed s.roles) (has_agent_id agent_id)
            (λ a. record a { archived = true }) s.agents (λ a k. (refl, k.1, k.2)) t.staffed;
      offered = t.offered;
    })

reduce_team-IsTeam :
    (env : Env) (catalog : Catalog) (s : Snapshot) (c : TeamCommand)
    → IsTeam s
    → IsTeam (committed s (reduce_team env catalog s c))
unfolding reduce_team
reduce_team-IsTeam env catalog s (on_roles c) t =
    elim (Result-cases (reduce_role env catalog s c)) [
      | inl (e, q) ↦ subst (λ o. IsTeam (committed s o)) (sym q) t
      | inr (r, q) ↦
          subst (λ o. IsTeam (committed s o)) (sym q) (reduce_role-IsTeam env catalog s c r q t)
    ]
reduce_team-IsTeam env catalog s (on_agents c) t =
    elim (Result-cases (reduce_agent env catalog s c)) [
      | inl (e, q) ↦ subst (λ o. IsTeam (committed s o)) (sym q) t
      | inr (r, q) ↦
          subst (λ o. IsTeam (committed s o)) (sym q) (reduce_agent-IsTeam env catalog s c r q t)
    ]

-- After any commands on roles and agents each agent that is not archived has no role or one that is
-- not archived, the effective model of each agent is its model, and the source of the model is the
-- agent where the agent overrides it; and each task requires no role or one that is not archived.
-- It was so before.
pub run_team-IsTeam :
    (env : Env) (catalog : Catalog) (commands : List TeamCommand) (s : Snapshot)
    → IsTeam s
    → IsTeam (run_team env catalog commands s)
unfolding run_team
run_team-IsTeam env catalog [] s t = t
run_team-IsTeam env catalog (c ∷ commands) s t =
    run_team-IsTeam env catalog commands (committed s (reduce_team env catalog s c))
      (reduce_team-IsTeam env catalog s c t)
