-- ===== src/Tests/Team.antt =====
-- Runs of the commands on roles and agents (crates/frank-orchestrator/src/reduce/role.rs and
-- agent.rs).
use frank.Prelude.{
  ◌≡◌, refl, true, false, inr, none, some, List, [], ◌∷◌, map, eq_ignore_ascii_case, is_blank,
  has_control,
}
use frank.Protocol.Task.{TaskStatus}
use frank.Protocol.Actors.{AgentSpec, RoleSpec, AgentPatch}
use frank.Protocol.Records.{
  Snapshot, FilesystemPolicy, ShellPolicy, NetworkPolicy, ApprovalPolicy, AgentPolicy,
}
use frank.Validate.{valid_agent_text}
use frank.Team.{Catalog, validate_openrouter_model, valid_optional_agent_text, check_model}
use frank.Team.Roles.{
  create_role, archive_role_command, reduce_role, reduce_create_role, reduce_archive_role,
  role_in_use, invalid_role, new_role,
}
use frank.Team.Agents.{
  create_agent, update_agent, reduce_agent, reduce_create_agent, reduce_update_agent, new_agent,
  updated_agent, requested_role, change_role, change_override, apply_agent_patch,
}
use frank.Team.Staff.{IsTeam}
use frank.Team.Runs.{TeamCommand, on_roles, on_agents, reduce_team, run_team, run_team-IsTeam}
use frank.Tests.Data.{sample_env, sample_task, no_budget, workspace}

abbrev models : Catalog
models = inr (record { id = "small"; canonical_slug = none } ∷ [])

abbrev no_rights : AgentPolicy
no_rights = record {
  filesystem = FilesystemPolicy.read_only;
  shell = ShellPolicy.deny;
  network = NetworkPolicy.deny;
  approval = ApprovalPolicy.never;
}

abbrev worker : RoleSpec
worker = record {
  name = "Worker";
  model = some "small";
  instructions = "work";
  policy = no_rights;
  budget = no_budget;
}

abbrev member : AgentSpec
member = record { role_id = 9; display_name = "ann"; model_override = none }

abbrev without_role : AgentPatch
without_role = record {
  role_id = some none;
  display_name = none;
  model_override = none;
  clear_model_override = false;
}

-- A role, an agent with it, an archive of the role that is refused, the same role without its
-- agent, and the archive again.
abbrev commands : List TeamCommand
commands =
    on_roles (create_role worker)
    ∷ on_agents (create_agent member)
    ∷ on_roles (archive_role_command 9)
    ∷ on_agents (update_agent 10 without_role)
    ∷ on_roles (archive_role_command 9)
    ∷ on_roles (create_role worker)
    ∷ []

abbrev start : Snapshot
start = record (workspace (sample_task 4 TaskStatus.ready [] none ∷ []) []) { agents = [] }

commands-roles :
    map (λ r. r.archived) (run_team sample_env models commands start).roles ≡ true ∷ false ∷ []
unfolding run_team reduce_team reduce_role reduce_agent reduce_create_role reduce_create_agent
    reduce_archive_role reduce_update_agent role_in_use invalid_role new_role new_agent
    updated_agent requested_role change_role change_override apply_agent_patch
    validate_openrouter_model valid_optional_agent_text check_model valid_agent_text
    eq_ignore_ascii_case is_blank has_control
commands-roles = refl

start-IsTeam : IsTeam start
start-IsTeam = record { staffed = tt; offered = (refl, tt) }

run_team-IsTeam_example : IsTeam (run_team sample_env models commands start)
run_team-IsTeam_example = run_team-IsTeam sample_env models commands start start-IsTeam
