-- ===== src/Team/Agents.antt =====
-- `reduce_agent` of crates/frank-orchestrator/src/reduce/agent.rs, and `apply_agent_patch` of
-- validate.rs.
use frank.Prelude.{
  ℕ, ◌+◌, String, Bool, true, false, not, ◌&&◌, ◌||◌, ◌==◌, Option, none, some, List, [], ◌∷◌, ◌++◌,
  any, find, modify_first, is_some, is_some_of, is_some_and, unwrap_or, or_else, and_then,
  eq_ignore_ascii_case, text_eq, if◌then◌else◌, Result, ok, ◌>>=◌, ◌>>◌, refuse, ok_or, validation,
  not_found,
}
use frank.Protocol.Status.{AgentStatus, is_available, is_staff}
use frank.Protocol.Task.{TaskStatus}
use frank.Protocol.Task
use frank.Protocol.Actors.{AgentSpec, AgentPatch}
use frank.Protocol.Records.{
  AgentView, RoleView, TaskView, OrganizationNode, ModelSource, Snapshot, Env, Event, CommandResult,
  Reduced,
}
use frank.Validate.{valid_agent_text}
use frank.Tasks.Assign.{materialize_role}
use frank.Team.{
  Catalog, validate_openrouter_model, valid_optional_agent_text, is_live_role, has_agent_id,
}

abbrev pub source_of : Option String → ModelSource
source_of model_override = if is_some model_override then ModelSource.agent else ModelSource.role

unfoldable pub new_agent : Env → Snapshot → AgentSpec → RoleView → AgentView
new_agent env s spec role =
    let model = or_else spec.model_override role.model in
    record {
      id = env.uuid s.draws;
      role_id = some spec.role_id;
      role_revision = role.revision;
      display_name = spec.display_name;
      model = model;
      effective_model = model;
      model_source = source_of spec.model_override;
      model_override = spec.model_override;
      pending_model_override = none;
      pending_model_change = false;
      instructions = role.instructions;
      policy = role.policy;
      budget = role.budget;
      status = AgentStatus.offline;
      provider_session_id = none;
      last_claimed_at = none;
      archived = false;
    }

unfoldable pub reduce_create_agent : Env → Catalog → Snapshot → AgentSpec → Result Reduced
reduce_create_agent env catalog s spec = do
  role ← ok_or (find (is_live_role spec.role_id) s.roles) not_found
  refuse
      (not (valid_agent_text spec.display_name 128)
        || not (valid_optional_agent_text spec.model_override 256))
      (validation "agent identity or instructions are invalid")
  validate_openrouter_model catalog (or_else spec.model_override role.model)
  refuse
      (any
        (λ agent. not agent.archived && eq_ignore_ascii_case agent.display_name spec.display_name)
        s.agents)
      (validation "agent display name must be unique")
  let agent = new_agent env s spec role
  ok (
    record s { agents = s.agents ++ agent ∷ []; draws = s.draws + 1 },
    Event.agent_upserted agent,
    CommandResult.created (env.show_uuid agent.id),
  )

unfoldable pub apply_agent_patch : AgentPatch → AgentView → AgentView
apply_agent_patch patch agent = record agent {
  role_id = unwrap_or patch.role_id agent.role_id;
  display_name = unwrap_or patch.display_name agent.display_name;
}

-- The model of an agent with this override: the role is looked up among archived ones, too.
unfoldable pub overridden_model : List RoleView → Option ℕ → Option String → Option String
overridden_model roles role_id model_override =
    elim (and_then role_id (λ id. find (λ role. role.id == id) roles)) [
      | some role ↦ or_else model_override role.model
      | none ↦ model_override
    ]

-- A change of the override takes place at once where the agent is offline or idle.
unfoldable pub change_override : List RoleView → Option (Option String) → AgentView → AgentView
change_override roles none agent = agent
change_override roles (some model_override) agent =
    let model = overridden_model roles agent.role_id model_override in
    if is_available agent.status
    then record agent {
      model_override = model_override;
      pending_model_override = none;
      pending_model_change = false;
      model = model;
      effective_model = model;
      model_source = source_of model_override;
    }
    else record agent { pending_model_override = some model_override; pending_model_change = true }

-- The role that the patch asks for, where it is found, or none where the patch takes it away.
unfoldable pub change_role : Option (Option ℕ) → Option RoleView → AgentView → AgentView
change_role requested (some role) agent = materialize_role agent role
change_role (some none) none agent = record agent { role_id = none; role_revision = 0 }
change_role requested none agent = agent

abbrev pub refresh_source : AgentView → AgentView
refresh_source agent = record agent {
  effective_model = agent.model;
  model_source = source_of agent.model_override;
}

unfoldable pub updated_agent : Snapshot → AgentPatch → Option RoleView → AgentView → AgentView
updated_agent s patch role agent = refresh_source (
    change_role patch.role_id role (
      change_override s.roles
        (if patch.clear_model_override then some none else patch.model_override)
        (apply_agent_patch patch agent)))

-- The role of the patch: none asked for, taken away, or found among the live ones.
unfoldable pub requested_role : Snapshot → Option (Option ℕ) → Result (Option RoleView)
requested_role s none = ok none
requested_role s (some none) = ok none
requested_role s (some (some role_id)) = do
  role ← ok_or (find (is_live_role role_id) s.roles) not_found
  ok (some role)

abbrev pub asked_model : AgentPatch → Option String
asked_model patch = if patch.clear_model_override then none else unwrap_or patch.model_override none

abbrev taken_name : ℕ → AgentView → AgentView → Bool
taken_name agent_id updated candidate =
    not (candidate.id == agent_id)
    && not candidate.archived
    && eq_ignore_ascii_case candidate.display_name updated.display_name

abbrev invalid_agent : Snapshot → ℕ → AgentView → Bool
invalid_agent s agent_id updated =
    not (valid_agent_text updated.display_name 128)
    || not (valid_optional_agent_text updated.model_override 256)
    || any (taken_name agent_id updated) s.agents

unfoldable pub reduce_update_agent : Catalog → Snapshot → ℕ → AgentPatch → Result Reduced
reduce_update_agent catalog s agent_id patch = do
  agent ← ok_or (find (has_agent_id agent_id) s.agents) not_found
  validate_openrouter_model catalog (asked_model patch)
  role ← requested_role s patch.role_id
  refuse (is_some patch.role_id && not (is_available agent.status))
      (validation "an agent's role can change only while it is idle")
  refuse (invalid_agent s agent_id (updated_agent s patch role agent))
      (validation "agent identity or instructions are invalid")
  ok (
    record s {
      agents = modify_first (has_agent_id agent_id) (updated_agent s patch role) s.agents;
    },
    Event.agent_upserted (updated_agent s patch role agent),
    CommandResult.accepted,
  )

-- `Working | Starting | Thinking`
abbrev is_active : AgentStatus → Bool
is_active AgentStatus.working = true
is_active AgentStatus.starting = true
is_active AgentStatus.thinking = true
is_active _ = false

abbrev is_unfinished_work : ℕ → TaskView → Bool
is_unfinished_work agent_id task =
    is_some_of task.assigned_agent agent_id && not (Task.is_final task.status)

abbrev is_node_of : ℕ → OrganizationNode → Bool
is_node_of agent_id node = is_staff node.kind && is_some_of node.agent_id agent_id

unfoldable pub in_organization : Snapshot → ℕ → Bool
in_organization s agent_id =
    any (is_node_of agent_id) s.draft.nodes
    || is_some_and s.published (λ graph. any (is_node_of agent_id) graph.nodes)

unfoldable pub reduce_archive_agent : Snapshot → ℕ → Result Reduced
reduce_archive_agent s agent_id = do
  agent ← ok_or (find (has_agent_id agent_id) s.agents) not_found
  refuse (text_eq agent.display_name "Frank supervisor")
      (validation "the built-in Frank supervisor cannot be archived")
  refuse (is_active agent.status)
      (validation "move or cancel assigned work before archiving an active agent")
  refuse (any (is_unfinished_work agent_id) s.tasks)
      (validation "move or release unfinished work before archiving the agent")
  refuse (in_organization s agent_id)
      (validation "remove the agent from Organization before archiving it")
  ok (
    record s {
      agents = modify_first (has_agent_id agent_id) (λ a. record a { archived = true }) s.agents;
    },
    Event.agent_archived agent_id,
    CommandResult.accepted,
  )

pub data AgentCommand : Type 0 where
  create_agent : AgentSpec → AgentCommand
  update_agent : ℕ → AgentPatch → AgentCommand
  archive_agent : ℕ → AgentCommand

unfoldable pub reduce_agent : Env → Catalog → Snapshot → AgentCommand → Result Reduced
reduce_agent env catalog s (create_agent spec) = reduce_create_agent env catalog s spec
reduce_agent env catalog s (update_agent agent_id patch) =
    reduce_update_agent catalog s agent_id patch
reduce_agent env catalog s (archive_agent agent_id) = reduce_archive_agent s agent_id
