-- ===== src/Team/Roles.antt =====
-- `reduce_role` of crates/frank-orchestrator/src/reduce/role.rs.
use frank.Prelude.{
  ℕ, ◌+◌, ◌-◌, String, Bool, true, false, not, ◌&&◌, ◌||◌, ◌==◌, Option, none, some, [], ◌∷◌, ◌++◌,
  any, find, modify_first, min, is_none, is_some_of, unwrap_or, ltb, byte_len, eq_ignore_ascii_case,
  u64_limit, if◌then◌else◌, Result, ok, ◌>>=◌, ◌>>◌, refuse, ok_or, validation, not_found,
}
use frank.Protocol.Status.{is_available}
use frank.Protocol.Actors.{RoleSpec, RolePatch}
use frank.Protocol.Records.{AgentView, RoleView, Snapshot, Env, Event, CommandResult, Reduced}
use frank.Validate.{valid_agent_text}
use frank.Validate.Checks.{max_message_body_bytes}
use frank.Tasks.Assign.{materialize_role}
use frank.Team.{Catalog, validate_openrouter_model, valid_optional_agent_text, is_live_role}

-- The test of `validate_role`, which `CreateRole` makes twice.
unfoldable pub invalid_role : String → String → Option String → Bool
invalid_role name instructions model =
    not (valid_agent_text name 128)
    || ltb max_message_body_bytes (byte_len instructions)
    || not (valid_optional_agent_text model 256)
    || is_none model

abbrev pub validate_role : RoleView → Result (Unit {0})
validate_role role =
    refuse (invalid_role role.name role.instructions role.model)
      (validation "role name and canonical model are required")

unfoldable pub apply_role_patch : RolePatch → RoleView → RoleView
apply_role_patch patch role = record role {
  name = unwrap_or patch.name role.name;
  model = if patch.clear_model then none else unwrap_or patch.model role.model;
  instructions = unwrap_or patch.instructions role.instructions;
  policy = unwrap_or patch.policy role.policy;
  budget = unwrap_or patch.budget role.budget;
}

unfoldable pub new_role : Env → Snapshot → RoleSpec → RoleView
new_role env s spec = record {
  id = env.uuid s.draws;
  name = spec.name;
  model = spec.model;
  instructions = spec.instructions;
  policy = spec.policy;
  budget = spec.budget;
  revision = 1;
  archived = false;
}

unfoldable pub reduce_create_role : Env → Catalog → Snapshot → RoleSpec → Result Reduced
reduce_create_role env catalog s spec = do
  refuse (invalid_role spec.name spec.instructions spec.model)
      (validation "role name and canonical model are required")
  validate_openrouter_model catalog spec.model
  refuse (any (λ role. not role.archived && eq_ignore_ascii_case role.name spec.name) s.roles)
      (validation "role name must be unique")
  let role = new_role env s spec
  validate_role role
  ok (
    record s { roles = s.roles ++ role ∷ []; draws = s.draws + 1 },
    Event.role_upserted role,
    CommandResult.created (env.show_uuid role.id),
  )

unfoldable pub updated_role : RolePatch → RoleView → RoleView
updated_role patch role =
    let patched = apply_role_patch patch role in
    record patched { revision = min (role.revision + 1) (u64_limit - 1) }

abbrev pub asked_model : RolePatch → Option String
asked_model patch = if patch.clear_model then none else unwrap_or patch.model none

abbrev drops_model : RolePatch → Bool
drops_model patch = patch.clear_model || elim patch.model [ some none ↦ true | _ ↦ false ]

abbrev taken_name : ℕ → RoleView → RoleView → Bool
taken_name role_id updated candidate =
    not (candidate.id == role_id)
    && not candidate.archived
    && eq_ignore_ascii_case candidate.name updated.name

unfoldable pub reduce_update_role : Catalog → Snapshot → ℕ → RolePatch → Result Reduced
reduce_update_role catalog s role_id patch = do
  validate_openrouter_model catalog (asked_model patch)
  refuse (drops_model patch) (validation "a role must keep a canonical model")
  role ← ok_or (find (is_live_role role_id) s.roles) not_found
  refuse (any (taken_name role_id (updated_role patch role)) s.roles)
      (validation "role name must be unique")
  validate_role (updated_role patch role)
  ok (
    record s { roles = modify_first (is_live_role role_id) (updated_role patch) s.roles },
    Event.role_upserted (updated_role patch role),
    CommandResult.accepted,
  )

unfoldable pub role_in_use : ℕ → Snapshot → Bool
role_in_use role_id s =
    any (λ agent. is_some_of agent.role_id role_id && not agent.archived) s.agents
    || any (λ task. is_some_of task.required_role_id role_id) s.tasks

abbrev pub archive_role : RoleView → RoleView
archive_role role = record role { archived = true }

unfoldable pub reduce_archive_role : Snapshot → ℕ → Result Reduced
reduce_archive_role s role_id = do
  role ← ok_or (find (λ r. r.id == role_id) s.roles) not_found
  refuse (role_in_use role_id s)
      (validation "a role cannot be archived while agents or tasks use it")
  ok (
    record s { roles = modify_first (λ r. r.id == role_id) archive_role s.roles },
    Event.role_archived role_id,
    CommandResult.accepted,
  )

abbrev pub is_live_id : ℕ → AgentView → Bool
is_live_id id agent = agent.id == id && not agent.archived

unfoldable pub reduce_set_agent_role : Snapshot → ℕ → ℕ → Result Reduced
reduce_set_agent_role s agent_id role_id = do
  role ← ok_or (find (is_live_role role_id) s.roles) not_found
  agent ← ok_or (find (is_live_id agent_id) s.agents) not_found
  refuse (not (is_available agent.status))
      (validation "an agent's role can change only while it is idle")
  ok (
    record s {
      agents = modify_first (is_live_id agent_id) (λ a. materialize_role a role) s.agents;
    },
    Event.agent_upserted (materialize_role agent role),
    CommandResult.accepted,
  )

pub data RoleCommand : Type 0 where
  create_role : RoleSpec → RoleCommand
  update_role : ℕ → RolePatch → RoleCommand
  archive_role_command : ℕ → RoleCommand
  set_agent_role : ℕ → ℕ → RoleCommand

unfoldable pub reduce_role : Env → Catalog → Snapshot → RoleCommand → Result Reduced
reduce_role env catalog s (create_role spec) = reduce_create_role env catalog s spec
reduce_role env catalog s (update_role role_id patch) = reduce_update_role catalog s role_id patch
reduce_role env catalog s (archive_role_command role_id) = reduce_archive_role s role_id
reduce_role env catalog s (set_agent_role agent_id role_id) =
    reduce_set_agent_role s agent_id role_id
