-- ===== src/Tasks/Assign.antt =====
-- `assign_task` of crates/frank-orchestrator/src/reduce/task.rs, `materialize_role` of role.rs, and
-- the assign, claim, release and comment handlers of reduce/task/assignment.rs.
pub mod Claims
use frank.Prelude.{
  ℕ, ◌+◌, String, Bool, true, false, not, ◌&&◌, ◌||◌, ◌==◌, ltb, Option, none, some, List, [], ◌∷◌,
  map, length, any, find, modify_first, is_some_of, is_some_and, is_some, is_none, and_then,
  or_else, unwrap_or, option_text_eq, concat, Result, ok, err, OrchestratorError, validation,
  forbidden, not_found, ◌>>=◌, ◌>>◌, refuse, ok_or, if◌then◌else◌,
}
use frank.Protocol.Mission
use frank.Protocol.Task.{TaskStatus}
use frank.Protocol.Task
use frank.Protocol.Status.{
  TaskClaimSource, TaskFeedKind, is_reclaim, is_assigned_kind, is_available, is_draining, is_agent,
}
use frank.Protocol.Records.{
  TaskView, AgentView, RoleView, MissionView, ModelSource, ActorRef, TaskGrantView, Snapshot, Env,
  Event, CommandResult, Reduced,
}
use frank.Organization.{find_live_agent, organization_allows_agent, organization_allows_handoff}
use frank.Validate.{valid_content_text}
use frank.Tasks.Feed.{
  has_id, find_task, find_mission, any_unfinished, set_task, feed_entry, append_task_feed,
}

-- `actor.id.as_deref().and_then(|id| AgentId::parse(id).ok())`
abbrev pub actor_agent : Env → ActorRef → Option ℕ
actor_agent env actor = and_then actor.id env.parse_uuid

unfoldable pub materialize_role : AgentView → RoleView → AgentView
materialize_role agent role =
    let model = or_else agent.model_override role.model in
    record agent {
      role_id = some role.id;
      role_revision = role.revision;
      model = model;
      effective_model = model;
      model_source = if is_some agent.model_override then ModelSource.agent else ModelSource.role;
      instructions = role.instructions;
      policy = role.policy;
      budget = role.budget;
    }

-- A newer revision of the agent's role is applied when the agent claims a task.
unfoldable pub refresh_role : List RoleView → AgentView → AgentView
unfolding materialize_role
refresh_role roles agent = elim agent.role_id [
  | none ↦ agent
  | some role_id ↦ elim (find (λ r. r.id == role_id && not r.archived) roles) [
    | none ↦ agent
    | some role ↦
        if ltb agent.role_revision role.revision then materialize_role agent role else agent
  ]
]

-- A new owner never inherits the grants of the previous one.
abbrev pub revoke_others : ℕ → ℕ → TaskGrantView → TaskGrantView
revoke_others task_id agent_id grant =
    if grant.task_id == task_id && not (grant.agent_id == agent_id)
    then record grant { revoked = true }
    else grant

abbrev pub agent_name : ℕ → List AgentView → String
agent_name agent_id agents = elim (find (λ agent. agent.id == agent_id) agents) [
  | none ↦ ""
  | some agent ↦ agent.display_name
]

abbrev pub claimed_task : ℕ → TaskClaimSource → String → TaskView → TaskView
claimed_task agent_id source now task = record task {
  assigned_agent = some agent_id;
  claimed_at = some now;
  claim_source = some source;
  status = if Task.is_backlog task.status then TaskStatus.ready else task.status;
}

abbrev claimed_agent : List RoleView → String → AgentView → AgentView
claimed_agent roles now agent = record (refresh_role roles agent) { last_claimed_at = some now }

-- What `assign_task` writes, once every check has passed.
unfoldable pub commit_claim :
    Env → Snapshot → ℕ → ℕ → TaskClaimSource → TaskFeedKind → ActorRef → Snapshot
commit_claim env s task_id agent_id source feed_kind actor =
    let now = env.timestamp s.draws in
    let claimed = record s {
      tasks = modify_first (has_id task_id) (claimed_task agent_id source now) s.tasks;
      task_grants = map (revoke_others task_id agent_id) s.task_grants;
      agents = modify_first (λ agent. agent.id == agent_id) (claimed_agent s.roles now) s.agents;
      draws = s.draws + 1;
    } in
    append_task_feed env claimed task_id actor feed_kind
      (concat (
        (if is_assigned_kind feed_kind then "Task assigned to " else "Task claimed by ")
        ∷ agent_name agent_id claimed.agents
        ∷ []))
      []

-- An agent may hand work to itself or along a handoff relation.
unfoldable pub check_handoff : Env → Snapshot → ℕ → ActorRef → Result (Unit {0})
check_handoff env s agent_id actor =
    if is_agent actor.kind
    then (do
      source ← ok_or (actor_agent env actor) forbidden
      refuse (not (organization_allows_handoff s source agent_id)) forbidden)
    else ok tt

-- Another unfinished task of the same agent.
abbrev pub holds_other : ℕ → ℕ → TaskView → Bool
holds_other task_id agent_id candidate =
    not (candidate.id == task_id)
    && is_some_of candidate.assigned_agent agent_id
    && not (Task.is_final candidate.status)

-- The checks on the task itself, from the one on its status to the one on its present owner.
unfoldable pub check_claim :
    Snapshot → ℕ → AgentView → TaskView → TaskClaimSource → Result (Unit {0})
check_claim s agent_id agent task source = do
  refuse (Task.is_final task.status || Task.is_started task.status)
      (validation "only an available task can be claimed")
  refuse (is_some_and task.required_role_id (λ role_id. not (is_some_of agent.role_id role_id)))
      (validation "agent does not belong to the task's required role")
  mission ← ok_or (find_mission task.mission_id s.missions) not_found
  refuse (Mission.is_final mission.status) (validation "cannot claim work on a final mission")
  refuse (any_unfinished s.tasks task.dependencies)
      (validation "task dependencies must be done before claiming this task")
  refuse (is_some_and task.assigned_agent (λ id. not (id == agent_id) || not (is_reclaim source)))
      (validation "task is already claimed; release it before claiming again")

unfoldable pub assign_task :
    Env → Snapshot → ℕ → ℕ → TaskClaimSource → TaskFeedKind → ActorRef → Result Snapshot
assign_task env s task_id agent_id source feed_kind actor = do
  refuse (not (organization_allows_agent s agent_id))
      (validation "agent is not an active Organization staff member")
  agent ← ok_or (find_live_agent s agent_id) not_found
  check_handoff env s agent_id actor
  refuse (not (is_available agent.status)) (validation "only an idle agent can claim a task")
  task ← ok_or (find_task task_id s.tasks) not_found
  refuse (is_draining s.drain_status)
      (validation "Organization is draining; no new work may be claimed")
  refuse (any (holds_other task_id agent_id) s.tasks)
      (validation "an agent can claim only one unfinished task at a time")
  check_claim s agent_id agent task source
  ok (commit_claim env s task_id agent_id source feed_kind actor)

unfoldable pub reduce_assign_task : Env → Snapshot → ℕ → ℕ → ActorRef → Result Reduced
reduce_assign_task env s task_id agent_id actor = do
  next ← assign_task env s task_id agent_id TaskClaimSource.manual TaskFeedKind.assigned actor
  ok (next, Event.task_assigned task_id agent_id, CommandResult.accepted)

unfoldable pub reduce_claim_task :
    Env → Snapshot → ℕ → ℕ → TaskClaimSource → ActorRef → Result Reduced
reduce_claim_task env s task_id agent_id source actor = do
  next ← assign_task env s task_id agent_id source TaskFeedKind.claimed actor
  let claimed_at =
      unwrap_or (and_then (find_task task_id next.tasks) (λ task. task.claimed_at))
        (env.timestamp next.draws)
  ok (next, Event.task_claimed task_id agent_id claimed_at source, CommandResult.accepted)

abbrev pub released_task : TaskView → TaskView
released_task task = record task { assigned_agent = none; claimed_at = none; claim_source = none }

unfoldable pub reduce_release_task : Env → Snapshot → ℕ → ActorRef → Result Reduced
reduce_release_task env s task_id actor = do
  task ← ok_or (find_task task_id s.tasks) not_found
  refuse (Task.is_running task.status)
      (validation "a running task must be stopped before releasing its claim")
  ok (
    append_task_feed env (set_task task_id released_task s) task_id actor TaskFeedKind.released
        "Task claim released" [],
    Event.task_released task_id,
    CommandResult.accepted,
  )

-- `artifact_ids.iter().any(..)`: some attachment is not an artifact of the task's mission that is
-- free or belongs to the task.
abbrev missing_artifact : Snapshot → ℕ → TaskView → ℕ → Bool
missing_artifact s task_id task artifact_id = not (
    any
      (λ artifact.
        artifact.id == artifact_id
        && artifact.mission_id == task.mission_id
        && (is_some_of artifact.task_id task_id || is_none artifact.task_id))
      s.artifacts)

unfoldable pub reduce_add_task_comment :
    Env → ℕ → Snapshot → ℕ → String → List ℕ → ActorRef → Result Reduced
reduce_add_task_comment env max_message_bytes s task_id body artifact_ids actor = do
  refuse (not (valid_content_text body max_message_bytes))
      (validation "task comment is empty or exceeds the message limit")
  task ← ok_or (find_task task_id s.tasks) not_found
  refuse
      (is_agent actor.kind
        && not (
            option_text_eq
              (elim task.assigned_agent [ none ↦ none | some id ↦ some (env.show_uuid id) ])
              actor.id))
      forbidden
  refuse (ltb 256 (length artifact_ids) || any (missing_artifact s task_id task) artifact_ids)
      not_found
  let entry = feed_entry env s task_id actor TaskFeedKind.comment body artifact_ids
  ok (
    append_task_feed env s task_id actor TaskFeedKind.comment body artifact_ids,
    Event.task_activity_added entry,
    CommandResult.created (env.show_uuid entry.id),
  )
