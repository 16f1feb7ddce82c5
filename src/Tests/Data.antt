-- ===== src/Tests/Data.antt =====
-- The sample workspace: one mission, two agents and a few tasks.
use frank.Prelude.{
  ℕ, suc, zero, String, true, false, Option, none, some, List, [], ◌∷◌, concat, byte_len, inr,
}
use frank.Protocol.Mission.{MissionStatus}
use frank.Protocol.Task.{TaskStatus}
use frank.Protocol.Status.{AgentStatus, OrganizationDrainStatus, ActorKind}
use frank.Protocol.Records.{
  Env, Snapshot, TaskView, MissionView, AgentView, Budget, ActorRef, WorkItemKind, ModelSource,
  TaskGrantView, TaskGrantEffect, FilesystemPolicy, ShellPolicy, NetworkPolicy, ApprovalPolicy,
  TaskSpec, TaskPatch, OrganizationGraph, pos,
}

abbrev pub strokes : ℕ → String
strokes zero = ""
strokes (suc n) = concat ("i" ∷ strokes n ∷ [])

abbrev pub sample_env : Env
sample_env = record {
  uuid = λ n. suc (suc (suc (suc (suc (suc (suc (suc (suc n))))))));
  timestamp = λ n. "now";
  show_uuid = strokes;
  parse_uuid = λ s. some (byte_len s);
  encode_worktree = λ op. inr "plan";
  decode_worktree = λ s. none;
  canonicalize_allow_missing = λ s. some s;
  is_dir = λ s. true;
  canonicalize = λ s. some s;
  seconds = λ n. 1000;
  validate_repository = λ project. none;
}

abbrev pub no_budget : Budget
no_budget = record { time_seconds = none; turns = none; measured_tokens = none; cost_micros = none }

abbrev pub sample_task : ℕ → TaskStatus → List ℕ → Option ℕ → TaskView
sample_task id status deps owner = record {
  id = id;
  mission_id = 1;
  title = "title";
  objective = "objective";
  dependencies = deps;
  required_role_id = none;
  priority = pos 0;
  budget = no_budget;
  status = status;
  assigned_agent = owner;
  reviewer_agent = none;
  claimed_at = none;
  claim_source = none;
  attempt = 0;
  max_attempts = 2;
  worktree = some "/work";
  branch = some "frank/task";
  result_artifact = none;
  taskboard_id = none;
  workflow_id = none;
  parent_task_id = none;
  child_task_ids = [];
  kind = WorkItemKind.task;
  active_role_node_id = none;
  organization_revision = none;
  rework_limit = 1;
  rework_count = 0;
}

abbrev pub sample_agent : ℕ → AgentView
sample_agent id = record {
  id = id;
  role_id = none;
  role_revision = 0;
  display_name = "agent";
  model = none;
  effective_model = none;
  model_source = ModelSource.role;
  model_override = none;
  pending_model_override = none;
  pending_model_change = false;
  instructions = "";
  policy = record {
    filesystem = FilesystemPolicy.read_only;
    shell = ShellPolicy.deny;
    network = NetworkPolicy.deny;
    approval = ApprovalPolicy.never;
  };
  budget = no_budget;
  status = AgentStatus.idle;
  provider_session_id = none;
  last_claimed_at = none;
  archived = false;
}

abbrev pub sample_mission : MissionView
sample_mission = record {
  id = 1;
  project_id = 1;
  objective = "ship";
  status = MissionStatus.active;
  supervisor_session_id = none;
  branch = "frank/mission";
  budget = no_budget;
  last_error = none;
  created_at = "now";
  updated_at = "now";
}

abbrev pub sample_grant : ℕ → ℕ → TaskGrantView
sample_grant task_id agent_id = record {
  id = "grant";
  task_id = task_id;
  agent_id = agent_id;
  worktree = "/work";
  effect = TaskGrantEffect.workspace_write;
  expires_at = "later";
  revoked = false;
  source_approval_id = none;
}

abbrev pub empty_graph : OrganizationGraph
empty_graph = record {
  id = 0;
  draft_revision = 0;
  published_revision = 0;
  nodes = [];
  relations = [];
}

abbrev pub workspace : List TaskView → List TaskGrantView → Snapshot
workspace tasks grants = record {
  revision = 0;
  event_seq = 0;
  allowed_project_roots = [];
  projects = [];
  roles = [];
  agents = sample_agent 2 ∷ sample_agent 3 ∷ [];
  missions = sample_mission ∷ [];
  tasks = tasks;
  artifacts = [];
  operations = [];
  task_feed = [];
  task_grants = grants;
  draft = empty_graph;
  published = none;
  connector_profiles = [];
  drain_status = OrganizationDrainStatus.running;
  review_items = [];
  messages = [];
  approvals = [];
  approval_ttl_seconds = 300;
  draws = 0;
}

abbrev pub person : ActorRef
person = record { kind = ActorKind.device; id = none; display_name = none }

abbrev pub sample_spec : List ℕ → Option ℕ → TaskSpec
sample_spec deps up = record {
  mission_id = 1;
  title = "new";
  objective = "objective";
  dependencies = deps;
  required_role_id = none;
  priority = pos 0;
  assigned_agent = none;
  budget = no_budget;
  taskboard_id = none;
  workflow_id = none;
  parent_task_id = up;
  kind = WorkItemKind.task;
  rework_limit = 1;
}

abbrev pub dependencies_patch : List ℕ → TaskPatch
dependencies_patch deps = record {
  title = none;
  objective = none;
  dependencies = some deps;
  required_role_id = none;
  priority = none;
  assigned_agent = none;
  budget = none;
}

-- Task 4 is Done, 5 and 6 depend on it; 5 is claimed by agent 2.
abbrev pub three_tasks : List TaskView
three_tasks =
    sample_task 4 TaskStatus.done [] none
    ∷ sample_task 5 TaskStatus.running (4 ∷ []) (some 2)
    ∷ sample_task 6 TaskStatus.ready (4 ∷ []) none
    ∷ []
