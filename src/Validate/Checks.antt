-- ===== src/Validate/Checks.antt =====
-- `validate_task_view` and `validate_task_spec` of crates/frank-orchestrator/src/validate.rs.
pub mod Accepted
use frank.Prelude.{
  ℕ, Bool, true, false, not, ◌==◌, ◌||◌, ◌&&◌, Option, none, some, List, [], ◌∷◌, ◌++◌, any,
  contains, length, map, ltb, option_eq, if◌then◌else◌, Result, ok, err, ◌>>=◌, ◌>>◌, refuse,
  validation, is_some_and,
}
use frank.Protocol.Task.{TaskStatus}
use frank.Protocol.Records.{TaskView, TaskSpec}
use frank.Validate.{valid_agent_text, valid_content_text}
use frank.Validate.Cycle.{Graph, has_cycle}
use frank.Validate.Parents.{is_parent_of, validate_parent_link}

-- `MAX_MESSAGE_BODY_BYTES` and `DEFAULT_MAX_ATTEMPTS` of crates/frank-protocol.
abbrev pub max_message_body_bytes : ℕ
max_message_body_bytes = 65536

abbrev pub default_max_attempts : ℕ
default_max_attempts = 2

-- `ids.iter().any(|id| !unique.insert(*id))`
abbrev pub has_duplicate : List ℕ → Bool
has_duplicate [] = false
has_duplicate (id ∷ ids) = contains ids id || has_duplicate ids

-- The map that is collected from the tasks keeps the last entry of an identifier; the candidate's
-- entry goes in last.
abbrev pub task_entries : List TaskView → Graph
task_entries [] = []
task_entries (task ∷ tasks) = task_entries tasks ++ ((task.id, task.dependencies) ∷ [])

unfoldable pub dependency_graph : TaskView → List TaskView → Graph
dependency_graph candidate tasks = (candidate.id, candidate.dependencies) ∷ task_entries tasks

abbrev pub exists_in : List TaskView → ℕ → Bool
exists_in tasks dependency = any (λ task. task.id == dependency) tasks

abbrev pub crosses_mission : TaskView → List TaskView → ℕ → Bool
crosses_mission candidate tasks dependency =
    any (λ task. task.id == dependency && not (task.mission_id == candidate.mission_id)) tasks

abbrev pub on_ancestor : List TaskView → Option ℕ → List ℕ → Bool
on_ancestor tasks parent dependencies = is_some_and parent (λ parent_id.
    any (λ dependency. dependency == parent_id || is_parent_of tasks dependency parent_id)
      dependencies)

abbrev pub on_descendant : TaskView → List TaskView → Bool
on_descendant candidate tasks =
    any (λ dependency. is_parent_of tasks candidate.id dependency) candidate.dependencies

unfoldable pub validate_task_view : TaskView → List TaskView → Result (Unit {0})
validate_task_view candidate tasks =
    refuse
      (not (valid_agent_text candidate.title 256)
        || not (valid_content_text candidate.objective max_message_body_bytes)
        || ltb 256 (length candidate.dependencies))
      (validation "task title, objective, or dependencies are invalid")
    >> refuse (has_duplicate candidate.dependencies) (validation "task dependencies must be unique")
    >> refuse (contains candidate.dependencies candidate.id)
        (validation "task cannot depend on itself")
    >> validate_parent_link candidate tasks
    >> refuse (any (λ dependency. not (exists_in tasks dependency)) candidate.dependencies)
        (validation "task dependency does not exist")
    >> refuse (any (crosses_mission candidate tasks) candidate.dependencies)
        (validation "task dependency crosses mission boundary")
    >> refuse (on_ancestor tasks candidate.parent_task_id candidate.dependencies)
        (validation "a child task cannot depend on its parent or an ancestor")
    >> refuse (on_descendant candidate tasks)
        (validation "a task cannot depend on one of its descendants")
    >> refuse (has_cycle (dependency_graph candidate tasks))
        (validation "task dependencies must form a DAG")

abbrev pub spec_candidate : TaskSpec → TaskView
spec_candidate spec = record {
  id = 0;
  mission_id = spec.mission_id;
  title = spec.title;
  objective = spec.objective;
  dependencies = spec.dependencies;
  required_role_id = spec.required_role_id;
  priority = spec.priority;
  budget = spec.budget;
  status = TaskStatus.backlog;
  assigned_agent = spec.assigned_agent;
  reviewer_agent = none;
  claimed_at = none;
  claim_source = none;
  attempt = 0;
  max_attempts = default_max_attempts;
  worktree = none;
  branch = none;
  result_artifact = none;
  taskboard_id = spec.taskboard_id;
  workflow_id = spec.workflow_id;
  parent_task_id = spec.parent_task_id;
  child_task_ids = [];
  kind = spec.kind;
  active_role_node_id = none;
  organization_revision = none;
  rework_limit = spec.rework_limit;
  rework_count = 0;
}

abbrev pub in_mission : TaskSpec → List TaskView → ℕ → Bool
in_mission spec tasks dependency =
    any (λ task. task.id == dependency && task.mission_id == spec.mission_id) tasks

unfoldable pub validate_task_spec : TaskSpec → List TaskView → Result (Unit {0})
validate_task_spec spec tasks =
    refuse
      (not (valid_agent_text spec.title 256)
        || not (valid_content_text spec.objective max_message_body_bytes))
      (validation "task title and objective are required")
    >> refuse (ltb 256 (length spec.dependencies)) (validation "task has too many dependencies")
    >> refuse (has_duplicate spec.dependencies) (validation "task dependencies must be unique")
    >> refuse (any (λ dependency. not (in_mission spec tasks dependency)) spec.dependencies)
        (validation "task dependency does not exist in this mission")
    >> refuse (any (λ dependency. dependency == 0) spec.dependencies)
        (validation "task dependency id is invalid")
    >> refuse (on_ancestor tasks spec.parent_task_id spec.dependencies)
        (validation "a child task cannot depend on its parent or an ancestor")
    >> validate_task_view (spec_candidate spec) tasks
