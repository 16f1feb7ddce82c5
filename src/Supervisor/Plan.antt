-- ===== src/Supervisor/Plan.antt =====
-- `proposal_to_plan` of crates/frank-orchestrator/src/supervisor.rs: Kahn's algorithm over the
-- keys that a provider gave. The maps by key are lists in the order of the proposal, and the
-- number beside a task is its entry in `indegree`.
pub mod Release
pub mod Order
pub mod Planned
use frank.Prelude.{
  ℕ, suc, zero, ◌-◌, ◌⊎◌, inl, inr, String, Bool, true, false, not, ◌||◌, ◌==◌, Option, none, some,
  List, [], ◌∷◌, ◌++◌, map, keep, any, find, length, unwrap_or, text_eq, is_blank, if◌then◌else◌,
}
use frank.Protocol.Records.{Budget, ℤ, TaskSpec, WorkItemKind}

pub record SupervisorTaskProposal : Type 0 where
  pub client_key : String
  pub title : String
  pub objective : String
  pub dependencies : List String
  pub priority : ℤ
  pub target_role_id : Option ℕ
  pub assigned_agent : Option ℕ
  pub budget : Budget

pub record SupervisorPlanProposal : Type 0 where
  pub mission_id : ℕ
  pub summary : String
  pub reasoning : Option String
  pub tasks : List SupervisorTaskProposal

pub record SupervisorPlan : Type 0 where
  pub mission_id : ℕ
  pub tasks : List TaskSpec
  pub task_keys : List String
  pub dependency_keys : List (List String)
  pub notes : String

abbrev pub default_rework_limit : ℕ
default_rework_limit = 3

abbrev pub has : List String → String → Bool
has keys key = any (λ k. text_eq k key) keys

abbrev pub keys_of : List SupervisorTaskProposal → List String
keys_of tasks = map (λ t. t.client_key) tasks

-- The first loop: an empty key, or one that is there already.
unfoldable pub check_keys : List String → List SupervisorTaskProposal → Option String
check_keys seen [] = none
check_keys seen (t ∷ tasks) =
    let rest = check_keys (t.client_key ∷ seen) tasks in
    if is_blank t.client_key
    then some "supervisor proposal contains an empty task key"
    else if has seen t.client_key
    then some "supervisor proposal contains duplicate task keys"
    else rest

abbrev pub bad_reference : List SupervisorTaskProposal → SupervisorTaskProposal → Bool
bad_reference tasks t =
    any (λ d. text_eq d t.client_key || not (has (keys_of tasks) d)) t.dependencies

abbrev pub Pending : Type 0
Pending = List (SupervisorTaskProposal × ℕ)

abbrev pub indegrees : List SupervisorTaskProposal → Pending
indegrees tasks = map (λ t. (t, length t.dependencies)) tasks

abbrev pub roots : List SupervisorTaskProposal → List String
roots tasks = keys_of (keep (λ t. length t.dependencies == 0) tasks)

-- The inner loop for one finished key: the lowered numbers, and the keys that it opens.
unfoldable pub release : String → Pending → Pending × List String
release key [] = ([], [])
release key ((t, n) ∷ pending) =
    let rest = release key pending in
    if has t.dependencies key
    then ((t, n - 1) ∷ rest.0, if n - 1 == 0 then t.client_key ∷ rest.1 else rest.1)
    else ((t, n) ∷ rest.0, rest.1)

-- The queue loop. The finished keys are kept with the latest first.
unfoldable pub order_keys : ℕ → Pending → List String → List String → Option (List String)
order_keys fuel pending [] finished = some finished
order_keys zero pending (key ∷ ready) finished = none
order_keys (suc fuel) pending (key ∷ ready) finished =
    order_keys fuel (release key pending).0 (ready ++ (release key pending).1) (key ∷ finished)

abbrev pub reverse_onto : List String → List String → List String
reverse_onto [] acc = acc
reverse_onto (k ∷ keys) acc = reverse_onto keys (k ∷ acc)

abbrev pub ordered : List SupervisorTaskProposal → Option (List String)
ordered tasks = order_keys (suc (length tasks)) (indegrees tasks) (roots tasks) []

abbrev task_spec : ℕ → SupervisorTaskProposal → TaskSpec
task_spec mission_id t = record {
  mission_id = mission_id;
  title = t.title;
  objective = t.objective;
  dependencies = [];
  required_role_id = t.target_role_id;
  priority = t.priority;
  assigned_agent = t.assigned_agent;
  budget = t.budget;
  taskboard_id = none;
  workflow_id = none;
  parent_task_id = none;
  kind = WorkItemKind.task;
  rework_limit = default_rework_limit;
}

-- The tasks of the ordered keys; a key without one ends the planning.
unfoldable pub pick_tasks :
    List SupervisorTaskProposal → List String → Option (List SupervisorTaskProposal)
pick_tasks tasks [] = some []
pick_tasks tasks (key ∷ keys) = elim (find (λ t. text_eq t.client_key key) tasks) [
  | none ↦ none
  | some t ↦ elim (pick_tasks tasks keys) [ none ↦ none | some picked ↦ some (t ∷ picked) ]
]

unfoldable pub build_plan : SupervisorPlanProposal → List String → String ⊎ SupervisorPlan
build_plan proposal keys = elim (pick_tasks proposal.tasks keys) [
  | none ↦ inl "supervisor proposal task disappeared"
  | some picked ↦ inr (record {
    mission_id = proposal.mission_id;
    tasks = map (task_spec proposal.mission_id) picked;
    task_keys = keys;
    dependency_keys = map (λ t. t.dependencies) picked;
    notes = unwrap_or proposal.reasoning proposal.summary;
  })
]

unfoldable pub order_plan : SupervisorPlanProposal → Option (List String) → String ⊎ SupervisorPlan
order_plan proposal none = inl "supervisor proposal dependencies contain a cycle"
order_plan proposal (some finished) =
    if length finished == length proposal.tasks
    then build_plan proposal (reverse_onto finished [])
    else inl "supervisor proposal dependencies contain a cycle"

unfoldable pub proposal_to_plan : SupervisorPlanProposal → String ⊎ SupervisorPlan
proposal_to_plan proposal = elim (check_keys [] proposal.tasks) [
  | some error ↦ inl error
  | none ↦
      if any (bad_reference proposal.tasks) proposal.tasks
      then inl "supervisor proposal contains an unknown or self dependency"
      else order_plan proposal (ordered proposal.tasks)
]
