-- ===== src/Tests/Supervisor.antt =====
-- Runs of the planner.
use frank.Prelude.{
  ◌↔◌, false, ◌≡◌, ◌≤◌, refl, true, none, some, [], ◌∷◌, List, String, inl, inr, ◌⊎◌, All, In,
  contains, is_blank, is_whitespace,
}
use frank.Protocol.Task.{TaskStatus}
use frank.Protocol.Records.{
  TaskView, AgentView, pos, AgentPolicy, FilesystemPolicy, ShellPolicy, NetworkPolicy,
  ApprovalPolicy,
}
use frank.Runtime.Scheduler.{occurrences}
use frank.Supervisor.Assign.{waits, can_work, fits_role, assign_ready_tasks}
use frank.Supervisor.Assign.Rounds.{agent_ids, assignees}
use frank.Supervisor.Assign.Fair.{
  Deserved, assign_ready_tasks-once, assign_ready_tasks-Deserved, assign_ready_tasks-Served,
}
use frank.Supervisor.Plan.{
  SupervisorTaskProposal, SupervisorPlanProposal, SupervisorPlan, check_keys, ordered, order_keys,
  release, pick_tasks, build_plan, order_plan, proposal_to_plan,
}
use frank.Supervisor.Policy.{policy_satisfies, Covers, policy_satisfies-Covers}
use frank.Supervisor.Plan.Planned.{Follows, proposal_to_plan-Follows, ordered_total}
use frank.Tests.Data.{sample_env, sample_task, sample_agent, no_budget}

abbrev two_tasks : List TaskView
two_tasks = sample_task 4 TaskStatus.ready [] none ∷ sample_task 5 TaskStatus.ready [] none ∷ []

abbrev crew : List AgentView
crew = sample_agent 2 ∷ []

assign_ready_tasks-once_example :
    occurrences 2 (assignees (assign_ready_tasks sample_env two_tasks crew).1)
    ≤ occurrences 2 (agent_ids crew)
assign_ready_tasks-once_example = assign_ready_tasks-once sample_env two_tasks crew 2

assign_ready_tasks-Deserved_example :
    All (Deserved two_tasks crew) (assign_ready_tasks sample_env two_tasks crew).1
assign_ready_tasks-Deserved_example = assign_ready_tasks-Deserved sample_env two_tasks crew

assign_ready_tasks-Served_example :
    All
      (λ t.
        waits t ≡ true
        → (b : AgentView) → In b crew
        → can_work b ≡ true
        → fits_role t b ≡ true
        → contains (assignees (assign_ready_tasks sample_env two_tasks crew).1) b.id ≡ true)
      (assign_ready_tasks sample_env two_tasks crew).0
assign_ready_tasks-Served_example = assign_ready_tasks-Served sample_env two_tasks crew

abbrev piece : String → List String → SupervisorTaskProposal
piece key deps = record {
  client_key = key;
  title = "title";
  objective = "objective";
  dependencies = deps;
  priority = pos 0;
  target_role_id = none;
  assigned_agent = none;
  budget = no_budget;
}

abbrev proposal : SupervisorPlanProposal
proposal = record {
  mission_id = 1;
  summary = "stable";
  reasoning = none;
  tasks = piece "second" ("first" ∷ []) ∷ piece "first" [] ∷ [];
}

abbrev planned_or_empty : String ⊎ SupervisorPlan → SupervisorPlan
planned_or_empty (inr plan) = plan
planned_or_empty (inl message) = record {
  mission_id = 0;
  tasks = [];
  task_keys = [];
  dependency_keys = [];
  notes = message;
}

abbrev plan : SupervisorPlan
plan = planned_or_empty (proposal_to_plan proposal)

proposal-planned : proposal_to_plan proposal ≡ inr plan
unfolding proposal_to_plan check_keys order_plan order_keys release build_plan pick_tasks is_blank
    is_whitespace
proposal-planned = refl

proposal-check_keys : check_keys [] proposal.tasks ≡ none
unfolding check_keys is_blank is_whitespace
proposal-check_keys = refl

proposal_to_plan-Follows_example : Follows proposal plan
proposal_to_plan-Follows_example = proposal_to_plan-Follows proposal plan proposal-planned

ordered_total_example : (finished : List String) × (ordered proposal.tasks ≡ some finished)
ordered_total_example = ordered_total proposal proposal-check_keys

-- A dependency that is listed twice is counted twice and finished once.
twice_is_refused :
    proposal_to_plan (record proposal { tasks = piece "a" [] ∷ piece "b" ("a" ∷ "a" ∷ []) ∷ [] })
    ≡ inl "supervisor proposal dependencies contain a cycle"
unfolding proposal_to_plan check_keys order_plan order_keys release build_plan pick_tasks is_blank
    is_whitespace
twice_is_refused = refl

abbrev policy : ShellPolicy → NetworkPolicy → AgentPolicy
policy shell network = record {
  filesystem = FilesystemPolicy.workspace_write;
  shell = shell;
  network = network;
  approval = ApprovalPolicy.never;
}

open_covers :
    policy_satisfies
      (policy ShellPolicy.allow NetworkPolicy.deny)
      (policy ShellPolicy.ask NetworkPolicy.deny)
    ≡ true
unfolding policy_satisfies
open_covers = refl

asking_covers :
    policy_satisfies
      (policy ShellPolicy.ask NetworkPolicy.deny)
      (record (policy ShellPolicy.ask NetworkPolicy.deny) {
        filesystem = FilesystemPolicy.read_only;
      })
    ≡ true
unfolding policy_satisfies
asking_covers = refl

-- A profile with a shell does not meet a requirement without one.
closed_uncovered :
    policy_satisfies
      (policy ShellPolicy.allow NetworkPolicy.deny)
      (policy ShellPolicy.deny NetworkPolicy.deny)
    ≡ false
unfolding policy_satisfies
closed_uncovered = refl

policy_satisfies-Covers_example :
    (policy_satisfies
        (policy ShellPolicy.allow NetworkPolicy.deny)
        (policy ShellPolicy.ask NetworkPolicy.deny)
      ≡ true)
    ↔ Covers
        (policy ShellPolicy.allow NetworkPolicy.deny)
        (policy ShellPolicy.ask NetworkPolicy.deny)
policy_satisfies-Covers_example =
    policy_satisfies-Covers (policy ShellPolicy.allow NetworkPolicy.deny)
      (policy ShellPolicy.ask NetworkPolicy.deny)
