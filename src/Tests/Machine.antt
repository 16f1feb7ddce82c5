-- ===== src/Tests/Machine.antt =====
-- A run of task commands.
use frank.Prelude.{
  false, refl, ◌≡◌, none, [], ◌∷◌, Result, ok, err, arith, is_blank, has_control, has_nul,
  is_whitespace, is_control,
}
use frank.Protocol.Records.{Snapshot, Reduced, Event, CommandResult}
use frank.Validate.{valid_agent_text, valid_content_text}
use frank.Validate.Cycle.{has_cycle, scan, dfs_cycle, any_dependency}
use frank.Validate.Cycle.Decides.{has_cycle-decides}
use frank.Validate.Parents.{is_parent_of, is_parent_from, validate_parent_link}
use frank.Validate.Checks.{task_entries, dependency_graph, validate_task_view, validate_task_spec}
use frank.Tasks.Create.{reduce_create_task, check_assignee, check_task_role, new_task, link_parent}
use frank.Tasks.Machine.{TaskCommand, reduce_task, Run, idle, step}
use frank.Tasks.Machine.WellFormed.{WellFormed, run-WellFormed}
use frank.Tests.Data.{sample_env, sample_spec, workspace, person, three_tasks}

abbrev at_first : Snapshot
at_first = workspace three_tasks []

abbrev add_task : TaskCommand
add_task = TaskCommand.create_task (sample_spec (5 ∷ 6 ∷ []) none)

abbrev value : Result Reduced → Reduced
value (ok r) = r
value (err e) = (at_first, Event.task_released 0, CommandResult.accepted)

abbrev added : Reduced
added = value (reduce_task sample_env 100 at_first add_task person)

added-ok : reduce_task sample_env 100 at_first add_task person ≡ ok added
unfolding reduce_task reduce_create_task check_assignee check_task_role validate_task_spec
    validate_task_view valid_agent_text valid_content_text is_blank has_control has_nul
    is_whitespace is_control validate_parent_link is_parent_of is_parent_from dependency_graph
    has_cycle scan dfs_cycle any_dependency link_parent new_task
added-ok = refl

start-has_cycle : has_cycle (task_entries three_tasks) ≡ false
unfolding has_cycle scan dfs_cycle any_dependency
start-has_cycle = refl

start-WellFormed : WellFormed at_first
start-WellFormed = record {
  unique = ((refl, (refl, tt)), ((refl, tt), (tt, tt)));
  acyclic = λ c.
      absurd
        (ground (arith, start-has_cycle, (has_cycle-decides (task_entries three_tasks)).0.1 c));
}

abbrev one_task : Run sample_env 100 at_first added.0
one_task = step add_task person added refl added-ok idle

run-WellFormed_example : WellFormed added.0
run-WellFormed_example = run-WellFormed sample_env 100 one_task start-WellFormed
