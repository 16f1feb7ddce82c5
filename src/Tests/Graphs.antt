-- ===== src/Tests/Graphs.antt =====
-- Runs of the checks on dependencies and parents.
use frank.Prelude.{ℕ, true, refl, ◌≡◌, ◌↔◌, none, some, [], ◌∷◌, List, ok}
use frank.Protocol.Task.{TaskStatus}
use frank.Protocol.Records.{TaskView}
use frank.Validate.Cycle.{Graph, has_cycle, scan, keys}
use frank.Validate.Cycle.Sound.{Cyclic}
use frank.Validate.Cycle.Decides.{has_cycle-decides}
use frank.Validate.Parents.{is_parent_of, validate_parent_link}
use frank.Validate.Parents.Ancestors.{Above, is_parent_of-decides}
use frank.Validate.Parents.Roots.{GoodParent, validate_parent_link-accepts}
use frank.Validate.Checks.{validate_task_view}
use frank.Validate.Checks.Accepted.{Accepted, validate_task_view-accepts}
use frank.Tests.Data.{sample_task, three_tasks}

abbrev triangle : Graph
triangle = (1, 2 ∷ []) ∷ (2, 3 ∷ []) ∷ (3, 1 ∷ []) ∷ []

has_cycle-decides_example :
    ((has_cycle triangle ≡ true) ↔ Cyclic triangle)
    × (scan triangle (keys triangle) ≡ some (has_cycle triangle))
has_cycle-decides_example = has_cycle-decides triangle

abbrev child_of : ℕ → ℕ → TaskView
child_of up id = record (sample_task id TaskStatus.backlog [] none) { parent_task_id = some up }

abbrev family : List TaskView
family = sample_task 4 TaskStatus.backlog [] none ∷ child_of 4 5 ∷ child_of 5 6 ∷ []

is_parent_of-decides_example : (is_parent_of family 4 6 ≡ true) ↔ Above family 4 6
is_parent_of-decides_example = is_parent_of-decides family 4 6

validate_parent_link-accepts_example :
    (validate_parent_link (child_of 6 7) family ≡ ok tt) ↔ GoodParent (child_of 6 7) family 6
validate_parent_link-accepts_example = validate_parent_link-accepts (child_of 6 7) family 6 refl

validate_task_view-accepts_example :
    (validate_task_view (sample_task 7 TaskStatus.backlog (4 ∷ 5 ∷ []) none) three_tasks ≡ ok tt)
    ↔ Accepted (sample_task 7 TaskStatus.backlog (4 ∷ 5 ∷ []) none) three_tasks
validate_task_view-accepts_example =
    validate_task_view-accepts (sample_task 7 TaskStatus.backlog (4 ∷ 5 ∷ []) none) three_tasks
