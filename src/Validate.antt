-- ===== src/Validate.antt =====
-- The text checks, patches and retry rule of crates/frank-orchestrator/src/validate.rs. The checks
-- of the dependency and parent graphs are in the modules below.
pub mod Authorize
pub mod Checks
pub mod Cycle
pub mod Parents
use frank.Prelude.{
  ℕ, ◌+◌, String, Bool, not, ◌&&◌, ltb, leb, min, is_blank, has_control, has_nul, byte_len,
  unwrap_or, if◌then◌else◌,
}
use frank.Protocol.Task.{TaskStatus}
use frank.Protocol.Records.{TaskView, TaskPatch}

unfoldable pub valid_agent_text : String → ℕ → Bool
valid_agent_text value max_bytes =
    not (is_blank value) && leb (byte_len value) max_bytes && not (has_control value)

unfoldable pub valid_content_text : String → ℕ → Bool
valid_content_text value max_bytes =
    not (is_blank value) && leb (byte_len value) max_bytes && not (has_nul value)

unfoldable pub apply_task_patch : TaskView → TaskPatch → TaskView
apply_task_patch task patch = record task {
  title = unwrap_or patch.title task.title;
  objective = unwrap_or patch.objective task.objective;
  dependencies = unwrap_or patch.dependencies task.dependencies;
  required_role_id = unwrap_or patch.required_role_id task.required_role_id;
  priority = unwrap_or patch.priority task.priority;
  assigned_agent = unwrap_or patch.assigned_agent task.assigned_agent;
  budget = unwrap_or patch.budget task.budget;
}

-- `saturating_add(1)` on a u8; the changed task and the status to take.
unfoldable pub retry_after_failure : TaskView → TaskView × TaskStatus
retry_after_failure task =
    let attempt = min (task.attempt + 1) 255 in
    (
      record task { attempt = attempt },
      if ltb attempt task.max_attempts then TaskStatus.ready else TaskStatus.blocked,
    )
