-- ===== src/Tasks.antt =====
-- The task reducers of crates/frank-orchestrator/src/reduce/task.rs and its children.
pub mod Feed
pub mod Locks
pub mod Frame
pub mod Assign
pub mod Checks
pub mod Provision
pub mod Move
pub mod SetStatus
pub mod Review
pub mod Create
pub mod Machine
