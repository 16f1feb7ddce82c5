-- ===== src/Supervisor.antt =====
-- The deterministic planner of crates/frank-orchestrator/src/supervisor.rs.
pub mod Assign
pub mod Plan
pub mod Policy
