-- ===== src/Target.antt =====
-- The edits that crates/frank-target makes to a target's files.
pub mod Markers
