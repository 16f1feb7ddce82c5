-- ===== src/Protocol.antt =====
-- crates/frank-protocol: the statuses with their transition tables, and the records of a snapshot.
pub mod Mission
pub mod Task
pub mod Status
pub mod Connector
pub mod Actors
pub mod Messages
pub mod Records
pub mod Command
