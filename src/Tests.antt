-- ===== src/Tests.antt =====
-- Concrete runs of the modelled code: the sample data, and one run for each theorem.
mod Data
mod Graphs
mod Tasks
mod Machine
mod Runtime
mod Supervisor
mod Missions
mod Organization
mod Store
mod Target
mod Commands
mod Messages
mod Team
