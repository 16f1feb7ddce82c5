-- ===== src/Lib.antt =====
-- Frank: the commands of the orchestrator, as pure steps on a snapshot.
--
-- The orchestrator (backend/crates/frank-orchestrator) keeps one snapshot of the workspace and
-- changes it by commands: a reducer checks the command against the snapshot, and gives the next
-- snapshot, an event and a reply, or an error. The views and enums of the snapshot are those of
-- backend/crates/frank-protocol. In the model a reducer is a function into `Result Reduced`, each
-- early return a `refuse` or an `ok_or`, in the order of the source.
--
-- The parts and their files (paths below backend/crates/frank-orchestrator/src):
--   Prelude        shared names: Boolean tests, list searches, texts, decimal numbers, `Result`
--   Protocol       frank-protocol's enums with their transition tables, and the views as records;
--                  `Snapshot` has the fields that the modelled reducers touch; Actors are agents,
--                  roles and their policies, Messages messages and approvals, Command the kinds of
--                  commands and the roles of devices
--   Organization   validate.rs: the queries on the published Organization graph; Tools the tool grants,
--                  with the permissions of crates/frank-tool-catalog
--   Validate       validate.rs: text checks and patches; Cycle the search of the dependency graph,
--                  Parents the walks up the parents, Checks validate_task_view and validate_task_spec, and
--                  Authorize who may give a command
--   Git            git.rs and helpers.rs: the worktree plans and the path checks
--   Tasks          reduce/task.rs and reduce/task/: Feed, Locks (dependents and parents), Assign,
--                  SetStatus (its guards in Checks, the worktree in Provision, what it writes in
--                  Move), Review, Create, and Machine (the dispatcher and its runs)
--   Missions       reduce/mission.rs and approval_flow.rs: status, resume, delivery
--   Team           reduce/role.rs and reduce/agent.rs: Roles and Agents; the provider's catalog of
--                  models is an argument. Runs sequences of their commands
--   Messages       reduce/message.rs and messaging.rs: sends, acknowledgements and completions beside
--                  the daemon's mailbox, deliveries and expiries; Runs sequences of all of them, with
--                  commits that are lost and restarts
--   Approvals      reduce/approval.rs: requests, decisions, budgets; Grant the grants of a task
--   Runtime        scheduler.rs, mailbox.rs and budget.rs
--   Store          crates/frank-store/src (commit.rs, snapshot_store.rs, events.rs): the commit of a
--                  command with its event, Events the pages and the retention, Steps
--                  runs of commits, and Retry the loops of mission_flow.rs and approval_flow.rs that
--                  reduce a command and commit it while others commit
--   Target         crates/frank-target/src/markdown_block.rs: the marked blocks in a target's files
--   Supervisor     supervisor.rs: Assign (assign_ready_tasks) and Plan (proposal_to_plan); Policy is
--                  policy_satisfies of validate.rs
--   Tests          sample data, and a run for each theorem
--
-- How the state corresponds. A UUID is its number, with nil as 0, and a timestamp is its text.
-- `Env` holds what the program reads from outside: the identifiers and times in the order in which
-- they are drawn (the snapshot's `draws` counts them), the text form of a UUID, the encoding of a
-- queued operation, the file system, and the check of a repository by git. A hash map or a hash set
-- is a list; where the source iterates a hash map, the theorems hold for the order of the list,
-- whatever it is. Saturating arithmetic is written out.
--
-- Fuel. The search for a cycle, the walks up the parents and the queue of the planner are loops on
-- fuel. The fuel is one more than the number of nodes, of tasks or of proposed tasks, each round
-- uses up one of these, and the theorems on the answers cover a run that ends for want of fuel.
-- The retry loops have the four rounds of the source, and the loops of the marker blocks one more
-- than the length of the text.
--
-- Other writers. A transaction of the store is one step, with the statement that fails given as an
-- argument; between the reads and the commit of a retry loop stands any list of commits by others.
--
-- Not modelled: serialisation, the projection tables, the audit file (what a fault leaves in it
-- depends on partial writes and on reads that fail), processes and the network, the async runtime
-- (the reduction of a command is one step), the creation of a mission and the submission of a plan,
-- the waking of a message's recipient, and the reducers for workflows, artifacts and updates.
pub mod Prelude
pub mod Protocol
pub mod Organization
pub mod Validate
pub mod Git
pub mod Tasks
pub mod Team
pub mod Messages
pub mod Missions
pub mod Approvals
pub mod Runtime
pub mod Store
pub mod Supervisor
pub mod Target
pub mod Tests
