-- ===== src/Runtime.antt =====
-- The small state machines of the daemon: the scheduler, the mailbox and the budget ledger.
pub mod Scheduler
pub mod Mailbox
pub mod Budget
