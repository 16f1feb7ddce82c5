-- ===== src/Store/Retry.antt =====
-- `commit_reduced` of crates/frank-orchestrator/src/mission_flow.rs and
-- `commit_organization_with_retry` of approval_flow.rs: read a snapshot, reduce a command on it, and
-- commit, while other writers commit in between.
pub mod Linear
use frank.Prelude.{
  ℕ, suc, zero, String, Option, none, some, List, or_else, Result, ok, err, OrchestratorError,
  StoreError,
}
use frank.Protocol.Records.{ActorRef, Snapshot, Event, CommandResult, Reduced}
use frank.Store.{Tables, Commit, CommandResponse, StoreResult, commit_command}
use frank.Store
use frank.Store.Steps.{Attempt, run}

-- What happens around one pass of the loop: the commits of other writers after the snapshot is
-- read, the time, and the fault that the own commit meets.
pub record Round : Type 0 where
  pub rivals : List Attempt
  pub now : String
  pub fault : Option StoreError

abbrev pub Reply : Type 0
Reply = Result CommandResponse × Tables

-- After the commit: only a stale revision, where the caller gave none, makes another round.
unfoldable pub next_round : Option ℕ → (Tables → Reply) → StoreResult Commit × Tables → Reply
next_round expected again (StoreResult.ok commit, db) = (ok commit.response, db)
next_round none again (StoreResult.err (StoreError.stale_revision current), db) = again db
next_round expected again (StoreResult.err e, db) = (err (OrchestratorError.store e), db)

-- The rounds that are left, counted down.
unfoldable pub commit_rounds :
    ℕ → (ℕ → Round) → (Snapshot → Result Reduced) → ℕ → Option ℕ → ActorRef → Tables → Reply
commit_rounds zero rounds reduce id expected actor db =
    (err (OrchestratorError.store (StoreError.stale_revision db.revision)), db)
commit_rounds (suc n) rounds reduce id expected actor db = elim (reduce db.snapshot) [
  | err e ↦ (err e, db)
  | ok (next, event, result) ↦
      let round = rounds n in
      next_round expected (commit_rounds n rounds reduce id expected actor) (
        commit_command round.now round.fault id (or_else expected (some db.snapshot.revision)) actor
          event next result (run round.rivals db))
]

unfoldable pub commit_reduced :
    (ℕ → Round) → (Snapshot → Result Reduced) → ℕ → Option ℕ → ActorRef → Tables → Reply
commit_reduced rounds reduce id expected actor db =
    commit_rounds 4 rounds reduce id expected actor db

-- The same loop, which never has an expected revision.
unfoldable pub commit_organization_with_retry :
    (ℕ → Round) → (Snapshot → Result Reduced) → ℕ → ActorRef → Tables → Reply
commit_organization_with_retry rounds reduce id actor db =
    commit_rounds 4 rounds reduce id none actor db
