-- ===== src/Tests/Store.antt =====
-- Runs of the store's commits (crates/frank-store/src).
use frank.Prelude.{
  ℕ, suc, ◌-◌, ◌≡◌, refl, false, Option, none, some, List, [], ◌∷◌, map, take, max, arith, Result,
  ok, StoreError,
}
use frank.Protocol.Task.{TaskStatus}
use frank.Protocol.Records.{Snapshot, Reduced, Event, CommandResult}
use frank.Store.{
  Tables, CommitRequest, Commit, CommandResponse, StoreResult, commit_request, commit_new,
  commit_command, written, new_commit, replayed, stale, bytes_error, read_back, saturating_succ,
}
use frank.Store.Steps.{Attempt, attempt, try_commit, run, commit_request-again}
use frank.Store.Log.{IsLogged, run-IsLogged}
use frank.Store.Events.{events_after, oldest_row, by_seq, insert_row, past_cursor, resync}
use frank.Store.Events.Pages.{oldest_first, events_after_complete}
use frank.Store.Events.Numbers.{count_up}
use frank.Store.Retry.{Round, commit_reduced, commit_rounds, next_round}
use frank.Store.Retry.Linear.{OneStep, commit_reduced-OneStep}
use frank.Tests.Data.{sample_task, workspace, person}

abbrev empty_tables : Tables
empty_tables = record {
  revision = 0;
  event_seq = 0;
  snapshot = workspace [] [];
  events = [];
  outbox = [];
  commands = [];
}

abbrev one_task : Snapshot
one_task = workspace (sample_task 4 TaskStatus.ready [] none ∷ []) []

abbrev request : ℕ → Option ℕ → CommitRequest
request id expected = record {
  command_id = id;
  expected_revision = expected;
  actor = person;
  event = Event.task_released 4;
  snapshot = one_task;
  result = CommandResult.accepted;
  artifact_bytes = none;
}

abbrev committed : StoreResult Commit × Tables
committed = commit_request "now" none (request 7 (some 0)) empty_tables

abbrev first_commit : Commit
first_commit = new_commit "now" (request 7 (some 0)) empty_tables

-- Another writer, a stale one, and one that meets a fault.
abbrev others : List Attempt
others =
    attempt "later" none (request 8 none)
    ∷ attempt "later" none (request 9 (some 0))
    ∷ attempt "later" (some StoreError.resync_required) (request 10 none)
    ∷ []

committed-ok : committed.0 ≡ StoreResult.ok first_commit
unfolding commit_request commit_new bytes_error stale
committed-ok = refl

accepted-again : bytes_error (request 7 (some 5)) ≡ none
unfolding bytes_error
accepted-again = refl

commit_request-again_example :
    commit_request "much later" none (request 7 (some 5)) (run others committed.1)
    ≡ (StoreResult.ok first_commit, run others committed.1)
commit_request-again_example =
    commit_request-again "now" none (request 7 (some 0)) empty_tables first_commit others
      "much later" none (request 7 (some 5)) refl committed-ok refl accepted-again

empty_tables-IsLogged : IsLogged empty_tables
empty_tables-IsLogged = record {
  synced = refl;
  numbered = refl;
  contiguous = tt;
  named = tt;
  outbox = tt;
  distinct = tt;
  answers = tt;
  recorded = tt;
}

-- One of the three is committed.
others-revision : (run others empty_tables).revision ≡ 1
unfolding run try_commit commit_request commit_new bytes_error stale written new_commit read_back
    saturating_succ replayed
others-revision = refl

run-IsLogged_example : IsLogged (run others empty_tables)
run-IsLogged_example =
    run-IsLogged others empty_tables (omega arith) (omega arith) empty_tables-IsLogged

abbrev logged : Tables
logged = record empty_tables {
  revision = 2;
  event_seq = 2;
  events =
      record { seq = 2; revision = 2; envelope = record first_commit.event { seq = 2 } }
      ∷ record { seq = 1; revision = 1; envelope = record first_commit.event { seq = 1 } }
      ∷ [];
}

no-resync : (events_after 0 1 logged).resync_required ≡ false
unfolding events_after resync oldest_row saturating_succ
no-resync = refl

events_after_complete_example :
    ((events_after 0 1 logged).events
      ≡ take (max 1 1) (map (λ row. row.envelope) (oldest_first (take (2 - 0) logged.events))))
    × (map (λ e. e.seq) (events_after 0 1 logged).events ≡ take (max 1 1) (count_up 1 (2 - 0)))
events_after_complete_example =
    events_after_complete 0 1 logged (refl, omega arith, (refl, omega arith, tt)) (refl, (refl, tt))
      (omega arith) no-resync

-- A page of one event of the log.
page_of_one : map (λ e. e.seq) (events_after 0 1 logged).events ≡ 1 ∷ []
unfolding events_after resync oldest_row saturating_succ by_seq insert_row past_cursor
page_of_one = refl

-- In the first round another writer commits in between; the second goes through.
abbrev rounds : ℕ → Round
rounds (suc (suc (suc n))) = record {
  rivals = attempt "now" none (request 8 none) ∷ [];
  now = "now";
  fault = none;
}
rounds n = record { rivals = []; now = "later"; fault = none }

abbrev reduce : Snapshot → Result Reduced
reduce s =
    ok (record one_task { draws = suc s.draws }, Event.task_released 4, CommandResult.accepted)

abbrev reduced : Result CommandResponse × Tables
reduced = commit_reduced rounds reduce 7 none person empty_tables

abbrev second_response : CommandResponse
second_response = record {
  command_id = 7;
  revision = 2;
  result = some CommandResult.accepted;
  error = none;
}

reduced-ok : reduced ≡ (ok second_response, reduced.1)
unfolding commit_reduced commit_rounds next_round commit_command commit_request commit_new
    bytes_error stale written new_commit read_back saturating_succ run try_commit
reduced-ok = refl

commit_reduced-OneStep_example :
    OneStep reduce 7 person empty_tables (ok second_response, reduced.1)
commit_reduced-OneStep_example =
    commit_reduced-OneStep rounds reduce 7 person empty_tables second_response reduced.1 refl
      (omega arith) reduced-ok
