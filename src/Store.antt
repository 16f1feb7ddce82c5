-- ===== src/Store.antt =====
-- The commits of crates/frank-store/src (commit.rs, snapshot_store.rs, types.rs, CommitRequest and
-- api_error of lib.rs). A transaction of SQLite is one step: `fault` is the first of its statements
-- that fails after the revision is checked, if any does, the statements of the projections and of
-- the journal included, and then the transaction is rolled back. A read that fails before ends the
-- call and changes nothing. The tables of projections are not part of `Tables`.
pub mod Steps
pub mod Log
pub mod Events
pub mod Retry
use frank.Prelude.{
  ℕ, ◌+◌, String, Bool, true, false, not, ◌&&◌, ◌==◌, Option, none, some, List, [], ◌∷◌, find, ltb,
  leb, is_some_and, unwrap_or, if◌then◌else◌, StoreError, concat,
}
use frank.Protocol.Records.{ActorRef, Snapshot, Event, CommandResult}

pub record EventEnvelope : Type 0 where
  pub seq : ℕ  -- u64
  pub occurred_at : String
  pub actor : ActorRef
  pub correlation_id : Option ℕ
  pub event : Event

pub data ErrorCode : Type 0 where
  unauthorized forbidden validation not_found conflict stale_revision : ErrorCode
  organization_revision_conflict budget_exceeded provider_unavailable resync_required : ErrorCode
  version_mismatch internal payload_too_large pairing_expired pairing_reused : ErrorCode
  certificate_mismatch lease_unavailable rate_limited pairing_disabled : ErrorCode

pub record ApiError : Type 0 where
  pub code : ErrorCode
  pub message : String
  pub retryable : Bool
  pub latest_snapshot : Option Snapshot

pub record CommandResponse : Type 0 where
  pub command_id : ℕ
  pub revision : ℕ  -- u64
  pub result : Option CommandResult
  pub error : Option ApiError

pub record Commit : Type 0 where
  pub response : CommandResponse
  pub event : EventEnvelope

-- The bytes of an artifact are their number here.
pub record CommitRequest : Type 0 where
  pub command_id : ℕ
  pub expected_revision : Option ℕ
  pub actor : ActorRef
  pub event : Event
  pub snapshot : Snapshot
  pub result : CommandResult
  pub artifact_bytes : Option ℕ

pub record EventRow : Type 0 where
  pub seq : ℕ
  pub revision : ℕ
  pub envelope : EventEnvelope

pub record CommandRow : Type 0 where
  pub command_id : ℕ
  pub response : CommandResponse
  pub event : Option EventEnvelope

pub record OutboxRow : Type 0 where
  pub seq : ℕ
  pub envelope : EventEnvelope
  pub exported : Bool

-- `server_state` (its two counters as they are read back), `events` and `audit_outbox` with the
-- newest row first, and `idempotency_commands`.
pub record Tables : Type 0 where
  pub revision : ℕ
  pub event_seq : ℕ
  pub snapshot : Snapshot
  pub events : List EventRow
  pub outbox : List OutboxRow
  pub commands : List CommandRow

pub data StoreResult {ℓ} (Value : Type ℓ) : Type ℓ where
  err : StoreError → StoreResult Value
  ok : Value → StoreResult Value

abbrev pub i64_limit : ℕ
i64_limit = 9223372036854775808

abbrev pub u64_max : ℕ
u64_max = 18446744073709551615

-- A number written `as i64` and read by `.max(0) as u64`.
unfoldable pub read_back : ℕ → ℕ
read_back n = if ltb n i64_limit then n else 0

unfoldable pub saturating_succ : ℕ → ℕ
saturating_succ n = if ltb n u64_max then n + 1 else n

abbrev pub max_artifact_bytes : ℕ
max_artifact_bytes = 268435456

abbrev is_artifact_published : Event → Bool
is_artifact_published (Event.artifact_published artifact) = true
is_artifact_published _ = false

-- `CommandResponse::ok`
abbrev pub response_ok : ℕ → ℕ → CommandResult → CommandResponse
response_ok command_id revision result = record {
  command_id = command_id;
  revision = revision;
  result = some result;
  error = none;
}

-- The checks on the bytes, before the transaction is opened.
unfoldable pub bytes_error : CommitRequest → Option StoreError
bytes_error r = elim r.artifact_bytes [
  | none ↦ none
  | some size ↦
      if ltb max_artifact_bytes size
      then some (StoreError.validation "artifact exceeds the configured size cap")
      else if not (is_artifact_published r.event)
      then some (StoreError.validation "artifact bytes require an ArtifactPublished event")
      else none
]

-- A command that was committed before is answered from its row.
unfoldable pub replayed : String → CommitRequest → CommandRow → Commit
replayed now r row = record {
  response = row.response;
  event = unwrap_or row.event (record {
    seq = r.snapshot.event_seq;
    occurred_at = now;
    actor = r.actor;
    correlation_id = none;
    event = Event.snapshot_replaced r.snapshot;
  });
}

unfoldable pub stale : CommitRequest → ℕ → Bool
stale r current = is_some_and r.expected_revision (λ expected. not (expected == current))

unfoldable pub new_commit : String → CommitRequest → Tables → Commit
new_commit now r db = record {
  response = response_ok r.command_id (saturating_succ db.revision) r.result;
  event = record {
    seq = saturating_succ db.event_seq;
    occurred_at = now;
    actor = r.actor;
    correlation_id = some r.command_id;
    event = r.event;
  };
}

-- What the transaction writes.
unfoldable pub written : String → CommitRequest → Tables → Tables
written now r db =
    let commit = new_commit now r db in
    let revision = saturating_succ db.revision in
    let seq = saturating_succ db.event_seq in
    record {
      revision = read_back revision;
      event_seq = read_back seq;
      snapshot = record r.snapshot { revision = revision; event_seq = seq };
      events =
          record { seq = read_back seq; revision = read_back revision; envelope = commit.event }
          ∷ db.events;
      outbox =
          record { seq = read_back seq; envelope = commit.event; exported = false } ∷ db.outbox;
      commands =
          record {
            command_id = r.command_id;
            response = commit.response;
            event = some commit.event;
          }
          ∷ db.commands;
    }

abbrev pub find_command : ℕ → List CommandRow → Option CommandRow
find_command command_id rows = find (λ row. row.command_id == command_id) rows

unfoldable pub commit_new :
    String → Option StoreError → CommitRequest → Tables → StoreResult Commit × Tables
commit_new now fault r db =
    if stale r db.revision
    then (err (StoreError.stale_revision db.revision), db)
    else elim fault [ some e ↦ (err e, db) | none ↦ (ok (new_commit now r db), written now r db) ]

unfoldable pub commit_request :
    String → Option StoreError → CommitRequest → Tables → StoreResult Commit × Tables
commit_request now fault r db = elim (bytes_error r) [
  | some e ↦ (err e, db)
  | none ↦ elim (find_command r.command_id db.commands) [
    | some row ↦ (ok (replayed now r row), db)
    | none ↦ commit_new now fault r db
  ]
]

-- A commit without bytes.
unfoldable pub commit_command :
    String
    → Option StoreError
    → ℕ
    → Option ℕ
    → ActorRef
    → Event
    → Snapshot
    → CommandResult
    → Tables
    → StoreResult Commit × Tables
commit_command now fault command_id expected_revision actor event snapshot result db =
    commit_request now fault
      (record {
        command_id = command_id;
        expected_revision = expected_revision;
        actor = actor;
        event = event;
        snapshot = snapshot;
        result = result;
        artifact_bytes = none;
      })
      db

unfoldable pub current_revision : Tables → ℕ
current_revision db = db.revision

unfoldable pub idempotent_response : ℕ → Tables → Option CommandResponse
idempotent_response command_id db = elim (find_command command_id db.commands) [
  | none ↦ none
  | some row ↦ some row.response
]

-- Outside a commit: the snapshot and both counters are overwritten.
unfoldable pub replace_snapshot : Snapshot → Tables → Tables
unfolding read_back
replace_snapshot snapshot db = record db {
  snapshot = snapshot;
  revision = read_back snapshot.revision;
  event_seq = read_back snapshot.event_seq;
}

abbrev pub api_error_new : ErrorCode → String → ApiError
api_error_new code message = record {
  code = code;
  message = message;
  retryable = false;
  latest_snapshot = none;
}

-- The text of a database error does not leave the server.
unfoldable pub api_error : StoreError → ApiError
api_error (StoreError.stale_revision current) =
    api_error_new ErrorCode.stale_revision "the server state changed; refresh and retry"
api_error StoreError.resync_required =
    api_error_new ErrorCode.resync_required "the event cursor is outside the retention window"
api_error (StoreError.validation message) = api_error_new ErrorCode.validation message
api_error _ = api_error_new ErrorCode.internal "the server could not persist the request"
