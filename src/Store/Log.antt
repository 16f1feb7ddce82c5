-- ===== src/Store/Log.antt =====
-- The log that commits write (crates/frank-store/src/commit.rs): numbered without gaps, with a row
-- for each command.
use frank.Prelude.{
  ℕ, suc, Option, some, ==_refl, ◌+◌, ◌-◌, ◌≤◌, ◌<◌, ◌≡◌, refl, sym, subst, String, none, List, [],
  ◌∷◌, length, arith, inl, inr, All,
}
use frank.Store.{
  Tables, EventRow, EventEnvelope, StoreResult, CommitRequest, Commit, CommandRow, OutboxRow,
  written, new_commit, find_command, i64_limit, read_back, saturating_succ,
}
use frank.Store.Steps.{Attempt, attempt, try_commit, run, find-written, commit_request-Outcome}
use frank.Store.Events.Numbers.{Contiguous}
use frank.Store.Events.Pages.{IsNumbered}

-- The commands have distinct identifiers.
abbrev Distinct : List CommandRow → Type 0
Distinct [] = Unit {0}
Distinct (row ∷ rest) = (find_command row.command_id rest ≡ none) × Distinct rest

-- A row answers its own command, with a revision that was reached.
abbrev Answers : ℕ → CommandRow → Type 0
Answers revision row =
    (row.response.command_id ≡ row.command_id) × (row.response.revision ≤ revision)

abbrev OutboxContiguous : ℕ → List OutboxRow → Type 0
OutboxContiguous last [] = Unit {0}
OutboxContiguous last (row ∷ rest) =
    (row.seq ≡ last) × (0 < last) × OutboxContiguous (last - 1) rest

-- A logged event of a command has the command's row, which holds this event.
abbrev pub Recorded : List CommandRow → Option ℕ → EventEnvelope → Type 0
Recorded rows none event = Unit {0}
Recorded rows (some id) event =
    (row : CommandRow) × (find_command id rows ≡ some row) × (row.event ≡ some event)

abbrev pub IsRecorded : List CommandRow → EventRow → Type 0
IsRecorded rows e = Recorded rows e.envelope.correlation_id e.envelope

pub record IsLogged (db : Tables) : Type 0 where
  pub synced : db.snapshot.revision ≡ db.revision
  pub numbered : db.snapshot.event_seq ≡ db.event_seq
  pub contiguous : Contiguous db.event_seq db.events
  pub named : All IsNumbered db.events
  pub outbox : OutboxContiguous db.event_seq db.outbox
  pub distinct : Distinct db.commands
  pub answers : All (Answers db.revision) db.commands
  pub recorded : All (IsRecorded db.commands) db.events

Answers-le :
    (low high : ℕ) (rows : List CommandRow)
    → low ≤ high
    → All (Answers low) rows
    → All (Answers high) rows
Answers-le low high [] h a = tt
Answers-le low high (row ∷ rest) h a =
    ((a.0.0, omega (arith, a.0.1, h)), Answers-le low high rest h a.1)

-- Below the limits a counter that is written and read back has gone up by one.
read_back-succ : (n : ℕ) → suc n < i64_limit → read_back (saturating_succ n) ≡ suc n
unfolding read_back saturating_succ
read_back-succ n h = ground (arith, h)

saturating_succ-le : (n : ℕ) → saturating_succ n ≤ suc n
unfolding saturating_succ
saturating_succ-le n = ground arith

within-read_back : (n : ℕ) → suc n < i64_limit → saturating_succ n ≡ read_back (saturating_succ n)
unfolding read_back saturating_succ
within-read_back n h = ground (arith, h)

-- A row that is there stays with its event.
Recorded-written :
    (now : String) (r : CommitRequest) (db : Tables) (id : Option ℕ) (event : EventEnvelope)
    → find_command r.command_id db.commands ≡ none
    → Recorded db.commands id event
    → Recorded (written now r db).commands id event
Recorded-written now r db none event unknown h = tt
Recorded-written now r db (some id) event unknown (row, known, same) =
    (row, find-written now r db id row unknown known, same)

events-written :
    (now : String) (r : CommitRequest) (db : Tables) (events : List EventRow)
    → find_command r.command_id db.commands ≡ none
    → All (IsRecorded db.commands) events
    → All (IsRecorded (written now r db).commands) events
events-written now r db [] unknown h = tt
events-written now r db (e ∷ events) unknown h = (
  Recorded-written now r db e.envelope.correlation_id e.envelope unknown h.0,
  events-written now r db events unknown h.1,
)

written-IsLogged :
    (now : String) (r : CommitRequest) (db : Tables)
    → suc db.revision < i64_limit
    → suc db.event_seq < i64_limit
    → find_command r.command_id db.commands ≡ none
    → IsLogged db
    → IsLogged (written now r db)
unfolding written new_commit
written-IsLogged now r db h k unknown l =
    let seq = read_back-succ db.event_seq k in
    let revision = read_back-succ db.revision h in
    let before : read_back (saturating_succ db.event_seq) - 1 ≡ db.event_seq = omega (arith, seq) in
    record {
      synced = within-read_back db.revision h;
      numbered = within-read_back db.event_seq k;
      contiguous =
          (refl, omega (arith, seq), subst (λ n. Contiguous n db.events) (sym before) l.contiguous);
      named = (within-read_back db.event_seq k, l.named);
      outbox = (
        refl,
        omega (arith, seq),
        subst (λ n. OutboxContiguous n db.outbox) (sym before) l.outbox,
      );
      distinct = (unknown, l.distinct);
      answers = (
        (refl, omega (arith, revision, saturating_succ-le db.revision)),
        Answers-le db.revision (read_back (saturating_succ db.revision)) db.commands
            (omega (arith, revision)) l.answers,
      );
      recorded = (
        (
          record {
            command_id = r.command_id;
            response = (new_commit now r db).response;
            event = some (new_commit now r db).event;
          },
          ground (arith, ==_refl r.command_id),
          refl,
        ),
        events-written now r db db.events unknown l.recorded,
      );
    }

pub try_commit-IsLogged :
    (a : Attempt) (db : Tables)
    → suc db.revision < i64_limit
    → suc db.event_seq < i64_limit
    → IsLogged db
    → IsLogged (try_commit a db)
unfolding try_commit
try_commit-IsLogged (attempt now fault r) db h k l = elim (commit_request-Outcome now fault r db) [
  | inl (e, same) ↦ subst (λ o. IsLogged o.1) (sym same) l
  | inr (inl (_, _, same)) ↦ subst (λ o. IsLogged o.1) (sym same) l
  | inr (inr (o, unknown, _)) ↦
      subst (λ p. IsLogged p.1) (sym o) (written-IsLogged now r db h k unknown l)
]

abbrev Risen : Tables → StoreResult Commit × Tables → Type 0
Risen db o = (o.1.revision ≤ suc db.revision) × (o.1.event_seq ≤ suc db.event_seq)

-- Both counters rise by at most one.
counters-try_commit :
    (a : Attempt) (db : Tables)
    → suc db.revision < i64_limit
    → suc db.event_seq < i64_limit
    → ((try_commit a db).revision ≤ suc db.revision)
      × ((try_commit a db).event_seq ≤ suc db.event_seq)
unfolding try_commit written
counters-try_commit (attempt now fault r) db h k = elim (commit_request-Outcome now fault r db) [
  | inl (e, same) ↦ subst (Risen db) (sym same) (omega arith, omega arith)
  | inr (inl (_, _, same)) ↦ subst (Risen db) (sym same) (omega arith, omega arith)
  | inr (inr (o, _, _)) ↦
      subst (Risen db) (sym o)
        (omega (arith, read_back-succ db.revision h), omega (arith, read_back-succ db.event_seq k))
]

-- After any commits the log is numbered without gaps up to the latest event, in the events and in
-- the outbox; each event carries the number of its row; the snapshot carries both counters; the rows of commands have distinct identifiers,
-- and each answers its own command with a revision that was reached; and each event that a command
-- caused has the row of that command, which holds the event. The counters stay below 2 ^ 63, and it
-- was so before.
pub run-IsLogged :
    (attempts : List Attempt) (db : Tables)
    → db.revision + length attempts < i64_limit
    → db.event_seq + length attempts < i64_limit
    → IsLogged db
    → IsLogged (run attempts db)
unfolding run
run-IsLogged [] db h k l = l
run-IsLogged (a ∷ rest) db h k l =
    let risen = counters-try_commit a db (omega arith) (omega arith) in
    run-IsLogged rest (try_commit a db) (omega (arith, risen.0)) (omega (arith, risen.1))
      (try_commit-IsLogged a db (omega arith) (omega arith) l)
