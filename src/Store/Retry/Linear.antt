-- ===== src/Store/Retry/Linear.antt =====
-- A command that is reduced and committed in rounds takes effect in one step.
use frank.Prelude.{
  ℕ, suc, zero, ◌+◌, ◌≤◌, ◌<◌, ◌≡◌, refl, sym, ap, subst, ◌∙◌, String, false, ==_iff, Option, none,
  some, List, [], ◌∷◌, ◌++◌, length, arith, StoreError, inl, inr, Result, ok, err,
  OrchestratorError, Result-cases,
}
use frank.Protocol.Records.{ActorRef, Snapshot, Event, CommandResult, Reduced}
use frank.Store.{
  Tables, CommitRequest, Commit, CommandRow, CommandResponse, StoreResult, commit_request,
  commit_command, written, new_commit, replayed, stale, find_command, i64_limit, read_back,
  saturating_succ,
}
use frank.Store.Steps.{Attempt, attempt, try_commit, run, run-revision, commit_request-Outcome}
use frank.Store.Retry.{Round, Reply, next_round, commit_rounds, commit_reduced}

-- The stored snapshot carries the stored revision.
abbrev pub Synced : Tables → Type 0
Synced db = db.snapshot.revision ≡ db.revision

written-Synced :
    (now : String) (r : CommitRequest) (db : Tables)
    → suc db.revision < i64_limit
    → Synced (written now r db)
unfolding written read_back saturating_succ
written-Synced now r db h = ground (arith, h)

try_commit-Synced :
    (a : Attempt) (db : Tables) → suc db.revision < i64_limit → Synced db → Synced (try_commit a db)
unfolding try_commit
try_commit-Synced (attempt now fault r) db h s = elim (commit_request-Outcome now fault r db) [
  | inl (e, same) ↦ subst (λ o. Synced o.1) (sym same) s
  | inr (inl (_, _, same)) ↦ subst (λ o. Synced o.1) (sym same) s
  | inr (inr (done, _, _)) ↦ subst (λ o. Synced o.1) (sym done) (written-Synced now r db h)
]

run-Synced :
    (attempts : List Attempt) (db : Tables)
    → db.revision + length attempts < i64_limit
    → Synced db
    → Synced (run attempts db)
unfolding run
run-Synced [] db h s = s
run-Synced (a ∷ rest) db h s =
    run-Synced rest (try_commit a db) (step (run-revision (a ∷ []) db (omega arith)))
      (try_commit-Synced a db (omega arith) s)
  where
    step :
        (db.revision ≤ (run (a ∷ []) db).revision)
          × ((run (a ∷ []) db).revision ≤ db.revision + length (a ∷ []))
          × ((run (a ∷ []) db).revision ≡ db.revision → (run (a ∷ []) db).snapshot ≡ db.snapshot)
        → (try_commit a db).revision + length rest < i64_limit
    step b = omega (arith, b.1)

run-append : (xs ys : List Attempt) (db : Tables) → run (xs ++ ys) db ≡ run ys (run xs db)
unfolding run
run-append [] ys db = refl
run-append (x ∷ xs) ys db = run-append xs ys (try_commit x db)

abbrev request : ℕ → Option ℕ → ActorRef → Event → Snapshot → CommandResult → CommitRequest
request id expected actor event snapshot result = record {
  command_id = id;
  expected_revision = expected;
  actor = actor;
  event = event;
  snapshot = snapshot;
  result = result;
  artifact_bytes = none;
}

-- The reply of a command that takes effect in one step: after some commits of others it finds
-- either its own earlier answer, or a state on whose snapshot it is reduced, and which it replaces.
pub data OneStep (reduce : Snapshot → Result Reduced) (id : ℕ) (actor : ActorRef) (db : Tables)
    : Reply → Type 0 where
  answered :
      (attempts : List Attempt) (row : CommandRow)
      → find_command id (run attempts db).commands ≡ some row
      → OneStep reduce id actor db (ok row.response, run attempts db)
  committed :
      (attempts : List Attempt) (now : String) (r : CommitRequest)
      → r.command_id ≡ id
      → r.actor ≡ actor
      → reduce (run attempts db).snapshot ≡ ok (r.snapshot, r.event, r.result)
      → OneStep reduce id actor db
          (ok (new_commit now r (run attempts db)).response, written now r (run attempts db))

-- How many commits of others fall into the rounds.
abbrev pub total : ℕ → (ℕ → Round) → ℕ
total zero rounds = 0
total (suc n) rounds = length (rounds n).rivals + total n rounds

OneStep-after :
    (reduce : Snapshot → Result Reduced) (id : ℕ) (actor : ActorRef) (xs : List Attempt)
    (db : Tables) {o : Reply}
    → OneStep reduce id actor (run xs db) o
    → OneStep reduce id actor db o
OneStep-after reduce id actor xs db (answered attempts row known) =
    subst (λ d. OneStep reduce id actor db (ok row.response, d)) (run-append xs attempts db)
      (answered (xs ++ attempts) row (
        subst (λ d. find_command id d.commands ≡ some row) (sym (run-append xs attempts db)) known))
OneStep-after reduce id actor xs db (committed attempts now r same by reduced) =
    subst (λ d. OneStep reduce id actor db (ok (new_commit now r d).response, written now r d))
      (run-append xs attempts db)
      (committed (xs ++ attempts) now r same by (
        subst (λ d. reduce d.snapshot ≡ ok (r.snapshot, r.event, r.result))
          (sym (run-append xs attempts db)) reduced))

-- A round that ends well was answered or committed, or leaves it to the next.
data RoundEnd (again : Tables → Reply) (o : StoreResult Commit × Tables) (reply : Reply)
    : Type 0 where
  done :
      (commit : Commit)
      → o.0 ≡ StoreResult.ok commit
      → reply ≡ (ok commit.response, o.1)
      → RoundEnd again o reply
  more : (e : StoreError) → o.0 ≡ StoreResult.err e → reply ≡ again o.1 → RoundEnd again o reply

next_round-RoundEnd :
    (again : Tables → Reply) (o : StoreResult Commit × Tables) (response : CommandResponse)
    (final : Tables)
    → next_round none again o ≡ (ok response, final)
    → RoundEnd again o (ok response, final)
unfolding next_round
next_round-RoundEnd again (StoreResult.ok commit, db) response final h = done commit refl (sym h)
next_round-RoundEnd again (StoreResult.err (StoreError.stale_revision current), db) response final
      h =
    more (StoreError.stale_revision current) refl (sym h)
next_round-RoundEnd again (StoreResult.err e, db) response final h = absurd (cc)

fresh-revision :
    (r : CommitRequest) (seen current : ℕ)
    → r.expected_revision ≡ some seen
    → stale r current ≡ false
    → current ≡ seen
unfolding stale
fresh-revision r seen current e h = ground (arith, e, h, ==_iff seen current)

-- The commit of a round, after the commits of others, is one step from where the round began.
round-OneStep :
    (reduce : Snapshot → Result Reduced) (id : ℕ) (actor : ActorRef) (rivals : List Attempt)
    (now : String) (fault : Option StoreError) (r : CommitRequest) (db : Tables) (commit : Commit)
    → Synced db
    → db.revision + length rivals < i64_limit
    → r.command_id ≡ id
    → r.actor ≡ actor
    → r.expected_revision ≡ some db.snapshot.revision
    → reduce db.snapshot ≡ ok (r.snapshot, r.event, r.result)
    → (commit_request now fault r (run rivals db)).0 ≡ StoreResult.ok commit
    → OneStep reduce id actor db
        (ok commit.response, (commit_request now fault r (run rivals db)).1)
unfolding replayed
round-OneStep reduce id actor rivals now fault r db commit synced bound same by seen reduced won =
    elim (commit_request-Outcome now fault r (run rivals db)) [
      | inl (e, refused) ↦ absurd (err_ne_ok e (sym (ap (λ o. o.0) refused) ∙ won))
      | inr (inl (row, known, o)) ↦
          placed (StoreResult.ok (replayed now r row), run rivals db) o (replayed now r row) refl
            (answered rivals row
              (subst (λ i. find_command i (run rivals db).commands ≡ some row) same known))
      | inr (inr (o, unknown, fresh)) ↦
          let current = fresh-revision r db.snapshot.revision (run rivals db).revision seen fresh in
          let kept = (run-revision rivals db bound).2 (current ∙ synced) in
          placed (StoreResult.ok (new_commit now r (run rivals db)), written now r (run rivals db))
            o (new_commit now r (run rivals db)) refl
            (committed rivals now r same by (ap reduce kept ∙ reduced))
    ]
  where
    err_ne_ok : (e : StoreError) → StoreResult.err e ≡ StoreResult.ok commit → ⊥
    err_ne_ok e q = cc

    injected : (c : Commit) → StoreResult.ok c ≡ StoreResult.ok commit → c ≡ commit
    injected c q = cc

    placed :
        (o : StoreResult Commit × Tables)
        → commit_request now fault r (run rivals db) ≡ o
        → (c : Commit) → o.0 ≡ StoreResult.ok c
        → OneStep reduce id actor db (ok c.response, o.1)
        → OneStep reduce id actor db
            (ok commit.response, (commit_request now fault r (run rivals db)).1)
    placed o e c f h =
        subst
          (λ d.
            OneStep reduce id actor db
              (ok d.response, (commit_request now fault r (run rivals db)).1))
          (injected c (sym (ap (λ p. p.0) e ∙ f) ∙ won))
          (subst (λ p. OneStep reduce id actor db (ok c.response, p.1)) (sym e) h)

-- A commit that fails leaves the tables alone.
tables-failed :
    (now : String) (fault : Option StoreError) (r : CommitRequest) (db : Tables) (e : StoreError)
    → (commit_request now fault r db).0 ≡ StoreResult.err e
    → (commit_request now fault r db).1 ≡ db
tables-failed now fault r db e h = elim (commit_request-Outcome now fault r db) [
  | inl (_, refused) ↦ ap (λ o. o.1) refused
  | inr (inl (row, _, o)) ↦ absurd (ok_ne_err (replayed now r row) (sym (ap (λ p. p.0) o) ∙ h))
  | inr (inr (o, _, _)) ↦ absurd (ok_ne_err (new_commit now r db) (sym (ap (λ p. p.0) o) ∙ h))
]
  where
    ok_ne_err : (c : Commit) → StoreResult.ok c ≡ StoreResult.err e → ⊥
    ok_ne_err c q = cc

ended :
    (reduce : Snapshot → Result Reduced) (id : ℕ) (actor : ActorRef) (round : Round)
    (again : Tables → Reply) (r : CommitRequest) (db : Tables) (response : CommandResponse)
    (final : Tables)
    → Synced db
    → db.revision + length round.rivals < i64_limit
    → r.command_id ≡ id
    → r.actor ≡ actor
    → r.expected_revision ≡ some db.snapshot.revision
    → reduce db.snapshot ≡ ok (r.snapshot, r.event, r.result)
    → next_round none again (commit_request round.now round.fault r (run round.rivals db))
      ≡ (ok response, final)
    → (again (run round.rivals db) ≡ (ok response, final)
        → OneStep reduce id actor (run round.rivals db) (ok response, final))
    → OneStep reduce id actor db (ok response, final)
ended reduce id actor round again r db response final synced bound same by seen reduced h later =
    elim (next_round-RoundEnd again o response final h) [
      | done commit won e ↦ subst (OneStep reduce id actor db) (sym e) (
          round-OneStep reduce id actor round.rivals round.now round.fault r db commit synced bound
            same by seen reduced won)
      | more e lost q ↦ OneStep-after reduce id actor round.rivals db (
          later (
            sym (ap again (tables-failed round.now round.fault r (run round.rivals db) e lost))
            ∙ sym q))
    ]
  where
    o : StoreResult Commit × Tables
    o = commit_request round.now round.fault r (run round.rivals db)

total-le : (n : ℕ) (rounds : ℕ → Round) → length (rounds n).rivals ≤ total (suc n) rounds
total-le n rounds = omega arith

commit_rounds-OneStep :
    (n : ℕ) (rounds : ℕ → Round) (reduce : Snapshot → Result Reduced) (id : ℕ) (actor : ActorRef)
    (db : Tables) (response : CommandResponse) (final : Tables)
    → Synced db
    → db.revision + total n rounds < i64_limit
    → commit_rounds n rounds reduce id none actor db ≡ (ok response, final)
    → OneStep reduce id actor db (ok response, final)
unfolding commit_rounds commit_command
commit_rounds-OneStep zero rounds reduce id actor db response final synced bound h = absurd (cc)
commit_rounds-OneStep (suc n) rounds reduce id actor db response final synced bound h =
    elim (Result-cases (reduce db.snapshot)) [
      | inl (e, failed) ↦ absurd (failing e (rw (failed, commit_rounds) at h))
      | inr ((next, event, result), reduced) ↦
          ended reduce id actor (rounds n) (commit_rounds n rounds reduce id none actor)
            (request id (some db.snapshot.revision) actor event next result) db response final
            synced (omega arith) refl refl refl reduced (rw (reduced, commit_rounds) at h)
            (commit_rounds-OneStep n rounds reduce id actor (run (rounds n).rivals db) response
              final (run-Synced (rounds n).rivals db (omega arith) synced)
              (omega (arith, (run-revision (rounds n).rivals db (omega arith)).1)))
    ]
  where
    failing : (e : OrchestratorError) → ◌≡◌ {A = Reply} (err e, db) (ok response, final) → ⊥
    failing e q = cc

-- A command that `commit_reduced` answers without an error takes effect in one step, whatever
-- commits of other writers fall between its reads and its commits: after some of them it finds
-- either the answer that an earlier commit of the same command left, or a state to whose snapshot
-- it is reduced and which it replaces. The stored snapshot carries the stored revision, the caller
-- gave no revision, and the revisions stay below 2 ^ 63.
pub commit_reduced-OneStep :
    (rounds : ℕ → Round) (reduce : Snapshot → Result Reduced) (id : ℕ) (actor : ActorRef)
    (db : Tables) (response : CommandResponse) (final : Tables)
    → Synced db
    → db.revision + total 4 rounds < i64_limit
    → commit_reduced rounds reduce id none actor db ≡ (ok response, final)
    → OneStep reduce id actor db (ok response, final)
unfolding commit_reduced
commit_reduced-OneStep rounds reduce id actor db response final synced bound h =
    commit_rounds-OneStep 4 rounds reduce id actor db response final synced bound h
