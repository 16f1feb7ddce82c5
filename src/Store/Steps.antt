-- ===== src/Store/Steps.antt =====
-- Sequences of commits: what a commit leaves alone, and what no later commit undoes
-- (crates/frank-store/src/commit.rs).
use frank.Prelude.{
  ℕ, suc, ◌+◌, ◌≤◌, ◌<◌, ◌≡◌, refl, sym, ap, subst, ◌∙◌, String, false, ◌==◌, ==_iff, ==_refl,
  Option, none, some, List, [], ◌∷◌, length, arith, StoreError, Bool-cases, Option-cases, inl, inr,
  ◌⊎◌,
}
use frank.Store.{
  Tables, CommitRequest, Commit, CommandRow, StoreResult, err, ok, commit_request, commit_new,
  written, new_commit, replayed, stale, bytes_error, find_command, read_back, saturating_succ,
  i64_limit,
}

-- A commit by some writer, with the time at which it is made and the fault it meets.
pub data Attempt : Type 0 where
  attempt : String → Option StoreError → CommitRequest → Attempt

unfoldable pub try_commit : Attempt → Tables → Tables
try_commit (attempt now fault r) db = (commit_request now fault r db).1

unfoldable pub run : List Attempt → Tables → Tables
run [] db = db
run (a ∷ rest) db = run rest (try_commit a db)

-- A request is refused, answered from its row, or committed; only the last changes the tables.
abbrev pub Outcome : String → CommitRequest → Tables → StoreResult Commit × Tables → Type 0
Outcome now r db o =
    ((e : StoreError) × (o ≡ (err e, db)))
    ⊎ (((row : CommandRow) × (find_command r.command_id db.commands ≡ some row)
          × (o ≡ (ok (replayed now r row), db)))
        ⊎ ((o ≡ (ok (new_commit now r db), written now r db))
            × (find_command r.command_id db.commands ≡ none)
            × (stale r db.revision ≡ false)))

fault-Outcome :
    (now : String) (fault : Option StoreError) (r : CommitRequest) (db : Tables)
    → bytes_error r ≡ none
    → find_command r.command_id db.commands ≡ none
    → stale r db.revision ≡ false
    → Outcome now r db (commit_request now fault r db)
unfolding commit_request commit_new
fault-Outcome now none r db accepted unknown fresh =
    inr (inr (ground (arith, accepted, unknown, fresh), unknown, fresh))
fault-Outcome now (some e) r db accepted unknown fresh =
    inl (e, ground (arith, accepted, unknown, fresh))

pub commit_request-Outcome :
    (now : String) (fault : Option StoreError) (r : CommitRequest) (db : Tables)
    → Outcome now r db (commit_request now fault r db)
unfolding commit_request commit_new
commit_request-Outcome now fault r db = elim (Option-cases (bytes_error r)) [
  | inr (e, refused) ↦ inl (e, ground (arith, refused))
  | inl accepted ↦ elim (Option-cases (find_command r.command_id db.commands)) [
    | inr (row, known) ↦ inr (inl (row, known, ground (arith, accepted, known)))
    | inl unknown ↦ elim (Bool-cases (stale r db.revision)) [
      | inl old ↦
          inl (StoreError.stale_revision db.revision, ground (arith, accepted, unknown, old))
      | inr fresh ↦ fault-Outcome now fault r db accepted unknown fresh
    ]
  ]
]

-- The counters of a commit that writes, below the limits.
revision-written :
    (now : String) (r : CommitRequest) (db : Tables)
    → suc db.revision < i64_limit
    → (written now r db).revision ≡ suc db.revision
unfolding written read_back saturating_succ
revision-written now r db h = ground (arith, h)

-- One attempt keeps the snapshot, or raises the revision by one.
pub try_commit-revision :
    (a : Attempt) (db : Tables)
    → suc db.revision < i64_limit
    → (((try_commit a db).revision ≡ db.revision) × ((try_commit a db).snapshot ≡ db.snapshot))
      ⊎ ((try_commit a db).revision ≡ suc db.revision)
unfolding try_commit
try_commit-revision (attempt now fault r) db h = elim (commit_request-Outcome now fault r db) [
  | inl (e, same) ↦ inl (ap (λ o. o.1.revision) same, ap (λ o. o.1.snapshot) same)
  | inr (inl (row, _, same)) ↦ inl (ap (λ o. o.1.revision) same, ap (λ o. o.1.snapshot) same)
  | inr (inr (done, _, _)) ↦ inr (ap (λ o. o.1.revision) done ∙ revision-written now r db h)
]

-- After any attempts, an unchanged revision means an unchanged snapshot.
pub run-revision :
    (attempts : List Attempt) (db : Tables)
    → db.revision + length attempts < i64_limit
    → (db.revision ≤ (run attempts db).revision)
      × ((run attempts db).revision ≤ db.revision + length attempts)
      × ((run attempts db).revision ≡ db.revision → (run attempts db).snapshot ≡ db.snapshot)
unfolding run
run-revision [] db h = (omega arith, omega arith, λ e. refl)
run-revision (a ∷ rest) db h = elim (try_commit-revision a db (omega arith)) [
  | inl (same, kept) ↦
      let later = run-revision rest (try_commit a db) (omega (arith, same)) in
      (
        omega (arith, same, later.0),
        omega (arith, same, later.1),
        λ e. later.2 (omega (arith, same, e)) ∙ kept,
      )
  | inr next ↦
      let later = run-revision rest (try_commit a db) (omega (arith, next)) in
      (
        omega (arith, next, later.0),
        omega (arith, next, later.1),
        λ e. absurd (omega (arith, next, later.0, e)),
      )
]

pub find-written :
    (now : String) (r : CommitRequest) (db : Tables) (id : ℕ) (row : CommandRow)
    → find_command r.command_id db.commands ≡ none
    → find_command id db.commands ≡ some row
    → find_command id (written now r db).commands ≡ some row
unfolding written
find-written now r db id row unknown known = elim (Bool-cases (r.command_id == id)) [
  | inl same ↦ absurd (ground (arith, unknown, known, (==_iff r.command_id id).0 same))
  | inr apart ↦ ground (arith, apart, known)
]

-- Rows of commands are never dropped, nor hidden by later ones.
try_commit-known :
    (a : Attempt) (db : Tables) (id : ℕ) (row : CommandRow)
    → find_command id db.commands ≡ some row
    → find_command id (try_commit a db).commands ≡ some row
unfolding try_commit
try_commit-known (attempt now fault r) db id row h = elim (commit_request-Outcome now fault r db) [
  | inl (e, same) ↦ ap (λ o. find_command id o.1.commands) same ∙ h
  | inr (inl (_, _, same)) ↦ ap (λ o. find_command id o.1.commands) same ∙ h
  | inr (inr (done, unknown, _)) ↦
      ap (λ o. find_command id o.1.commands) done ∙ find-written now r db id row unknown h
]

pub run-known :
    (attempts : List Attempt) (db : Tables) (id : ℕ) (row : CommandRow)
    → find_command id db.commands ≡ some row
    → find_command id (run attempts db).commands ≡ some row
unfolding run
run-known [] db id row h = h
run-known (a ∷ rest) db id row h =
    run-known rest (try_commit a db) id row (try_commit-known a db id row h)

-- The row that a commit leaves behind answers the same command with the same commit.
row_of : Commit → ℕ → CommandRow
row_of commit id = record { command_id = id; response = commit.response; event = some commit.event }

find-new_commit :
    (now : String) (r : CommitRequest) (db : Tables)
    → find_command r.command_id (written now r db).commands
      ≡ some (row_of (new_commit now r db) r.command_id)
unfolding written row_of
find-new_commit now r db = ground (arith, ==_refl r.command_id)

answered :
    (now : String) (fault : Option StoreError) (r : CommitRequest) (db : Tables) (commit : Commit)
    → bytes_error r ≡ none
    → find_command r.command_id db.commands ≡ some (row_of commit r.command_id)
    → commit_request now fault r db ≡ (ok commit, db)
unfolding commit_request replayed row_of
answered now fault r db commit accepted known = ground (arith, accepted, known)

-- A request without bytes, made again at any later time, by whatever writer and with whatever
-- event, snapshot and expected revision, gets the first answer, and writes nothing.
pub commit_request-again :
    (now : String) (fault : Option StoreError) (r : CommitRequest) (db : Tables) (commit : Commit)
    (attempts : List Attempt) (now' : String) (fault' : Option StoreError) (r' : CommitRequest)
    → find_command r.command_id db.commands ≡ none
    → (commit_request now fault r db).0 ≡ ok commit
    → r'.command_id ≡ r.command_id
    → bytes_error r' ≡ none
    → commit_request now' fault' r' (run attempts (commit_request now fault r db).1)
      ≡ (ok commit, run attempts (commit_request now fault r db).1)
commit_request-again now fault r db commit attempts now' fault' r' unknown done same accepted =
    elim (commit_request-Outcome now fault r db) [
      | inl (e, refused) ↦ absurd (err_ne_ok e (sym (ap (λ o. o.0) refused) ∙ done))
      | inr (inl (row, known, _)) ↦ absurd (none_ne_some row (sym unknown ∙ known))
      | inr (inr (written_now, _, _)) ↦
          let first : new_commit now r db ≡ commit =
            injected (new_commit now r db) (sym (ap (λ o. o.0) written_now) ∙ done) in
          let kept =
            run-known attempts (commit_request now fault r db).1 r.command_id
              (row_of (new_commit now r db) r.command_id)
              (ap (λ o. find_command r.command_id o.1.commands) written_now
                ∙ find-new_commit now r db) in
          answered now' fault' r' (run attempts (commit_request now fault r db).1) commit accepted (
            renamed r'.command_id (run attempts (commit_request now fault r db).1) same
              (kept ∙ ap (λ c. some (row_of c r.command_id)) first))
    ]
  where
    renamed :
        (id : ℕ) (later : Tables)
        → id ≡ r.command_id
        → find_command r.command_id later.commands ≡ some (row_of commit r.command_id)
        → find_command id later.commands ≡ some (row_of commit id)
    renamed id later e h =
        subst (λ i. find_command i later.commands ≡ some (row_of commit i)) (sym e) h

    injected : (c : Commit) → ok c ≡ ok commit → c ≡ commit
    injected c q = cc

    err_ne_ok : (e : StoreError) → err e ≡ ok commit → ⊥
    err_ne_ok e q = cc

    none_ne_some : (row : CommandRow) → none ≡ some row → ⊥
    none_ne_some row q = cc
