-- ===== src/Runtime/Scheduler.antt =====
-- crates/frank-orchestrator/src/scheduler.rs. The set of running tasks is a list without
-- repetitions.
use frank.Prelude.{
  ℕ, suc, ◌≤◌, ◌≡◌, refl, Bool, true, false, not, ◌||◌, ◌==◌, ==_iff, List, [], ◌∷◌, length,
  contains, keep, ltb, arith, if◌then◌else◌, Bool-cases, inl, inr,
}

pub record Scheduler : Type 0 where
  pub max_concurrency : ℕ
  pub running : List ℕ

unfoldable pub can_start : Scheduler → Bool
can_start scheduler = ltb (length scheduler.running) scheduler.max_concurrency

-- `HashSet::remove`
abbrev pub remove_id : ℕ → List ℕ → List ℕ
remove_id id ids = keep (λ x. not (x == id)) ids

-- The answer, and the scheduler after it.
unfoldable pub start : ℕ → Scheduler → Bool × Scheduler
unfolding can_start
start task scheduler =
    if not (can_start scheduler) || contains scheduler.running task
    then (false, scheduler)
    else (true, record scheduler { running = task ∷ scheduler.running })

unfoldable pub finish : ℕ → Scheduler → Scheduler
finish task scheduler = record scheduler { running = remove_id task scheduler.running }

pub data SchedulerCall : Type 0 where
  start_call : ℕ → SchedulerCall
  finish_call : ℕ → SchedulerCall

unfoldable pub run_calls : List SchedulerCall → Scheduler → Scheduler
run_calls [] scheduler = scheduler
run_calls (start_call task ∷ calls) scheduler = run_calls calls (start task scheduler).1
run_calls (finish_call task ∷ calls) scheduler = run_calls calls (finish task scheduler)

-- How often a task is in the list.
abbrev pub occurrences : ℕ → List ℕ → ℕ
occurrences id [] = 0
occurrences id (x ∷ xs) = let rest = occurrences id xs in if x == id then suc rest else rest

pub record Leased (limit : ℕ) (scheduler : Scheduler) : Type 0 where
  pub limit_kept : scheduler.max_concurrency ≡ limit
  pub bounded : length scheduler.running ≤ limit
  pub once : (id : ℕ) → occurrences id scheduler.running ≤ 1

absent_occurrences : (id : ℕ) (xs : List ℕ) → contains xs id ≡ false → occurrences id xs ≡ 0
absent_occurrences id [] h = refl
absent_occurrences id (x ∷ xs) h = ground (arith, h, absent_occurrences id xs)

occurrences-remove : (id a : ℕ) (xs : List ℕ) → occurrences id (remove_id a xs) ≤ occurrences id xs
occurrences-remove id a [] = omega arith
occurrences-remove id a (x ∷ xs) = ground (arith, occurrences-remove id a xs)

length-remove : (a : ℕ) (xs : List ℕ) → length (remove_id a xs) ≤ length xs
length-remove a [] = omega arith
length-remove a (x ∷ xs) = ground (arith, length-remove a xs)

start-Leased : (limit task : ℕ) (s : Scheduler) → Leased limit s → Leased limit (start task s).1
unfolding start can_start
start-Leased limit task s l = elim (Bool-cases (ltb (length s.running) s.max_concurrency)) [
  | inr full ↦ rw full l
  | inl room ↦ elim (Bool-cases (contains s.running task)) [
    | inl twice ↦ rw (room, twice) l
    | inr new ↦
        rw (room, new)
          (record {
            limit_kept = l.limit_kept;
            bounded = ground (arith, room, l.limit_kept);
            once = λ id. elim (Bool-cases (task == id)) [
              | inl e ↦
                  ground (arith, (==_iff task id).0 e, absent_occurrences task s.running new, e)
              | inr e ↦ ground (arith, l.once id, e)
            ];
          })
  ]
]

finish-Leased : (limit task : ℕ) (s : Scheduler) → Leased limit s → Leased limit (finish task s)
unfolding finish
finish-Leased limit task s l = record {
  limit_kept = l.limit_kept;
  bounded = ground (arith, l.bounded, length-remove task s.running);
  once = λ id. ground (arith, l.once id, occurrences-remove id task s.running);
}

-- Any sequence of starts and finishes keeps the number of running tasks within the limit, which it
-- does not change, and holds no task twice.
pub run_calls-Leased :
    (limit : ℕ) (calls : List SchedulerCall) (s : Scheduler)
    → Leased limit s
    → Leased limit (run_calls calls s)
unfolding run_calls
run_calls-Leased limit [] s l = l
run_calls-Leased limit (start_call task ∷ calls) s l =
    run_calls-Leased limit calls (start task s).1 (start-Leased limit task s l)
run_calls-Leased limit (finish_call task ∷ calls) s l =
    run_calls-Leased limit calls (finish task s) (finish-Leased limit task s l)
