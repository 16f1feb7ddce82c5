-- ===== src/Tests/Runtime.antt =====
-- Runs of the scheduler, the mailbox and the ledger.
use frank.Prelude.{◌≡◌, ◌≤◌, refl, false, none, some, [], ◌∷◌, List, min, unwrap_or, arith}
use frank.Protocol.Status.{BudgetScope}
use frank.Protocol.Records.{Budget}
use frank.Runtime.Scheduler.{Scheduler, SchedulerCall, run_calls, Leased, run_calls-Leased}
use frank.Runtime.Mailbox.{accepted_times, accepted_times-once}
use frank.Runtime.Budget.{
  UsageTelemetry, UsageView, BudgetLedger, empty_ledger, record_usage, totals_of, turns_of,
  rebuild_from_snapshot, allows_measured, u32_max, u64_max, add_usage, measured_tokens,
}
use frank.Runtime.Budget.Ledger.{charged, charges, rebuild_from_snapshot_lem}
use frank.Runtime.Budget.Ceiling.{Fits, allows_measured-false}
use frank.Tests.Data.{sample_env, three_tasks}

abbrev pool : Scheduler
pool = record { max_concurrency = 2; running = 5 ∷ [] }

pool-Leased : Leased 2 pool
pool-Leased = record { limit_kept = refl; bounded = omega arith; once = λ id. ground arith }

abbrev calls : List SchedulerCall
calls =
    SchedulerCall.start_call 6
    ∷ SchedulerCall.start_call 7
    ∷ SchedulerCall.finish_call 5
    ∷ SchedulerCall.start_call 7
    ∷ []

run_calls-Leased_example : Leased 2 (run_calls calls pool)
run_calls-Leased_example = run_calls-Leased 2 calls pool pool-Leased

accepted_times-once_example :
    accepted_times 4 ((4, 1) ∷ (4, 9) ∷ (4, 2) ∷ []) (record { hop_limit = 8; seen = [] }) ≤ 1
accepted_times-once_example =
    accepted_times-once 4 ((4, 1) ∷ (4, 9) ∷ (4, 2) ∷ []) (record { hop_limit = 8; seen = [] })

abbrev usage : UsageTelemetry
usage = record {
  measured_input_tokens = some 10;
  measured_output_tokens = some 5;
  estimated_input_tokens = none;
  estimated_output_tokens = none;
  cost_micros = some 7;
}

abbrev rows : List UsageView
rows =
    record { scope = BudgetScope.task; scope_id = "iiiii"; telemetry = usage }
    ∷ record { scope = BudgetScope.mission; scope_id = "i"; telemetry = usage }
    ∷ []

rebuild_from_snapshot_lem_example :
    (turns_of (rebuild_from_snapshot sample_env three_tasks rows empty_ledger) "i"
      ≡ min (charged "i" (λ u. 1) (charges sample_env three_tasks rows)) u32_max)
    × ((totals_of (rebuild_from_snapshot sample_env three_tasks rows empty_ledger) "i").cost_micros
        ≡ min
            (charged "i" (λ u. unwrap_or u.cost_micros 0) (charges sample_env three_tasks rows))
            u64_max)
    × ((totals_of
          (rebuild_from_snapshot sample_env three_tasks rows empty_ledger)
          "i").measured_input_tokens
        ≡ min
            (charged "i"
              (λ u. unwrap_or u.measured_input_tokens 0)
              (charges sample_env three_tasks rows))
            u64_max)
    × ((totals_of
          (rebuild_from_snapshot sample_env three_tasks rows empty_ledger)
          "i").measured_output_tokens
        ≡ min
            (charged "i"
              (λ u. unwrap_or u.measured_output_tokens 0)
              (charges sample_env three_tasks rows))
            u64_max)
rebuild_from_snapshot_lem_example =
    rebuild_from_snapshot_lem sample_env three_tasks rows empty_ledger "i"

abbrev spent : BudgetLedger
spent = record_usage "i" usage empty_ledger

abbrev small : Budget
small = record { time_seconds = none; turns = none; measured_tokens = some 12; cost_micros = none }

spent-Fits : Fits spent "i"
unfolding turns_of totals_of record_usage add_usage
spent-Fits = record {
  turns = omega arith;
  input = omega arith;
  output = omega arith;
  cost = omega arith;
}

spent-allows_measured : allows_measured spent "i" small ≡ false
unfolding allows_measured turns_of totals_of record_usage add_usage measured_tokens
spent-allows_measured = refl

allows_measured-false_example : allows_measured (record_usage "ii" usage spent) "i" small ≡ false
allows_measured-false_example =
    allows_measured-false spent "i" "ii" usage spent-Fits small spent-allows_measured
