-- ===== src/Runtime/Budget/Ceiling.antt =====
-- A budget that is spent stays spent.
use frank.Prelude.{
  ℕ, ◌≤◌, ◌≡◌, String, Bool, false, ◌&&◌, Option, none, some, unwrap_or, is_none_or, leb, arith,
}
use frank.Protocol.Records.{Budget}
use frank.Runtime.Budget.{
  u64_max, u32_max, saturating_add, UsageTelemetry, BudgetLedger, add_usage, measured_tokens,
  record_usage, totals_of, turns_of, allows_measured,
}
use frank.Runtime.Budget.Ledger.{turns_of-record_usage, totals_of-record_usage}

-- The counters of a scope fit their machine types.
pub record Fits (ledger : BudgetLedger) (scope : String) : Type 0 where
  pub turns : turns_of ledger scope ≤ u32_max
  pub input : (totals_of ledger scope).measured_input_tokens ≤ u64_max
  pub output : (totals_of ledger scope).measured_output_tokens ≤ u64_max
  pub cost : (totals_of ledger scope).cost_micros ≤ u64_max

grows : (limit n a : ℕ) → n ≤ limit → n ≤ saturating_add limit n a
grows limit n a h = ground arith

sum_grows :
    (limit a b c d : ℕ) → a ≤ c → b ≤ d → saturating_add limit a b ≤ saturating_add limit c d
sum_grows limit a b c d h k = ground arith

-- Within a limit before, if it is within the limit after.
still_within :
    (o : Option ℕ) (n m : ℕ)
    → n ≤ m
    → is_none_or o (λ limit. leb n limit) ≡ false
    → is_none_or o (λ limit. leb m limit) ≡ false
still_within none n m h k = absurd (ground (arith, k))
still_within (some limit) n m h k = ground arith

three_false :
    (a b c d e f : Bool)
    → (a ≡ false → d ≡ false)
    → (b ≡ false → e ≡ false)
    → (c ≡ false → f ≡ false)
    → a && b && c ≡ false
    → d && e && f ≡ false
three_false a b c d e f p q r h = ground (arith, p, q, r)

module _ (ledger : BudgetLedger) (scope s : String) (usage : UsageTelemetry)
    (fits : Fits ledger scope) where
  turns_grow : turns_of ledger scope ≤ turns_of (record_usage s usage ledger) scope
  turns_grow = ground (
    arith,
    turns_of-record_usage s scope usage ledger,
    grows u32_max (turns_of ledger scope) 1 fits.turns,
  )

  cost_grows :
      (totals_of ledger scope).cost_micros
      ≤ (totals_of (record_usage s usage ledger) scope).cost_micros
  unfolding add_usage
  cost_grows = ground (
    arith,
    totals_of-record_usage s scope usage ledger,
    grows u64_max (totals_of ledger scope).cost_micros (unwrap_or usage.cost_micros 0) fits.cost,
  )

  tokens_grow :
      measured_tokens (totals_of ledger scope)
      ≤ measured_tokens (totals_of (record_usage s usage ledger) scope)
  unfolding measured_tokens add_usage
  tokens_grow =
      sum_grows u64_max (totals_of ledger scope).measured_input_tokens
        (totals_of ledger scope).measured_output_tokens _ _
        (ground (
          arith,
          totals_of-record_usage s scope usage ledger,
          grows u64_max (totals_of ledger scope).measured_input_tokens
              (unwrap_or usage.measured_input_tokens 0) fits.input,
        ))
        (ground (
          arith,
          totals_of-record_usage s scope usage ledger,
          grows u64_max (totals_of ledger scope).measured_output_tokens
              (unwrap_or usage.measured_output_tokens 0) fits.output,
        ))

  -- A scope that is over its budget stays so, whatever usage is recorded for whatever scope, as
  -- long as the counters fit their machine types.
  pub allows_measured-false :
      (budget : Budget)
      → allows_measured ledger scope budget ≡ false
      → allows_measured (record_usage s usage ledger) scope budget ≡ false
  unfolding allows_measured
  allows_measured-false budget h =
      three_false _ _ _ _ _ _
        (still_within budget.turns (turns_of ledger scope)
          (turns_of (record_usage s usage ledger) scope) turns_grow)
        (still_within budget.measured_tokens (measured_tokens (totals_of ledger scope))
          (measured_tokens (totals_of (record_usage s usage ledger) scope)) tokens_grow)
        (still_within budget.cost_micros (totals_of ledger scope).cost_micros
          (totals_of (record_usage s usage ledger) scope).cost_micros cost_grows)
        h
