-- ===== src/Runtime/Budget.antt =====
-- crates/frank-orchestrator/src/budget.rs. A map from scopes is an association list.
pub mod Ledger
pub mod Ceiling
use frank.Prelude.{
  ℕ, ◌+◌, ◌≡◌, min, String, Bool, true, false, ◌&&◌, Option, none, some, List, [], ◌∷◌, leb,
  text_eq, find, unwrap_or, is_none_or, if◌then◌else◌,
}
use frank.Protocol.Records.{Budget, TaskView, Env}
use frank.Protocol.Status.{BudgetScope}
use frank.Tasks.Feed.{find_task}

abbrev pub u64_max : ℕ
u64_max = 18446744073709551615

abbrev pub u32_max : ℕ
u32_max = 4294967295

-- `saturating_add`
abbrev pub saturating_add : ℕ → ℕ → ℕ → ℕ
saturating_add limit a b = min (a + b) limit

pub record UsageTelemetry : Type 0 where
  pub measured_input_tokens : Option ℕ
  pub measured_output_tokens : Option ℕ
  pub estimated_input_tokens : Option ℕ
  pub estimated_output_tokens : Option ℕ
  pub cost_micros : Option ℕ

pub record UsageTotals : Type 0 where
  pub measured_input_tokens : ℕ
  pub measured_output_tokens : ℕ
  pub estimated_input_tokens : ℕ
  pub estimated_output_tokens : ℕ
  pub cost_micros : ℕ

pub record UsageView : Type 0 where
  pub scope : BudgetScope
  pub scope_id : String
  pub telemetry : UsageTelemetry

abbrev pub no_usage : UsageTotals
no_usage = record {
  measured_input_tokens = 0;
  measured_output_tokens = 0;
  estimated_input_tokens = 0;
  estimated_output_tokens = 0;
  cost_micros = 0;
}

-- `UsageTotals::add`
unfoldable pub add_usage : UsageTotals → UsageTelemetry → UsageTotals
add_usage totals usage = record {
  measured_input_tokens =
      saturating_add u64_max totals.measured_input_tokens (unwrap_or usage.measured_input_tokens 0);
  measured_output_tokens =
      saturating_add u64_max totals.measured_output_tokens
        (unwrap_or usage.measured_output_tokens 0);
  estimated_input_tokens =
      saturating_add u64_max totals.estimated_input_tokens
        (unwrap_or usage.estimated_input_tokens 0);
  estimated_output_tokens =
      saturating_add u64_max totals.estimated_output_tokens
        (unwrap_or usage.estimated_output_tokens 0);
  cost_micros = saturating_add u64_max totals.cost_micros (unwrap_or usage.cost_micros 0);
}

unfoldable pub measured_tokens : UsageTotals → ℕ
measured_tokens totals =
    saturating_add u64_max totals.measured_input_tokens totals.measured_output_tokens

pub record BudgetLedger : Type 0 where
  pub totals : List (String × UsageTotals)
  pub turns : List (String × ℕ)

abbrev pub empty_ledger : BudgetLedger
empty_ledger = record { totals = []; turns = [] }

-- `map.get(key)`, and `*map.entry(key).or_default() = f(..)`.
abbrev pub get {ℓ} : {V : Type ℓ} → String → List (String × V) → Option V
get key [] = none
get key ((k, v) ∷ entries) = if text_eq k key then some v else get key entries

abbrev pub update_entry {ℓ} :
    {V : Type ℓ} → String → V → (V → V) → List (String × V) → List (String × V)
update_entry key default f [] = (key, f default) ∷ []
update_entry key default f ((k, v) ∷ entries) =
    if text_eq k key then (k, f v) ∷ entries else (k, v) ∷ update_entry key default f entries

unfoldable pub record_usage : String → UsageTelemetry → BudgetLedger → BudgetLedger
record_usage scope_id usage ledger = record {
  totals = update_entry scope_id no_usage (λ t. add_usage t usage) ledger.totals;
  turns = update_entry scope_id 0 (λ n. saturating_add u32_max n 1) ledger.turns;
}

unfoldable pub totals_of : BudgetLedger → String → UsageTotals
totals_of ledger scope_id = unwrap_or (get scope_id ledger.totals) no_usage

unfoldable pub turns_of : BudgetLedger → String → ℕ
turns_of ledger scope_id = unwrap_or (get scope_id ledger.turns) 0

-- The usage of a task also counts for its mission and for its agent.
unfoldable pub record_owners : Env → UsageTelemetry → TaskView → BudgetLedger → BudgetLedger
record_owners env usage task ledger =
    let counted = record_usage (env.show_uuid task.mission_id) usage ledger in
    elim task.assigned_agent [
      | none ↦ counted
      | some agent_id ↦ record_usage (env.show_uuid agent_id) usage counted
    ]

-- One round of the loop of `rebuild_from_snapshot`.
unfoldable pub record_row : Env → List TaskView → UsageView → BudgetLedger → BudgetLedger
record_row env tasks usage ledger =
    let own = record_usage usage.scope_id usage.telemetry ledger in
    elim usage.scope [
      | BudgetScope.mission ↦ own
      | BudgetScope.agent ↦ own
      | BudgetScope.task ↦ elim (env.parse_uuid usage.scope_id) [
        | none ↦ own
        | some task_id ↦ elim (find_task task_id tasks) [
          | none ↦ own
          | some task ↦ record_owners env usage.telemetry task own
        ]
      ]
    ]

unfoldable pub record_rows : Env → List TaskView → List UsageView → BudgetLedger → BudgetLedger
record_rows env tasks [] ledger = ledger
record_rows env tasks (usage ∷ rows) ledger =
    record_rows env tasks rows (record_row env tasks usage ledger)

unfoldable pub rebuild_from_snapshot :
    Env → List TaskView → List UsageView → BudgetLedger → BudgetLedger
rebuild_from_snapshot env tasks rows ledger =
    record_rows env tasks rows (record ledger { totals = []; turns = [] })

unfoldable pub allows_measured : BudgetLedger → String → Budget → Bool
allows_measured ledger scope_id budget =
    is_none_or budget.turns (λ limit. leb (turns_of ledger scope_id) limit)
    && is_none_or budget.measured_tokens
        (λ limit. leb (measured_tokens (totals_of ledger scope_id)) limit)
    && is_none_or budget.cost_micros (λ limit. leb (totals_of ledger scope_id).cost_micros limit)
