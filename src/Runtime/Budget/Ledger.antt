-- ===== src/Runtime/Budget/Ledger.antt =====
-- What the ledger holds after a rebuild.
use frank.Prelude.{
  ℕ, ◌+◌, ◌≤◌, ◌≡◌, refl, ap, sym, ◌∙◌, min, String, true, false, none, some, List, [], ◌∷◌, ◌++◌,
  text_eq, eq_iff, unwrap_or, Bool-cases, Option-cases, inl, inr, if◌then◌else◌, arith,
}
use frank.Protocol.Records.{TaskView, Env}
use frank.Protocol.Status.{BudgetScope}
use frank.Tasks.Feed.{find_task}
use frank.Runtime.Budget.{
  u64_max, u32_max, saturating_add, UsageTelemetry, UsageView, BudgetLedger, no_usage, add_usage,
  get, update_entry, record_usage, totals_of, turns_of, record_owners, record_row, record_rows,
  rebuild_from_snapshot,
}

-- A charge: a scope and the usage that counts for it.
abbrev pub Charge : Type 0
Charge = String × UsageTelemetry

abbrev pub owner_charges : Env → UsageTelemetry → TaskView → List Charge
owner_charges env usage task =
    (env.show_uuid task.mission_id, usage)
    ∷ elim task.assigned_agent [ none ↦ [] | some agent_id ↦ (env.show_uuid agent_id, usage) ∷ [] ]

abbrev pub task_charges : Env → List TaskView → UsageView → List Charge
task_charges env tasks usage = elim (env.parse_uuid usage.scope_id) [
  | none ↦ []
  | some task_id ↦ elim (find_task task_id tasks) [
    | none ↦ []
    | some task ↦ owner_charges env usage.telemetry task
  ]
]

-- A row counts for its own scope; a task's row counts for the mission and the agent too.
abbrev pub row_charges : Env → List TaskView → UsageView → List Charge
row_charges env tasks usage = (usage.scope_id, usage.telemetry) ∷ elim usage.scope [
  | BudgetScope.mission ↦ []
  | BudgetScope.agent ↦ []
  | BudgetScope.task ↦ task_charges env tasks usage
]

abbrev pub charges : Env → List TaskView → List UsageView → List Charge
charges env tasks [] = []
charges env tasks (usage ∷ rows) = row_charges env tasks usage ++ charges env tasks rows

-- The sum of one amount over the charges of a scope.
abbrev pub charged : String → (UsageTelemetry → ℕ) → List Charge → ℕ
charged scope amount [] = 0
charged scope amount ((s, usage) ∷ cs) =
    let rest = charged scope amount cs in if text_eq s scope then amount usage + rest else rest

apply_charges : List Charge → BudgetLedger → BudgetLedger
apply_charges [] ledger = ledger
apply_charges ((s, usage) ∷ cs) ledger = apply_charges cs (record_usage s usage ledger)

text_eq-same : (a b c : String) → text_eq a b ≡ true → text_eq a c ≡ text_eq b c
text_eq-same a b c h = ap (λ z. text_eq z c) ((eq_iff a b).0 h)

text_eq-apart : (a b c : String) → text_eq a b ≡ false → text_eq a c ≡ true → text_eq b c ≡ false
text_eq-apart a b c apart h = elim (Bool-cases (text_eq b c)) [
  | inr f ↦ f
  | inl t ↦
      let q : a ≡ b = (eq_iff a c).0 h ∙ sym ((eq_iff b c).0 t) in
      absurd (ground (arith, apart, (eq_iff a b).1 q))
]

get-update_entry {ℓ} :
    {V : Type ℓ} (key scope : String) (default : V) (f : V → V) (entries : List (String × V))
    → unwrap_or (get scope (update_entry key default f entries)) default ≡ (
        if text_eq key scope
        then f (unwrap_or (get scope entries) default)
        else unwrap_or (get scope entries) default)
get-update_entry key scope default f [] = ground arith
get-update_entry key scope default f ((k, v) ∷ entries) = elim (Bool-cases (text_eq k key)) [
  | inl e ↦ ground (arith, e, text_eq-same k key scope e)
  | inr e ↦ elim (Bool-cases (text_eq k scope)) [
    | inl q ↦ ground (arith, e, q, text_eq-apart k key scope e q)
    | inr q ↦ ground (arith, e, q, get-update_entry key scope default f entries)
  ]
]

pub turns_of-record_usage :
    (s scope : String) (usage : UsageTelemetry) (ledger : BudgetLedger)
    → turns_of (record_usage s usage ledger) scope ≡ (
        if text_eq s scope
        then saturating_add u32_max (turns_of ledger scope) 1
        else turns_of ledger scope)
unfolding turns_of record_usage
turns_of-record_usage s scope usage ledger =
    get-update_entry s scope 0 (λ n. saturating_add u32_max n 1) ledger.turns

pub totals_of-record_usage :
    (s scope : String) (usage : UsageTelemetry) (ledger : BudgetLedger)
    → totals_of (record_usage s usage ledger) scope ≡ (
        if text_eq s scope
        then add_usage (totals_of ledger scope) usage
        else totals_of ledger scope)
unfolding totals_of record_usage
totals_of-record_usage s scope usage ledger =
    get-update_entry s scope no_usage (λ t. add_usage t usage) ledger.totals

apply_charges-append :
    (cs ds : List Charge) (ledger : BudgetLedger)
    → apply_charges (cs ++ ds) ledger ≡ apply_charges ds (apply_charges cs ledger)
unfolding apply_charges
apply_charges-append [] ds ledger = refl
apply_charges-append ((s, usage) ∷ cs) ds ledger =
    apply_charges-append cs ds (record_usage s usage ledger)

record_owners-charges :
    (env : Env) (usage : UsageTelemetry) (t : TaskView) (ledger : BudgetLedger)
    → record_owners env usage t ledger ≡ apply_charges (owner_charges env usage t) ledger
unfolding record_owners apply_charges
record_owners-charges env usage t ledger = elim (Option-cases t.assigned_agent) [
  | inl e ↦ rw e refl
  | inr (agent_id, e) ↦ rw e refl
]

record_row-charges :
    (env : Env) (tasks : List TaskView) (usage : UsageView) (ledger : BudgetLedger)
    → record_row env tasks usage ledger ≡ apply_charges (row_charges env tasks usage) ledger
unfolding record_row apply_charges
record_row-charges env tasks usage ledger = by_scope usage.scope refl
  where
    by_scope :
        (scope : BudgetScope)
        → usage.scope ≡ scope
        → record_row env tasks usage ledger ≡ apply_charges (row_charges env tasks usage) ledger
    by_scope BudgetScope.mission e = rw (e, record_row) refl
    by_scope BudgetScope.agent e = rw (e, record_row) refl
    by_scope BudgetScope.task e = elim (Option-cases (env.parse_uuid usage.scope_id)) [
      | inl p ↦ ground (arith, e, p)
      | inr (task_id, p) ↦ elim (Option-cases (find_task task_id tasks)) [
        | inl q ↦ ground (arith, e, p, q)
        | inr (t, q) ↦ ground (
          arith,
          e,
          p,
          q,
          record_owners-charges env usage.telemetry t
              (record_usage usage.scope_id usage.telemetry ledger),
        )
      ]
    ]

record_rows-charges :
    (env : Env) (tasks : List TaskView) (rows : List UsageView) (ledger : BudgetLedger)
    → record_rows env tasks rows ledger ≡ apply_charges (charges env tasks rows) ledger
unfolding record_rows apply_charges
record_rows-charges env tasks [] ledger = refl
record_rows-charges env tasks (usage ∷ rows) ledger =
    record_rows-charges env tasks rows (record_row env tasks usage ledger)
    ∙ ap (apply_charges (charges env tasks rows)) (record_row-charges env tasks usage ledger)
    ∙ sym (apply_charges-append (row_charges env tasks usage) (charges env tasks rows) ledger)

min_step :
    (limit n a b : ℕ) → n ≤ limit → min (min (n + a) limit + b) limit ≡ min (n + (a + b)) limit
min_step limit n a b h = ground arith

min_start : (limit n : ℕ) → n ≤ limit → n ≡ min (n + 0) limit
min_start limit n h = ground arith

zero_add : (n : ℕ) → 0 + n ≡ n
zero_add n = omega arith

min_bound : (limit n : ℕ) → min n limit ≤ limit
min_bound limit n = ground arith

-- An amount that the ledger keeps, saturating at a limit.
module _ (limit : ℕ) (scope : String) (kept : BudgetLedger → ℕ) (amount : UsageTelemetry → ℕ)
    (law : (s : String) (usage : UsageTelemetry) (ledger : BudgetLedger)
      → kept (record_usage s usage ledger) ≡ (
          if text_eq s scope
          then saturating_add limit (kept ledger) (amount usage)
          else kept ledger)) where
  kept-apply_charges :
      (cs : List Charge) (ledger : BudgetLedger)
      → kept ledger ≤ limit
      → kept (apply_charges cs ledger) ≡ min (kept ledger + charged scope amount cs) limit
  unfolding apply_charges
  kept-apply_charges [] ledger h = min_start limit (kept ledger) h
  kept-apply_charges ((s, usage) ∷ cs) ledger h = elim (Bool-cases (text_eq s scope)) [
    | inl e ↦ ground (
      arith,
      e,
      law s usage ledger,
      kept-apply_charges cs (record_usage s usage ledger),
      min_bound limit (kept ledger + amount usage),
      min_step limit (kept ledger) (amount usage) (charged scope amount cs) h,
    )
    | inr e ↦
        ground (arith, e, law s usage ledger, kept-apply_charges cs (record_usage s usage ledger))
  ]

  kept-rebuild :
      (env : Env) (tasks : List TaskView) (rows : List UsageView) (ledger : BudgetLedger)
      → kept (record ledger { totals = []; turns = [] }) ≡ 0
      → kept (rebuild_from_snapshot env tasks rows ledger)
        ≡ min (charged scope amount (charges env tasks rows)) limit
  unfolding rebuild_from_snapshot
  kept-rebuild env tasks rows ledger zero_start =
      let fresh = record ledger { totals = []; turns = [] } in
      ap kept (record_rows-charges env tasks rows fresh)
      ∙ kept-apply_charges (charges env tasks rows) fresh (ground (arith, zero_start))
      ∙ ap (λ n. min (n + charged scope amount (charges env tasks rows)) limit) zero_start
      ∙ ap (λ n. min n limit) (zero_add (charged scope amount (charges env tasks rows)))

-- After a rebuild, from whatever ledger, each amount of a scope is the sum over the usage rows that
-- count for it, cut at the width of the counter: the rows of the scope itself, and for a mission
-- or an agent those of its tasks. The turns count these rows.
pub rebuild_from_snapshot_lem :
    (env : Env) (tasks : List TaskView) (rows : List UsageView) (ledger : BudgetLedger)
    (scope : String)
    → (turns_of (rebuild_from_snapshot env tasks rows ledger) scope
        ≡ min (charged scope (λ usage. 1) (charges env tasks rows)) u32_max)
      × ((totals_of (rebuild_from_snapshot env tasks rows ledger) scope).cost_micros
          ≡ min
              (charged scope (λ usage. unwrap_or usage.cost_micros 0) (charges env tasks rows))
              u64_max)
      × ((totals_of (rebuild_from_snapshot env tasks rows ledger) scope).measured_input_tokens
          ≡ min
              (charged scope
                (λ usage. unwrap_or usage.measured_input_tokens 0)
                (charges env tasks rows))
              u64_max)
      × ((totals_of (rebuild_from_snapshot env tasks rows ledger) scope).measured_output_tokens
          ≡ min
              (charged scope
                (λ usage. unwrap_or usage.measured_output_tokens 0)
                (charges env tasks rows))
              u64_max)
unfolding totals_of turns_of add_usage
rebuild_from_snapshot_lem env tasks rows ledger scope = (
  kept-rebuild u32_max scope (λ l. turns_of l scope) (λ usage. 1)
      (λ s usage l. turns_of-record_usage s scope usage l) env tasks rows ledger refl,
  kept-rebuild u64_max scope (λ l. (totals_of l scope).cost_micros)
      (λ usage. unwrap_or usage.cost_micros 0)
      (λ s usage l. ground (arith, totals_of-record_usage s scope usage l)) env tasks rows ledger
      refl,
  kept-rebuild u64_max scope (λ l. (totals_of l scope).measured_input_tokens)
      (λ usage. unwrap_or usage.measured_input_tokens 0)
      (λ s usage l. ground (arith, totals_of-record_usage s scope usage l)) env tasks rows ledger
      refl,
  kept-rebuild u64_max scope (λ l. (totals_of l scope).measured_output_tokens)
      (λ usage. unwrap_or usage.measured_output_tokens 0)
      (λ s usage l. ground (arith, totals_of-record_usage s scope usage l)) env tasks rows ledger
      refl,
)
