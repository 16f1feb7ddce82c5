-- ===== src/Prelude/Errors.antt =====
-- `OrchestratorError` and `Result` of crates/frank-orchestrator/src/lib.rs, the `?` operator as a
-- monad, and the two ways that the reducers leave early; `StoreError` of crates/frank-store/src/lib.rs.
-- `BudgetExceeded` is raised outside the modelled functions.
use Prim.Native.Nat.{ℕ}
use Prim.Native.String.{String}
use mathlib.Core.Path.{◌≡◌, refl}
use mathlib.Core.Logic.{◌⊎◌, inl, inr}
use mathlib.Core.Bool.{Bool, true, false}
use mathlib.Core.Option.{Option, none, some}

pub data StoreError : Type 0 where
  database serialization safe_io : String → StoreError
  stale_revision : ℕ → StoreError
  corrupt_snapshot resync_required : StoreError
  validation : String → StoreError

pub data OrchestratorError : Type 0 where
  invalid_transition : String → OrchestratorError
  validation : String → OrchestratorError
  revision_conflict : ℕ → ℕ → OrchestratorError
  forbidden : OrchestratorError
  not_found : OrchestratorError
  provider_unavailable : String → OrchestratorError
  store : StoreError → OrchestratorError

-- The value of a reducer, or the error that it left with.
pub data Result {ℓ} (Value : Type ℓ) : Type ℓ where
  err : OrchestratorError → Result Value
  ok : Value → Result Value

-- `option.ok_or(error)?`
abbrev pub ok_or {ℓ} : {V : Type ℓ} → Option V → OrchestratorError → Result V
ok_or (some value) error = ok value
ok_or none error = err error

-- `if test { return Err(error) }`
abbrev pub refuse : Bool → OrchestratorError → Result (Unit {0})
refuse false error = ok tt
refuse true error = err error

-- `step?` before the code that follows.
infixl 5 ◌>>=◌ ◌>>◌
abbrev pub ◌>>=◌ {ℓ κ} : {V : Type ℓ} {W : Type κ} → Result V → (V → Result W) → Result W
err error >>= next = err error
ok value >>= next = next value

abbrev pub ◌>>◌ {κ} : {W : Type κ} → Result (Unit {0}) → Result W → Result W
check >> next = check >>= λ passed. next

-- Inversion of a successful step, for proofs where the parts stay shut.
pub >>=-ok {ℓ κ} :
    {A : Type ℓ} {W : Type κ} (step : Result A) (next : A → Result W) {w : W}
    → (step >>= next) ≡ ok w
    → (value : A) × (step ≡ ok value) × (next value ≡ ok w)
>>=-ok (err e) next h = cc
>>=-ok (ok value) next h = (value, refl, h)

pub refuse-ok {ℓ} :
    {B : Type ℓ} (t : Bool) (e : OrchestratorError) (k : Result B) {b : B}
    → (refuse t e >> k) ≡ ok b
    → (t ≡ false) × (k ≡ ok b)
refuse-ok true e k h = cc
refuse-ok false e k h = (refl, h)

pub ok_or-ok {ℓ} :
    {A : Type ℓ} (o : Option A) (e : OrchestratorError) {a : A} → ok_or o e ≡ ok a → o ≡ some a
ok_or-ok none e h = cc
ok_or-ok (some b) e h = cc

-- To split on the outcome of a step and keep the equation.
pub Result-cases {ℓ} :
    {A : Type ℓ} (m : Result A) → ((e : OrchestratorError) × (m ≡ err e)) ⊎ ((a : A) × (m ≡ ok a))
Result-cases (err e) = inl (e, refl)
Result-cases (ok a) = inr (a, refl)
