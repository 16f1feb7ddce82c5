-- ===== src/Validate/Parents/Ancestors.antt =====
-- `is_parent_of` decides whether one task is above another.
use frank.Prelude.{
  ℕ, suc, zero, ◌≡◌, ◌≢◌, ◌<◌, refl, ap, ◌∙◌, Bool, true, false, ◌==◌, ==_iff, ==_refl, ◌⊎◌, inl,
  inr, ◌↔◌, Option, none, some, List, [], ◌∷◌, contains, length, Bool-cases, arith, if◌then◌else◌,
  unwrap_or, option_eq, length-map,
}
use frank.Protocol.Records.{TaskView}
use frank.Validate.Parents.{ids, find_id, parent_of, is_parent_from, is_parent_of}
use frank.Validate.Cycle.Total.{fresh, fresh-cons, fresh_unmarked}

-- `Above tasks a d`: going up from d by the recorded parents meets a.
pub data Above (tasks : List TaskView) (a : ℕ) : ℕ → Type 0 where
  direct : {d : ℕ} → parent_of tasks d ≡ some a → Above tasks a d
  higher : {d p : ℕ} → parent_of tasks d ≡ some p → Above tasks a p → Above tasks a d

pub Above-trans_parent :
    (tasks : List TaskView) (a p d : ℕ)
    → Above tasks a d
    → parent_of tasks a ≡ some p
    → Above tasks p d
Above-trans_parent tasks a p d (direct e) q = higher e (direct q)
Above-trans_parent tasks a p d (higher {p = x} e r) q =
    higher e (Above-trans_parent tasks a p x r q)

-- A set of tasks that the parents do not leave, and that has no child of a.
abbrev Trap : List TaskView → ℕ → (ℕ → Type 0) → Type 0
Trap tasks a P = (v p : ℕ) → P v → parent_of tasks v ≡ some p → (p ≢ a) × P p

Trap-not_Above :
    (tasks : List TaskView) (a : ℕ) (P : ℕ → Type 0)
    → Trap tasks a P
    → (d : ℕ) → P d
    → ¬ Above tasks a d
Trap-not_Above tasks a P trap d p (direct e) = (trap d a p e).0 refl
Trap-not_Above tasks a P trap d p (higher {p = q} e r) =
    Trap-not_Above tasks a P trap q (trap d q p e).1 r

-- The tasks that the walk has seen, with the one at hand.
abbrev Seen : List ℕ → Option ℕ → ℕ → Type 0
Seen visited current v = (contains visited v ≡ true) ⊎ (current ≡ some v)

-- What the walk has found out about the tasks that it has left behind.
abbrev Passed : List TaskView → ℕ → Option ℕ → List ℕ → Type 0
Passed tasks a current visited =
    (v p : ℕ)
    → contains visited v ≡ true
    → parent_of tasks v ≡ some p
    → (p ≢ a) × Seen visited current p

data Answer (tasks : List TaskView) (a : ℕ) (current : Option ℕ) (visited : List ℕ)
    : Option Bool → Type 0 where
  above :
      (id : ℕ) → current ≡ some id → Above tasks a id → Answer tasks a current visited (some true)
  below :
      ((v : ℕ) → Seen visited current v → ¬ Above tasks a v)
      → Answer tasks a current visited (some false)

pub find_id-ids :
    (tasks : List TaskView) (id : ℕ) (task : TaskView)
    → find_id tasks id ≡ some task
    → contains (ids tasks) id ≡ true
find_id-ids [] id task h = absurd (ground (arith, h))
find_id-ids (t ∷ tasks) id task h = ground (arith, h, find_id-ids tasks id task)

pub parent_of-find :
    (tasks : List TaskView) (id : ℕ) (task : TaskView)
    → find_id tasks id ≡ some task
    → parent_of tasks id ≡ task.parent_task_id
parent_of-find tasks id task h = ground (arith, h)

pub widen :
    (id : ℕ) (visited : List ℕ) (current : Option ℕ) (v : ℕ)
    → Seen visited (some id) v
    → Seen (id ∷ visited) current v
widen id visited current v (inl c) = inl (ground (arith, c))
widen id visited current v (inr e) = inl (ground (arith, e, ==_refl id))

-- Where the walk stops, the tasks that it has seen are a trap.
stopped :
    (tasks : List TaskView) (a : ℕ) (visited : List ℕ) (current : Option ℕ)
    → Passed tasks a current visited
    → ((id p : ℕ) → current ≡ some id → parent_of tasks id ≡ some p → contains visited id ≡ true)
    → (v : ℕ) → Seen visited current v
    → ¬ Above tasks a v
stopped tasks a visited current passed last = Trap-not_Above tasks a (Seen visited current) trap
  where
    trap : Trap tasks a (Seen visited current)
    trap v p (inl c) e = passed v p c e
    trap v p (inr q) e = passed v p (last v p q e) e

module _ (tasks : List TaskView) (a id : ℕ) (visited : List ℕ) (task : TaskView)
    (found : find_id tasks id ≡ some task) where
  Passed-step :
      option_eq task.parent_task_id (some a) ≡ false
      → Passed tasks a (some id) visited
      → Passed tasks a task.parent_task_id (id ∷ visited)
  Passed-step other passed v p c e = elim (Bool-cases (id == v)) [
    | inl same ↦
        let q : task.parent_task_id ≡ some p = ground (arith, (==_iff id v).0 same, e, found) in
        (λ p_is_a. absurd (ground (arith, q, p_is_a, other, ==_refl a)), inr q)
    | inr apart ↦
        let (differs, seen) = passed v p (ground (arith, apart, c)) e in
        (differs, widen id visited task.parent_task_id p seen)
  ]

  Answer-step :
      option_eq task.parent_task_id (some a) ≡ false
      → (o : Option Bool) → Answer tasks a task.parent_task_id (id ∷ visited) o
      → Answer tasks a (some id) visited o
  Answer-step other _ (above p q r) =
      above id refl (higher (parent_of-find tasks id task found ∙ q) r)
  Answer-step other _ (below h) =
      below (λ v seen. h v (widen id visited task.parent_task_id v seen))

option_eq-≡ : (o : Option ℕ) (a : ℕ) → option_eq o (some a) ≡ true → o ≡ some a
option_eq-≡ none a h = absurd (ground (arith, h))
option_eq-≡ (some b) a h = ap some ((==_iff b a).0 h)

module _ (tasks : List TaskView) (a fuel id : ℕ) (visited : List ℕ)
    (bound : fresh (ids tasks) visited < suc fuel) (passed : Passed tasks a (some id) visited)
    (walk : (current : Option ℕ) (seen : List ℕ)
      → fresh (ids tasks) seen < fuel
      → Passed tasks a current seen
      → Answer tasks a current seen (is_parent_from fuel tasks a current seen)) where
  Answer-found :
      (task : TaskView)
      → contains visited id ≡ false
      → find_id tasks id ≡ some task
      → (child : Bool) → option_eq task.parent_task_id (some a) ≡ child
      → Answer tasks a (some id) visited (
          if child
          then some true
          else is_parent_from fuel tasks a task.parent_task_id (id ∷ visited))
  Answer-found task c f true e =
      above id refl (direct (parent_of-find tasks id task f ∙ option_eq-≡ task.parent_task_id a e))
  Answer-found task c f false e =
      let fewer = fresh-cons (ids tasks) visited id (find_id-ids tasks id task f) c in
      Answer-step tasks a id visited task f e _ (
        walk task.parent_task_id (id ∷ visited) (omega (arith, bound, fewer))
          (Passed-step tasks a id visited task f e passed))

  Answer-visit :
      (seen : Bool) (found : Option TaskView)
      → contains visited id ≡ seen
      → find_id tasks id ≡ found
      → Answer tasks a (some id) visited (
          if seen then some false else elim found [
            | none ↦ some false
            | some task ↦
                if option_eq task.parent_task_id (some a)
                then some true
                else is_parent_from fuel tasks a task.parent_task_id (id ∷ visited)
          ])
  Answer-visit true _ c f =
      below (stopped tasks a visited (some id) passed (λ v p q e. ground (arith, q, c)))
  Answer-visit false none c f =
      below (stopped tasks a visited (some id) passed (λ v p q e. absurd (ground (arith, q, f, e))))
  Answer-visit false (some task) c f =
      Answer-found task c f (option_eq task.parent_task_id (some a)) refl

is_parent_from-Answer :
    (tasks : List TaskView) (a fuel : ℕ) (current : Option ℕ) (visited : List ℕ)
    → fresh (ids tasks) visited < fuel
    → Passed tasks a current visited
    → Answer tasks a current visited (is_parent_from fuel tasks a current visited)
unfolding is_parent_from
is_parent_from-Answer tasks a fuel none visited bound passed =
    below (stopped tasks a visited none passed (λ id p q e. absurd (cc)))
is_parent_from-Answer tasks a zero (some id) visited bound passed = absurd (omega (arith, bound))
is_parent_from-Answer tasks a (suc fuel) (some id) visited bound passed =
    Answer-visit tasks a fuel id visited bound passed (is_parent_from-Answer tasks a fuel)
      (contains visited id) (find_id tasks id) refl refl

-- `is_parent_of` answers true exactly where the second task is below the first by the recorded
-- parents, on every list of tasks, and also where the parents run in a circle.
pub is_parent_of-decides :
    (tasks : List TaskView) (ancestor descendant : ℕ)
    → (is_parent_of tasks ancestor descendant ≡ true) ↔ Above tasks ancestor descendant
unfolding is_parent_of
is_parent_of-decides tasks a d = go _ (
    is_parent_from-Answer tasks a (suc (length tasks)) (some d) []
      (omega (arith, fresh_unmarked (ids tasks), length-map tasks (λ task. task.id)))
      (λ v p c e. absurd (ground (arith, c))))
  where
    go :
        (o : Option Bool)
        → Answer tasks a (some d) [] o
        → (unwrap_or o false ≡ true) ↔ Above tasks a d
    go _ (above id e r) = (λ h. ground (arith, e, r), λ h. refl)
    go _ (below h) = (λ e. absurd (ground (arith, e)), λ r. absurd (h d (inr refl) r))
