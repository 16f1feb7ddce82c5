-- ===== src/Validate/Parents/Roots.antt =====
-- What `validate_parent_link` accepts.
use frank.Prelude.{
  ℕ, suc, zero, ◌≡◌, ◌≢◌, ◌<◌, refl, ap, sym, subst, true, false, ◌==◌, ==_iff, ==_refl, inl, inr,
  ◌↔◌, Option, none, some, List, [], ◌∷◌, contains, length, Bool-cases, Option-cases, arith,
  unwrap_or, length-map, Result, ok, err, validation, OrchestratorError,
}
use frank.Protocol.Records.{TaskView}
use frank.Validate.Parents.{
  ids, find_id, parent_of, parent_walk, check_parent, validate_parent_link,
}
use frank.Validate.Parents.Ancestors.{Above, direct, higher, Above-trans_parent, find_id-ids}
use frank.Validate.Cycle.Total.{fresh, fresh-cons, fresh_unmarked}

-- Going up from a task ends at a root, and does not meet the candidate.
pub data Rises (tasks : List TaskView) (candidate : ℕ) : ℕ → Type 0 where
  root : {id : ℕ} → id ≢ candidate → parent_of tasks id ≡ none → Rises tasks candidate id
  child :
      {id p : ℕ}
      → id ≢ candidate
      → parent_of tasks id ≡ some p
      → Rises tasks candidate p
      → Rises tasks candidate id

abbrev Clear : List TaskView → ℕ → Option ℕ → Type 0
Clear tasks c current = (id : ℕ) → current ≡ some id → Rises tasks c id

Clear-step :
    (tasks : List TaskView) (c x : ℕ)
    → x ≢ c
    → (o : Option ℕ) → parent_of tasks x ≡ o
    → Clear tasks c o
    → Rises tasks c x
Clear-step tasks c x apart none e h = root apart e
Clear-step tasks c x apart (some p) e h = child apart e (h p refl)

parent_walk-Clear :
    (fuel : ℕ) (tasks : List TaskView) (c : ℕ) (current : Option ℕ) (visited : List ℕ)
    → parent_walk fuel tasks c current visited ≡ some (ok tt)
    → Clear tasks c current
unfolding parent_walk
parent_walk-Clear fuel tasks c none visited h id e = absurd (cc)
parent_walk-Clear zero tasks c (some x) visited h id e = absurd (cc)
parent_walk-Clear (suc fuel) tasks c (some x) visited h id e =
    subst (Rises tasks c) (ground (arith, e)) (
      Clear-step tasks c x (λ q. ground (arith, h, q, ==_refl c)) (parent_of tasks x) refl
        (parent_walk-Clear fuel tasks c (parent_of tasks x) (x ∷ visited) (ground (arith, h))))

-- A task from which the walk ends is not above itself.
Rises-not_Above : (tasks : List TaskView) (c x : ℕ) → Rises tasks c x → ¬ Above tasks x x
Rises-not_Above tasks c x (root _ e) (direct f) = ground (arith, e, f)
Rises-not_Above tasks c x (root _ e) (higher f r) = ground (arith, e, f)
Rises-not_Above tasks c x (child {p = p} _ e r) (direct f) =
    let q : p ≡ x = ground (arith, e, f) in
    Rises-not_Above tasks c p r (subst (λ z. Above tasks z z) (sym q) (direct f))
Rises-not_Above tasks c x (child {p = p} _ e r) (higher {p = z} f s) =
    let q : z ≡ p = ground (arith, e, f) in
    Rises-not_Above tasks c p r (Above-trans_parent tasks x p p (subst (Above tasks x) q s) e)

-- Every seen task is below the task at hand.
abbrev Below : List TaskView → Option ℕ → List ℕ → Type 0
Below tasks current visited =
    (v x : ℕ) → contains visited v ≡ true → current ≡ some x → Above tasks x v

Below-step :
    (tasks : List TaskView) (x : ℕ) (visited : List ℕ)
    → Below tasks (some x) visited
    → Below tasks (parent_of tasks x) (x ∷ visited)
Below-step tasks x visited below v p c e = elim (Bool-cases (x == v)) [
  | inl same ↦ subst (Above tasks p) ((==_iff x v).0 same) (direct e)
  | inr apart ↦ Above-trans_parent tasks x p v (below v x (ground (arith, apart, c)) refl) e
]

fresh-parent :
    (fuel : ℕ) (tasks : List TaskView) (x : ℕ) (visited : List ℕ)
    → contains visited x ≡ false
    → fresh (ids tasks) visited < suc fuel
    → (p : ℕ) → parent_of tasks x ≡ some p
    → fresh (ids tasks) (x ∷ visited) < fuel
fresh-parent fuel tasks x visited c bound p e = elim (Option-cases (find_id tasks x)) [
  | inl f ↦ absurd (ground (arith, e, f))
  | inr (task, f) ↦
      omega (arith, bound, fresh-cons (ids tasks) visited x (find_id-ids tasks x task f) c)
]

not_seen :
    (tasks : List TaskView) (c x : ℕ) (visited : List ℕ)
    → Rises tasks c x
    → Below tasks (some x) visited
    → contains visited x ≡ false
not_seen tasks c x visited r below = elim (Bool-cases (contains visited x)) [
  | inl seen ↦ absurd (Rises-not_Above tasks c x r (below x x seen refl))
  | inr new ↦ new
]

Rises-apart : (tasks : List TaskView) (c x : ℕ) → Rises tasks c x → x == c ≡ false
Rises-apart tasks c x r = elim (Bool-cases (x == c)) [
  | inl same ↦ absurd (apart r ((==_iff x c).0 same))
  | inr other ↦ other
]
  where
    apart : Rises tasks c x → x ≢ c
    apart (root h _) = h
    apart (child h _ _) = h

Rises-parent_walk :
    (fuel : ℕ) (tasks : List TaskView) (c x : ℕ) (visited : List ℕ)
    → Rises tasks c x
    → Below tasks (some x) visited
    → fresh (ids tasks) visited < fuel
    → parent_walk fuel tasks c (some x) visited ≡ some (ok tt)
unfolding parent_walk
Rises-parent_walk zero tasks c x visited r below bound = absurd (omega (arith, bound))
Rises-parent_walk (suc fuel) tasks c x visited (root h e) below bound =
    ground (arith, not_seen tasks c x visited (root h e) below, Rises-apart tasks c x (root h e), e)
Rises-parent_walk (suc fuel) tasks c x visited (child {p = p} h e r) below bound =
    let new = not_seen tasks c x visited (child h e r) below in
    let rest =
      Rises-parent_walk fuel tasks c p (x ∷ visited) r
        (subst (λ o. Below tasks o (x ∷ visited)) e (Below-step tasks x visited below))
        (fresh-parent fuel tasks x visited new bound p e) in
    ground (arith, new, Rises-apart tasks c x (child h e r), e, rest)

-- What makes a parent acceptable.
abbrev pub GoodParent : TaskView → List TaskView → ℕ → Type 0
GoodParent candidate tasks parent_id =
    (parent_id ≢ 0)
    × ((parent : TaskView) × (find_id tasks parent_id ≡ some parent)
        × (parent.mission_id ≡ candidate.mission_id))
    × Rises tasks candidate.id parent_id

≢_test : (a b : ℕ) → a ≢ b → a == b ≡ false
≢_test a b h = elim (Bool-cases (a == b)) [ inl e ↦ absurd (h ((==_iff a b).0 e)) | inr e ↦ e ]

unwrap_walk :
    (o : Option (Result (Unit {0}))) (e : OrchestratorError)
    → unwrap_or o (err e) ≡ ok tt
    → o ≡ some (ok tt)
unwrap_walk none e h = absurd (cc)
unwrap_walk (some r) e h = ap some h

check_parent-good :
    (candidate : TaskView) (tasks : List TaskView) (parent_id : ℕ)
    → check_parent candidate tasks parent_id ≡ ok tt
    → GoodParent candidate tasks parent_id
unfolding check_parent
check_parent-good candidate tasks parent_id h = elim (Option-cases (find_id tasks parent_id)) [
  | inl f ↦ absurd (ground (arith, f, h))
  | inr (parent, f) ↦ (
    λ e. ground (arith, e, h, ==_refl 0),
    (parent, f, ground (arith, f, h, ==_iff parent.mission_id candidate.mission_id)),
    parent_walk-Clear (suc (length tasks)) tasks candidate.id (some parent_id) []
        (unwrap_walk (parent_walk (suc (length tasks)) tasks candidate.id (some parent_id) [])
          (validation "task parent relationships must form a tree") (ground (arith, f, h)))
        parent_id refl,
  )
]

good-check_parent :
    (candidate : TaskView) (tasks : List TaskView) (parent_id : ℕ)
    → GoodParent candidate tasks parent_id
    → check_parent candidate tasks parent_id ≡ ok tt
unfolding check_parent
good-check_parent candidate tasks parent_id (some_id, (parent, f, same), r) =
    let walk =
      Rises-parent_walk (suc (length tasks)) tasks candidate.id parent_id [] r
        (λ v x c e. absurd (ground (arith, c)))
        (omega (arith, fresh_unmarked (ids tasks), length-map tasks (λ task. task.id))) in
    ground (
      arith,
      f,
      walk,
      same,
      ≢_test parent_id 0 some_id,
      Rises-apart tasks candidate.id parent_id r,
      ==_refl candidate.mission_id,
    )

-- A task with a parent is accepted exactly where the parent is not nil, exists in the task's own
-- mission, and the walk up from it ends at a root without meeting the task.
pub validate_parent_link-accepts :
    (candidate : TaskView) (tasks : List TaskView) (parent_id : ℕ)
    → candidate.parent_task_id ≡ some parent_id
    → (validate_parent_link candidate tasks ≡ ok tt) ↔ GoodParent candidate tasks parent_id
unfolding validate_parent_link
validate_parent_link-accepts candidate tasks parent_id e = (
  λ h. check_parent-good candidate tasks parent_id (ground (arith, h, e)),
  λ g. ground (arith, good-check_parent candidate tasks parent_id g, e),
)
