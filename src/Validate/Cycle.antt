-- ===== src/Validate/Cycle.antt =====
-- `dfs_cycle` of crates/frank-orchestrator/src/validate.rs and the loop over the roots in
-- `validate_task_view`. A graph is the list of its entries, the last insertion first.
pub mod View
pub mod Total
pub mod Sound
pub mod Complete
pub mod Decides
use frank.Prelude.{
  ℕ, suc, zero, ◌≡◌, Bool, true, false, not, ◌==◌, Option, none, some, List, [], ◌∷◌, ◌++◌, length,
  map, contains, keep, unwrap_or, if◌then◌else◌,
}

abbrev pub Graph : Type 0
Graph = List (ℕ × List ℕ)

-- `graph.get(&id)`
abbrev pub lookup : ℕ → Graph → Option (List ℕ)
lookup id [] = none
lookup id ((k, deps) ∷ g) = if k == id then some deps else lookup id g

-- A missing entry has no dependencies (`.unwrap_or(false)`).
abbrev pub successors : Graph → ℕ → List ℕ
successors g id = unwrap_or (lookup id g) []

-- The two sets that the search marks.
pub record Marks : Type 0 where
  pub visiting : List ℕ
  pub visited : List ℕ

abbrev pub unmarked : Marks
unmarked = record { visiting = []; visited = [] }

abbrev pub remove : ℕ → List ℕ → List ℕ
remove id ids = keep (λ x. not (x == id)) ids

abbrev pub enter : ℕ → Marks → Marks
enter id m = record { visiting = id ∷ m.visiting; visited = id ∷ m.visited }

abbrev pub leave : ℕ → Option (Bool × Marks) → Option (Bool × Marks)
leave id none = none
leave id (some (cycle, m)) = some (cycle, record m { visiting = remove id m.visiting })

-- `deps.iter().any(|dependency| visit(dependency))`, with the marks threaded through.
unfoldable pub any_dependency :
    (ℕ → Marks → Option (Bool × Marks)) → List ℕ → Marks → Option (Bool × Marks)
any_dependency visit [] m = some (false, m)
any_dependency visit (dep ∷ deps) m = elim (visit dep m) [
  | none ↦ none
  | some (cycle, m') ↦ if cycle then some (true, m') else any_dependency visit deps m'
]

-- `none` means that the fuel ran out.
unfoldable pub dfs_cycle : ℕ → Graph → ℕ → Marks → Option (Bool × Marks)
dfs_cycle zero g id m = none
dfs_cycle (suc fuel) g id m =
    if contains m.visiting id
    then some (true, m)
    else if contains m.visited id
    then some (false, m)
    else leave id (any_dependency (dfs_cycle fuel g) (successors g id) (enter id m))

-- Every identifier that the search can meet.
abbrev pub nodes : Graph → List ℕ
nodes [] = []
nodes ((k, deps) ∷ g) = k ∷ (deps ++ nodes g)

abbrev pub keys : Graph → List ℕ
keys g = map (λ entry. entry.0) g

unfoldable pub scan : Graph → List ℕ → Option Bool
scan g [] = some false
scan g (root ∷ roots) = elim (dfs_cycle (suc (length (nodes g))) g root unmarked) [
  | none ↦ none
  | some (cycle, _) ↦ if cycle then some true else scan g roots
]

unfoldable pub has_cycle : Graph → Bool
has_cycle g = unwrap_or (scan g (keys g)) true

-- One dependency, and a chain of them.
abbrev pub Edge : Graph → ℕ → ℕ → Type 0
Edge g a b = contains (successors g a) b ≡ true
