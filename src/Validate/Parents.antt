-- ===== src/Validate/Parents.antt =====
-- The two walks up the parents of crates/frank-orchestrator/src/validate.rs: `is_parent_of` and
-- the loop of `validate_parent_link`. A walk on fuel answers `none` when the fuel runs out.
pub mod Ancestors
pub mod Roots
use frank.Prelude.{
  ℕ, suc, zero, Bool, true, false, ◌==◌, ◌≢◌, ◌≡◌, ◌||◌, not, Option, none, some, List, [], ◌∷◌,
  find, contains, map, length, option_eq, unwrap_or, and_then, if◌then◌else◌, Result, ok, err, ◌>>◌,
  ◌>>=◌, refuse, ok_or, OrchestratorError, validation,
}
use frank.Protocol.Records.{TaskView}

abbrev pub find_id : List TaskView → ℕ → Option TaskView
find_id tasks id = find (λ task. task.id == id) tasks

abbrev pub ids : List TaskView → List ℕ
ids tasks = map (λ task. task.id) tasks

abbrev pub parent_of : List TaskView → ℕ → Option ℕ
parent_of tasks id = and_then (find_id tasks id) (λ task. task.parent_task_id)

unfoldable pub is_parent_from : ℕ → List TaskView → ℕ → Option ℕ → List ℕ → Option Bool
is_parent_from fuel tasks ancestor none visited = some false
is_parent_from zero tasks ancestor (some id) visited = none
is_parent_from (suc fuel) tasks ancestor (some id) visited =
    if contains visited id then some false else elim (find_id tasks id) [
      | none ↦ some false
      | some task ↦
          let rest = is_parent_from fuel tasks ancestor task.parent_task_id (id ∷ visited) in
          if option_eq task.parent_task_id (some ancestor) then some true else rest
    ]

unfoldable pub is_parent_of : List TaskView → ℕ → ℕ → Bool
is_parent_of tasks ancestor descendant =
    unwrap_or (is_parent_from (suc (length tasks)) tasks ancestor (some descendant) []) false

unfoldable pub parent_walk : ℕ → List TaskView → ℕ → Option ℕ → List ℕ → Option (Result (Unit {0}))
parent_walk fuel tasks candidate none visited = some (ok tt)
parent_walk zero tasks candidate (some id) visited = none
parent_walk (suc fuel) tasks candidate (some id) visited =
    let rest = parent_walk fuel tasks candidate (parent_of tasks id) (id ∷ visited) in
    if contains visited id
    then some (err (validation "task parent relationships must form a tree"))
    else if id == candidate
    then some (err (validation "task cannot be an ancestor of itself"))
    else rest

unfoldable pub check_parent : TaskView → List TaskView → ℕ → Result (Unit {0})
check_parent candidate tasks parent_id =
    refuse (parent_id == 0 || parent_id == candidate.id)
      (validation "task cannot be its own parent")
    >> ok_or (find_id tasks parent_id) (validation "task parent does not exist")
    >>= λ parent.
        refuse (not (parent.mission_id == candidate.mission_id))
          (validation "task parent crosses mission boundary")
        >> unwrap_or (parent_walk (suc (length tasks)) tasks candidate.id (some parent_id) [])
            (err (validation "task parent relationships must form a tree"))

unfoldable pub validate_parent_link : TaskView → List TaskView → Result (Unit {0})
validate_parent_link candidate tasks = elim candidate.parent_task_id [
  | none ↦ ok tt
  | some parent_id ↦ check_parent candidate tasks parent_id
]
