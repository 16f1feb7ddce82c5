-- ===== src/Git.antt =====
-- The planning half of crates/frank-orchestrator/src/git.rs and the path checks of helpers.rs: the
-- guard of `GitWorkflow::new` and the branch and directory of a worktree. The walk over the file
-- system that resolves a path is `canonicalize_allow_missing` of `Env`.
use Prim.Native.Char.{Char, code}
use frank.Prelude.{
  ℕ, String, Bool, true, false, ◌&&◌, ◌||◌, ◌==◌, ltb, List, [], ◌∷◌, any, text_eq, is_some_and,
  is_blank, has_control, is_empty, byte_len, concat, if◌then◌else◌,
}
use text.Mathlib.Text.{starts_with}
use frank.Protocol.Records.{ProjectView, Env}

-- `Path::starts_with` between canonical paths.
unfoldable pub path_starts_with : String → String → Bool
path_starts_with path root =
    text_eq path root || text_eq root "/" || starts_with path (concat (root ∷ "/" ∷ []))

unfoldable pub safe_path_within : Env → String → String → Bool
unfolding path_starts_with
safe_path_within env path root =
    is_some_and (env.canonicalize_allow_missing root)
      (λ r. is_some_and (env.canonicalize_allow_missing path) (λ p. path_starts_with p r))

abbrev is_nil {ℓ} : {A : Type ℓ} → List A → Bool
is_nil [] = true
is_nil (x ∷ xs) = false

unfoldable pub is_allowed_path : Env → String → List String → Bool
unfolding path_starts_with
is_allowed_path env path roots =
    if is_blank path || ltb 4096 (byte_len path) || has_control path
    then false
    else if is_nil roots
    then true
    else is_some_and (env.canonicalize_allow_missing path) (λ p.
      any (λ root. is_some_and (env.canonicalize_allow_missing root) (path_starts_with p)) roots)

-- The guard of `GitWorkflow::new`: the project and its worktrees lie below an allowed root.
unfoldable pub workflow_allowed : Env → ProjectView → List String → Bool
unfolding safe_path_within
workflow_allowed env project roots =
    (is_nil roots || any (safe_path_within env project.path) roots)
    && (is_empty project.worktree_root
        || is_nil roots
        || any (safe_path_within env project.worktree_root) roots)

ends_with_slash : String → Bool
ends_with_slash String.[] = false
ends_with_slash (String.◌∷◌ c s) =
    let rest = ends_with_slash s in if is_empty s then code c == b'/' else rest

-- `Path::join` with a relative name.
unfoldable pub join : String → String → String
unfolding ends_with_slash
join root name =
    if is_empty root || ends_with_slash root
    then concat (root ∷ name ∷ [])
    else concat (root ∷ "/" ∷ name ∷ [])

-- `branch.replace('/', "-")`
unfoldable pub flatten_branch : String → String
flatten_branch String.[] = ""
flatten_branch (String.◌∷◌ c s) =
    String.◌∷◌ (if code c == b'/' then (let dash : Char = "-" in dash) else c) (flatten_branch s)

unfoldable pub worktree_root : ProjectView → String
unfolding join
worktree_root project =
    if is_empty project.worktree_root
    then join project.path ".frank-worktrees"
    else project.worktree_root

pub record WorktreePlan : Type 0 where
  pub branch : String
  pub path : String
  pub base : String

unfoldable pub branch_plan : ProjectView → String → String → WorktreePlan
unfolding worktree_root join flatten_branch
branch_plan project branch base = record {
  branch = branch;
  path = join (worktree_root project) (flatten_branch branch);
  base = base;
}

unfoldable pub task_plan_from_base : Env → ProjectView → ℕ → String → WorktreePlan
unfolding branch_plan
task_plan_from_base env project task_id base =
    branch_plan project (concat ("frank/task-" ∷ env.show_uuid task_id ∷ [])) base
