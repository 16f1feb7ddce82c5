-- ===== src/Tasks/Create.antt =====
-- The handlers that create and update a task (crates/frank-orchestrator/src/reduce/task/
-- create_update.rs).
use frank.Prelude.{
  ℕ, ◌+◌, String, Bool, not, ◌&&◌, ◌==◌, Option, none, some, List, [], ◌∷◌, ◌++◌, any, find,
  modify_first, is_some_and, and_then, option_eq, concat, Result, ok, validation, not_found, ◌>>=◌,
  ◌>>◌, refuse, ok_or, if◌then◌else◌, text_ltb, list_eq,
}
use frank.Protocol.Mission
use frank.Protocol.Task.{TaskStatus}
use frank.Protocol.Task
use frank.Protocol.Status.{TaskFeedKind}
use frank.Protocol.Records.{
  TaskView, TaskSpec, TaskPatch, ActorRef, Snapshot, Env, Event, CommandResult, Reduced,
}
use frank.Organization.{organization_allows_agent}
use frank.Validate.{apply_task_patch}
use frank.Validate.Checks.{validate_task_spec, validate_task_view, spec_candidate}
use frank.Tasks.Feed.{has_id, find_task, find_mission, all_done, with_status, append_task_feed}

abbrev live_agent_exists : Snapshot → ℕ → Bool
live_agent_exists s agent_id = any (λ agent. agent.id == agent_id && not agent.archived) s.agents

abbrev live_role_exists : Snapshot → ℕ → Bool
live_role_exists s role_id = any (λ role. role.id == role_id && not role.archived) s.roles

abbrev role_of_agent : Snapshot → ℕ → Option ℕ
role_of_agent s agent_id =
    and_then (find (λ agent. agent.id == agent_id) s.agents) (λ agent. agent.role_id)

-- The checks on the agent that the task is for.
unfoldable pub check_assignee : Snapshot → Option ℕ → Result (Unit {0})
check_assignee s assigned = do
  refuse (is_some_and assigned (λ id. not (live_agent_exists s id))) not_found
  refuse (is_some_and assigned (λ id. not (organization_allows_agent s id)))
      (validation "assigned agent is not an active Organization staff member")

-- The checks on the role that the task asks for.
unfoldable pub check_task_role : Snapshot → Option ℕ → Option ℕ → Result (Unit {0})
check_task_role s required assigned = do
  refuse (is_some_and required (λ role_id. not (live_role_exists s role_id))) not_found
  refuse
      (is_some_and required (λ role_id.
        is_some_and assigned (λ id. not (option_eq (role_of_agent s id) (some role_id)))))
      (validation "assigned agent does not belong to the task role")

unfoldable pub new_task : Env → Snapshot → TaskSpec → TaskView
new_task env s spec = record (spec_candidate spec) {
  id = env.uuid s.draws;
  branch = some (concat ("frank/task-" ∷ env.show_uuid (env.uuid s.draws) ∷ []));
  organization_revision = elim s.published [
    | none ↦ none
    | some graph ↦ some graph.published_revision
  ];
}

-- `sort_unstable_by_key(|child| child.to_string())`
unfoldable pub insert_child : (ℕ → String) → ℕ → List ℕ → List ℕ
insert_child show id [] = id ∷ []
insert_child show id (x ∷ xs) =
    let rest = insert_child show id xs in
    if text_ltb (show x) (show id) then x ∷ rest else id ∷ x ∷ xs

unfoldable pub sort_children : (ℕ → String) → List ℕ → List ℕ
unfolding insert_child
sort_children show [] = []
sort_children show (x ∷ xs) = insert_child show x (sort_children show xs)

-- `dedup`: of equal neighbours the first stays.
unfoldable pub dedup : List ℕ → List ℕ
dedup [] = []
dedup (x ∷ xs) = elim (dedup xs) [ [] ↦ x ∷ [] | y ∷ ys ↦ if x == y then y ∷ ys else x ∷ y ∷ ys ]

abbrev pub adopt : Env → ℕ → TaskView → TaskView
adopt env id parent = record parent {
  child_task_ids = dedup (sort_children env.show_uuid (parent.child_task_ids ++ (id ∷ [])));
  status = TaskStatus.blocked;
}

unfoldable pub check_adoption : TaskView → Result (Unit {0})
check_adoption parent = do
  refuse (Task.is_final parent.status) (validation "cannot add a child to a final parent task")
  refuse (Task.is_started parent.status)
      (validation "cannot add a child while the parent task is active")

unfoldable pub link_parent : Env → TaskView → List TaskView → Result (List TaskView)
link_parent env task tasks = elim task.parent_task_id [
  | none ↦ ok tasks
  | some parent_id ↦ ok_or (find_task parent_id tasks) not_found >>= λ parent.
      check_adoption parent >> ok (modify_first (has_id parent_id) (adopt env task.id) tasks)
]

unfoldable pub reduce_create_task : Env → Snapshot → TaskSpec → ActorRef → Result Reduced
reduce_create_task env s spec actor = do
  mission ← ok_or (find_mission spec.mission_id s.missions) not_found
  refuse (Mission.is_final mission.status) (validation "cannot add a task to a final mission")
  check_assignee s spec.assigned_agent
  check_task_role s spec.required_role_id spec.assigned_agent
  validate_task_spec spec s.tasks
  let task = new_task env s spec
  tasks ← link_parent env task s.tasks
  let next = record s { tasks = tasks ++ (task ∷ []); draws = s.draws + 1 }
  ok (
    append_task_feed env next task.id actor TaskFeedKind.created
        (concat ("Task created: " ∷ task.title ∷ [])) [],
    Event.task_created task,
    CommandResult.created (env.show_uuid task.id),
  )

-- The status that new dependencies give.
unfoldable pub relocked_status : List TaskView → TaskView → TaskStatus
relocked_status tasks candidate =
    if Task.is_ready candidate.status && not (all_done tasks candidate.dependencies)
    then TaskStatus.blocked
    else if Task.is_blocked candidate.status && all_done tasks candidate.dependencies
    then TaskStatus.ready
    else candidate.status

unfoldable pub change_dependencies : List TaskView → TaskView → TaskView → Result TaskView
change_dependencies tasks existing candidate =
    if list_eq candidate.dependencies existing.dependencies
    then ok candidate
    else refuse (Task.is_started candidate.status)
        (validation "dependencies cannot change after a task starts")
      >> ok (with_status (relocked_status tasks candidate) candidate)

-- The entry for a changed status.
unfoldable pub note_lock : Env → Snapshot → ℕ → TaskView → TaskView → ActorRef → Snapshot
note_lock env s task_id existing candidate actor =
    if Task.eq candidate.status existing.status
    then s
    else if Task.is_ready candidate.status
    then append_task_feed env s task_id actor TaskFeedKind.dependency_unlocked
        "Dependency update completed; task is now available" []
    else append_task_feed env s task_id actor TaskFeedKind.dependency_locked
        "Task unavailable until its dependency is done" []

unfoldable pub reduce_update_task : Env → Snapshot → ℕ → TaskPatch → ActorRef → Result Reduced
reduce_update_task env s task_id patch actor = do
  existing ← ok_or (find_task task_id s.tasks) not_found
  let patched = apply_task_patch existing patch
  refuse (not (option_eq patched.assigned_agent existing.assigned_agent))
      (validation "use claim, assign, or release commands to change task ownership")
  check_assignee s patched.assigned_agent
  validate_task_view patched s.tasks
  check_task_role s patched.required_role_id patched.assigned_agent
  candidate ← change_dependencies s.tasks existing patched
  let next = record s { tasks = modify_first (has_id task_id) (λ _. candidate) s.tasks }
  ok (
    append_task_feed env (note_lock env next task_id existing candidate actor) task_id actor
        TaskFeedKind.comment "Task details updated" [],
    Event.task_updated candidate,
    CommandResult.accepted,
  )
