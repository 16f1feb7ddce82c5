-- ===== src/Tasks/SetStatus/After.antt =====
-- The status of the task once an accepted change is complete.
use frank.Prelude.{
  ℕ, ◌≡◌, refl, sym, subst, Bool, true, false, not, ◌&&◌, ◌==◌, Option, none, some, List, [], ◌∷◌,
  find-some, contains, modify_first, is_some, and_then, concat, ok, ==_iff, arith, inl, inr,
  Option-cases, Bool-cases, if◌then◌else◌,
}
use mathlib.Core.Path.{fun_ext}
use frank.Protocol.Task.{TaskStatus}
use frank.Protocol.Task
use frank.Protocol.Status.{TaskFeedKind}
use frank.Protocol.Records.{MissionView, ProjectView, TaskView, ActorRef, Snapshot, Env, Reduced}
use frank.Git.{WorktreePlan, task_plan_from_base}
use frank.Tasks.Feed.{
  has_id, find_task, find_mission, with_status, set_task, append_task_feed, tasks-append_task_feed,
}
use frank.Tasks.Locks.{
  update_dependency_locks, promote_parent, promote_found, promote_of, update_parent_child_locks,
}
use frank.Tasks.Locks.Unique.{IsUnique, IsUnique-modify_first}
use frank.Tasks.Locks.Spec.{relocked, tasks-update_dependency_locks}
use frank.Tasks.Frame.{
  task_is, task_is-map, task_is-modify_self, task_is-modify_other, contains-all_done,
}
use frank.Tasks.Provision.{placed_task, place, find_project, provision}
use frank.Tasks.Move.{move_task, moved_task, settle}
use frank.Tasks.SetStatus.{reduce_set_task_status}
use frank.Tasks.SetStatus.Guards.{move_allowed, check_status-allowed}
use frank.Tasks.SetStatus.Stages.{stages, tasks-review_step}

-- The status of the task after the move, through the stages that follow.
abbrev pub has_status : TaskStatus → TaskView → Bool
has_status status t = Task.eq t.status status

-- A task that becomes Ready does not wait for itself.
abbrev free_of_self : TaskStatus → ℕ → TaskView → Bool
free_of_self status id t = not (Task.is_ready status && contains t.dependencies id)

free_of_self-allowed :
    (s : Snapshot) (id : ℕ) (status : TaskStatus) (t : TaskView)
    → find_task id s.tasks ≡ some t
    → move_allowed s status t ≡ true
    → free_of_self status id t ≡ true
unfolding Task.can_transition_to
free_of_self-allowed s id status t e h = ground (arith, contains-all_done id s.tasks t.dependencies)

tasks-place :
    (env : Env) (s : Snapshot) (t : TaskView) (mission : MissionView) (project : ProjectView)
    (placed : Snapshot × Bool)
    → place env s t mission project ≡ ok placed
    → placed.0.tasks
      ≡ modify_first
          (has_id t.id)
          (placed_task (task_plan_from_base env project t.id mission.branch))
          s.tasks
unfolding place
tasks-place env s t mission project placed h = ground arith

pub tasks-provision :
    (env : Env) (s : Snapshot) (t : TaskView) (placed : Snapshot × Bool)
    → provision env s t ≡ ok placed
    → (plan : WorktreePlan) × (placed.0.tasks
        ≡ modify_first (has_id t.id) (placed_task plan) s.tasks)
unfolding provision
tasks-provision env s t placed h = elim (Option-cases (find_mission t.mission_id s.missions)) [
  | inl e ↦ absurd (ground (arith, e))
  | inr (mission, e) ↦ elim (Option-cases (find_project mission.project_id s.projects)) [
    | inl q ↦ absurd (ground (arith, e, q))
    | inr (project, q) ↦ (
      task_plan_from_base env project t.id mission.branch,
      tasks-place env s t mission project placed (ground (arith, e, q)),
    )
  ]
]

exists-placed :
    (id other : ℕ) (plan : WorktreePlan) (ts : List TaskView)
    → is_some (find_task id ts) ≡ true
    → is_some (find_task id (modify_first (has_id other) (placed_task plan) ts)) ≡ true
exists-placed id other plan [] h = cc
exists-placed id other plan (t ∷ ts) h = ground (arith, exists-placed id other plan ts)

free_of_self-placed :
    (env : Env) (s : Snapshot) (id : ℕ) (status : TaskStatus) (t : TaskView)
    (placed : Snapshot × Bool)
    → find_task id s.tasks ≡ some t
    → (if Task.is_running status then provision env s t else ok (s, false)) ≡ ok placed
    → free_of_self status id t ≡ true
    → task_is (free_of_self status id) id placed.0.tasks ≡ true
free_of_self-placed env s id TaskStatus.running t placed e h f =
    let (plan, q) = tasks-provision env s t placed h in
    ground (arith, q, exists-placed id t.id plan s.tasks)
free_of_self-placed env s id _ t placed e h f = ground arith

IsUnique-placed :
    (env : Env) (s : Snapshot) (status : TaskStatus) (t : TaskView) (placed : Snapshot × Bool)
    → (if Task.is_running status then provision env s t else ok (s, false)) ≡ ok placed
    → IsUnique s.tasks
    → IsUnique placed.0.tasks
IsUnique-placed env s TaskStatus.running t placed h u =
    let (plan, q) = tasks-provision env s t placed h in
    subst IsUnique (sym q) (IsUnique-modify_first t.id (placed_task plan) (λ t. refl) s.tasks u)
IsUnique-placed env s _ t placed h u =
    let e : placed.0.tasks ≡ s.tasks = ground arith in subst IsUnique (sym e) u

IsUnique-move_task :
    (id : ℕ) (status : TaskStatus) (target : Option ℕ) (s : Snapshot)
    → IsUnique s.tasks
    → IsUnique (move_task id status target s).tasks
unfolding move_task
IsUnique-move_task id status target s u =
    IsUnique-modify_first id (moved_task status target) (λ t. refl) s.tasks u

task_is-move_task :
    (id : ℕ) (status : TaskStatus) (target : Option ℕ) (s : Snapshot)
    → task_is (free_of_self status id) id s.tasks ≡ true
    → task_is
        (λ t. has_status status t && free_of_self status id t)
        id
        (move_task id status target s).tasks
      ≡ true
unfolding move_task
task_is-move_task id status target s h =
    task_is-modify_self (free_of_self status id)
      (λ t. has_status status t && free_of_self status id t) (moved_task status target) (λ t. refl)
      (λ t q. ground arith) id s.tasks h

promote_done :
    (env : Env) (s : Snapshot) (id : ℕ) (actor : ActorRef) (parent : TaskView)
    → find_task parent.id s.tasks ≡ some parent
    → task_is (λ t. Task.is_done t.status) id s.tasks ≡ true
    → task_is (λ t. Task.is_done t.status) id (promote_parent env s actor parent).tasks ≡ true
unfolding promote_parent
promote_done env s id actor parent e d = elim (Bool-cases (parent.id == id)) [
  | inl same ↦
      let q = (==_iff parent.id id).0 same in
      let e' = subst (λ n. find_task n s.tasks ≡ some parent) q e in ground (arith, e')
  | inr other ↦ ground (
    arith,
    tasks-append_task_feed env (set_task parent.id (with_status TaskStatus.ready) s) parent.id actor
        TaskFeedKind.dependency_unlocked "All child work items completed; parent is ready" [],
    task_is-modify_other (λ t. Task.is_done t.status) (with_status TaskStatus.ready) id parent.id
        s.tasks (λ t. refl),
  )
]

module _ (env : Env) (s : Snapshot) (id : ℕ) (actor : ActorRef)
    (d : task_is (λ t. Task.is_done t.status) id s.tasks ≡ true) where
  promote_found_done :
      (p : ℕ) (o : Option TaskView)
      → find_task p s.tasks ≡ o
      → task_is (λ t. Task.is_done t.status) id (promote_found env s actor o).tasks ≡ true
  unfolding promote_found
  promote_found_done p none e = d
  promote_found_done p (some t) e =
      let q = (==_iff t.id p).0 (find-some (has_id p) s.tasks t e).0 in
      promote_done env s id actor t (subst (λ n. find_task n s.tasks ≡ some t) (sym q) e) d

  promote_of_done :
      (o : Option ℕ)
      → task_is (λ t. Task.is_done t.status) id (promote_of env s actor o).tasks ≡ true
  unfolding promote_of
  promote_of_done none = d
  promote_of_done (some p) = promote_found_done p (find_task p s.tasks) refl

  parent_done :
      task_is (λ t. Task.is_done t.status) id (update_parent_child_locks env s id actor).tasks
      ≡ true
  unfolding update_parent_child_locks
  parent_done = promote_of_done (and_then (find_task id s.tasks) (λ task. task.parent_task_id))

id-relocked_if :
    (id : ℕ) (status : TaskStatus) (ts : List TaskView) (t : TaskView)
    → (if contains t.dependencies id then relocked status ts t else t).id ≡ t.id
unfolding relocked
id-relocked_if id status ts t = ground arith

locks_keep :
    (id : ℕ) (status : TaskStatus) (ts : List TaskView) (t : TaskView)
    → (has_status status t && free_of_self status id t) ≡ true
    → has_status status (if contains t.dependencies id then relocked status ts t else t) ≡ true
unfolding relocked
locks_keep id status ts t h = ground arith

is_done-has_status : (t : TaskView) → has_status TaskStatus.done t ≡ Task.is_done t.status
is_done-has_status t = ground arith

has_status-locked :
    (env : Env) (s : Snapshot) (id : ℕ) (status : TaskStatus) (actor : ActorRef)
    → IsUnique s.tasks
    → task_is (λ t. has_status status t && free_of_self status id t) id s.tasks ≡ true
    → task_is (has_status status) id (update_dependency_locks env s id actor status).tasks ≡ true
has_status-locked env s id status actor u h =
    rw (tasks-update_dependency_locks env s id actor status u) (
      task_is-map (λ t. has_status status t && free_of_self status id t) (has_status status)
        (λ t. if contains t.dependencies id then relocked status s.tasks t else t)
        (id-relocked_if id status s.tasks) (locks_keep id status s.tasks) id s.tasks h)

done-to_status :
    (id : ℕ) (ts : List TaskView)
    → task_is (λ t. Task.is_done t.status) id ts ≡ true
    → task_is (has_status TaskStatus.done) id ts ≡ true
done-to_status id ts q = rw (fun_ext is_done-has_status) q

status-to_done :
    (id : ℕ) (ts : List TaskView)
    → task_is (has_status TaskStatus.done) id ts ≡ true
    → task_is (λ t. Task.is_done t.status) id ts ≡ true
status-to_done id ts q = rw (← fun_ext is_done-has_status) q

abbrev logged : Env → Snapshot → ℕ → TaskStatus → ActorRef → Snapshot
logged env s id status actor =
    append_task_feed env s id actor TaskFeedKind.status_changed
      (concat ("Status changed to " ∷ Task.debug status ∷ [])) []

has_status-settle :
    (env : Env) (s : Snapshot) (id : ℕ) (status : TaskStatus) (actor : ActorRef)
    → IsUnique s.tasks
    → task_is (λ t. has_status status t && free_of_self status id t) id s.tasks ≡ true
    → task_is (has_status status) id (settle env s id status actor).tasks ≡ true
unfolding settle append_task_feed
has_status-settle env s id TaskStatus.done actor u h = done-to_status id _ (
    parent_done env _ id actor (
      status-to_done id _ (
        has_status-locked env (logged env s id TaskStatus.done actor) id TaskStatus.done actor u
          h)))
has_status-settle env s id status actor u h =
    has_status-locked env (logged env s id status actor) id status actor u h

module _ (env : Env) (s : Snapshot) (task_id : ℕ) (status : TaskStatus) (actor : ActorRef)
    (r : Reduced) where
  -- Where identifiers are distinct, the task has the new status once the whole change is done: the
  -- unlocking of dependents and of the parent does not touch it, self-dependencies included.
  pub set_task_status_moved :
      IsUnique s.tasks
      → reduce_set_task_status env s task_id status actor ≡ ok r
      → task_is (has_status status) task_id r.0.tasks ≡ true
  set_task_status_moved u h =
      let st = stages env s task_id status actor r h in
      let allowed = check_status-allowed env s st.task status actor st.target st.checked in
      let free =
        free_of_self-placed env s task_id status st.task st.placed st.found st.provisioned
          (free_of_self-allowed s task_id status st.task st.found allowed) in
      let kept = (tasks-review_step env _ st.task status st.target st.reviewed st.stepped).0 in
      rw st.settled (
        has_status-settle env st.reviewed.0 task_id status actor
          (subst IsUnique (sym kept) (
            IsUnique-move_task task_id status st.target st.placed.0
              (IsUnique-placed env s status st.task st.placed st.provisioned u)))
          (rw kept (task_is-move_task task_id status st.target st.placed.0 free)))
