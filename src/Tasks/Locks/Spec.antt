-- ===== src/Tasks/Locks/Spec.antt =====
-- What the loop of `update_dependency_locks` does to every task at once.
use frank.Prelude.{
  ℕ, ◌≡◌, refl, sym, ◌∙◌, ap, true, false, not, ◌&&◌, ◌==◌, some, List, [], ◌∷◌, map, All,
  find-some, subst, ==_iff, contains, modify_first, map_ext, map_same, ==_refl, All-In,
  map-map_self, modify_first_found, modify_first_same, modify_first-none, In, here, there,
  if◌then◌else◌, arith, Bool-cases, Option-cases, inl, inr,
}
use frank.Protocol.Task.{TaskStatus}
use frank.Protocol.Task
use frank.Protocol.Status.{TaskFeedKind}
use frank.Protocol.Records.{TaskView, ActorRef, Snapshot, Env}
use frank.Tasks.Feed.{has_id, find_task, all_done, with_status, set_task, tasks-append_task_feed}
use frank.Tasks.Locks.{relock, relock_one, relock_all, dependents, update_dependency_locks}
use frank.Tasks.Locks.Unique.{IsUnique, touch, modify_first-map, all_done-map, IsUnique-map}

-- The rule for one dependent task, read against the whole list.
unfoldable pub relocked : TaskStatus → List TaskView → TaskView → TaskView
relocked dependency_status tasks t =
    if Task.is_done dependency_status && all_done tasks t.dependencies && Task.is_blocked t.status
    then with_status TaskStatus.ready t
    else if not (Task.is_done dependency_status) && Task.is_ready t.status
    then with_status TaskStatus.blocked t
    else t

id-touch-relocked :
    (id : ℕ) (st : TaskStatus) (ts : List TaskView) (t : TaskView)
    → (touch id (relocked st ts) t).id ≡ t.id
unfolding relocked
id-touch-relocked id st ts t = ground arith

done-touch-relocked :
    (id : ℕ) (st : TaskStatus) (ts : List TaskView) (t : TaskView)
    → Task.is_done (touch id (relocked st ts) t).status ≡ Task.is_done t.status
unfolding relocked
done-touch-relocked id st ts t = ground arith

dependencies-touch :
    (id : ℕ) (st : TaskStatus) (ts : List TaskView) (t : TaskView)
    → (touch id (relocked st ts) t).dependencies ≡ t.dependencies
unfolding relocked
dependencies-touch id st ts t = ground arith

relocked-ready :
    (st : TaskStatus) (ts : List TaskView) (t : TaskView)
    → (Task.is_done st && all_done ts t.dependencies && Task.is_blocked t.status) ≡ true
    → with_status TaskStatus.ready t ≡ relocked st ts t
unfolding relocked
relocked-ready st ts t h = rw h

relocked-blocked :
    (st : TaskStatus) (ts : List TaskView) (t : TaskView)
    → (not (Task.is_done st) && Task.is_ready t.status) ≡ true
    → with_status TaskStatus.blocked t ≡ relocked st ts t
unfolding relocked
relocked-blocked st ts t h = ground arith

relocked-same :
    (st : TaskStatus) (ts : List TaskView) (t : TaskView)
    → (Task.is_done st && all_done ts t.dependencies && Task.is_blocked t.status) ≡ false
    → (not (Task.is_done st) && Task.is_ready t.status) ≡ false
    → relocked st ts t ≡ t
unfolding relocked
relocked-same st ts t h k = rw h (rw k)

-- One round, at the task that was found.
tasks-relock :
    (env : Env) (actor : ActorRef) (st : TaskStatus) (s : Snapshot) (t : TaskView)
    → find_task t.id s.tasks ≡ some t
    → (relock env actor st s t).tasks ≡ modify_first (has_id t.id) (relocked st s.tasks) s.tasks
unfolding relock
tasks-relock env actor st s t e = ground (
  arith,
  tasks-append_task_feed env (set_task t.id (with_status TaskStatus.ready) s) t.id actor
      TaskFeedKind.dependency_unlocked "Dependency completed; task is now available" [],
  tasks-append_task_feed env (set_task t.id (with_status TaskStatus.blocked) s) t.id actor
      TaskFeedKind.dependency_locked "Task unavailable until its dependency is done" [],
  relocked-ready st s.tasks t,
  relocked-blocked st s.tasks t,
  relocked-same st s.tasks t,
  modify_first_found (has_id t.id) (with_status TaskStatus.ready) (relocked st s.tasks) s.tasks t,
  modify_first_found (has_id t.id) (with_status TaskStatus.blocked) (relocked st s.tasks) s.tasks t,
  modify_first_same (has_id t.id) (relocked st s.tasks) s.tasks t,
)

tasks-relock_one :
    (env : Env) (actor : ActorRef) (st : TaskStatus) (id : ℕ) (s : Snapshot)
    → (relock_one env actor st id s).tasks ≡ modify_first (has_id id) (relocked st s.tasks) s.tasks
unfolding relock_one
tasks-relock_one env actor st id s = elim (Option-cases (find_task id s.tasks)) [
  | inl e ↦ rw (e, relock_one) (sym (modify_first-none (has_id id) (relocked st s.tasks) s.tasks e))
  | inr (t, e) ↦
      rw (e, relock_one) (at t e ((==_iff t.id id).0 (find-some (has_id id) s.tasks t e).0))
]
  where
    at :
        (t : TaskView)
        → find_task id s.tasks ≡ some t
        → t.id ≡ id
        → (relock env actor st s t).tasks ≡ modify_first (has_id id) (relocked st s.tasks) s.tasks
    at t e q =
        subst
          (λ n.
            find_task n s.tasks ≡ some t
            → (relock env actor st s t).tasks
              ≡ modify_first (has_id n) (relocked st s.tasks) s.tasks)
          q (tasks-relock env actor st s t) e

relocked-map :
    (id : ℕ) (st : TaskStatus) (ts : List TaskView) (t : TaskView)
    → relocked st (map (touch id (relocked st ts)) ts) t ≡ relocked st ts t
unfolding relocked
relocked-map id st ts t = rw (
    all_done-map (touch id (relocked st ts)) (id-touch-relocked id st ts)
      (done-touch-relocked id st ts) ts t.dependencies)

abbrev Distinct : List ℕ → Type 0
Distinct [] = Unit
Distinct (id ∷ ids) = (contains ids id ≡ false) × Distinct ids

-- Apply the rule to the tasks of a list of identifiers.
abbrev relocked_among : TaskStatus → List TaskView → List ℕ → TaskView → TaskView
relocked_among st ts ids t = if contains ids t.id then relocked st ts t else t

contains_of_eq :
    (ids : List ℕ) (a b : ℕ) → (a == b) ≡ true → contains ids b ≡ false → contains ids a ≡ false
contains_of_eq [] a b e h = refl
contains_of_eq (x ∷ ids) a b e h = ground (arith, contains_of_eq ids a b)

among-step :
    (st : TaskStatus) (ts : List TaskView) (id : ℕ) (ids : List ℕ) (t : TaskView)
    → contains ids id ≡ false
    → relocked_among st ts ids (touch id (relocked st ts) t) ≡ relocked_among st ts (id ∷ ids) t
among-step st ts id ids t h =
    ground (arith, id-touch-relocked id st ts t, contains_of_eq ids t.id id)

tasks-relock_all :
    (env : Env) (actor : ActorRef) (st : TaskStatus) (ids : List ℕ) (s : Snapshot)
    → IsUnique s.tasks
    → Distinct ids
    → (relock_all env actor st ids s).tasks ≡ map (relocked_among st s.tasks ids) s.tasks
unfolding relock_all
tasks-relock_all env actor st [] s u d = sym (map_same _ s.tasks (λ t. refl))
tasks-relock_all env actor st (id ∷ ids) s u d =
    let round = tasks-relock_one env actor st id s ∙ modify_first-map id (relocked st ts) ts u in
    tasks-relock_all env actor st ids (relock_one env actor st id s)
      (subst IsUnique (sym round) (IsUnique-map rule same_id same_done ts u)) d.1
    ∙ ap (λ us. map (relocked_among st us ids) us) round
    ∙ map-map_self rule (relocked_among st (map rule ts) ids) ts
    ∙ map_ext _ (relocked_among st ts (id ∷ ids)) ts (λ t _. one t)
  where
    ts : List TaskView
    ts = s.tasks

    rule : TaskView → TaskView
    rule = touch id (relocked st ts)

    same_id : (t : TaskView) → (rule t).id ≡ t.id
    same_id = id-touch-relocked id st ts

    same_done : (t : TaskView) → Task.is_done (rule t).status ≡ Task.is_done t.status
    same_done = done-touch-relocked id st ts

    one :
        (t : TaskView)
        → relocked_among st (map rule ts) ids (rule t) ≡ relocked_among st ts (id ∷ ids) t
    one t = rw (relocked-map id st ts (rule t)) (among-step st ts id ids t d.0)

dependents-absent :
    (dep id : ℕ) (ts : List TaskView)
    → All (λ u. (u.id == id) ≡ false) ts
    → contains (dependents dep ts) id ≡ false
dependents-absent dep id [] h = refl
dependents-absent dep id (t ∷ ts) h = ground (arith, h.0, dependents-absent dep id ts h.1)

Distinct-dependents : (dep : ℕ) (ts : List TaskView) → IsUnique ts → Distinct (dependents dep ts)
Distinct-dependents dep [] u = tt
Distinct-dependents dep (t ∷ ts) u = elim (Bool-cases (contains t.dependencies dep)) [
  | inl e ↦ rw e (dependents-absent dep t.id ts u.0, Distinct-dependents dep ts u.1)
  | inr e ↦ rw e (Distinct-dependents dep ts u.1)
]

dependents-contains :
    (dep : ℕ) (ts : List TaskView) (t : TaskView)
    → IsUnique ts
    → In t ts
    → contains (dependents dep ts) t.id ≡ contains t.dependencies dep
dependents-contains dep [] t u m = elim m [ ]
dependents-contains dep (_ ∷ ts) t u here =
    ground (arith, dependents-absent dep t.id ts u.0, ==_refl t.id)
dependents-contains dep (x ∷ ts) t u (there m) =
    ground
      (arith, dependents-contains dep ts t u.1 m, All-In (λ v. (v.id == x.id) ≡ false) ts u.0 m)

-- With distinct identifiers, `update_dependency_locks` is one simultaneous change of the task
-- list: each task that lists the dependency goes from Blocked to Ready if the dependency became
-- Done and all that it depends on are Done, and from Ready to Blocked if the dependency took
-- another status; every other task, and the order of the list, stay as they were.
pub tasks-update_dependency_locks :
    (env : Env) (s : Snapshot) (dep : ℕ) (actor : ActorRef) (st : TaskStatus)
    → IsUnique s.tasks
    → (update_dependency_locks env s dep actor st).tasks
      ≡ map (λ t. if contains t.dependencies dep then relocked st s.tasks t else t) s.tasks
unfolding update_dependency_locks
tasks-update_dependency_locks env s dep actor st u =
    tasks-relock_all env actor st (dependents dep s.tasks) s u (Distinct-dependents dep s.tasks u)
    ∙ map_ext _ _ s.tasks (λ t m.
      ap (λ b. if b then relocked st s.tasks t else t) (dependents-contains dep s.tasks t u m))
