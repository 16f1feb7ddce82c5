-- ===== src/Tasks/Machine/WellFormed.antt =====
-- The invariant of the task list: identifiers are distinct, and no task depends on itself through
-- any chain of dependencies. Every task command keeps it.
use frank.Prelude.{
  ℕ, ◌+◌, ◌≡◌, refl, ap, sym, subst, ◌∙◌, false, not, ==_iff, some, List, [], ◌∷◌, ◌++◌, any,
  contains, modify_first, Option-cases, inl, inr, arith, ok, Result-cases, concat, find-some,
}
use frank.Protocol.Records.{TaskView, TaskSpec, TaskPatch, ActorRef, Snapshot, Env, Reduced}
use frank.Validate.{apply_task_patch}
use frank.Validate.Cycle.{nodes}
use frank.Validate.Cycle.Sound.{Cyclic}
use frank.Validate.Checks.{
  task_entries, dependency_graph, in_mission, validate_task_view, validate_task_spec,
}
use frank.Validate.Checks.Accepted.{validate_task_view-accepts}
use frank.Tasks.Feed.{has_id, find_task, tasks-append_task_feed}
use frank.Tasks.Locks.Unique.{IsUnique}
use frank.Tasks.Create.{
  new_task, adopt, link_parent, reduce_create_task, reduce_update_task, change_dependencies,
  note_lock,
}
use frank.Tasks.Machine.{
  TaskCommand, create_task, update_task, set_task_status, assign_task, claim_task, release_task,
  add_task_comment, task_accept, decide_review, reduce_task, Fresh, Run, idle, step,
}
use frank.Tasks.Machine.Status.{
  shape-reduce_set_task_status, shape-reduce_task_accept, shape-reduce_decide_review,
}
use frank.Protocol.Status.{TaskFeedKind}
use frank.Tasks.Machine.Shape.{
  shape, SameShape, shape-modify_first, shape-reduce_assign_task, shape-reduce_claim_task,
  shape-reduce_release_task, shape-reduce_add_task_comment,
}
use frank.Tasks.Machine.Added.{
  Cyclic-old, entries-append, absent-nodes, IsUnique-append, known_deps,
}
use frank.Tasks.Machine.Entries.{
  Cyclic-same, entries-same, IsUnique-same, IsUnique-replaced, successors-replaced,
}

pub record WellFormed (s : Snapshot) : Type 0 where
  pub unique : IsUnique s.tasks
  pub acyclic : ¬ Cyclic (task_entries s.tasks)

SameShape-WellFormed : (s s' : Snapshot) → SameShape s s' → WellFormed s → WellFormed s'
SameShape-WellFormed s s' h w = record {
  unique = IsUnique-same s.tasks s'.tasks h.same w.unique;
  acyclic = subst (λ g. ¬ Cyclic g) (sym (entries-same s.tasks s'.tasks h.same)) w.acyclic;
}

link_parent-shape :
    (env : Env) (task : TaskView) (ts us : List TaskView)
    → link_parent env task ts ≡ ok us
    → shape us ≡ shape ts
unfolding link_parent
link_parent-shape env task ts us h = elim (Option-cases task.parent_task_id) [
  | inl e ↦ ground (arith, e, h)
  | inr (up, e) ↦
      ground
        (arith, e, h, shape-modify_first (has_id up) (adopt env task.id) (λ t. refl) (λ t. refl) ts)
]

-- What a created task leaves behind.
created :
    (env : Env) (s : Snapshot) (spec : TaskSpec) (actor : ActorRef) (r : Reduced)
    → reduce_create_task env s spec actor ≡ ok r
    → (us : List TaskView) × (link_parent env (new_task env s spec) s.tasks ≡ ok us)
      × (validate_task_spec spec s.tasks ≡ ok tt)
      × (r.0.tasks ≡ us ++ (new_task env s spec ∷ []))
unfolding reduce_create_task
created env s spec actor r h = elim (Result-cases (link_parent env (new_task env s spec) s.tasks)) [
  | inl (e, q) ↦ absurd (ground (arith, h, q))
  | inr (us, q) ↦ (
    us,
    q,
    ground (arith, h, q),
    ground (
      arith,
      h,
      q,
      tasks-append_task_feed env
          (record s { tasks = us ++ (new_task env s spec ∷ []); draws = s.draws + 1 })
          (new_task env s spec).id actor TaskFeedKind.created
          (concat ("Task created: " ∷ (new_task env s spec).title ∷ [])) [],
    ),
  )
]

known-validate_task_spec :
    (spec : TaskSpec) (ts : List TaskView)
    → validate_task_spec spec ts ≡ ok tt
    → any (λ d. not (in_mission spec ts d)) spec.dependencies ≡ false
unfolding validate_task_spec
known-validate_task_spec spec ts h = ground (arith, h)

create-WellFormed :
    (env : Env) (s : Snapshot) (spec : TaskSpec) (actor : ActorRef) (r : Reduced)
    → Fresh env s
    → reduce_create_task env s spec actor ≡ ok r
    → WellFormed s
    → WellFormed r.0
unfolding new_task
create-WellFormed env s spec actor r fresh h w =
    let (us, linked, valid, after) = created env s spec actor r h in
    let same = link_parent-shape env (new_task env s spec) s.tasks us linked in
    let entries = entries-same s.tasks us same in
    let k = env.uuid s.draws in
    let new =
      known_deps spec s.tasks k spec.dependencies (known-validate_task_spec spec s.tasks valid)
        fresh in
    record {
      unique = subst IsUnique (sym after) (
          IsUnique-append (new_task env s spec) us
            (absent-nodes k us (subst (λ g. contains (nodes g) k ≡ false) (sym entries) fresh))
            (IsUnique-same s.tasks us same w.unique));
      acyclic = λ c. w.acyclic (
          Cyclic-old k spec.dependencies (task_entries s.tasks) fresh new (
            subst Cyclic
              (ap task_entries after
                ∙ entries-append us (new_task env s spec)
                ∙ ap (λ g. (k, spec.dependencies) ∷ g) entries)
              c));
    }

tasks-note_lock :
    (env : Env) (s : Snapshot) (task_id : ℕ) (existing candidate : TaskView) (actor : ActorRef)
    → (note_lock env s task_id existing candidate actor).tasks ≡ s.tasks
unfolding note_lock
tasks-note_lock env s task_id existing candidate actor = ground (
  arith,
  tasks-append_task_feed env s task_id actor TaskFeedKind.dependency_unlocked
      "Dependency update completed; task is now available" [],
  tasks-append_task_feed env s task_id actor TaskFeedKind.dependency_locked
      "Task unavailable until its dependency is done" [],
)

updated :
    (env : Env) (s : Snapshot) (task_id : ℕ) (patch : TaskPatch) (actor : ActorRef) (r : Reduced)
    → reduce_update_task env s task_id patch actor ≡ ok r
    → (existing candidate : TaskView) × (find_task task_id s.tasks ≡ some existing)
      × (validate_task_view (apply_task_patch existing patch) s.tasks ≡ ok tt)
      × (change_dependencies s.tasks existing (apply_task_patch existing patch) ≡ ok candidate)
      × (r.0.tasks ≡ modify_first (has_id task_id) (λ _. candidate) s.tasks)
unfolding reduce_update_task
updated env s task_id patch actor r h = elim (Option-cases (find_task task_id s.tasks)) [
  | inl e ↦ absurd (ground (arith, h, e))
  | inr (existing, e) ↦
      elim (Result-cases (change_dependencies s.tasks existing (apply_task_patch existing patch))) [
        | inl (_, q) ↦ absurd (ground (arith, h, e, q))
        | inr (candidate, q) ↦
            let replaced = record s {
              tasks = modify_first (has_id task_id) (λ _. candidate) s.tasks;
            } in
            (
              existing,
              candidate,
              e,
              ground (arith, h, e, q),
              q,
              ground (
                arith,
                h,
                e,
                q,
                tasks-note_lock env replaced task_id existing candidate actor,
                tasks-append_task_feed env (note_lock env replaced task_id existing candidate actor)
                    task_id actor TaskFeedKind.comment "Task details updated" [],
              ),
            )
      ]
]

-- The status is all that new dependencies change.
kept-change_dependencies :
    (ts : List TaskView) (existing patched candidate : TaskView)
    → change_dependencies ts existing patched ≡ ok candidate
    → (candidate.id ≡ patched.id) × (candidate.dependencies ≡ patched.dependencies)
unfolding change_dependencies
kept-change_dependencies ts existing patched candidate h = (ground (arith, h), ground (arith, h))

id-apply_task_patch : (t : TaskView) (patch : TaskPatch) → (apply_task_patch t patch).id ≡ t.id
unfolding apply_task_patch
id-apply_task_patch t patch = refl

update-WellFormed :
    (env : Env) (s : Snapshot) (task_id : ℕ) (patch : TaskPatch) (actor : ActorRef) (r : Reduced)
    → reduce_update_task env s task_id patch actor ≡ ok r
    → WellFormed s
    → WellFormed r.0
unfolding dependency_graph
update-WellFormed env s task_id patch actor r h w =
    let (existing, candidate, found, valid, changed, after) =
      updated env s task_id patch actor r h in
    let (same_id, same_deps) =
      kept-change_dependencies s.tasks existing (apply_task_patch existing patch) candidate
        changed in
    let own : existing.id ≡ task_id =
      (==_iff existing.id task_id).0 (find-some (has_id task_id) s.tasks existing found).0 in
    let c_id : candidate.id ≡ task_id = same_id ∙ id-apply_task_patch existing patch ∙ own in
    let ok_view = (validate_task_view-accepts (apply_task_patch existing patch) s.tasks).0 valid in
    record {
      unique =
          subst IsUnique (sym after) (IsUnique-replaced task_id candidate c_id s.tasks w.unique);
      acyclic = λ c. ok_view.acyclic (
          subst (λ e. Cyclic (e ∷ task_entries s.tasks))
            (ap (λ i. (i, candidate.dependencies)) same_id
              ∙ ap (λ d. ((apply_task_patch existing patch).id, d)) same_deps)
            (Cyclic-same (task_entries (modify_first (has_id task_id) (λ _. candidate) s.tasks))
              ((candidate.id, candidate.dependencies) ∷ task_entries s.tasks)
              (successors-replaced task_id candidate c_id s.tasks w.unique (ground (arith, found)))
              (subst Cyclic (ap task_entries after) c)));
    }

-- Every accepted task command keeps the invariant.
pub reduce_task-WellFormed :
    (env : Env) (limit : ℕ) (s : Snapshot) (command : TaskCommand) (actor : ActorRef) (r : Reduced)
    → Fresh env s
    → reduce_task env limit s command actor ≡ ok r
    → WellFormed s
    → WellFormed r.0
unfolding reduce_task
reduce_task-WellFormed env limit s (create_task spec) actor r fresh h w =
    create-WellFormed env s spec actor r fresh h w
reduce_task-WellFormed env limit s (update_task task_id patch) actor r fresh h w =
    update-WellFormed env s task_id patch actor r h w
reduce_task-WellFormed env limit s (set_task_status task_id status) actor r fresh h w =
    SameShape-WellFormed s r.0 (shape-reduce_set_task_status env s task_id status actor r h) w
reduce_task-WellFormed env limit s (assign_task task_id agent_id) actor r fresh h w =
    SameShape-WellFormed s r.0 (shape-reduce_assign_task env s r actor task_id agent_id h) w
reduce_task-WellFormed env limit s (claim_task task_id agent_id source) actor r fresh h w =
    SameShape-WellFormed s r.0 (shape-reduce_claim_task env s r actor task_id agent_id source h) w
reduce_task-WellFormed env limit s (release_task task_id) actor r fresh h w =
    SameShape-WellFormed s r.0 (shape-reduce_release_task env s r actor task_id h) w
reduce_task-WellFormed env limit s (add_task_comment task_id body xs) actor r fresh h w =
    SameShape-WellFormed s r.0 (shape-reduce_add_task_comment env s r actor limit task_id body xs h)
      w
reduce_task-WellFormed env limit s (task_accept task_id) actor r fresh h w =
    SameShape-WellFormed s r.0 (shape-reduce_task_accept env s task_id actor r h) w
reduce_task-WellFormed env limit s (decide_review id decision reason) actor r fresh h w =
    SameShape-WellFormed s r.0 (shape-reduce_decide_review env limit s id decision reason actor r h)
      w

-- After any run of accepted task commands the identifiers are distinct and the dependencies have
-- no cycle, if that was so before the run and each drawn identifier was new.
pub run-WellFormed :
    (env : Env) (limit : ℕ) {s s' : Snapshot} → Run env limit s s' → WellFormed s → WellFormed s'
run-WellFormed env limit idle w = w
run-WellFormed env limit (step {s = s} command actor r fresh h rest) w =
    run-WellFormed env limit rest (reduce_task-WellFormed env limit s command actor r fresh h w)
