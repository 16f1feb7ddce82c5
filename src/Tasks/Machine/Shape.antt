-- ===== src/Tasks/Machine/Shape.antt =====
-- The identifiers and dependencies of the tasks, which most commands leave alone.
use frank.Prelude.{
  ℕ, ◌≡◌, refl, ap, sym, subst, ◌∙◌, Bool, true, false, Option, none, some, List, [], ◌∷◌, String,
  modify_first, Option-cases, inl, inr, if◌then◌else◌, arith, ok, >>=-ok, and_then,
}
use frank.Protocol.Task.{TaskStatus}
use frank.Protocol.Status.{TaskFeedKind, TaskClaimSource}
use frank.Protocol.Records.{TaskView, ActorRef, Snapshot, Env, Reduced}
use frank.Validate.Cycle.{Graph}
use frank.Tasks.Feed.{
  has_id, find_task, set_task, append_task_feed, tasks-append_task_feed, with_status,
}
use frank.Tasks.Locks.{
  relock, relock_one, relock_all, update_dependency_locks, promote_parent, promote_found,
  promote_of, update_parent_child_locks,
}
use frank.Tasks.Assign.{
  assign_task, commit_claim, claimed_task, reduce_assign_task, reduce_claim_task,
  reduce_release_task, reduce_add_task_comment, released_task,
}
use frank.Tasks.Assign.Claims.{assign_task-commit}

abbrev pub shape : List TaskView → Graph
shape [] = []
shape (t ∷ ts) = (t.id, t.dependencies) ∷ shape ts

-- The same identifiers with the same dependencies, in the same order.
pub record SameShape (s s' : Snapshot) : Type 0 where
  pub same : shape s'.tasks ≡ shape s.tasks

pub SameShape-refl : (s : Snapshot) → SameShape s s
SameShape-refl s = record { same = refl }

pub SameShape-trans : {s t u : Snapshot} → SameShape s t → SameShape t u → SameShape s u
SameShape-trans a b = record { same = b.same ∙ a.same }

pub shape-modify_first :
    (p : TaskView → Bool) (f : TaskView → TaskView)
    → ((t : TaskView) → (f t).id ≡ t.id)
    → ((t : TaskView) → (f t).dependencies ≡ t.dependencies)
    → (ts : List TaskView) → shape (modify_first p f ts) ≡ shape ts
shape-modify_first p f same_id same_deps [] = refl
shape-modify_first p f same_id same_deps (t ∷ ts) =
    ground (arith, same_id t, same_deps t, shape-modify_first p f same_id same_deps ts)

module _ (env : Env) where
  pub shape-append_task_feed :
      (s : Snapshot) (id : ℕ) (actor : ActorRef) (kind : TaskFeedKind) (body : String) (xs : List ℕ)
      → SameShape s (append_task_feed env s id actor kind body xs)
  shape-append_task_feed s id actor kind body xs = record {
    same = ap shape (tasks-append_task_feed env s id actor kind body xs);
  }

  pub shape-retask :
      (s : Snapshot) (id : ℕ) (status : TaskStatus) (actor : ActorRef) (kind : TaskFeedKind)
      (body : String)
      → SameShape s
          (append_task_feed env (set_task id (with_status status) s) id actor kind body [])
  shape-retask s id status actor kind body =
      SameShape-trans
        (record {
          same =
              shape-modify_first (has_id id) (with_status status) (λ t. refl) (λ t. refl) s.tasks;
        })
        (shape-append_task_feed (set_task id (with_status status) s) id actor kind body [])

  pub shape-if :
      (b : Bool) {s t u : Snapshot}
      → SameShape s t
      → SameShape s u
      → SameShape s (if b then t else u)
  shape-if true a b = a
  shape-if false a b = b

  shape-relock :
      (actor : ActorRef) (st : TaskStatus) (s : Snapshot) (t : TaskView)
      → SameShape s (relock env actor st s t)
  unfolding relock
  shape-relock actor st s t = search (shape-if, shape-retask, SameShape-refl)

  shape-relock_one :
      (actor : ActorRef) (st : TaskStatus) (id : ℕ) (s : Snapshot)
      → SameShape s (relock_one env actor st id s)
  unfolding relock_one
  shape-relock_one actor st id s = elim (Option-cases (find_task id s.tasks)) [
    | inl e ↦ rw (e, relock_one) (SameShape-refl s)
    | inr (t, e) ↦ rw (e, relock_one) (shape-relock actor st s t)
  ]

  shape-relock_all :
      (actor : ActorRef) (st : TaskStatus) (ids : List ℕ) (s : Snapshot)
      → SameShape s (relock_all env actor st ids s)
  unfolding relock_all
  shape-relock_all actor st [] s = SameShape-refl s
  shape-relock_all actor st (id ∷ ids) s =
      SameShape-trans (shape-relock_one actor st id s)
        (shape-relock_all actor st ids (relock_one env actor st id s))

  pub shape-update_dependency_locks :
      (s : Snapshot) (id : ℕ) (actor : ActorRef) (st : TaskStatus)
      → SameShape s (update_dependency_locks env s id actor st)
  unfolding update_dependency_locks
  shape-update_dependency_locks s id actor st = shape-relock_all actor st _ s

  shape-promote_parent :
      (s : Snapshot) (actor : ActorRef) (t : TaskView) → SameShape s (promote_parent env s actor t)
  unfolding promote_parent
  shape-promote_parent s actor t = search (shape-if, shape-retask, SameShape-refl)

  shape-promote_of :
      (s : Snapshot) (actor : ActorRef) (o : Option ℕ) → SameShape s (promote_of env s actor o)
  unfolding promote_of promote_found
  shape-promote_of s actor none = SameShape-refl s
  shape-promote_of s actor (some p) = found (find_task p s.tasks)
    where
      found : (o : Option TaskView) → SameShape s (promote_found env s actor o)
      found none = SameShape-refl s
      found (some t) = shape-promote_parent s actor t

  pub shape-update_parent_child_locks :
      (s : Snapshot) (id : ℕ) (actor : ActorRef)
      → SameShape s (update_parent_child_locks env s id actor)
  unfolding update_parent_child_locks
  shape-update_parent_child_locks s id actor =
      shape-promote_of s actor (and_then (find_task id s.tasks) (λ task. task.parent_task_id))

module _ (env : Env) (s : Snapshot) (task_id agent_id : ℕ) (source : TaskClaimSource)
    (kind : TaskFeedKind) (actor : ActorRef) where
  shape-commit_claim : SameShape s (commit_claim env s task_id agent_id source kind actor)
  unfolding commit_claim
  shape-commit_claim = record {
    same = rw tasks-append_task_feed (
        shape-modify_first (has_id task_id) (claimed_task agent_id source (env.timestamp s.draws))
          (λ t. refl) (λ t. refl) s.tasks);
  }

  pub shape-assign_task :
      (s' : Snapshot)
      → assign_task env s task_id agent_id source kind actor ≡ ok s'
      → SameShape s s'
  shape-assign_task s' h =
      subst (SameShape s) (sym (assign_task-commit env s task_id agent_id source kind actor s' h))
        shape-commit_claim

module _ (env : Env) (s : Snapshot) (r : Reduced) (actor : ActorRef) where
  pub shape-reduce_assign_task :
      (task_id agent_id : ℕ)
      → reduce_assign_task env s task_id agent_id actor ≡ ok r
      → SameShape s r.0
  unfolding reduce_assign_task
  shape-reduce_assign_task task_id agent_id h =
      let (next, e, k) = >>=-ok {A = Snapshot} _ _ h in
      subst (SameShape s) (ground (arith, k))
        (shape-assign_task env s task_id agent_id TaskClaimSource.manual _ actor next e)

  pub shape-reduce_claim_task :
      (task_id agent_id : ℕ) (source : TaskClaimSource)
      → reduce_claim_task env s task_id agent_id source actor ≡ ok r
      → SameShape s r.0
  unfolding reduce_claim_task
  shape-reduce_claim_task task_id agent_id source h =
      let (next, e, k) = >>=-ok {A = Snapshot} _ _ h in
      subst (SameShape s) (ground (arith, k))
        (shape-assign_task env s task_id agent_id source _ actor next e)

  pub shape-reduce_release_task :
      (task_id : ℕ) → reduce_release_task env s task_id actor ≡ ok r → SameShape s r.0
  unfolding reduce_release_task
  shape-reduce_release_task task_id h = record {
    same = ground (
      arith,
      tasks-append_task_feed env (set_task task_id released_task s) task_id actor
          TaskFeedKind.released "Task claim released" [],
      shape-modify_first (has_id task_id) released_task (λ t. refl) (λ t. refl) s.tasks,
    );
  }

  pub shape-reduce_add_task_comment :
      (limit task_id : ℕ) (body : String) (xs : List ℕ)
      → reduce_add_task_comment env limit s task_id body xs actor ≡ ok r
      → SameShape s r.0
  unfolding reduce_add_task_comment
  shape-reduce_add_task_comment limit task_id body xs h = record {
    same = ground (arith, tasks-append_task_feed env s task_id actor TaskFeedKind.comment body xs);
  }
