-- ===== src/Tasks/Frame.antt =====
-- What the feed and the locks leave alone, and how an update shows in a lookup.
use frank.Prelude.{
  ℕ, ◌≡◌, refl, ◌∙◌, Bool, true, false, ◌==◌, Option, none, some, List, [], ◌∷◌, String, map,
  contains, modify_first, is_some_and, and_then, Option-cases, inl, inr, if◌then◌else◌, arith,
}
use frank.Protocol.Task.{TaskStatus}
use frank.Protocol.Task
use frank.Protocol.Status.{TaskFeedKind}
use frank.Protocol.Records.{TaskView, ActorRef, Snapshot, Env}
use frank.Tasks.Feed.{has_id, find_task, all_done, set_task, append_task_feed}
use frank.Tasks.Locks.{
  relock, relock_one, relock_all, update_dependency_locks, promote_parent, promote_found,
  promote_of, update_parent_child_locks,
}

-- All but the tasks, the feed and the count of draws.
pub record SameRest (s s' : Snapshot) : Type 0 where
  pub agents : s'.agents ≡ s.agents
  pub missions : s'.missions ≡ s.missions
  pub operations : s'.operations ≡ s.operations
  pub task_grants : s'.task_grants ≡ s.task_grants
  pub published : s'.published ≡ s.published
  pub review_items : s'.review_items ≡ s.review_items

pub SameRest-refl : (s : Snapshot) → SameRest s s
SameRest-refl s = record {
  agents = refl;
  missions = refl;
  operations = refl;
  task_grants = refl;
  published = refl;
  review_items = refl;
}

pub SameRest-trans : {s t u : Snapshot} → SameRest s t → SameRest t u → SameRest s u
SameRest-trans a b = record {
  agents = b.agents ∙ a.agents;
  missions = b.missions ∙ a.missions;
  operations = b.operations ∙ a.operations;
  task_grants = b.task_grants ∙ a.task_grants;
  published = b.published ∙ a.published;
  review_items = b.review_items ∙ a.review_items;
}

module _ (env : Env) where
  pub SameRest-append_task_feed :
      (s : Snapshot) (id : ℕ) (actor : ActorRef) (kind : TaskFeedKind) (body : String)
      (artifact_ids : List ℕ)
      → SameRest s (append_task_feed env s id actor kind body artifact_ids)
  unfolding append_task_feed
  SameRest-append_task_feed s id actor kind body artifact_ids = record {
    agents = refl;
    missions = refl;
    operations = refl;
    task_grants = refl;
    published = refl;
    review_items = refl;
  }

  moved-SameRest :
      (s : Snapshot) (id : ℕ) (f : TaskView → TaskView) (actor : ActorRef) (kind : TaskFeedKind)
      (body : String)
      → SameRest s (append_task_feed env (set_task id f s) id actor kind body [])
  unfolding append_task_feed
  moved-SameRest s id f actor kind body = record {
    agents = refl;
    missions = refl;
    operations = refl;
    task_grants = refl;
    published = refl;
    review_items = refl;
  }

  pub SameRest-if :
      (b : Bool) {s t u : Snapshot} → SameRest s t → SameRest s u → SameRest s (if b then t else u)
  SameRest-if true a b = a
  SameRest-if false a b = b

  SameRest-relock :
      (actor : ActorRef) (st : TaskStatus) (s : Snapshot) (t : TaskView)
      → SameRest s (relock env actor st s t)
  unfolding relock
  SameRest-relock actor st s t = search (SameRest-if, moved-SameRest, SameRest-refl)

  SameRest-relock_one :
      (actor : ActorRef) (st : TaskStatus) (id : ℕ) (s : Snapshot)
      → SameRest s (relock_one env actor st id s)
  unfolding relock_one
  SameRest-relock_one actor st id s = elim (Option-cases (find_task id s.tasks)) [
    | inl e ↦ rw (e, relock_one) (SameRest-refl s)
    | inr (t, e) ↦ rw (e, relock_one) (SameRest-relock actor st s t)
  ]

  SameRest-relock_all :
      (actor : ActorRef) (st : TaskStatus) (ids : List ℕ) (s : Snapshot)
      → SameRest s (relock_all env actor st ids s)
  unfolding relock_all
  SameRest-relock_all actor st [] s = SameRest-refl s
  SameRest-relock_all actor st (id ∷ ids) s =
      SameRest-trans (SameRest-relock_one actor st id s)
        (SameRest-relock_all actor st ids (relock_one env actor st id s))

  pub SameRest-update_dependency_locks :
      (s : Snapshot) (id : ℕ) (actor : ActorRef) (st : TaskStatus)
      → SameRest s (update_dependency_locks env s id actor st)
  unfolding update_dependency_locks
  SameRest-update_dependency_locks s id actor st = SameRest-relock_all actor st _ s

  SameRest-promote_parent :
      (s : Snapshot) (actor : ActorRef) (t : TaskView) → SameRest s (promote_parent env s actor t)
  unfolding promote_parent
  SameRest-promote_parent s actor t = search (SameRest-if, moved-SameRest, SameRest-refl)

  SameRest-promote_found :
      (s : Snapshot) (actor : ActorRef) (o : Option TaskView)
      → SameRest s (promote_found env s actor o)
  unfolding promote_found
  SameRest-promote_found s actor none = SameRest-refl s
  SameRest-promote_found s actor (some t) = SameRest-promote_parent s actor t

  SameRest-promote_of :
      (s : Snapshot) (actor : ActorRef) (o : Option ℕ) → SameRest s (promote_of env s actor o)
  unfolding promote_of
  SameRest-promote_of s actor none = SameRest-refl s
  SameRest-promote_of s actor (some p) = SameRest-promote_found s actor (find_task p s.tasks)

  pub SameRest-update_parent_child_locks :
      (s : Snapshot) (id : ℕ) (actor : ActorRef)
      → SameRest s (update_parent_child_locks env s id actor)
  unfolding update_parent_child_locks
  SameRest-update_parent_child_locks s id actor =
      SameRest-promote_of s actor (and_then (find_task id s.tasks) (λ task. task.parent_task_id))

-- Test the task of an identifier.
abbrev pub task_is : (TaskView → Bool) → ℕ → List TaskView → Bool
task_is p id ts = is_some_and (find_task id ts) p

module _ (p q : TaskView → Bool) (f : TaskView → TaskView)
    (same_id : (t : TaskView) → (f t).id ≡ t.id)
    (holds : (t : TaskView) → p t ≡ true → q (f t) ≡ true) where
  pub task_is-map :
      (id : ℕ) (ts : List TaskView) → task_is p id ts ≡ true → task_is q id (map f ts) ≡ true
  task_is-map id [] h = cc
  task_is-map id (t ∷ ts) h = ground (arith, same_id t, holds t, task_is-map id ts)

  -- An update of the task itself, or of another.
  pub task_is-modify_self :
      (id : ℕ) (ts : List TaskView)
      → task_is p id ts ≡ true
      → task_is q id (modify_first (has_id id) f ts) ≡ true
  task_is-modify_self id [] h = cc
  task_is-modify_self id (t ∷ ts) h = ground (arith, same_id t, holds t, task_is-modify_self id ts)

pub task_is-modify_other :
    (p : TaskView → Bool) (f : TaskView → TaskView) (id other : ℕ) (ts : List TaskView)
    → ((t : TaskView) → (f t).id ≡ t.id)
    → (other == id) ≡ false
    → task_is p id (modify_first (has_id other) f ts) ≡ task_is p id ts
task_is-modify_other p f id other [] same_id ne = refl
task_is-modify_other p f id other (t ∷ ts) same_id ne =
    ground (arith, same_id t, task_is-modify_other p f id other ts same_id)

pub contains-all_done :
    (id : ℕ) (ts : List TaskView) (ids : List ℕ)
    → contains ids id ≡ true
    → all_done ts ids ≡ true
    → task_is (λ t. Task.is_done t.status) id ts ≡ true
contains-all_done id ts [] c d = cc
contains-all_done id ts (x ∷ xs) c d = ground (arith, contains-all_done id ts xs)
