-- ===== src/Tasks/Machine/Status.antt =====
-- A status change and the decisions on a review leave the identifiers and dependencies alone.
use frank.Prelude.{
  ℕ, ◌≡◌, refl, ap, sym, subst, ◌∙◌, Bool, false, Option, [], ◌∷◌, String, Option-cases, inl, inr,
  if◌then◌else◌, arith, ok, ◌>>=◌, >>=-ok, concat, find,
}
use frank.Protocol.Task.{TaskStatus}
use frank.Protocol.Task
use frank.Protocol.Status.{TaskFeedKind, ReviewDecision, ReviewWorkItemStatus}
use frank.Protocol.Records.{TaskView, ActorRef, Snapshot, Env, Reduced, ReviewWorkItemView}
use frank.Tasks.Feed.{find_task, has_id}
use frank.Tasks.Provision.{placed_task, provision}
use frank.Tasks.Move.{move_task, moved_task, settle, close_review}
use frank.Tasks.SetStatus.{reduce_set_task_status}
use frank.Tasks.SetStatus.Stages.{stages, tasks-review_step}
use frank.Tasks.SetStatus.After.{tasks-provision}
use frank.Tasks.Review.{
  reduce_task_accept, reduce_decide_review, accept_now, queue_commit, record_reason, decided,
  has_review_id,
}
use frank.Tasks.Machine.Shape.{
  shape, SameShape, SameShape-trans, shape-if, shape-modify_first, shape-append_task_feed,
  shape-retask, shape-update_dependency_locks, shape-update_parent_child_locks,
}

module _ (env : Env) where
  shape-settle :
      (s : Snapshot) (id : ℕ) (status : TaskStatus) (actor : ActorRef)
      → SameShape s (settle env s id status actor)
  unfolding settle
  shape-settle s id status actor =
      let a =
        shape-append_task_feed env s id actor TaskFeedKind.status_changed
          (concat ("Status changed to " ∷ Task.debug status ∷ [])) [] in
      let b = SameShape-trans a (shape-update_dependency_locks env _ id actor status) in
      shape-if env (Task.is_done status)
        (SameShape-trans b (shape-update_parent_child_locks env _ id actor)) b

  shape-placed :
      (s : Snapshot) (status : TaskStatus) (t : TaskView) (placed : Snapshot × Bool)
      → (if Task.is_running status then provision env s t else ok (s, false)) ≡ ok placed
      → SameShape s placed.0
  shape-placed s TaskStatus.running t placed h =
      let (plan, q) = tasks-provision env s t placed h in
      record {
        same =
            ap shape q
            ∙ shape-modify_first (has_id t.id) (placed_task plan) (λ t. refl) (λ t. refl) s.tasks;
      }
  shape-placed s _ t placed h = record { same = ground arith }

  pub shape-reduce_set_task_status :
      (s : Snapshot) (task_id : ℕ) (status : TaskStatus) (actor : ActorRef) (r : Reduced)
      → reduce_set_task_status env s task_id status actor ≡ ok r
      → SameShape s r.0
  unfolding move_task
  shape-reduce_set_task_status s task_id status actor r h =
      let st = stages env s task_id status actor r h in
      let kept = (tasks-review_step env _ st.task status st.target st.reviewed st.stepped).0 in
      let moved : SameShape st.placed.0 st.reviewed.0 = record {
        same =
            ap shape kept
            ∙ shape-modify_first (has_id task_id) (moved_task status st.target) (λ t. refl)
                (λ t. refl) st.placed.0.tasks;
      } in
      subst (SameShape s) (sym st.settled) (
        SameShape-trans (shape-placed s status st.task st.placed st.provisioned)
          (SameShape-trans moved (shape-settle st.reviewed.0 task_id status actor)))

  shape-close_review :
      (s : Snapshot) (id : ℕ) (outcome : ReviewWorkItemStatus)
      → SameShape s (close_review env s id outcome).0
  unfolding close_review
  shape-close_review s id outcome = record { same = ground arith }

  shape-accept_now :
      (s : Snapshot) (task_id : ℕ) (t : TaskView) (actor : ActorRef)
      → SameShape s (accept_now env s task_id t actor).0
  unfolding accept_now
  shape-accept_now s task_id t actor =
      SameShape-trans (shape-retask env s task_id TaskStatus.done actor _ _) (
        SameShape-trans (shape-update_dependency_locks env _ task_id actor TaskStatus.done) (
          SameShape-trans (shape-update_parent_child_locks env _ task_id actor)
            (shape-close_review _ task_id ReviewWorkItemStatus.approved)))

  shape-queue_commit :
      (s : Snapshot) (task_id : ℕ) (worktree : String) (r : Reduced)
      → queue_commit env s task_id worktree ≡ ok r
      → SameShape s r.0
  unfolding queue_commit close_review
  shape-queue_commit s task_id worktree r h = record { same = ground arith }

  pub shape-reduce_task_accept :
      (s : Snapshot) (task_id : ℕ) (actor : ActorRef) (r : Reduced)
      → reduce_task_accept env s task_id actor ≡ ok r
      → SameShape s r.0
  unfolding reduce_task_accept
  shape-reduce_task_accept s task_id actor r h = elim (Option-cases (find_task task_id s.tasks)) [
    | inl e ↦ absurd (ground (arith, h, e))
    | inr (task, e) ↦ elim (Option-cases task.worktree) [
      | inl w ↦
          subst (SameShape s) (ground (arith, h, e, w)) (shape-accept_now s task_id task actor)
      | inr (worktree, w) ↦ shape-queue_commit s task_id worktree r (ground (arith, h, e, w))
    ]
  ]

  shape-record_reason :
      (review : ReviewWorkItemView) (id : ℕ) (reason : Option String) (q r : Reduced)
      → record_reason env review id reason q ≡ ok r
      → SameShape q.0 r.0
  unfolding record_reason
  shape-record_reason review id reason q r h = record { same = ground arith }

  shape-decided :
      (s : Snapshot) (review : ReviewWorkItemView) (decision : ReviewDecision) (actor : ActorRef)
      (r : Reduced)
      → decided env s review decision actor ≡ ok r
      → SameShape s r.0
  unfolding decided
  shape-decided s review ReviewDecision.approve actor r h =
      shape-reduce_task_accept s review.source_task_id actor r h
  shape-decided s review ReviewDecision.reject actor r h =
      shape-reduce_set_task_status s review.source_task_id TaskStatus.running actor r h

  pub shape-reduce_decide_review :
      (limit : ℕ) (s : Snapshot) (id : ℕ) (decision : ReviewDecision) (reason : Option String)
      (actor : ActorRef) (r : Reduced)
      → reduce_decide_review env limit s id decision reason actor ≡ ok r
      → SameShape s r.0
  unfolding reduce_decide_review
  shape-reduce_decide_review limit s id decision reason actor r h =
      elim (Option-cases (find (has_review_id id) s.review_items)) [
        | inl e ↦ absurd (ground (arith, h, e))
        | inr (review, e) ↦
            let tail : (decided env s review decision actor >>= record_reason env review id reason)
                ≡ ok r =
              ground (arith, h, e) in
            let (q, g, k) =
              >>=-ok (decided env s review decision actor) (record_reason env review id reason)
                tail in
            SameShape-trans (shape-decided s review decision actor q g)
              (shape-record_reason review id reason q r k)
      ]
