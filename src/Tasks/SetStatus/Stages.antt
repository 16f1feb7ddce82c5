-- ===== src/Tasks/SetStatus/Stages.antt =====
-- The stages of an accepted status change, its checks, and the grants that it ends.
use frank.Prelude.{
  ℕ, ◌≡◌, ◌∙◌, ap, Bool, true, false, not, ◌||◌, ◌==◌, Option, some, List, [], ◌∷◌, map, All,
  concat, ok, >>=-ok, ok_or-ok, arith, if◌then◌else◌,
}
use frank.Protocol.Task.{TaskStatus}
use frank.Protocol.Task
use frank.Protocol.Status.{TaskFeedKind}
use frank.Protocol.Records.{
  TaskView, TaskGrantView, ReviewWorkItemView, ActorRef, Snapshot, Env, Reduced,
}
use frank.Tasks.Feed.{find_task}
use frank.Tasks.Frame.{
  SameRest, SameRest-trans, SameRest-if, SameRest-append_task_feed,
  SameRest-update_dependency_locks, SameRest-update_parent_child_locks, task_is,
}
use frank.Tasks.Checks.{check_status}
use frank.Tasks.Provision.{provision}
use frank.Tasks.Move.{
  move_task, ends_attempt, revoke_grant, open_review, close_review, review_step, settle,
}
use frank.Tasks.SetStatus.{finish_status, reduce_set_task_status}
use frank.Tasks.SetStatus.Guards.{move_allowed, check_status-allowed}

-- The stages of an accepted change.
pub record Stages (env : Env) (s : Snapshot) (task_id : ℕ) (status : TaskStatus) (actor : ActorRef)
    (next : Snapshot) : Type 0 where
  pub task : TaskView
  pub target : Option ℕ
  pub placed : Snapshot × Bool
  pub reviewed : Snapshot × Option ReviewWorkItemView
  pub found : find_task task_id s.tasks ≡ some task
  pub checked : check_status env s task status actor ≡ ok target
  pub provisioned :
      (if Task.is_running status then provision env s task else ok (s, false)) ≡ ok placed
  pub stepped :
      review_step env (move_task task_id status target placed.0) task status target ≡ ok reviewed
  pub settled : next ≡ settle env reviewed.0 task_id status actor

module _ (env : Env) (s : Snapshot) (task_id : ℕ) (status : TaskStatus) (actor : ActorRef)
    (r : Reduced) where
  finish-next :
      (n : Snapshot) (t u : TaskView) (b : Bool) (o : Option ReviewWorkItemView)
      → finish_status env n t u status b o ≡ ok r
      → r.0 ≡ n
  unfolding finish_status
  finish-next n t u b o h = ground arith

  pub stages :
      reduce_set_task_status env s task_id status actor ≡ ok r
      → Stages env s task_id status actor r.0
  unfolding reduce_set_task_status
  stages h =
      let (task, found, h₁) = >>=-ok _ _ h in
      let (target, checked, h₂) = >>=-ok _ _ h₁ in
      let (placed, provisioned, h₃) = >>=-ok _ _ h₂ in
      let (reviewed, stepped, h₄) = >>=-ok _ _ h₃ in
      record {
        task = task;
        target = target;
        placed = placed;
        reviewed = reviewed;
        found = ok_or-ok _ _ found;
        checked = checked;
        provisioned = provisioned;
        stepped = stepped;
        settled = finish-next _ _ _ _ _ h₄;
      }

  -- An accepted status change follows the transition table. Into Ready or Running every
  -- dependency is Done; into Running the task has a live worker that the Organization admits; into
  -- Done every child is Done.
  pub set_task_status_allowed :
      reduce_set_task_status env s task_id status actor ≡ ok r
      → task_is (move_allowed s status) task_id s.tasks ≡ true
  set_task_status_allowed h =
      let st = stages h in
      rw st.found (check_status-allowed env s st.task status actor st.target st.checked)

-- The review items may change beside a move, and the tasks do not.
pub tasks-review_step :
    (env : Env) (s : Snapshot) (t : TaskView) (status : TaskStatus) (target : Option ℕ)
    (reviewed : Snapshot × Option ReviewWorkItemView)
    → review_step env s t status target ≡ ok reviewed
    → (reviewed.0.tasks ≡ s.tasks) × (reviewed.0.task_grants ≡ s.task_grants)
unfolding review_step open_review close_review
tasks-review_step env s t status target reviewed h = ground arith

SameRest-settle :
    (env : Env) (s : Snapshot) (id : ℕ) (status : TaskStatus) (actor : ActorRef)
    → SameRest s (settle env s id status actor)
unfolding settle
SameRest-settle env s id status actor =
    let a =
      SameRest-append_task_feed env s id actor TaskFeedKind.status_changed
        (concat ("Status changed to " ∷ Task.debug status ∷ [])) [] in
    let b = SameRest-trans a (SameRest-update_dependency_locks env _ id actor status) in
    SameRest-if env (Task.is_done status)
      (SameRest-trans b (SameRest-update_parent_child_locks env _ id actor)) b

-- The grants of one task are all revoked.
abbrev pub GrantRevoked : ℕ → TaskGrantView → Type 0
GrantRevoked task_id grant = (not (grant.task_id == task_id) || grant.revoked) ≡ true

revoked-All :
    (task_id : ℕ) (gs : List TaskGrantView)
    → All (GrantRevoked task_id) (map (revoke_grant task_id) gs)
revoked-All task_id [] = tt
revoked-All task_id (g ∷ gs) = (ground arith, revoked-All task_id gs)

module _ (env : Env) (s : Snapshot) (task_id : ℕ) (status : TaskStatus) (actor : ActorRef)
    (r : Reduced) where
  -- An accepted status change into Review, Done or Cancelled revokes each grant on the task.
  pub set_task_status_revokes :
      (Task.is_review status || Task.is_final status) ≡ true
      → reduce_set_task_status env s task_id status actor ≡ ok r
      → All (GrantRevoked task_id) r.0.task_grants
  unfolding move_task
  set_task_status_revokes entered h =
      let e : ends_attempt status ≡ true = ground (arith, entered) in
      let st = stages env s task_id status actor r h in
      let kept = tasks-review_step env _ st.task status st.target st.reviewed st.stepped in
      rw st.settled (
        rw
          ((SameRest-settle env st.reviewed.0 task_id status actor).task_grants
            ∙ kept.1
            ∙ ap
                (λ b.
                  if b
                  then map (revoke_grant task_id) st.placed.0.task_grants
                  else st.placed.0.task_grants)
                e)
          (revoked-All task_id st.placed.0.task_grants))
