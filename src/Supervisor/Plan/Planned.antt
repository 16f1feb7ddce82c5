-- ===== src/Supervisor/Plan/Planned.antt =====
-- What an accepted proposal turns into.
use frank.Prelude.{
  suc, ◌+◌, ◌≤◌, ◌≡◌, refl, ap, subst, inl, inr, String, true, false, ◌==◌, ==_iff, none, some,
  List, [], ◌∷◌, All, length, text_eq, eq_refl, eq_iff, Bool-cases, Option-cases, arith,
}
use frank.Supervisor.Plan.{
  SupervisorTaskProposal, SupervisorPlanProposal, SupervisorPlan, Pending, has, check_keys,
  indegrees, roots, ordered, reverse_onto, pick_tasks, build_plan, order_plan, proposal_to_plan,
}
use frank.Supervisor.Plan.Release.{missing, key_of, DistinctKeys, Node, text_eq_apart}
use frank.Supervisor.Plan.Order.{
  NoRepeat, queue, Progress, Found, tasks_of, closed, order_keys-Found, order_keys-total,
}

-- The keys are distinct when the first loop has passed.
keys_apart :
    (x : String) (seen : List String) (tasks : List SupervisorTaskProposal)
    → check_keys seen tasks ≡ none
    → has seen x ≡ true
    → All (λ y. text_eq (key_of y) x ≡ false) (indegrees tasks)
unfolding check_keys
keys_apart x seen [] h m = tt
keys_apart x seen (t ∷ tasks) h m = (
  elim (Bool-cases (text_eq t.client_key x)) [
    | inr e ↦ e
    | inl e ↦
        let q : has seen x ≡ false =
          subst (λ z. has seen z ≡ false) ((eq_iff t.client_key x).0 e) (ground (arith, h)) in
        absurd (ground (arith, q, m))
  ],
  keys_apart x (t.client_key ∷ seen) tasks (ground (arith, h)) (ground (arith, m)),
)

DistinctKeys-check_keys :
    (seen : List String) (tasks : List SupervisorTaskProposal)
    → check_keys seen tasks ≡ none
    → DistinctKeys (indegrees tasks)
unfolding check_keys
DistinctKeys-check_keys seen [] h = tt
DistinctKeys-check_keys seen (t ∷ tasks) h =
    let rest : check_keys (t.client_key ∷ seen) tasks ≡ none = ground (arith, h) in
    (
      keys_apart t.client_key (t.client_key ∷ seen) tasks rest
          (ground (arith, eq_refl t.client_key)),
      DistinctKeys-check_keys (t.client_key ∷ seen) tasks rest,
    )

missing_all : (ds : List String) → missing [] ds ≡ length ds
missing_all [] = refl
missing_all (d ∷ ds) = ap suc (missing_all ds)

tasks-indegrees : (tasks : List SupervisorTaskProposal) → tasks_of (indegrees tasks) ≡ tasks
tasks-indegrees [] = refl
tasks-indegrees (t ∷ tasks) = ap (λ ts. t ∷ ts) (tasks-indegrees tasks)

roots_out :
    (x : String) (tasks : List SupervisorTaskProposal)
    → All (λ y. text_eq (key_of y) x ≡ false) (indegrees tasks)
    → has (roots tasks) x ≡ false
roots_out x [] a = refl
roots_out x (t ∷ tasks) a = ground (arith, a.0, roots_out x tasks a.1)

roots_once :
    (tasks : List SupervisorTaskProposal) → DistinctKeys (indegrees tasks) → NoRepeat (roots tasks)
roots_once [] d = tt
roots_once (t ∷ tasks) d = elim (Bool-cases (length t.dependencies == 0)) [
  | inl e ↦ rw e (roots_out t.client_key tasks d.0, roots_once tasks d.1)
  | inr e ↦ rw e (roots_once tasks d.1)
]

queue_more :
    (x : String) (rs : List String) (pending : Pending)
    → All (λ y. text_eq (key_of y) x ≡ false) pending
    → All (Node [] (queue rs [])) pending
    → All (Node [] (queue (x ∷ rs) [])) pending
queue_more x rs [] a h = tt
queue_more x rs (y ∷ pending) a h = (
  (h.0.0, ground (arith, h.0.1, text_eq_apart (key_of y) x a.0)),
  queue_more x rs pending a.1 h.1,
)

nodes_start :
    (tasks : List SupervisorTaskProposal)
    → DistinctKeys (indegrees tasks)
    → All (Node [] (queue (roots tasks) [])) (indegrees tasks)
nodes_start [] d = tt
nodes_start (t ∷ tasks) d =
    let few : missing [] t.dependencies ≤ length t.dependencies =
      omega (arith, missing_all t.dependencies) in
    let out = roots_out t.client_key tasks d.0 in
    elim (Bool-cases (length t.dependencies == 0)) [
      | inl e ↦
          let now : t.client_key ∷ roots tasks ≡ roots (t ∷ tasks) = ground (arith, e) in
          subst (λ rs. All (Node [] (queue rs [])) (indegrees (t ∷ tasks))) now
            (
              (few, ground (arith, e, eq_refl t.client_key)),
              queue_more t.client_key (roots tasks) (indegrees tasks) d.0 (nodes_start tasks d.1),
            )
      | inr e ↦
          let now : roots tasks ≡ roots (t ∷ tasks) = ground (arith, e) in
          subst (λ rs. All (Node [] (queue rs [])) (indegrees (t ∷ tasks))) now
            ((few, ground (arith, e, out)), nodes_start tasks d.1)
    ]

closed_start :
    (tasks : List SupervisorTaskProposal)
    → closed (indegrees tasks) + length (roots tasks) ≡ length tasks
closed_start [] = omega arith
closed_start (t ∷ tasks) = ground (arith, closed_start tasks)

Progress-start :
    (tasks : List SupervisorTaskProposal)
    → DistinctKeys (indegrees tasks)
    → Progress tasks (indegrees tasks) (roots tasks) []
Progress-start tasks d = record {
  same_tasks = tasks-indegrees tasks;
  distinct = d;
  nodes = nodes_start tasks d;
  ready_once = roots_once tasks d;
  finished_once = tt;
  apart = λ x m. refl;
  topological = tt;
}

-- A plan follows the dependencies of its proposal: its keys are distinct, as many as the proposal
-- has tasks, and read from the end each stands after (before it in the plan) all keys that the
-- tasks with this key depend on.
pub record Follows (proposal : SupervisorPlanProposal) (plan : SupervisorPlan) : Type 0 where
  pub finished : List String
  pub keys : plan.task_keys ≡ reverse_onto finished []
  pub complete : length finished ≡ length proposal.tasks
  pub found : Found proposal.tasks finished

pub proposal_to_plan-Follows :
    (proposal : SupervisorPlanProposal) (plan : SupervisorPlan)
    → proposal_to_plan proposal ≡ inr plan
    → Follows proposal plan
unfolding proposal_to_plan order_plan build_plan
proposal_to_plan-Follows proposal plan h = elim (Option-cases (check_keys [] proposal.tasks)) [
  | inr (_, e) ↦ absurd (ground (arith, h, e))
  | inl e ↦ elim (Option-cases (ordered proposal.tasks)) [
    | inl q ↦ absurd (ground (arith, h, e, q))
    | inr (finished, q) ↦
        elim (Option-cases (pick_tasks proposal.tasks (reverse_onto finished []))) [
          | inl w ↦ absurd (ground (arith, h, e, q, w))
          | inr (picked, w) ↦ record {
            finished = finished;
            keys = ground (arith, h, e, q, w);
            complete = ground (arith, h, e, q, w, ==_iff (length finished) (length proposal.tasks));
            found =
                order_keys-Found (suc (length proposal.tasks)) proposal.tasks
                  (indegrees proposal.tasks) (roots proposal.tasks) [] finished
                  (Progress-start proposal.tasks (DistinctKeys-check_keys [] proposal.tasks e)) q;
          }
        ]
  ]
]

-- The queue loop ends within its fuel on every proposal with distinct keys.
pub ordered_total :
    (proposal : SupervisorPlanProposal)
    → check_keys [] proposal.tasks ≡ none
    → (finished : List String) × (ordered proposal.tasks ≡ some finished)
ordered_total proposal h =
    order_keys-total (suc (length proposal.tasks)) proposal.tasks (indegrees proposal.tasks)
      (roots proposal.tasks) []
      (Progress-start proposal.tasks (DistinctKeys-check_keys [] proposal.tasks h))
      (omega (arith, closed_start proposal.tasks))
