-- ===== src/Supervisor/Assign/Fair.antt =====
-- What the assignments of `assign_ready_tasks` keep to.
use frank.Prelude.{
  ℕ, ◌≤◌, ◌≡◌, refl, Bool, true, false, List, [], ◌∷◌, keep, All, In, here, there, contains,
  Bool-cases, inl, inr, arith,
}
use frank.Protocol.Records.{TaskView, AgentView, Env}
use frank.Supervisor.Assign.{
  can_work, fits_role, waits, comes_before, insert_agent, sort_agents, assign_ready_tasks,
}
use frank.Supervisor.Assign.Rounds.{
  agent_ids, assignees, All-weaken, assign_each-occurrences, assign_each-Justified,
  assign_each-Served,
}
use frank.Runtime.Scheduler.{occurrences}

occurrences-insert_agent :
    (env : Env) (a : AgentView) (agents : List AgentView) (id : ℕ)
    → occurrences id (agent_ids (insert_agent env a agents))
      ≡ occurrences id (agent_ids (a ∷ agents))
unfolding insert_agent
occurrences-insert_agent env a [] id = refl
occurrences-insert_agent env a (x ∷ agents) id =
    ground (arith, occurrences-insert_agent env a agents id)

occurrences-sort_agents :
    (env : Env) (agents : List AgentView) (id : ℕ)
    → occurrences id (agent_ids (sort_agents env agents)) ≡ occurrences id (agent_ids agents)
unfolding sort_agents
occurrences-sort_agents env [] id = refl
occurrences-sort_agents env (a ∷ agents) id = ground (
  arith,
  occurrences-insert_agent env a (sort_agents env agents) id,
  occurrences-sort_agents env agents id,
)

occurrences-keep :
    (p : AgentView → Bool) (agents : List AgentView) (id : ℕ)
    → occurrences id (agent_ids (keep p agents)) ≤ occurrences id (agent_ids agents)
occurrences-keep p [] id = omega arith
occurrences-keep p (a ∷ agents) id = ground (arith, occurrences-keep p agents id)

In-insert_agent :
    (env : Env) (a : AgentView) (agents : List AgentView) (b : AgentView)
    → (In b (insert_agent env a agents) → In b (a ∷ agents))
      × (In b (a ∷ agents) → In b (insert_agent env a agents))
unfolding insert_agent
In-insert_agent env a [] b = (λ m. m, λ m. m)
In-insert_agent env a (x ∷ agents) b = elim (Bool-cases (comes_before env x a)) [
  | inr e ↦ rw e ((λ m. m), (λ m. m))
  | inl e ↦
      let (forth, back) = In-insert_agent env a agents b in
      rw e ((λ m. swap m forth), (λ m. unswap m back))
]
  where
    swap :
        {b x a : AgentView} {ys agents : List AgentView}
        → In b (x ∷ ys)
        → (In b ys → In b (a ∷ agents))
        → In b (a ∷ x ∷ agents)
    swap here f = there here
    swap (there m) f = deeper (f m)
      where
        deeper :
            {b x a : AgentView} {agents : List AgentView}
            → In b (a ∷ agents)
            → In b (a ∷ x ∷ agents)
        deeper here = here
        deeper (there n) = there (there n)

    unswap :
        {b x a : AgentView} {ys agents : List AgentView}
        → In b (a ∷ x ∷ agents)
        → (In b (a ∷ agents) → In b ys)
        → In b (x ∷ ys)
    unswap here f = there (f here)
    unswap (there here) f = here
    unswap (there (there n)) f = there (f (there n))

In-sort_agents :
    (env : Env) (agents : List AgentView) (b : AgentView)
    → (In b (sort_agents env agents) → In b agents) × (In b agents → In b (sort_agents env agents))
unfolding sort_agents
In-sort_agents env [] b = (λ m. m, λ m. m)
In-sort_agents env (a ∷ agents) b =
    let (forth, back) = In-insert_agent env a (sort_agents env agents) b in
    let (f, g) = In-sort_agents env agents b in (λ m. under (forth m) f, λ m. back (under m g))
  where
    under :
        {b a : AgentView} {xs ys : List AgentView}
        → In b (a ∷ xs)
        → (In b xs → In b ys)
        → In b (a ∷ ys)
    under here h = here
    under (there m) h = there (h m)

In-keep :
    (p : AgentView → Bool) (agents : List AgentView) (b : AgentView)
    → (In b (keep p agents) → In b agents × (p b ≡ true))
      × (In b agents → p b ≡ true → In b (keep p agents))
In-keep p [] b = (λ m. elim m [ ], λ m e. elim m [ ])
In-keep p (a ∷ agents) b = elim (Bool-cases (p a)) [
  | inl t ↦
      rw t ((λ m. taken m t (In-keep p agents b).0), (λ m e. given m e (In-keep p agents b).1))
  | inr f ↦ rw f (
    (λ m. let (n, e) = (In-keep p agents b).0 m in (there n, e)),
    (λ m e. skipped m e f (In-keep p agents b).1),
  )
]
  where
    taken :
        {b a : AgentView} {xs ys : List AgentView}
        → In b (a ∷ xs)
        → p a ≡ true
        → (In b xs → In b ys × (p b ≡ true))
        → In b (a ∷ ys) × (p b ≡ true)
    taken here t h = (here, t)
    taken (there m) t h = let (n, e) = h m in (there n, e)

    given :
        {b a : AgentView} {xs ys : List AgentView}
        → In b (a ∷ xs)
        → p b ≡ true
        → (In b xs → p b ≡ true → In b ys)
        → In b (a ∷ ys)
    given here e h = here
    given (there m) e h = there (h m e)

    skipped :
        {b a : AgentView} {xs ys : List AgentView}
        → In b (a ∷ xs)
        → p b ≡ true
        → p a ≡ false
        → (In b xs → p b ≡ true → In b ys)
        → In b ys
    skipped here e f h = absurd (ground (arith, e, f))
    skipped (there m) e f h = h m e

-- No agent is given more tasks than it stands in the list of agents: with distinct agents, one.
pub assign_ready_tasks-once :
    (env : Env) (tasks : List TaskView) (agents : List AgentView) (id : ℕ)
    → occurrences id (assignees (assign_ready_tasks env tasks agents).1)
      ≤ occurrences id (agent_ids agents)
unfolding assign_ready_tasks
assign_ready_tasks-once env tasks agents id = omega (
  arith,
  assign_each-occurrences tasks (sort_agents env (keep can_work agents)) id,
  occurrences-sort_agents env (keep can_work agents) id,
  occurrences-keep can_work agents id,
)

-- A worker of the list: not archived, not the supervisor, idle or offline.
abbrev pub Worker : TaskView → List AgentView → ℕ → Type 0
Worker t agents id =
    (a : AgentView) × In a agents × (can_work a ≡ true) × (a.id ≡ id) × (fits_role t a ≡ true)

abbrev pub Deserved : List TaskView → List AgentView → ℕ × ℕ → Type 0
Deserved tasks agents pair =
    (t : TaskView) × In t tasks × (t.id ≡ pair.0) × (waits t ≡ true) × Worker t agents pair.1

In-sort_pool :
    (env : Env) (agents : List AgentView) (b : AgentView)
    → (In b (sort_agents env (keep can_work agents)) → In b agents × (can_work b ≡ true))
      × (In b agents → can_work b ≡ true → In b (sort_agents env (keep can_work agents)))
In-sort_pool env agents b =
    let (f, g) = In-sort_agents env (keep can_work agents) b in
    let (h, k) = In-keep can_work agents b in (λ m. h (f m), λ m e. g (k m e))

-- Every assignment is of a Ready task that nobody holds, to a live and available worker that is
-- not the supervisor and has the role that the task asks for.
pub assign_ready_tasks-Deserved :
    (env : Env) (tasks : List TaskView) (agents : List AgentView)
    → All (Deserved tasks agents) (assign_ready_tasks env tasks agents).1
unfolding assign_ready_tasks
assign_ready_tasks-Deserved env tasks agents =
    All-weaken _
      (λ pair (t, m, e, w, (a, n, q, f)).
        let (n', c) = (In-sort_pool env agents a).0 n in (t, m, e, w, (a, n', c, q, f)))
      (assign_each-Justified tasks (sort_agents env (keep can_work agents)))

-- A task that is still Ready and unassigned has no worker left: each one that fits was given a
-- task.
pub assign_ready_tasks-Served :
    (env : Env) (tasks : List TaskView) (agents : List AgentView)
    → All
        (λ t.
          waits t ≡ true
          → (b : AgentView) → In b agents
          → can_work b ≡ true
          → fits_role t b ≡ true
          → contains (assignees (assign_ready_tasks env tasks agents).1) b.id ≡ true)
        (assign_ready_tasks env tasks agents).0
unfolding assign_ready_tasks
assign_ready_tasks-Served env tasks agents =
    All-weaken _ (λ t served w b m c f. served w b ((In-sort_pool env agents b).1 m c) f)
      (assign_each-Served tasks (sort_agents env (keep can_work agents)))
