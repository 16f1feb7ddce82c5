-- ===== src/Supervisor/Assign/Rounds.antt =====
-- The loop of `assign_ready_tasks`: what one pass over the tasks hands out.
use frank.Prelude.{
  ℕ, suc, ◌≤◌, ◌≡◌, refl, ap, sym, subst, true, false, ◌==◌, ==_refl, none, some, List, [], ◌∷◌,
  map, All, In, here, there, contains, Bool-cases, Option-cases, inl, inr, ◌⊎◌, if◌then◌else◌,
  arith,
}
use frank.Protocol.Records.{TaskView, AgentView}
use frank.Supervisor.Assign.{fits_role, waits, take_first, assign_each}
use frank.Runtime.Scheduler.{occurrences}

abbrev pub agent_ids : List AgentView → List ℕ
agent_ids agents = map (λ a. a.id) agents

abbrev pub assignees : List (ℕ × ℕ) → List ℕ
assignees pairs = map (λ p. p.1) pairs

-- An agent of the list that fits the task.
abbrev pub Fitting : TaskView → List AgentView → ℕ → Type 0
Fitting t agents id = (a : AgentView) × In a agents × (a.id ≡ id) × (fits_role t a ≡ true)

abbrev pub Justified : List TaskView → List AgentView → ℕ × ℕ → Type 0
Justified tasks agents pair =
    (t : TaskView) × In t tasks × (t.id ≡ pair.0) × (waits t ≡ true) × Fitting t agents pair.1

take_first-occurrences :
    (t : TaskView) (agents : List AgentView) (a : AgentView) (others : List AgentView) (id : ℕ)
    → take_first t agents ≡ some (a, others)
    → occurrences id (agent_ids agents) ≡ (
        if a.id == id
        then suc (occurrences id (agent_ids others))
        else occurrences id (agent_ids others))
unfolding take_first
take_first-occurrences t [] a others id h = absurd (cc)
take_first-occurrences t (x ∷ agents) a others id h = elim (Bool-cases (fits_role t x)) [
  | inl e ↦ ground (arith, e, h)
  | inr e ↦ elim (Option-cases (take_first t agents)) [
    | inl q ↦ absurd (ground (arith, e, q, h))
    | inr (p, q) ↦ ground (arith, e, q, h, take_first-occurrences t agents p.0 p.1 id q)
  ]
]

take_first-fits :
    (t : TaskView) (agents : List AgentView) (a : AgentView) (others : List AgentView)
    → take_first t agents ≡ some (a, others)
    → In a agents × (fits_role t a ≡ true) × ((b : AgentView) → In b others → In b agents)
unfolding take_first
take_first-fits t [] a others h = absurd (cc)
take_first-fits t (x ∷ agents) a others h = elim (Bool-cases (fits_role t x)) [
  | inl e ↦
      let q : x ≡ a = ground (arith, e, h) in
      let r : agents ≡ others = ground (arith, e, h) in
      (
        subst (λ z. In z (x ∷ agents)) q here,
        subst (λ z. fits_role t z ≡ true) q e,
        λ b m. there (subst (In b) (sym r) m),
      )
  | inr e ↦ elim (Option-cases (take_first t agents)) [
    | inl q ↦ absurd (ground (arith, e, q, h))
    | inr (p, q) ↦
        let found : p.0 ≡ a = ground (arith, e, q, h) in
        let left : x ∷ p.1 ≡ others = ground (arith, e, q, h) in
        let (m, fits, sub) = take_first-fits t agents p.0 p.1 q in
        (
          subst (λ z. In z (x ∷ agents)) found (there m),
          subst (λ z. fits_role t z ≡ true) found fits,
          λ b k. deeper b (subst (In b) (sym left) k) sub,
        )
  ]
]
  where
    deeper :
        (b : AgentView) {os : List AgentView}
        → In b (x ∷ os)
        → ((c : AgentView) → In c os → In c agents)
        → In b (x ∷ agents)
    deeper _ here sub = here
    deeper b (there m) sub = there (sub b m)

take_first-none :
    (t : TaskView) (agents : List AgentView)
    → take_first t agents ≡ none
    → (b : AgentView) → In b agents
    → fits_role t b ≡ false
unfolding take_first
take_first-none t [] h b m = elim m [ ]
take_first-none t (x ∷ agents) h _ here = ground (arith, h)
take_first-none t (x ∷ agents) h b (there m) = take_first-none t agents (ground (arith, h)) b m

pub assign_each-occurrences :
    (tasks : List TaskView) (available : List AgentView) (id : ℕ)
    → occurrences id (assignees (assign_each tasks available).1)
      ≤ occurrences id (agent_ids available)
unfolding assign_each
assign_each-occurrences [] available id = omega arith
assign_each-occurrences (t ∷ tasks) available id = elim (Option-cases (take_first t available)) [
  | inl e ↦ ground (arith, e, assign_each-occurrences tasks available id)
  | inr (p, e) ↦ ground (
    arith,
    e,
    assign_each-occurrences tasks available id,
    assign_each-occurrences tasks p.1 id,
    take_first-occurrences t available p.0 p.1 id e,
  )
]

pub All-weaken {ℓ} :
    {A : Type ℓ} {P Q : A → Type 0} (xs : List A) → ((a : A) → P a → Q a) → All P xs → All Q xs
All-weaken [] f h = tt
All-weaken (x ∷ xs) f h = (f x h.0, All-weaken xs f h.1)

later_task :
    (t : TaskView) (tasks : List TaskView) (agents others : List AgentView)
    → ((b : AgentView) → In b others → In b agents)
    → (pair : ℕ × ℕ) → Justified tasks others pair
    → Justified (t ∷ tasks) agents pair
later_task t tasks agents others sub pair (u, m, e, w, (a, n, q, f)) =
    (u, there m, e, w, (a, sub a n, q, f))

pub assign_each-Justified :
    (tasks : List TaskView) (available : List AgentView)
    → All (Justified tasks available) (assign_each tasks available).1
unfolding assign_each
assign_each-Justified [] available = tt
assign_each-Justified (t ∷ tasks) available = elim (Bool-cases (waits t)) [
  | inr busy ↦ rw busy (
      All-weaken (assign_each tasks available).1 (later_task t tasks available available (λ b m. m))
        (assign_each-Justified tasks available))
  | inl ready ↦ elim (Option-cases (take_first t available)) [
    | inl e ↦
        rw (ready, e)
          (All-weaken (assign_each tasks available).1
            (later_task t tasks available available (λ b m. m))
            (assign_each-Justified tasks available))
    | inr (p, e) ↦
        let (m, fits, sub) = take_first-fits t available p.0 p.1 e in
        rw (ready, e)
          (
            (t, here, refl, ready, (p.0, m, refl, fits)),
            All-weaken (assign_each tasks p.1).1 (later_task t tasks available p.1 sub)
                (assign_each-Justified tasks p.1),
          )
  ]
]

take_first-split :
    (t : TaskView) (agents : List AgentView) (a : AgentView) (others : List AgentView)
    → take_first t agents ≡ some (a, others)
    → (b : AgentView) → In b agents
    → (b ≡ a) ⊎ In b others
unfolding take_first
take_first-split t [] a others h b m = elim m [ ]
take_first-split t (x ∷ agents) a others h b m = elim (Bool-cases (fits_role t x)) [
  | inl e ↦
      let q : x ≡ a = ground (arith, e, h) in
      let r : agents ≡ others = ground (arith, e, h) in
      subst (λ z. (b ≡ z) ⊎ In b others) q (subst (λ z. (b ≡ x) ⊎ In b z) r (first b m))
  | inr e ↦ elim (Option-cases (take_first t agents)) [
    | inl q ↦ absurd (ground (arith, e, q, h))
    | inr (p, q) ↦
        let found : p.0 ≡ a = ground (arith, e, q, h) in
        let left : x ∷ p.1 ≡ others = ground (arith, e, q, h) in
        subst (λ z. (b ≡ z) ⊎ In b others) found
          (subst (λ z. (b ≡ p.0) ⊎ In b z) left (later b m (take_first-split t agents p.0 p.1 q b)))
  ]
]
  where
    first : (c : AgentView) → In c (x ∷ agents) → (c ≡ x) ⊎ In c agents
    first _ here = inl refl
    first c (there n) = inr n

    later :
        (c : AgentView) {d : AgentView} {os : List AgentView}
        → In c (x ∷ agents)
        → (In c agents → (c ≡ d) ⊎ In c os)
        → (c ≡ d) ⊎ In c (x ∷ os)
    later _ here f = inr here
    later c (there n) f = elim (f n) [ inl e ↦ inl e | inr k ↦ inr (there k) ]

-- A task that still waits has no fitting agent left: each one was given a task.
abbrev pub Served : List AgentView → List (ℕ × ℕ) → TaskView → Type 0
Served agents pairs t =
    waits t ≡ true
    → (b : AgentView) → In b agents
    → fits_role t b ≡ true
    → contains (assignees pairs) b.id ≡ true

pub assign_each-Served :
    (tasks : List TaskView) (available : List AgentView)
    → All (Served available (assign_each tasks available).1) (assign_each tasks available).0
unfolding assign_each
assign_each-Served [] available = tt
assign_each-Served (t ∷ tasks) available = elim (Bool-cases (waits t)) [
  | inr busy ↦
      rw busy ((λ w b m f. absurd (ground (arith, w, busy))), assign_each-Served tasks available)
  | inl ready ↦ elim (Option-cases (take_first t available)) [
    | inl e ↦
        rw (ready, e)
          (
            (λ w b m f. absurd (ground (arith, f, take_first-none t available e b m))),
            assign_each-Served tasks available,
          )
    | inr (p, e) ↦
        rw (ready, e)
          (
            (λ w b m f. absurd (ground (arith, w))),
            All-weaken (assign_each tasks p.1).0
                (λ u served w b m f.
                  serve p e u served w b f (take_first-split t available p.0 p.1 e b m))
                (assign_each-Served tasks p.1),
          )
  ]
]
  where
    serve :
        (p : AgentView × List AgentView)
        → take_first t available ≡ some p
        → (u : TaskView) → Served p.1 (assign_each tasks p.1).1 u
        → waits u ≡ true
        → (b : AgentView) → fits_role u b ≡ true
        → (b ≡ p.0) ⊎ In b p.1
        → contains (p.0.id ∷ assignees (assign_each tasks p.1).1) b.id ≡ true
    serve p e u served w b f (inl q) = ground (arith, ap (λ z. z.id) q, ==_refl b.id)
    serve p e u served w b f (inr n) = ground (arith, served w b n f)
