-- ===== src/Tasks/Machine/Added.antt =====
-- The graph of the tasks' dependencies, when a task is added on which nothing depends yet.
use frank.Prelude.{
  ℕ, ◌≡◌, refl, ap, sym, subst, true, false, not, ◌||◌, ◌==◌, ==_iff, List, [], ◌∷◌, ◌++◌, All, any,
  contains, Bool-cases, inl, inr, arith,
}
use frank.Protocol.Records.{TaskView, TaskSpec}
use frank.Validate.Cycle.{Graph, Edge, successors, nodes}
use frank.Validate.Cycle.Sound.{Reaches, one, more, Cyclic}
use frank.Validate.Cycle.Total.{contains-append, lookup-nodes}
use frank.Validate.Checks.{task_entries, in_mission}
use frank.Tasks.Locks.Unique.{IsUnique}

-- A new node, on which nothing depends yet.
module _ (k : ℕ) (deps : List ℕ) (g : Graph) (out : contains (nodes g) k ≡ false)
    (new : contains deps k ≡ false) where
  not_Edge : (a : ℕ) → contains (successors ((k, deps) ∷ g) a) k ≡ false
  not_Edge a = elim (Bool-cases (contains (successors ((k, deps) ∷ g) a) k)) [
    | inr f ↦ f
    | inl t ↦ elim (Bool-cases (k == a)) [
      | inl e ↦ absurd (ground (arith, e, t, new))
      | inr e ↦ absurd (ground (arith, out, lookup-nodes g a k (ground (arith, e, t))))
    ]
  ]

  not_Reaches : (a : ℕ) → ¬ Reaches ((k, deps) ∷ g) a k
  not_Reaches a (one e) = ground (arith, not_Edge a, e)
  not_Reaches a (more {b = b} e r) = not_Reaches b r

  Reaches-old : (a b : ℕ) → (k == a) ≡ false → Reaches ((k, deps) ∷ g) a b → Reaches g a b
  Reaches-old a b apart (one e) = one (ground (arith, apart, e))
  Reaches-old a b apart (more {b = m} e r) = elim (Bool-cases (k == m)) [
    | inl q ↦ absurd (
        ground
          (arith, not_Edge a, subst (λ n. Edge ((k, deps) ∷ g) a n) (sym ((==_iff k m).0 q)) e))
    | inr q ↦ more (ground (arith, apart, e)) (Reaches-old m b q r)
  ]

  pub Cyclic-old : Cyclic ((k, deps) ∷ g) → Cyclic g
  Cyclic-old (c, r) = elim (Bool-cases (k == c)) [
    | inl e ↦ absurd (not_Reaches c (subst (Reaches ((k, deps) ∷ g) c) (sym ((==_iff k c).0 e)) r))
    | inr e ↦ (c, Reaches-old c c e r)
  ]

pub entries-append :
    (ts : List TaskView) (t : TaskView)
    → task_entries (ts ++ (t ∷ [])) ≡ (t.id, t.dependencies) ∷ task_entries ts
entries-append [] t = refl
entries-append (u ∷ ts) t = ap (λ g. g ++ ((u.id, u.dependencies) ∷ [])) (entries-append ts t)

nodes-append :
    (g h : Graph) (x : ℕ)
    → contains (nodes (g ++ h)) x ≡ contains (nodes g) x || contains (nodes h) x
nodes-append [] h x = refl
nodes-append ((k, deps) ∷ g) h x = ground (
  arith,
  nodes-append g h x,
  contains-append deps (nodes (g ++ h)) x,
  contains-append deps (nodes g) x,
)

pub absent-nodes :
    (k : ℕ) (ts : List TaskView)
    → contains (nodes (task_entries ts)) k ≡ false
    → All (λ u. (u.id == k) ≡ false) ts
absent-nodes k [] h = tt
absent-nodes k (t ∷ ts) h = (
  ground (arith, h, nodes-append (task_entries ts) ((t.id, t.dependencies) ∷ []) k),
  absent-nodes k ts
      (ground (arith, h, nodes-append (task_entries ts) ((t.id, t.dependencies) ∷ []) k)),
)

pub IsUnique-append :
    (t : TaskView) (ts : List TaskView)
    → All (λ u. (u.id == t.id) ≡ false) ts
    → IsUnique ts
    → IsUnique (ts ++ (t ∷ []))
IsUnique-append t [] a u = (tt, tt)
IsUnique-append t (x ∷ ts) a u = (one_more ts u.0, IsUnique-append t ts a.1 u.1)
  where
    apart : (t.id == x.id) ≡ false
    apart = ground (arith, a.0)

    one_more :
        (us : List TaskView)
        → All (λ v. (v.id == x.id) ≡ false) us
        → All (λ v. (v.id == x.id) ≡ false) (us ++ (t ∷ []))
    one_more [] h = (apart, tt)
    one_more (v ∷ us) h = (h.0, one_more us h.1)

in_mission-nodes :
    (spec : TaskSpec) (ts : List TaskView) (k : ℕ)
    → in_mission spec ts k ≡ true
    → contains (nodes (task_entries ts)) k ≡ true
in_mission-nodes spec [] k h = absurd (cc)
in_mission-nodes spec (t ∷ ts) k h = ground (
  arith,
  h,
  in_mission-nodes spec ts k,
  nodes-append (task_entries ts) ((t.id, t.dependencies) ∷ []) k,
)

pub known_deps :
    (spec : TaskSpec) (ts : List TaskView) (k : ℕ) (deps : List ℕ)
    → any (λ d. not (in_mission spec ts d)) deps ≡ false
    → contains (nodes (task_entries ts)) k ≡ false
    → contains deps k ≡ false
known_deps spec ts k [] h f = refl
known_deps spec ts k (d ∷ deps) h f = elim (Bool-cases (d == k)) [
  | inl e ↦
      let q = (==_iff d k).0 e in
      let inside : in_mission spec ts k ≡ true =
        subst (λ n. in_mission spec ts n ≡ true) q (ground (arith, h)) in
      absurd (ground (arith, f, in_mission-nodes spec ts k inside))
  | inr e ↦ ground (arith, e, known_deps spec ts k deps (ground (arith, h)) f)
]
