-- ===== src/Validate/Cycle/Sound.antt =====
-- A search that answers true has met a cycle.
use frank.Prelude.{
  ℕ, suc, zero, ◌≡◌, refl, sym, subst, Bool, true, false, ◌==◌, ==_iff, ==_refl, ◌⊎◌, inl, inr,
  Option, none, some, List, [], ◌∷◌, contains, Bool-cases, arith,
}
use frank.Validate.Cycle.{Graph, Marks, Edge, successors, enter, any_dependency, dfs_cycle}
use frank.Validate.Cycle.View.{Visit, found, known, opened, visit, dfs_cycle-restores}

-- A chain of one or more dependencies.
pub data Reaches (g : Graph) : ℕ → ℕ → Type 0 where
  one : {a b : ℕ} → Edge g a b → Reaches g a b
  more : {a b c : ℕ} → Edge g a b → Reaches g b c → Reaches g a c

pub Reaches-snoc : (g : Graph) {a b c : ℕ} → Reaches g a b → Edge g b c → Reaches g a c
Reaches-snoc g (one e) f = more e (one f)
Reaches-snoc g (more e r) f = more e (Reaches-snoc g r f)

abbrev pub Cyclic : Graph → Type 0
Cyclic g = (c : ℕ) × Reaches g c c

-- Every open node is the node at hand or reaches it.
abbrev Opens : Graph → List ℕ → ℕ → Type 0
Opens g open_nodes id = (v : ℕ) → contains open_nodes v ≡ true → (v ≡ id) ⊎ Reaches g v id

abbrev Leads : Graph → List ℕ → ℕ → Type 0
Leads g open_nodes id = (v : ℕ) → contains open_nodes v ≡ true → Reaches g v id

Leads-dependency :
    (g : Graph) (open_nodes : List ℕ) (id dep : ℕ)
    → Opens g open_nodes id
    → Edge g id dep
    → Leads g open_nodes dep
Leads-dependency g open_nodes id dep opens e v c = go (opens v c)
  where
    go : (v ≡ id) ⊎ Reaches g v id → Reaches g v dep
    go (inl p) = one (subst (λ x. Edge g x dep) (sym p) e)
    go (inr r) = Reaches-snoc g r e

Opens-enter :
    (g : Graph) (id : ℕ) (m : Marks) → Leads g m.visiting id → Opens g (enter id m).visiting id
Opens-enter g id m leads v c = elim (Bool-cases (id == v)) [
  | inl same ↦ inl (sym ((==_iff id v).0 same))
  | inr other ↦ inr (leads v (ground (arith, other)))
]

any_dependency-true :
    (f : ℕ → Marks → Option (Bool × Marks)) (dep : ℕ) (deps : List ℕ) (m m' : Marks)
    → any_dependency f (dep ∷ deps) m ≡ some (true, m')
    → ((n : Marks) × (f dep m ≡ some (true, n)))
      ⊎ ((n : Marks) × (f dep m ≡ some (false, n)) × (any_dependency f deps n ≡ some (true, m')))
unfolding any_dependency
any_dependency-true f dep deps m m' h = go (f dep m) refl
  where
    go :
        (o : Option (Bool × Marks))
        → f dep m ≡ o
        → ((n : Marks) × (f dep m ≡ some (true, n)))
          ⊎ ((n : Marks) × (f dep m ≡ some (false, n))
              × (any_dependency f deps n ≡ some (true, m')))
    go none e = absurd (ground (arith, e))
    go (some (true, n)) e = inl (n, e)
    go (some (false, n)) e = inr (n, e, ground (arith, e))

module _ (fuel : ℕ) (g : Graph) where
  any_dependency_sound :
      (below : (x : ℕ) (n n' : Marks)
        → dfs_cycle fuel g x n ≡ some (true, n')
        → Leads g n.visiting x
        → Cyclic g)
      (id : ℕ) (deps : List ℕ) (m m' : Marks)
      → ((d : ℕ) → contains deps d ≡ true → Edge g id d)
      → any_dependency (dfs_cycle fuel g) deps m ≡ some (true, m')
      → Opens g m.visiting id
      → Cyclic g
  unfolding any_dependency
  any_dependency_sound below id [] m m' edges h opens = absurd (ground arith)
  any_dependency_sound below id (dep ∷ deps) m m' edges h opens =
      elim (any_dependency-true (dfs_cycle fuel g) dep deps m m' h) [
        | inl (n, e) ↦
            below dep m n e
              (Leads-dependency g m.visiting id dep opens (edges dep (ground (arith, ==_refl dep))))
        | inr (n, e, k) ↦
            any_dependency_sound below id deps n m' (λ d c. edges d (ground (arith, c))) k
              (subst (λ vs. Opens g vs id) (sym (dfs_cycle-restores fuel g dep m n e)) opens)
      ]

  Visit-sound :
      (below : (x : ℕ) (n n' : Marks)
        → dfs_cycle fuel g x n ≡ some (true, n')
        → Leads g n.visiting x
        → Cyclic g)
      (id : ℕ) (m m' : Marks)
      → Visit g fuel id m (true, m')
      → Leads g m.visiting id
      → Cyclic g
  Visit-sound below id m m' (found a e) leads = (id, leads id a)
  Visit-sound below id m m' (known a b e) leads = absurd (ground (arith, e))
  Visit-sound below id m m' (opened a b q k e) leads =
      any_dependency_sound below id (successors g id) (enter id m) q.1 (λ d c. c)
        (ground (arith, e, k)) (Opens-enter g id m leads)

-- Where every open node leads to the node that is visited, the answer true comes with a cycle.
pub dfs_cycle_sound :
    (fuel : ℕ) (g : Graph) (id : ℕ) (m m' : Marks)
    → dfs_cycle fuel g id m ≡ some (true, m')
    → ((v : ℕ) → contains m.visiting v ≡ true → Reaches g v id)
    → Cyclic g
unfolding dfs_cycle
dfs_cycle_sound zero g id m m' h leads = absurd (cc)
dfs_cycle_sound (suc fuel) g id m m' h leads =
    Visit-sound fuel g (dfs_cycle_sound fuel g) id m m' (visit g fuel id m (true, m') h) leads
