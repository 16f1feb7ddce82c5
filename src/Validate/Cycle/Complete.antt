-- ===== src/Validate/Cycle/Complete.antt =====
-- A search that answers false has seen that no chain of dependencies runs on for ever.
use frank.Prelude.{
  ℕ, suc, zero, ◌≡◌, subst, ap, true, false, ◌==◌, ==_iff, ◌⊎◌, inl, inr, some, List, [], ◌∷◌,
  contains, Bool-cases, arith,
}
use frank.Validate.Cycle.{Graph, Marks, Edge, successors, enter, any_dependency, dfs_cycle}
use frank.Validate.Cycle.View.{
  Visit, found, known, opened, visit, any_dependency-step, any_dependency-restores,
  dfs_cycle-restores,
}
use frank.Validate.Cycle.Sound.{Reaches, one, more, Reaches-snoc}

-- Every chain of dependencies from the node ends.
pub data Ends (g : Graph) : ℕ → Type 0 where
  ends : (x : ℕ) → ((y : ℕ) → Edge g x y → Ends g y) → Ends g x

pub first_step :
    (g : Graph) {a c : ℕ} → Reaches g a c → Edge g a c ⊎ ((b : ℕ) × Edge g a b × Reaches g b c)
first_step g (one e) = inl e
first_step g (more {b = b} e r) = inr (b, e, r)

-- Where all chains end there is no cycle.
pub Ends-acyclic : (g : Graph) (x : ℕ) → Ends g x → ¬ Reaches g x x
Ends-acyclic g x (ends _ h) r = elim (first_step g r) [
  | inl e ↦ Ends-acyclic g x (h x e) (one e)
  | inr (y, e, s) ↦ Ends-acyclic g y (h y e) (Reaches-snoc g s e)
]

-- The nodes that are marked and closed.
abbrev Closed : Graph → Marks → Type 0
Closed g m = (v : ℕ) → contains m.visited v ≡ true → contains m.visiting v ≡ false → Ends g v

Closed-enter : (g : Graph) (id : ℕ) (m : Marks) → Closed g m → Closed g (enter id m)
Closed-enter g id m closed v a b = closed v (ground (arith, a, b)) (ground (arith, a, b))

module _ (fuel : ℕ) (g : Graph) where
  any_dependency-Ends :
      (below : (x : ℕ) (n n' : Marks)
        → dfs_cycle fuel g x n ≡ some (false, n')
        → Closed g n
        → Ends g x × Closed g n')
      (deps : List ℕ) (m m' : Marks)
      → any_dependency (dfs_cycle fuel g) deps m ≡ some (false, m')
      → Closed g m
      → ((d : ℕ) → contains deps d ≡ true → Ends g d) × Closed g m'
  unfolding any_dependency
  any_dependency-Ends below [] m m' h closed =
      let e : m ≡ m' = ground arith in
      (λ d c. absurd (ground (arith, c)), subst (Closed g) e closed)
  any_dependency-Ends below (dep ∷ deps) m m' h closed =
      let (n, e, k) = any_dependency-step (dfs_cycle fuel g) dep deps m m' h in
      let (first, closed') = below dep m n e closed in
      let (rest, closed'') = any_dependency-Ends below deps n m' k closed' in
      (
        λ d c. elim (Bool-cases (dep == d)) [
          | inl same ↦ subst (Ends g) ((==_iff dep d).0 same) first
          | inr other ↦ rest d (ground (arith, other, c))
        ],
        closed'',
      )

  Visit-Ends :
      (below : (x : ℕ) (n n' : Marks)
        → dfs_cycle fuel g x n ≡ some (false, n')
        → Closed g n
        → Ends g x × Closed g n')
      (id : ℕ) (m m' : Marks)
      → m'.visiting ≡ m.visiting
      → Visit g fuel id m (false, m')
      → Closed g m
      → Ends g id × Closed g m'
  Visit-Ends below id m m' same (found a e) closed = absurd (ground (arith, e))
  Visit-Ends below id m m' same (known a b e) closed =
      let q : m ≡ m' = ground (arith, e) in (closed id b a, subst (Closed g) q closed)
  Visit-Ends below id m m' same (opened a b q k e) closed =
      let k' : any_dependency (dfs_cycle fuel g) (successors g id) (enter id m)
          ≡ some (false, q.1) =
        ground (arith, e, k) in
      let (deps, closed') =
        any_dependency-Ends below (successors g id) (enter id m) q.1 k'
          (Closed-enter g id m closed) in
      let here : Ends g id = ends id deps in
      let inner =
        any_dependency-restores (dfs_cycle fuel g) (dfs_cycle-restores fuel g) (successors g id)
          (enter id m) q.1 k' in
      let visited : m'.visited ≡ q.1.visited = ground (arith, e) in
      (
        here,
        λ v c d. elim (Bool-cases (id == v)) [
          | inl same_id ↦ subst (Ends g) ((==_iff id v).0 same_id) here
          | inr other ↦
              closed' v (rw (← visited) c)
                (rw inner (ground (arith, other, ap (λ vs. contains vs v) same, d)))
        ],
      )

pub dfs_cycle-Ends :
    (fuel : ℕ) (g : Graph) (id : ℕ) (m m' : Marks)
    → dfs_cycle fuel g id m ≡ some (false, m')
    → Closed g m
    → Ends g id × Closed g m'
unfolding dfs_cycle
dfs_cycle-Ends zero g id m m' h closed = absurd (cc)
dfs_cycle-Ends (suc fuel) g id m m' h closed =
    Visit-Ends fuel g (dfs_cycle-Ends fuel g) id m m' (dfs_cycle-restores (suc fuel) g id m m' h)
      (visit g fuel id m (false, m') h) closed
