-- ===== src/Validate/Cycle/View.antt =====
-- One call of the search, opened, and the marks that it restores.
use frank.Prelude.{
  ℕ, suc, zero, ◌≡◌, refl, ap, ◌∙◌, Bool, true, false, inl, inr, Option, none, some, List, [], ◌∷◌,
  contains, Bool-cases, Option-cases, arith,
}
use frank.Validate.Cycle.{Graph, Marks, successors, remove, enter, any_dependency, dfs_cycle}

-- What a call that ends has done.
pub data Visit (g : Graph) (fuel id : ℕ) (m : Marks) (r : Bool × Marks) : Type 0 where
  found : contains m.visiting id ≡ true → r ≡ (true, m) → Visit g fuel id m r
  known :
      contains m.visiting id ≡ false
      → contains m.visited id ≡ true
      → r ≡ (false, m)
      → Visit g fuel id m r
  opened :
      contains m.visiting id ≡ false
      → contains m.visited id ≡ false
      → (q : Bool × Marks)
      → any_dependency (dfs_cycle fuel g) (successors g id) (enter id m) ≡ some q
      → r ≡ (q.0, record q.1 { visiting = remove id q.1.visiting })
      → Visit g fuel id m r

pub visit :
    (g : Graph) (fuel id : ℕ) (m : Marks) (r : Bool × Marks)
    → dfs_cycle (suc fuel) g id m ≡ some r
    → Visit g fuel id m r
unfolding dfs_cycle
visit g fuel id m r h = elim (Bool-cases (contains m.visiting id)) [
  | inl a ↦ found a (ground arith)
  | inr a ↦ elim (Bool-cases (contains m.visited id)) [
    | inl b ↦ known a b (ground arith)
    | inr b ↦
        elim (Option-cases (any_dependency (dfs_cycle fuel g) (successors g id) (enter id m))) [
          | inl e ↦ absurd (ground (arith, e))
          | inr (q, e) ↦ opened a b q e (ground (arith, e))
        ]
  ]
]

remove_absent : (id : ℕ) (ids : List ℕ) → contains ids id ≡ false → remove id ids ≡ ids
remove_absent id [] h = refl
remove_absent id (x ∷ xs) h = ground (arith, remove_absent id xs)

remove_head : (id : ℕ) (ids : List ℕ) → contains ids id ≡ false → remove id (id ∷ ids) ≡ ids
remove_head id ids h = ground (arith, remove_absent id ids h)

pub any_dependency-step :
    (f : ℕ → Marks → Option (Bool × Marks)) (dep : ℕ) (deps : List ℕ) (m m' : Marks)
    → any_dependency f (dep ∷ deps) m ≡ some (false, m')
    → (n : Marks) × (f dep m ≡ some (false, n)) × (any_dependency f deps n ≡ some (false, m'))
unfolding any_dependency
any_dependency-step f dep deps m m' h = go (f dep m) refl
  where
    go :
        (o : Option (Bool × Marks))
        → f dep m ≡ o
        → (n : Marks) × (f dep m ≡ some (false, n)) × (any_dependency f deps n ≡ some (false, m'))
    go none e = absurd (ground (arith, e))
    go (some (true, n)) e = absurd (ground (arith, e))
    go (some (false, n)) e = (n, e, ground (arith, e))

-- A search that found nothing leaves the set of open nodes as it was.
pub any_dependency-restores :
    (f : ℕ → Marks → Option (Bool × Marks))
    → ((id : ℕ) (m m' : Marks) → f id m ≡ some (false, m') → m'.visiting ≡ m.visiting)
    → (deps : List ℕ) (m m' : Marks) → any_dependency f deps m ≡ some (false, m')
    → m'.visiting ≡ m.visiting
unfolding any_dependency
any_dependency-restores f restores [] m m' h = ground arith
any_dependency-restores f restores (dep ∷ deps) m m' h =
    let (n, e, k) = any_dependency-step f dep deps m m' h in
    any_dependency-restores f restores deps n m' k ∙ restores dep m n e

Visit-restores :
    (fuel : ℕ) (g : Graph) (id : ℕ) (m m' : Marks)
    → ((x : ℕ) (n n' : Marks) → dfs_cycle fuel g x n ≡ some (false, n') → n'.visiting ≡ n.visiting)
    → Visit g fuel id m (false, m')
    → m'.visiting ≡ m.visiting
Visit-restores fuel g id m m' below (found a e) = cc
Visit-restores fuel g id m m' below (known a b e) = ground (arith, e)
Visit-restores fuel g id m m' below (opened a b q k e) =
    let k' : any_dependency (dfs_cycle fuel g) (successors g id) (enter id m) ≡ some (false, q.1) =
      ground (arith, e, k) in
    let inner =
      any_dependency-restores (dfs_cycle fuel g) below (successors g id) (enter id m) q.1 k' in
    let outer : m'.visiting ≡ remove id q.1.visiting = ground (arith, e) in
    outer ∙ ap (remove id) inner ∙ remove_head id m.visiting a

pub dfs_cycle-restores :
    (fuel : ℕ) (g : Graph) (id : ℕ) (m m' : Marks)
    → dfs_cycle fuel g id m ≡ some (false, m')
    → m'.visiting ≡ m.visiting
unfolding dfs_cycle
dfs_cycle-restores zero g id m m' h = cc
dfs_cycle-restores (suc fuel) g id m m' h =
    Visit-restores fuel g id m m' (dfs_cycle-restores fuel g) (visit g fuel id m (false, m') h)
