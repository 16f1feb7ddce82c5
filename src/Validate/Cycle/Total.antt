-- ===== src/Validate/Cycle/Total.antt =====
-- The search of the graph ends: one unit of fuel for each node, and one more, is enough.
use frank.Prelude.{
  ℕ, suc, zero, ◌≤◌, ◌<◌, ◌≡◌, refl, Bool, true, false, ◌||◌, ◌==◌, ==_iff, ==_refl, inl, inr,
  Option, some, List, [], ◌∷◌, ◌++◌, contains, length, Bool-cases, arith, if◌then◌else◌,
}
use frank.Validate.Cycle.{
  Graph, Marks, successors, enter, remove, unmarked, any_dependency, dfs_cycle, nodes, keys,
}

-- The nodes that are not marked yet.
abbrev pub fresh : List ℕ → List ℕ → ℕ
fresh [] marked = 0
fresh (x ∷ xs) marked = if contains marked x then fresh xs marked else suc (fresh xs marked)

abbrev Grows : List ℕ → List ℕ → Type 0
Grows vs ws = (x : ℕ) → contains vs x ≡ true → contains ws x ≡ true

fresh-Grows : (xs vs ws : List ℕ) → Grows vs ws → fresh xs ws ≤ fresh xs vs
fresh-Grows [] vs ws h = omega arith
fresh-Grows (x ∷ xs) vs ws h = elim (Bool-cases (contains vs x)) [
  | inl a ↦ ground (arith, a, h x a, fresh-Grows xs vs ws h)
  | inr a ↦ ground (arith, a, fresh-Grows xs vs ws h)
]

Grows-cons : (id : ℕ) (vs : List ℕ) → Grows vs (id ∷ vs)
Grows-cons id vs x h = ground (arith, h)

fresh-cons_marked :
    (xs vs : List ℕ) (x id : ℕ)
    → x ≡ id
    → contains vs id ≡ false
    → fresh xs (id ∷ vs) ≤ fresh xs vs
    → fresh (x ∷ xs) (id ∷ vs) < fresh (x ∷ xs) vs
fresh-cons_marked xs vs x id e b h = ground (arith, e, b, h, ==_refl id)

fresh-cons_other :
    (xs vs : List ℕ) (x id : ℕ)
    → id == x ≡ false
    → fresh xs (id ∷ vs) < fresh xs vs
    → fresh (x ∷ xs) (id ∷ vs) < fresh (x ∷ xs) vs
fresh-cons_other xs vs x id e h = ground (arith, e, h)

==_flip : (a b : ℕ) → a == b ≡ false → b == a ≡ false
==_flip a b h = elim (Bool-cases (b == a)) [
  | inl e ↦ absurd (ground (arith, (==_iff b a).0 e, ==_refl a))
  | inr e ↦ e
]

pub fresh-cons :
    (xs vs : List ℕ) (id : ℕ)
    → contains xs id ≡ true
    → contains vs id ≡ false
    → fresh xs (id ∷ vs) < fresh xs vs
fresh-cons [] vs id a b = absurd (ground (arith, a))
fresh-cons (x ∷ xs) vs id a b = elim (Bool-cases (x == id)) [
  | inl e ↦
      fresh-cons_marked xs vs x id ((==_iff x id).0 e) b
        (fresh-Grows xs vs (id ∷ vs) (Grows-cons id vs))
  | inr e ↦
      fresh-cons_other xs vs x id (==_flip x id e) (fresh-cons xs vs id (ground (arith, e, a)) b)
]

-- A search that ends, and marks no fewer nodes than it was given.
abbrev Answers : Marks → Option (Bool × Marks) → Type 0
Answers m o = (r : Bool × Marks) × (o ≡ some r) × Grows m.visited r.1.visited

any_dependency-Answers :
    (f : ℕ → Marks → Option (Bool × Marks)) (all_nodes : List ℕ) (fuel : ℕ)
    → ((id : ℕ) (m : Marks)
        → contains all_nodes id ≡ true
        → fresh all_nodes m.visited < fuel
        → Answers m (f id m))
    → (deps : List ℕ) (m : Marks) → ((d : ℕ) → contains deps d ≡ true → contains all_nodes d ≡ true)
    → fresh all_nodes m.visited < fuel
    → Answers m (any_dependency f deps m)
unfolding any_dependency
any_dependency-Answers f xs fuel below [] m known bound = ((false, m), refl, λ x h. h)
any_dependency-Answers f xs fuel below (dep ∷ deps) m known bound =
    go (below dep m (known dep (ground (arith, ==_refl dep))) bound)
      (any_dependency-Answers f xs fuel below deps)
  where
    go :
        Answers m (f dep m)
        → ((n : Marks)
            → ((d : ℕ) → contains deps d ≡ true → contains xs d ≡ true)
            → fresh xs n.visited < fuel
            → Answers n (any_dependency f deps n))
        → Answers m (any_dependency f (dep ∷ deps) m)
    go ((true, n), e, grows) rest = ((true, n), ground (arith, e), grows)
    go ((false, n), e, grows) rest =
        let (r, k, grows') =
          rest n (λ d c. known d (ground (arith, c)))
            (ground (arith, fresh-Grows xs m.visited n.visited grows)) in
        (r, ground (arith, e, k), λ x h. grows' x (grows x h))

pub contains-append :
    (xs ys : List ℕ) (d : ℕ) → contains (xs ++ ys) d ≡ contains xs d || contains ys d
contains-append [] ys d = refl
contains-append (x ∷ xs) ys d = ground (arith, contains-append xs ys d)

-- Every dependency is a node, and so is every key.
pub lookup-nodes :
    (g : Graph) (id d : ℕ) → contains (successors g id) d ≡ true → contains (nodes g) d ≡ true
lookup-nodes [] id d h = absurd (ground (arith, h))
lookup-nodes ((k, deps) ∷ g) id d h = elim (Bool-cases (k == id)) [
  | inl a ↦ ground (arith, a, h, contains-append deps (nodes g) d)
  | inr a ↦
      ground
        (arith, a, lookup-nodes g id d (ground (arith, a, h)), contains-append deps (nodes g) d)
]

dfs_cycle-Answers :
    (fuel : ℕ) (g : Graph) (id : ℕ) (m : Marks)
    → contains (nodes g) id ≡ true
    → fresh (nodes g) m.visited < fuel
    → Answers m (dfs_cycle fuel g id m)
unfolding dfs_cycle
dfs_cycle-Answers zero g id m known bound = absurd (omega (arith, bound))
dfs_cycle-Answers (suc fuel) g id m known bound = elim (Bool-cases (contains m.visiting id)) [
  | inl a ↦ ((true, m), ground (arith, a), λ x h. h)
  | inr a ↦ elim (Bool-cases (contains m.visited id)) [
    | inl b ↦ ((false, m), ground (arith, a, b), λ x h. h)
    | inr b ↦
        let (r, e, grows) =
          any_dependency-Answers (dfs_cycle fuel g) (nodes g) fuel (dfs_cycle-Answers fuel g)
            (successors g id) (enter id m) (lookup-nodes g id)
            (ground (arith, fresh-cons (nodes g) m.visited id known b)) in
        (
          (r.0, record r.1 { visiting = remove id r.1.visiting }),
          ground (arith, a, b, e),
          λ x h. grows x (ground (arith, h)),
        )
  ]
]

keys-nodes : (g : Graph) (id : ℕ) → contains (keys g) id ≡ true → contains (nodes g) id ≡ true
keys-nodes [] id h = h
keys-nodes ((k, deps) ∷ g) id h =
    ground (arith, h, keys-nodes g id, contains-append deps (nodes g) id)

pub fresh_unmarked : (xs : List ℕ) → fresh xs [] ≤ length xs
fresh_unmarked [] = omega arith
fresh_unmarked (x ∷ xs) = ground (arith, fresh_unmarked xs)

pub dfs_cycle-total :
    (g : Graph) (root : ℕ)
    → contains (keys g) root ≡ true
    → (r : Bool × Marks) × (dfs_cycle (suc (length (nodes g))) g root unmarked ≡ some r)
dfs_cycle-total g root h =
    let (r, e, grows) =
      dfs_cycle-Answers (suc (length (nodes g))) g root unmarked (keys-nodes g root h)
        (omega (arith, fresh_unmarked (nodes g))) in
    (r, e)
