-- ===== src/Validate/Cycle/Decides.antt =====
-- The answer of the search, for a whole graph.
use frank.Prelude.{
  ℕ, suc, ◌≡◌, refl, Bool, true, false, ◌==◌, ==_iff, ==_refl, inl, inr, ◌↔◌, Option, none, some,
  List, [], ◌∷◌, contains, length, Bool-cases, arith, if◌then◌else◌, unwrap_or, subst,
}
use frank.Validate.Cycle.{Graph, Marks, Edge, unmarked, dfs_cycle, nodes, keys, scan, has_cycle}
use frank.Validate.Cycle.Sound.{Reaches, Cyclic, dfs_cycle_sound}
use frank.Validate.Cycle.Complete.{Ends, Ends-acyclic, dfs_cycle-Ends, first_step}
use frank.Validate.Cycle.Total.{dfs_cycle-total}

-- What the loop over the roots answers: a cycle, or that all their chains end.
data Scanned (g : Graph) (roots : List ℕ) : Option Bool → Type 0 where
  cyclic : Cyclic g → Scanned g roots (some true)
  clear : ((r : ℕ) → contains roots r ≡ true → Ends g r) → Scanned g roots (some false)

scan-Scanned :
    (g : Graph) (roots : List ℕ)
    → ((r : ℕ) → contains roots r ≡ true → contains (keys g) r ≡ true)
    → Scanned g roots (scan g roots)
unfolding scan
scan-Scanned g [] known = clear (λ r h. absurd (ground (arith, h)))
scan-Scanned g (root ∷ roots) known =
    go (dfs_cycle (suc (length (nodes g))) g root unmarked) refl
      (dfs_cycle-total g root (known root (ground (arith, ==_refl root)))) (scan g roots) refl
      (scan-Scanned g roots (λ r h. known r (ground (arith, h))))
  where
    go :
        (o : Option (Bool × Marks))
        → dfs_cycle (suc (length (nodes g))) g root unmarked ≡ o
        → ((r : Bool × Marks) × (dfs_cycle (suc (length (nodes g))) g root unmarked ≡ some r))
        → (rest : Option Bool) → scan g roots ≡ rest
        → Scanned g roots rest
        → Scanned g
            (root ∷ roots)
            (elim o [ none ↦ none | some (cycle, _) ↦ if cycle then some true else rest ])
    go none e (r, k) rest p h = absurd (ground (arith, e, k))
    go (some (true, m)) e t rest p h = cyclic (
        dfs_cycle_sound (suc (length (nodes g))) g root unmarked m e
          (λ v c. absurd (ground (arith, c))))
    go (some (false, m)) e t _ p (cyclic c) = cyclic c
    go (some (false, m)) e t _ p (clear h) = clear (λ r c. elim (Bool-cases (root == r)) [
      | inl same ↦
          subst (Ends g) ((==_iff root r).0 same)
            (dfs_cycle-Ends (suc (length (nodes g))) g root unmarked m e
              (λ v c. absurd (ground (arith, c)))).0
      | inr other ↦ h r (ground (arith, other, c))
    ])

key_of_Edge : (g : Graph) (a b : ℕ) → Edge g a b → contains (keys g) a ≡ true
key_of_Edge [] a b e = absurd (ground (arith, e))
key_of_Edge ((k, deps) ∷ g) a b e = elim (Bool-cases (k == a)) [
  | inl t ↦ ground (arith, t)
  | inr t ↦ ground (arith, t, key_of_Edge g a b (ground (arith, t, e)))
]

Ends-not_Cyclic : (g : Graph) → ((r : ℕ) → contains (keys g) r ≡ true → Ends g r) → ¬ Cyclic g
Ends-not_Cyclic g h (c, r) = Ends-acyclic g c (h c (key_of_Edge g c (start r).0 (start r).1)) r
  where
    start : Reaches g c c → (b : ℕ) × Edge g c b
    start r = elim (first_step g r) [ inl e ↦ (c, e) | inr (b, e, _) ↦ (b, e) ]

-- On every graph the search ends before its fuel runs out, and what it answers is true exactly where
-- the graph of dependencies has a cycle.
pub has_cycle-decides :
    (g : Graph) → ((has_cycle g ≡ true) ↔ Cyclic g) × (scan g (keys g) ≡ some (has_cycle g))
unfolding has_cycle
has_cycle-decides g = go (scan g (keys g)) (scan-Scanned g (keys g) (λ r h. h))
  where
    go :
        (o : Option Bool)
        → Scanned g (keys g) o
        → ((unwrap_or o true ≡ true) ↔ Cyclic g) × (o ≡ some (unwrap_or o true))
    go _ (cyclic c) = ((λ h. c, λ d. refl), refl)
    go _ (clear h) = ((λ e. absurd (ground (arith, e)), λ c. absurd (Ends-not_Cyclic g h c)), refl)
