-- ===== src/Tasks/Machine/Entries.antt =====
-- The graph of the tasks' dependencies, when a task is replaced and when one is added.
use frank.Prelude.{
  ℕ, ◌≡◌, refl, ap, sym, subst, ◌∙◌, true, false, ◌==◌, ==_iff, ==_refl, Option, none, some, List,
  [], ◌∷◌, ◌++◌, All, contains, modify_first, or_else, is_some, Bool-cases, inl, inr, if◌then◌else◌,
  arith,
}
use frank.Protocol.Records.{TaskView}
use frank.Validate.Cycle.{Graph, lookup, successors}
use frank.Validate.Cycle.Sound.{Reaches, one, more, Cyclic}
use frank.Validate.Checks.{task_entries}
use frank.Tasks.Feed.{has_id, find_task}
use frank.Tasks.Locks.Unique.{IsUnique}
use frank.Tasks.Machine.Shape.{shape}

-- Graphs with the same successors have the same cycles.
Reaches-same :
    (g h : Graph)
    → ((x : ℕ) → successors g x ≡ successors h x)
    → {a b : ℕ} → Reaches g a b
    → Reaches h a b
Reaches-same g h same {a} {b} (one e) = one (ap (λ xs. contains xs b) (sym (same a)) ∙ e)
Reaches-same g h same {a} (more {b = m} e r) =
    more (ap (λ xs. contains xs m) (sym (same a)) ∙ e) (Reaches-same g h same r)

pub Cyclic-same : (g h : Graph) → ((x : ℕ) → successors g x ≡ successors h x) → Cyclic g → Cyclic h
Cyclic-same g h same (c, r) = (c, Reaches-same g h same r)

-- The same shape means the same graph, and the same distinctness.
backwards : Graph → Graph
backwards [] = []
backwards (e ∷ g) = backwards g ++ (e ∷ [])

entries-shape : (ts : List TaskView) → task_entries ts ≡ backwards (shape ts)
unfolding backwards
entries-shape [] = refl
entries-shape (t ∷ ts) = ap (λ g. g ++ ((t.id, t.dependencies) ∷ [])) (entries-shape ts)

pub entries-same : (ts us : List TaskView) → shape us ≡ shape ts → task_entries us ≡ task_entries ts
entries-same ts us e = entries-shape us ∙ ap backwards e ∙ sym (entries-shape ts)

absent-same :
    (a : ℕ) (ts us : List TaskView)
    → shape us ≡ shape ts
    → All (λ u. (u.id == a) ≡ false) ts
    → All (λ u. (u.id == a) ≡ false) us
absent-same a [] [] e h = tt
absent-same a [] (u ∷ us) e h = absurd (cc)
absent-same a (t ∷ ts) [] e h = absurd (cc)
absent-same a (t ∷ ts) (u ∷ us) e h =
    (ground (arith, e, h.0), absent-same a ts us (ground (arith, e)) h.1)

pub IsUnique-same : (ts us : List TaskView) → shape us ≡ shape ts → IsUnique ts → IsUnique us
IsUnique-same [] [] e h = tt
IsUnique-same [] (u ∷ us) e h = absurd (cc)
IsUnique-same (t ∷ ts) [] e h = absurd (cc)
IsUnique-same (t ∷ ts) (u ∷ us) e h =
    let same_id : u.id ≡ t.id = ground (arith, e) in
    (
      subst (λ n. All (λ v. (v.id == n) ≡ false) us) (sym same_id)
          (absent-same t.id ts us (ground (arith, e)) h.0),
      IsUnique-same ts us (ground (arith, e)) h.1,
    )

-- The dependencies that a lookup among the tasks gives.
abbrev deps_of : Option TaskView → Option (List ℕ)
deps_of none = none
deps_of (some t) = some t.dependencies

lookup-append : (g h : Graph) (x : ℕ) → lookup x (g ++ h) ≡ or_else (lookup x g) (lookup x h)
lookup-append [] h x = refl
lookup-append ((k, deps) ∷ g) h x = ground (arith, lookup-append g h x)

find-absent :
    (x : ℕ) (ts : List TaskView) → All (λ u. (u.id == x) ≡ false) ts → find_task x ts ≡ none
find-absent x [] h = refl
find-absent x (t ∷ ts) h = ground (arith, h.0, find-absent x ts h.1)

lookup-entries :
    (x : ℕ) (ts : List TaskView)
    → IsUnique ts
    → lookup x (task_entries ts) ≡ deps_of (find_task x ts)
lookup-entries x [] u = refl
lookup-entries x (t ∷ ts) u = elim (Bool-cases (t.id == x)) [
  | inl e ↦
      let q = (==_iff t.id x).0 e in
      let absent = subst (λ n. All (λ v. (v.id == n) ≡ false) ts) q u.0 in
      ground (
        arith,
        e,
        lookup-append (task_entries ts) ((t.id, t.dependencies) ∷ []) x,
        lookup-entries x ts u.1,
        find-absent x ts absent,
      )
  | inr e ↦ ground (
    arith,
    e,
    lookup-append (task_entries ts) ((t.id, t.dependencies) ∷ []) x,
    lookup-entries x ts u.1,
  )
]

module _ (id : ℕ) (c : TaskView) (c_id : c.id ≡ id) where
  find-replaced :
      (x : ℕ) (ts : List TaskView)
      → is_some (find_task id ts) ≡ true
      → find_task x (modify_first (has_id id) (λ _. c) ts)
        ≡ (if id == x then some c else find_task x ts)
  find-replaced x [] h = absurd (cc)
  find-replaced x (t ∷ ts) h = ground (arith, h, c_id, ==_refl id, find-replaced x ts)

  absent-replaced :
      (a : ℕ) (ts : List TaskView)
      → All (λ u. (u.id == a) ≡ false) ts
      → All (λ u. (u.id == a) ≡ false) (modify_first (has_id id) (λ _. c) ts)
  absent-replaced a [] h = tt
  absent-replaced a (t ∷ ts) h = elim (Bool-cases (t.id == id)) [
    | inl e ↦ rw e (ground (arith, e, c_id, h.0), h.1)
    | inr e ↦ rw e (h.0, absent-replaced a ts h.1)
  ]

  pub IsUnique-replaced :
      (ts : List TaskView) → IsUnique ts → IsUnique (modify_first (has_id id) (λ _. c) ts)
  IsUnique-replaced [] u = tt
  IsUnique-replaced (t ∷ ts) u = elim (Bool-cases (t.id == id)) [
    | inl e ↦
        let q : t.id ≡ c.id = (==_iff t.id id).0 e ∙ sym c_id in
        rw e (subst (λ n. All (λ v. (v.id == n) ≡ false) ts) q u.0, u.1)
    | inr e ↦ rw e (absent-replaced t.id ts u.0, IsUnique-replaced ts u.1)
  ]

  pub successors-replaced :
      (ts : List TaskView)
      → IsUnique ts
      → is_some (find_task id ts) ≡ true
      → (x : ℕ)
      → successors (task_entries (modify_first (has_id id) (λ _. c) ts)) x
        ≡ successors ((c.id, c.dependencies) ∷ task_entries ts) x
  successors-replaced ts u h x = ground (
    arith,
    c_id,
    find-replaced x ts h,
    lookup-entries x ts u,
    lookup-entries x (modify_first (has_id id) (λ _. c) ts) (IsUnique-replaced ts u),
  )
