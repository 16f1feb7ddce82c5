-- ===== src/Validate/Checks/Accepted.antt =====
-- What `validate_task_view` accepts, in words of its own.
use frank.Prelude.{
  ℕ, ◌≡◌, ◌≢◌, ◌≤◌, refl, subst, Bool, true, false, not, ◌==◌, ==_iff, ==_refl, ◌||◌, ◌&&◌, inl,
  inr, ◌↔◌, Option, none, some, List, [], ◌∷◌, any, any-In, In, In-any, contains, length, ltb,
  Result, ok, OrchestratorError, ◌>>◌, refuse, Bool-cases, arith,
}
use frank.Protocol.Records.{TaskView}
use frank.Validate.{valid_agent_text, valid_content_text}
use frank.Validate.Cycle.{has_cycle}
use frank.Validate.Cycle.Sound.{Cyclic}
use frank.Validate.Cycle.Decides.{has_cycle-decides}
use frank.Validate.Parents.{is_parent_of, validate_parent_link}
use frank.Validate.Parents.Ancestors.{Above, is_parent_of-decides}
use frank.Validate.Checks.{
  max_message_body_bytes, has_duplicate, dependency_graph, exists_in, crosses_mission, on_ancestor,
  on_descendant, validate_task_view,
}

any-false {ℓ} :
    {A : Type ℓ} (p : A → Bool) (xs : List A)
    → (any p xs ≡ false) ↔ ((x : A) → In x xs → p x ≡ false)
any-false p xs = (
  λ h x m. elim (Bool-cases (p x)) [
    | inl t ↦ absurd (ground (arith, h, In-any p xs x m t))
    | inr f ↦ f
  ],
  λ h. elim (Bool-cases (any p xs)) [
    | inl t ↦ let (x, m, e) = any-In p xs t in absurd (ground (arith, e, h x m))
    | inr f ↦ f
  ],
)

false_iff_not {ℓ} : {P : Type ℓ} (b : Bool) → (b ≡ true) ↔ P → (b ≡ false) ↔ (¬ P)
false_iff_not true (f, g) = (λ h. absurd (ground (arith, h)), λ n. absurd (n (f refl)))
false_iff_not false (f, g) = (λ h p. ground (arith, g p), λ n. refl)

-- No identifier stands twice in a list.
pub data Distinct : List ℕ → Type 0 where
  empty : Distinct []
  more : {x : ℕ} {xs : List ℕ} → ¬ In x xs → Distinct xs → Distinct (x ∷ xs)

contains-In : (xs : List ℕ) (x : ℕ) → (contains xs x ≡ true) ↔ In x xs
contains-In xs x = (
  λ h. let (y, m, e) = any-In (λ y. y == x) xs h in subst (λ z. In z xs) ((==_iff y x).0 e) m,
  λ m. In-any (λ y. y == x) xs x m (==_refl x),
)

Distinct-lem : (xs : List ℕ) → (has_duplicate xs ≡ false) ↔ Distinct xs
Distinct-lem [] = (λ h. empty, λ d. refl)
Distinct-lem (x ∷ xs) =
    let here_iff = false_iff_not (contains xs x) (contains-In xs x) in
    let rest = Distinct-lem xs in
    (
      λ h. more (here_iff.0 (ground (arith, h))) (rest.0 (ground (arith, h))),
      λ d. elim d [ more out d' ↦ ground (arith, here_iff.1 out, rest.1 d') ],
    )

-- The tasks that a dependency may name.
abbrev pub Known : List TaskView → ℕ → Type 0
Known tasks d = (task : TaskView) × In task tasks × (task.id ≡ d)

abbrev pub Local : TaskView → List TaskView → ℕ → Type 0
Local candidate tasks d =
    (task : TaskView) → In task tasks → task.id ≡ d → task.mission_id ≡ candidate.mission_id

exists_in-Known : (tasks : List TaskView) (d : ℕ) → (exists_in tasks d ≡ true) ↔ Known tasks d
exists_in-Known tasks d = (
  λ h. let (t, m, e) = any-In (λ task. task.id == d) tasks h in (t, m, (==_iff t.id d).0 e),
  λ (t, m, e). In-any (λ task. task.id == d) tasks t m (ground (arith, e, ==_refl d)),
)

crosses-Local :
    (candidate : TaskView) (tasks : List TaskView) (d : ℕ)
    → (crosses_mission candidate tasks d ≡ false) ↔ Local candidate tasks d
crosses-Local candidate tasks d =
    let each =
      any-false (λ task. task.id == d && not (task.mission_id == candidate.mission_id)) tasks in
    (
      λ h task m e.
          (==_iff task.mission_id candidate.mission_id).0
            (ground (arith, each.0 h task m, e, ==_refl d)),
      λ h. each.1 (λ task m. elim (Bool-cases (task.id == d)) [
        | inl t ↦ ground (arith, t, h task m ((==_iff task.id d).0 t), ==_refl candidate.mission_id)
        | inr f ↦ ground (arith, f)
      ]),
    )

-- No dependency is the parent or above it.
abbrev pub Apart : TaskView → List TaskView → Type 0
Apart candidate tasks =
    (p d : ℕ)
    → candidate.parent_task_id ≡ some p
    → In d candidate.dependencies
    → (d ≢ p) × (¬ Above tasks d p)

not_above_lem :
    (tasks : List TaskView) (p d : ℕ)
    → (d == p || is_parent_of tasks d p ≡ false) ↔ ((d ≢ p) × (¬ Above tasks d p))
not_above_lem tasks p d =
    let above = false_iff_not (is_parent_of tasks d p) (is_parent_of-decides tasks d p) in
    let same = false_iff_not (d == p) (==_iff d p) in
    (
      λ h. (same.0 (ground (arith, h)), above.0 (ground (arith, h))),
      λ (a, b). ground (arith, same.1 a, above.1 b),
    )

on_ancestor-Apart :
    (candidate : TaskView) (tasks : List TaskView)
    → (on_ancestor tasks candidate.parent_task_id candidate.dependencies ≡ false)
      ↔ Apart candidate tasks
on_ancestor-Apart candidate tasks = go candidate.parent_task_id
  where
    go :
        (o : Option ℕ)
        → (on_ancestor tasks o candidate.dependencies ≡ false)
          ↔ ((p d : ℕ) → o ≡ some p → In d candidate.dependencies → (d ≢ p) × (¬ Above tasks d p))
    go none = (λ h p d e m. absurd (ground (arith, e)), λ h. refl)
    go (some q) =
        let each = any-false (λ d. d == q || is_parent_of tasks d q) candidate.dependencies in
        (
          λ h p d e m.
              subst (λ z. (d ≢ z) × (¬ Above tasks d z)) (ground (arith, e))
                ((not_above_lem tasks q d).0 (each.0 h d m)),
          λ h. each.1 (λ d m. (not_above_lem tasks q d).1 (h q d refl m)),
        )

on_descendant-lem :
    (candidate : TaskView) (tasks : List TaskView)
    → (on_descendant candidate tasks ≡ false)
      ↔ ((d : ℕ) → In d candidate.dependencies → ¬ Above tasks candidate.id d)
on_descendant-lem candidate tasks =
    let each = any-false (λ d. is_parent_of tasks candidate.id d) candidate.dependencies in
    let below = λ (d : ℕ). false_iff_not _ (is_parent_of-decides tasks candidate.id d) in
    (λ h d m. (below d).0 (each.0 h d m), λ h. each.1 (λ d m. (below d).1 (h d m)))

-- A well-formed task among the tasks.
pub record Accepted (candidate : TaskView) (tasks : List TaskView) : Type 0 where
  pub title : valid_agent_text candidate.title 256 ≡ true
  pub objective : valid_content_text candidate.objective max_message_body_bytes ≡ true
  pub few : length candidate.dependencies ≤ 256
  pub distinct : Distinct candidate.dependencies
  pub not_self : ¬ In candidate.id candidate.dependencies
  pub link : validate_parent_link candidate tasks ≡ ok tt
  pub known : (d : ℕ) → In d candidate.dependencies → Known tasks d
  pub local : (d : ℕ) → In d candidate.dependencies → Local candidate tasks d
  pub apart : Apart candidate tasks
  pub not_below : (d : ℕ) → In d candidate.dependencies → ¬ Above tasks candidate.id d
  pub acyclic : ¬ Cyclic (dependency_graph candidate tasks)

-- The checks, each passed.
abbrev Passes : TaskView → List TaskView → Type 0
Passes candidate tasks =
    (valid_agent_text candidate.title 256 ≡ true)
    × (valid_content_text candidate.objective max_message_body_bytes ≡ true)
    × (ltb 256 (length candidate.dependencies) ≡ false)
    × (has_duplicate candidate.dependencies ≡ false)
    × (contains candidate.dependencies candidate.id ≡ false)
    × (validate_parent_link candidate tasks ≡ ok tt)
    × (any (λ dependency. not (exists_in tasks dependency)) candidate.dependencies ≡ false)
    × (any (crosses_mission candidate tasks) candidate.dependencies ≡ false)
    × (on_ancestor tasks candidate.parent_task_id candidate.dependencies ≡ false)
    × (on_descendant candidate tasks ≡ false)
    × (has_cycle (dependency_graph candidate tasks) ≡ false)

chain :
    (a b c d f g h i j k : Bool) (r : Result (Unit {0}))
    (e1 e2 e3 e4 e5 e6 e7 e8 : OrchestratorError)
    → ((refuse (not a || not b || c) e1
          >> refuse d e2
          >> refuse f e3
          >> r
          >> refuse g e4
          >> refuse h e5
          >> refuse i e6
          >> refuse j e7
          >> refuse k e8)
        ≡ ok tt)
      ↔ ((a ≡ true)
          × (b ≡ true)
          × (c ≡ false)
          × (d ≡ false)
          × (f ≡ false)
          × (r ≡ ok tt)
          × (g ≡ false)
          × (h ≡ false)
          × (i ≡ false)
          × (j ≡ false)
          × (k ≡ false))
chain a b c d f g h i j k r e1 e2 e3 e4 e5 e6 e7 e8 = (
  λ q. (
    ground (arith, q),
    ground (arith, q),
    ground (arith, q),
    ground (arith, q),
    ground (arith, q),
    ground (arith, q),
    ground (arith, q),
    ground (arith, q),
    ground (arith, q),
    ground (arith, q),
    ground (arith, q),
  ),
  λ (p1, p2, p3, p4, p5, p6, p7, p8, p9, p10, p11).
      ground (arith, p1, p2, p3, p4, p5, p6, p7, p8, p9, p10, p11),
)

Passes-lem :
    (candidate : TaskView) (tasks : List TaskView)
    → (validate_task_view candidate tasks ≡ ok tt) ↔ Passes candidate tasks
unfolding validate_task_view
Passes-lem candidate tasks =
    chain (valid_agent_text candidate.title 256)
      (valid_content_text candidate.objective max_message_body_bytes)
      (ltb 256 (length candidate.dependencies)) (has_duplicate candidate.dependencies)
      (contains candidate.dependencies candidate.id)
      (any (λ dependency. not (exists_in tasks dependency)) candidate.dependencies)
      (any (crosses_mission candidate tasks) candidate.dependencies)
      (on_ancestor tasks candidate.parent_task_id candidate.dependencies)
      (on_descendant candidate tasks) (has_cycle (dependency_graph candidate tasks))
      (validate_parent_link candidate tasks) _ _ _ _ _ _ _ _

not_known_lem :
    (candidate : TaskView) (tasks : List TaskView)
    → (any (λ dependency. not (exists_in tasks dependency)) candidate.dependencies ≡ false)
      ↔ ((d : ℕ) → In d candidate.dependencies → Known tasks d)
not_known_lem candidate tasks =
    let each = any-false (λ d. not (exists_in tasks d)) candidate.dependencies in
    (
      λ h d m. (exists_in-Known tasks d).0 (ground (arith, each.0 h d m)),
      λ h. each.1 (λ d m. ground (arith, (exists_in-Known tasks d).1 (h d m))),
    )

crosses_mission-lem :
    (candidate : TaskView) (tasks : List TaskView)
    → (any (crosses_mission candidate tasks) candidate.dependencies ≡ false)
      ↔ ((d : ℕ) → In d candidate.dependencies → Local candidate tasks d)
crosses_mission-lem candidate tasks =
    let each = any-false (crosses_mission candidate tasks) candidate.dependencies in
    (
      λ h d m. (crosses-Local candidate tasks d).0 (each.0 h d m),
      λ h. each.1 (λ d m. (crosses-Local candidate tasks d).1 (h d m)),
    )

few_lem : (xs : List ℕ) → (ltb 256 (length xs) ≡ false) ↔ (length xs ≤ 256)
few_lem xs = (λ h. ground (arith, h), λ h. ground (arith, h))

-- A task is accepted exactly where it is well formed: its texts are valid, its dependencies are
-- at most 256, distinct, known, of its own mission, neither itself nor above its parent nor below
-- itself, its parent is acceptable, and the graph with its dependencies has no cycle.
pub validate_task_view-accepts :
    (candidate : TaskView) (tasks : List TaskView)
    → (validate_task_view candidate tasks ≡ ok tt) ↔ Accepted candidate tasks
validate_task_view-accepts candidate tasks = (λ h. forth ((Passes-lem candidate tasks).0 h), back)
  where
    forth : Passes candidate tasks → Accepted candidate tasks
    forth (p1, p2, p3, p4, p5, p6, p7, p8, p9, p10, p11) = record {
      title = p1;
      objective = p2;
      few = (few_lem candidate.dependencies).0 p3;
      distinct = (Distinct-lem candidate.dependencies).0 p4;
      not_self = (false_iff_not _ (contains-In candidate.dependencies candidate.id)).0 p5;
      link = p6;
      known = (not_known_lem candidate tasks).0 p7;
      local = (crosses_mission-lem candidate tasks).0 p8;
      apart = (on_ancestor-Apart candidate tasks).0 p9;
      not_below = (on_descendant-lem candidate tasks).0 p10;
      acyclic = (false_iff_not _ (has_cycle-decides (dependency_graph candidate tasks)).0).0 p11;
    }

    back : Accepted candidate tasks → validate_task_view candidate tasks ≡ ok tt
    back a = (Passes-lem candidate tasks).1 (
      a.title,
      a.objective,
      (few_lem candidate.dependencies).1 a.few,
      (Distinct-lem candidate.dependencies).1 a.distinct,
      (false_iff_not _ (contains-In candidate.dependencies candidate.id)).1 a.not_self,
      a.link,
      (not_known_lem candidate tasks).1 a.known,
      (crosses_mission-lem candidate tasks).1 a.local,
      (on_ancestor-Apart candidate tasks).1 a.apart,
      (on_descendant-lem candidate tasks).1 a.not_below,
      (false_iff_not _ (has_cycle-decides (dependency_graph candidate tasks)).0).1 a.acyclic,
    )
