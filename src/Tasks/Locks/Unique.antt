-- ===== src/Tasks/Locks/Unique.antt =====
-- Task lists in which no identifier stands twice, and updates that keep identifiers.
use frank.Prelude.{
  ℕ, ◌≡◌, refl, true, false, ◌==◌, List, [], ◌∷◌, map, All, modify_first, is_some_and,
  if◌then◌else◌, arith, Bool-cases, inl, inr,
}
use frank.Protocol.Task
use frank.Protocol.Records.{TaskView}
use frank.Tasks.Feed.{has_id, find_task, all_done}

abbrev pub IsUnique : List TaskView → Type 0
IsUnique [] = Unit
IsUnique (t ∷ ts) = All (λ u. (u.id == t.id) ≡ false) ts × IsUnique ts

-- Change the task of one identifier, wherever it stands.
abbrev pub touch : ℕ → (TaskView → TaskView) → TaskView → TaskView
touch id f t = if t.id == id then f t else t

touch_absent :
    (id : ℕ) (f : TaskView → TaskView) (ts : List TaskView)
    → All (λ u. (u.id == id) ≡ false) ts
    → map (touch id f) ts ≡ ts
touch_absent id f [] h = refl
touch_absent id f (t ∷ ts) h = ground (arith, h.0, touch_absent id f ts h.1)

absent_of_eq :
    (a b : ℕ) (ts : List TaskView)
    → (a == b) ≡ true
    → All (λ u. (u.id == a) ≡ false) ts
    → All (λ u. (u.id == b) ≡ false) ts
absent_of_eq a b [] e h = tt
absent_of_eq a b (t ∷ ts) e h = (ground (arith, h.0), absent_of_eq a b ts e h.1)

pub modify_first-map :
    (id : ℕ) (f : TaskView → TaskView) (ts : List TaskView)
    → IsUnique ts
    → modify_first (has_id id) f ts ≡ map (touch id f) ts
modify_first-map id f [] u = refl
modify_first-map id f (t ∷ ts) u = elim (Bool-cases (t.id == id)) [
  | inl e ↦ rw e (ground (arith, touch_absent id f ts (absent_of_eq t.id id ts e u.0)))
  | inr e ↦ rw e (ground (arith, modify_first-map id f ts u.1))
]

module _ (f : TaskView → TaskView) (same_id : (t : TaskView) → (f t).id ≡ t.id)
    (same_done : (t : TaskView) → Task.is_done (f t).status ≡ Task.is_done t.status) where
  find_done-map :
      (id : ℕ) (ts : List TaskView)
      → is_some_and (find_task id (map f ts)) (λ t. Task.is_done t.status)
        ≡ is_some_and (find_task id ts) (λ t. Task.is_done t.status)
  find_done-map id [] = refl
  find_done-map id (t ∷ ts) = ground (arith, same_id t, same_done t, find_done-map id ts)

  pub all_done-map : (ts : List TaskView) (ids : List ℕ) → all_done (map f ts) ids ≡ all_done ts ids
  all_done-map ts [] = refl
  all_done-map ts (id ∷ ids) = rw (find_done-map id ts) (ground (arith, all_done-map ts ids))

  absent-map :
      (id : ℕ) (ts : List TaskView)
      → All (λ u. (u.id == id) ≡ false) ts
      → All (λ u. (u.id == id) ≡ false) (map f ts)
  absent-map id [] h = tt
  absent-map id (t ∷ ts) h = (rw (same_id t) h.0, absent-map id ts h.1)

  pub IsUnique-map : (ts : List TaskView) → IsUnique ts → IsUnique (map f ts)
  IsUnique-map [] u = tt
  IsUnique-map (t ∷ ts) u = (rw (same_id t) (absent-map t.id ts u.0), IsUnique-map ts u.1)

module _ (id : ℕ) (f : TaskView → TaskView) (same_id : (t : TaskView) → (f t).id ≡ t.id) where
  absent-modify_first :
      (a : ℕ) (ts : List TaskView)
      → All (λ u. (u.id == a) ≡ false) ts
      → All (λ u. (u.id == a) ≡ false) (modify_first (has_id id) f ts)
  absent-modify_first a [] h = tt
  absent-modify_first a (t ∷ ts) h = elim (Bool-cases (t.id == id)) [
    | inl e ↦ rw e (rw (same_id t) h.0, h.1)
    | inr e ↦ rw e (h.0, absent-modify_first a ts h.1)
  ]

  pub IsUnique-modify_first :
      (ts : List TaskView) → IsUnique ts → IsUnique (modify_first (has_id id) f ts)
  IsUnique-modify_first [] u = tt
  IsUnique-modify_first (t ∷ ts) u = elim (Bool-cases (t.id == id)) [
    | inl e ↦ rw e (rw (same_id t) u.0, u.1)
    | inr e ↦ rw e (absent-modify_first t.id ts u.0, IsUnique-modify_first ts u.1)
  ]
