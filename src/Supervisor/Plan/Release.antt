-- ===== src/Supervisor/Plan/Release.antt =====
-- One round of the queue loop: what the release of a finished key keeps.
use frank.Prelude.{
  ℕ, suc, ◌-◌, ◌≤◌, ◌≡◌, refl, sym, subst, String, Bool, true, false, ◌||◌, ◌==◌, List, [], ◌∷◌,
  All, text_eq, eq_iff, eq_refl, Bool-cases, inl, inr, if◌then◌else◌, arith,
}
use frank.Supervisor.Plan.{SupervisorTaskProposal, Pending, has, release}

-- The dependencies that are not finished.
abbrev pub missing : List String → List String → ℕ
missing finished [] = 0
missing finished (d ∷ ds) =
    let rest = missing finished ds in if has finished d then rest else suc rest

missing_less :
    (k : String) (finished ds : List String) → missing (k ∷ finished) ds ≤ missing finished ds
missing_less k finished [] = omega arith
missing_less k finished (d ∷ ds) = ground (arith, missing_less k finished ds)

text_eq_sym : (a b : String) → text_eq a b ≡ true → text_eq b a ≡ true
text_eq_sym a b h = (eq_iff b a).1 (sym ((eq_iff a b).0 h))

pub missing_fewer :
    (k : String) (finished ds : List String)
    → has ds k ≡ true
    → has finished k ≡ false
    → suc (missing (k ∷ finished) ds) ≤ missing finished ds
missing_fewer k finished [] h new = absurd (cc)
missing_fewer k finished (d ∷ ds) h new = elim (Bool-cases (text_eq d k)) [
  | inl e ↦
      let q : has finished d ≡ false =
        subst (λ z. has finished z ≡ false) (sym ((eq_iff d k).0 e)) new in
      ground (arith, q, text_eq_sym d k e, missing_less k finished ds)
  | inr e ↦ ground (arith, e, h, missing_fewer k finished ds (ground (arith, e, h)) new)
]

pub missing_none :
    (finished ds : List String)
    → missing finished ds ≡ 0
    → (d : String) → has ds d ≡ true
    → has finished d ≡ true
missing_none finished [] h d m = absurd (cc)
missing_none finished (x ∷ ds) h d m = elim (Bool-cases (text_eq x d)) [
  | inl e ↦ subst (λ z. has finished z ≡ true) ((eq_iff x d).0 e) (ground (arith, h))
  | inr e ↦ missing_none finished ds (ground (arith, h)) d (ground (arith, e, m))
]

abbrev pub key_of : SupervisorTaskProposal × ℕ → String
key_of node = node.0.client_key

-- No two tasks have the same key.
abbrev pub DistinctKeys : Pending → Type 0
DistinctKeys [] = Unit
DistinctKeys (x ∷ xs) = All (λ y. text_eq (key_of y) (key_of x) ≡ false) xs × DistinctKeys xs

-- A task whose number is zero is queued or finished, and a number is never below the count of the
-- dependencies that are missing.
abbrev pub Node : List String → (String → Bool) → SupervisorTaskProposal × ℕ → Type 0
Node finished queued node =
    (missing finished node.0.dependencies ≤ node.1) × (queued (key_of node) ≡ (node.1 == 0))

module _ (k : String) (finished : List String) (queued : String → Bool)
    (new : has finished k ≡ false) where
  pub opened_keys :
      (x : String) (pending : Pending)
      → All (λ y. text_eq (key_of y) x ≡ false) pending
      → has (release k pending).1 x ≡ false
  unfolding release
  opened_keys x [] h = refl
  opened_keys x ((t, n) ∷ pending) h = ground (arith, h.0, opened_keys x pending h.1)

  after_keys :
      (x : String) (pending : Pending)
      → All (λ y. text_eq (key_of y) x ≡ false) pending
      → All (λ y. text_eq (key_of y) x ≡ false) (release k pending).0
  unfolding release
  after_keys x [] h = tt
  after_keys x ((t, n) ∷ pending) h = elim (Bool-cases (has t.dependencies k)) [
    | inl e ↦ rw e (h.0, after_keys x pending h.1)
    | inr e ↦ rw e (h.0, after_keys x pending h.1)
  ]

  pub DistinctKeys-release :
      (pending : Pending) → DistinctKeys pending → DistinctKeys (release k pending).0
  unfolding release
  DistinctKeys-release [] d = tt
  DistinctKeys-release ((t, n) ∷ pending) d = elim (Bool-cases (has t.dependencies k)) [
    | inl e ↦ rw e (after_keys t.client_key pending d.0, DistinctKeys-release pending d.1)
    | inr e ↦ rw e (after_keys t.client_key pending d.0, DistinctKeys-release pending d.1)
  ]

pub text_eq_apart : (a b : String) → text_eq a b ≡ false → text_eq b a ≡ false
text_eq_apart a b h = elim (Bool-cases (text_eq b a)) [
  | inl e ↦ absurd (ground (arith, h, text_eq_sym b a e))
  | inr e ↦ e
]

abbrev pub also : (String → Bool) → List String → String → Bool
also queued opened x = queued x || has opened x

add_key :
    (x : String) (finished : List String) (queued : String → Bool) (opened : List String)
    (pending : Pending)
    → All (λ y. text_eq (key_of y) x ≡ false) pending
    → All (Node finished (also queued opened)) pending
    → All (Node finished (also queued (x ∷ opened))) pending
add_key x finished queued opened [] a h = tt
add_key x finished queued opened (y ∷ pending) a h = (
  (h.0.0, ground (arith, h.0.1, text_eq_apart (key_of y) x a.0)),
  add_key x finished queued opened pending a.1 h.1,
)

add_if :
    (b : Bool) (x : String) (finished : List String) (queued : String → Bool) (opened : List String)
    (pending : Pending)
    → All (λ y. text_eq (key_of y) x ≡ false) pending
    → All (Node finished (also queued opened)) pending
    → All (Node finished (also queued (if b then x ∷ opened else opened))) pending
add_if true x finished queued opened pending a h = add_key x finished queued opened pending a h
add_if false x finished queued opened pending a h = h

module _ (k : String) (finished : List String) (queued : String → Bool)
    (new : has finished k ≡ false) where
  node_lowered :
      (t : SupervisorTaskProposal) (n : ℕ) (opened : List String)
      → has t.dependencies k ≡ true
      → has opened t.client_key ≡ false
      → Node finished queued (t, n)
      → Node
          (k ∷ finished)
          (also queued (if n - 1 == 0 then t.client_key ∷ opened else opened))
          (t, n - 1)
  node_lowered t n opened e out h = (
    omega (arith, h.0, missing_fewer k finished t.dependencies e new),
    ground
        (arith, h.0, h.1, out, missing_fewer k finished t.dependencies e new, eq_refl t.client_key),
  )

  node_kept :
      (t : SupervisorTaskProposal) (n : ℕ) (opened : List String)
      → has opened t.client_key ≡ false
      → Node finished queued (t, n)
      → Node (k ∷ finished) (also queued opened) (t, n)
  node_kept t n opened out h =
      (omega (arith, h.0, missing_less k finished t.dependencies), ground (arith, h.1, out))

  -- A round keeps the account of every task.
  pub Node-release :
      (pending : Pending)
      → DistinctKeys pending
      → All (Node finished queued) pending
      → All (Node (k ∷ finished) (also queued (release k pending).1)) (release k pending).0
  unfolding release
  Node-release [] d h = tt
  Node-release ((t, n) ∷ pending) d h =
      let out = opened_keys k finished queued new t.client_key pending d.0 in
      let later = Node-release pending d.1 h.1 in
      elim (Bool-cases (has t.dependencies k)) [
        | inr e ↦ rw e (node_kept t n (release k pending).1 out h.0, later)
        | inl e ↦ rw e (
          node_lowered t n (release k pending).1 e out h.0,
          add_if (n - 1 == 0) t.client_key (k ∷ finished) queued (release k pending).1
              (release k pending).0 (after_keys k finished queued new t.client_key pending d.0)
              later,
        )
      ]
