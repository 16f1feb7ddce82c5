-- ===== src/Supervisor/Plan/Order.antt =====
-- The queue loop of `proposal_to_plan`: the order that it finds, and that it ends.
use frank.Prelude.{
  ℕ, suc, zero, ◌+◌, ◌-◌, ◌<◌, ◌≡◌, refl, sym, subst, ◌∙◌, String, Bool, true, false, ◌||◌, ◌==◌,
  some, List, [], ◌∷◌, ◌++◌, All, In, here, there, map, length, text_eq, eq_iff, eq_refl,
  Bool-cases, inl, inr, if◌then◌else◌, arith,
}
use frank.Supervisor.Plan.{SupervisorTaskProposal, Pending, has, release, order_keys}
use frank.Supervisor.Plan.Release.{
  missing_none, missing_fewer, key_of, DistinctKeys, Node, Node-release, DistinctKeys-release,
  opened_keys, also,
}

-- No key stands twice.
abbrev pub NoRepeat : List String → Type 0
NoRepeat [] = Unit
NoRepeat (x ∷ xs) = (has xs x ≡ false) × NoRepeat xs

abbrev pub tasks_of : Pending → List SupervisorTaskProposal
tasks_of pending = map (λ node. node.0) pending

-- Latest first, every key stands before (that is, was finished after) all that its tasks depend on.
abbrev pub Topological : List SupervisorTaskProposal → List String → Type 0
Topological tasks [] = Unit
Topological tasks (k ∷ finished) =
    ((t : SupervisorTaskProposal)
      → In t tasks
      → t.client_key ≡ k
      → (d : String) → has t.dependencies d ≡ true
      → has finished d ≡ true)
    × Topological tasks finished

abbrev pub queue : List String → List String → String → Bool
queue ready finished x = has ready x || has finished x

pub record Progress (tasks : List SupervisorTaskProposal) (pending : Pending)
    (ready finished : List String) : Type 0 where
  pub same_tasks : tasks_of pending ≡ tasks
  pub distinct : DistinctKeys pending
  pub nodes : All (Node finished (queue ready finished)) pending
  pub ready_once : NoRepeat ready
  pub finished_once : NoRepeat finished
  pub apart : (x : String) → has ready x ≡ true → has finished x ≡ false
  pub topological : Topological tasks finished

pub has-append : (xs ys : List String) (x : String) → has (xs ++ ys) x ≡ has xs x || has ys x
has-append [] ys x = refl
has-append (k ∷ xs) ys x = ground (arith, has-append xs ys x)

NoRepeat-append :
    (xs ys : List String)
    → NoRepeat xs
    → NoRepeat ys
    → ((x : String) → has ys x ≡ true → has xs x ≡ false)
    → NoRepeat (xs ++ ys)
NoRepeat-append [] ys a b h = b
NoRepeat-append (x ∷ xs) ys a b h = (
  elim (Bool-cases (has ys x)) [
    | inl e ↦ absurd (ground (arith, h x e, eq_refl x))
    | inr e ↦ ground (arith, has-append xs ys x, a.0, e)
  ],
  NoRepeat-append xs ys a.1 b (λ y m. ground (arith, h y m)),
)

node_of :
    (finished : List String) (queued : String → Bool) (pending : Pending)
    (t : SupervisorTaskProposal)
    → All (Node finished queued) pending
    → In t (tasks_of pending)
    → (n : ℕ) × Node finished queued (t, n)
node_of finished queued [] t h m = elim m [ ]
node_of finished queued ((_, n) ∷ pending) _ h here = (n, h.0)
node_of finished queued (x ∷ pending) t h (there m) = node_of finished queued pending t h.1 m

Node-queue :
    (finished : List String) (p q : String → Bool) (pending : Pending)
    → ((x : String) → p x ≡ q x)
    → All (Node finished p) pending
    → All (Node finished q) pending
Node-queue finished p q [] e h = tt
Node-queue finished p q (x ∷ pending) e h =
    ((h.0.0, sym (e (key_of x)) ∙ h.0.1), Node-queue finished p q pending e h.1)

once_if :
    (b : Bool) (x : String) (xs : List String)
    → has xs x ≡ false
    → NoRepeat xs
    → NoRepeat (if b then x ∷ xs else xs)
once_if true x xs out h = (out, h)
once_if false x xs out h = h

module _ (k : String) (finished : List String) (queued : String → Bool)
    (new : has finished k ≡ false) where
  tasks-release : (pending : Pending) → tasks_of (release k pending).0 ≡ tasks_of pending
  unfolding release
  tasks-release [] = refl
  tasks-release ((t, n) ∷ pending) = ground (arith, tasks-release pending)

  opened_new :
      (pending : Pending)
      → All (Node finished queued) pending
      → (x : String) → has (release k pending).1 x ≡ true
      → queued x ≡ false
  unfolding release
  opened_new [] h x m = absurd (cc)
  opened_new ((t, n) ∷ pending) h x m = elim (Bool-cases (has t.dependencies k)) [
    | inr e ↦ opened_new pending h.1 x (ground (arith, e, m))
    | inl e ↦ elim (Bool-cases (text_eq t.client_key x)) [
      | inr f ↦ opened_new pending h.1 x (ground (arith, e, f, m))
      | inl f ↦ elim (Bool-cases (has (release k pending).1 x)) [
        | inl g ↦ opened_new pending h.1 x g
        | inr g ↦
            subst (λ z. queued z ≡ false) ((eq_iff t.client_key x).0 f)
              (ground (arith, h.0, missing_fewer k finished t.dependencies e new))
      ]
    ]
  ]

  opened_once : (pending : Pending) → DistinctKeys pending → NoRepeat (release k pending).1
  unfolding release
  opened_once [] d = tt
  opened_once ((t, n) ∷ pending) d =
      let out = opened_keys k finished queued new t.client_key pending d.0 in
      elim (Bool-cases (has t.dependencies k)) [
        | inl e ↦
            rw e (
              once_if (n - 1 == 0) t.client_key (release k pending).1 out (opened_once pending d.1))
        | inr e ↦ rw e (opened_once pending d.1)
      ]

module _ (tasks : List SupervisorTaskProposal) (pending : Pending) (k : String)
    (ready finished : List String) (p : Progress tasks pending (k ∷ ready) finished) where
  k_new : has finished k ≡ false
  k_new = p.apart k (ground (arith, eq_refl k))

  queue_step :
      (x : String)
      → also (queue (k ∷ ready) finished) (release k pending).1 x
        ≡ queue (ready ++ (release k pending).1) (k ∷ finished) x
  queue_step x = ground (arith, has-append ready (release k pending).1 x)

  k_topological :
      (t : SupervisorTaskProposal)
      → In t tasks
      → t.client_key ≡ k
      → (d : String) → has t.dependencies d ≡ true
      → has finished d ≡ true
  k_topological t m e =
      let (n, (few, queued)) =
        node_of finished (queue (k ∷ ready) finished) pending t p.nodes
          (subst (In t) (sym p.same_tasks) m) in
      missing_none finished t.dependencies (ground (arith, few, queued, e, eq_refl k))

  Progress-step :
      Progress tasks (release k pending).0 (ready ++ (release k pending).1) (k ∷ finished)
  Progress-step =
      let new_keys = opened_new k finished (queue (k ∷ ready) finished) k_new pending p.nodes in
      record {
        same_tasks =
            tasks-release k finished (queue (k ∷ ready) finished) k_new pending ∙ p.same_tasks;
        distinct =
            DistinctKeys-release k finished (queue (k ∷ ready) finished) k_new pending p.distinct;
        nodes =
            Node-queue (k ∷ finished) (also (queue (k ∷ ready) finished) (release k pending).1)
              (queue (ready ++ (release k pending).1) (k ∷ finished)) (release k pending).0
              queue_step
              (Node-release k finished (queue (k ∷ ready) finished) k_new pending p.distinct
                p.nodes);
        ready_once =
            NoRepeat-append ready (release k pending).1 p.ready_once.1
              (opened_once k finished (queue (k ∷ ready) finished) k_new pending p.distinct)
              (λ x m. ground (arith, new_keys x m));
        finished_once = (k_new, p.finished_once);
        apart = λ x m. elim (Bool-cases (has ready x)) [
          | inl r ↦ elim (Bool-cases (text_eq k x)) [
            | inl q ↦ absurd (
                ground (
                  arith,
                  p.ready_once.0,
                  subst (λ z. has ready z ≡ true) (sym ((eq_iff k x).0 q)) r,
                ))
            | inr q ↦ ground (arith, q, p.apart x (ground (arith, r)))
          ]
          | inr r ↦
              ground
                (arith, new_keys x (ground (arith, r, m, has-append ready (release k pending).1 x)))
        ];
        topological = (k_topological, p.topological);
      }

-- What the loop finds.
pub record Found (tasks : List SupervisorTaskProposal) (finished : List String) : Type 0 where
  pub once : NoRepeat finished
  pub in_order : Topological tasks finished

pub order_keys-Found :
    (fuel : ℕ) (tasks : List SupervisorTaskProposal) (pending : Pending)
    (ready finished result : List String)
    → Progress tasks pending ready finished
    → order_keys fuel pending ready finished ≡ some result
    → Found tasks result
unfolding order_keys
order_keys-Found fuel tasks pending [] finished result p h =
    subst (Found tasks) (ground (arith, h))
      (record { once = p.finished_once; in_order = p.topological })
order_keys-Found zero tasks pending (k ∷ ready) finished result p h = absurd (cc)
order_keys-Found (suc fuel) tasks pending (k ∷ ready) finished result p h =
    order_keys-Found fuel tasks (release k pending).0 (ready ++ (release k pending).1)
      (k ∷ finished) result (Progress-step tasks pending k ready finished p) h

-- The tasks that are not opened yet.
abbrev pub closed : Pending → ℕ
closed [] = 0
closed ((t, n) ∷ pending) = let rest = closed pending in if n == 0 then rest else suc rest

closed-release :
    (k : String) (finished : List String) (queued : String → Bool) (pending : Pending)
    → has finished k ≡ false
    → All (Node finished queued) pending
    → closed (release k pending).0 + length (release k pending).1 ≡ closed pending
unfolding release
closed-release k finished queued [] new h = omega arith
closed-release k finished queued ((t, n) ∷ pending) new h = ground (
  arith,
  closed-release k finished queued pending new h.1,
  h.0.0,
  missing_fewer k finished t.dependencies,
)

length-append : (xs ys : List String) → length (xs ++ ys) ≡ length xs + length ys
length-append [] ys = omega arith
length-append (x ∷ xs) ys = omega (arith, length-append xs ys)

pub order_keys-total :
    (fuel : ℕ) (tasks : List SupervisorTaskProposal) (pending : Pending)
    (ready finished : List String)
    → Progress tasks pending ready finished
    → closed pending + length ready < fuel
    → (result : List String) × (order_keys fuel pending ready finished ≡ some result)
unfolding order_keys
order_keys-total fuel tasks pending [] finished p h = (finished, refl)
order_keys-total zero tasks pending (k ∷ ready) finished p h = absurd (omega (arith, h))
order_keys-total (suc fuel) tasks pending (k ∷ ready) finished p h =
    order_keys-total fuel tasks (release k pending).0 (ready ++ (release k pending).1)
      (k ∷ finished) (Progress-step tasks pending k ready finished p)
      (omega (
        arith,
        h,
        length-append ready (release k pending).1,
        closed-release k finished (queue (k ∷ ready) finished) pending
            (k_new tasks pending k ready finished p) p.nodes,
      ))
