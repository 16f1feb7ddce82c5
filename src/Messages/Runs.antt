-- ===== src/Messages/Runs.antt =====
-- Runs of the mailbox: commands, deliveries, expiries, lost commits and restarts of the daemon
-- (crates/frank-orchestrator/src/reduce/message.rs and messaging.rs).
use frank.Prelude.{
  ℕ, ◌≡◌, refl, sym, ap, subst, Bool, true, false, ◌&&◌, none, some, List, [], ◌∷◌, ◌++◌,
  if◌then◌else◌, arith, inl, inr, ok, Bool-cases, Option-cases, Result-cases,
}
use frank.Protocol.Messages.{
  MessageSpec, MessageView, DeliveryStatus, is_delivered, is_queued, is_awaiting, requires_reply,
}
use frank.Protocol.Records.{committed, ActorRef, Snapshot, Env, Reduced}
use frank.Runtime.Mailbox.{Mailbox, accept}
use frank.Messages.{
  MessageCommand, send_message, ack_message, complete_message, reduce_message, reduce_send_message,
  reduce_ack_message, reduce_complete_message, queue_message, check_send, find_message,
  set_delivery, new_message, message_id, deliver_message, expire_message, default_message_hop_limit,
}
use frank.Messages.Steps.{
  Step, Progress, Distinct, Progress-refl, Progress-trans, Progress-append, Progress-modified,
  Distinct-append, Distinct-modified, delivers, acknowledges, completes, fails, goes, stays,
}

-- What happens to the mailbox and the snapshot. A command may be reduced and its commit lost; a
-- restart forgets the mailbox.
pub data Move : Type 0 where
  command lost : MessageCommand → ActorRef → Move
  delivery expiry : ℕ → Move
  restart : Move

abbrev pub State : Type 0
State = Mailbox × Snapshot

unfoldable pub make_move : Env → Move → State → State
make_move env (command c actor) (mailbox, s) =
    let (result, next) = reduce_message env mailbox s c actor in (next, committed s result)
make_move env (lost c actor) (mailbox, s) = ((reduce_message env mailbox s c actor).1, s)
make_move env (delivery id) (mailbox, s) = (mailbox, deliver_message id s)
make_move env (expiry id) (mailbox, s) = (mailbox, expire_message id s)
make_move env restart (mailbox, s) =
    (record { hop_limit = default_message_hop_limit; seen = [] }, s)

unfoldable pub run_moves : Env → List Move → State → State
run_moves env [] state = state
run_moves env (move ∷ moves) state = run_moves env moves (make_move env move state)

-- The messages have moved on, and their identifiers stay distinct.
abbrev pub Advances : List MessageView → List MessageView → Type 0
Advances ms ms' = Progress ms ms' × (Distinct ms → Distinct ms')

Advances-same : (ms ms' : List MessageView) → ms' ≡ ms → Advances ms ms'
Advances-same ms ms' e = subst (Advances ms) (sym e) (Progress-refl ms, λ d. d)

set_delivery-Advances :
    (id : ℕ) (status : DeliveryStatus) (s : Snapshot) (found : MessageView)
    → find_message id s.messages ≡ some found
    → Step found.delivery status
    → Advances s.messages (set_delivery id status s).messages
set_delivery-Advances id status s found h step = (
  Progress-modified id status s.messages found h
      (goes found.delivery status status step (stays status)),
  Distinct-modified id status s.messages,
)

accepted_messages :
    (env : Env) (mailbox : Mailbox) (s : Snapshot) (spec : MessageSpec) (actor : ActorRef)
    (r : Reduced)
    → (queue_message env mailbox s spec actor).0 ≡ ok r
    → find_message (message_id env s spec) s.messages ≡ none
    → r.0.messages ≡ s.messages ++ new_message env s spec actor ∷ []
unfolding queue_message
accepted_messages env mailbox s spec actor r h unknown =
    elim (Bool-cases (accept (message_id env s spec) spec.hop mailbox).0) [
      | inl taken ↦ ground (arith, h, unknown, taken)
      | inr refused ↦ absurd (ground (arith, h, unknown, refused))
    ]

queue_message-Advances :
    (env : Env) (mailbox : Mailbox) (s : Snapshot) (spec : MessageSpec) (actor : ActorRef)
    (r : Reduced)
    → (queue_message env mailbox s spec actor).0 ≡ ok r
    → Advances s.messages r.0.messages
unfolding queue_message new_message
queue_message-Advances env mailbox s spec actor r h =
    elim (Option-cases (find_message (message_id env s spec) s.messages)) [
      | inr (existing, known) ↦ Advances-same s.messages r.0.messages (ground (arith, h, known))
      | inl unknown ↦
          subst (Advances s.messages) (sym (accepted_messages env mailbox s spec actor r h unknown))
            (
              Progress-append s.messages (new_message env s spec actor ∷ []),
              λ d. Distinct-append s.messages (new_message env s spec actor) d unknown,
            )
    ]

reduce_send_message-Advances :
    (env : Env) (mailbox : Mailbox) (s : Snapshot) (spec : MessageSpec) (actor : ActorRef)
    (r : Reduced)
    → (reduce_send_message env mailbox s spec actor).0 ≡ ok r
    → Advances s.messages r.0.messages
unfolding reduce_send_message
reduce_send_message-Advances env mailbox s spec actor r h =
    elim (Result-cases (check_send env s spec actor)) [
      | inl (e, q) ↦ absurd (ground (arith, h, q))
      | inr (passed, q) ↦ queue_message-Advances env mailbox s spec actor r (ground (arith, h, q))
    ]

reduce_ack_message-Advances :
    (s : Snapshot) (id : ℕ) (actor : ActorRef) (r : Reduced)
    → reduce_ack_message s id actor ≡ ok r
    → Advances s.messages r.0.messages
unfolding reduce_ack_message
reduce_ack_message-Advances s id actor r h = elim (Option-cases (find_message id s.messages)) [
  | inl unknown ↦ absurd (ground (arith, h, unknown))
  | inr (message, known) ↦ subst (Advances s.messages) (ground (arith, h, known)) (
      set_delivery-Advances id DeliveryStatus.acknowledged s message known
        (step message.delivery (ground (arith, h, known))))
]
  where
    step :
        (status : DeliveryStatus)
        → is_delivered status ≡ true
        → Step status DeliveryStatus.acknowledged
    step DeliveryStatus.delivered e = acknowledges
    step _ e = absurd (ground (arith, e))

reduce_complete_message-Advances :
    (s : Snapshot) (id : ℕ) (success : Bool) (actor : ActorRef) (r : Reduced)
    → reduce_complete_message s id success actor ≡ ok r
    → Advances s.messages r.0.messages
unfolding reduce_complete_message
reduce_complete_message-Advances s id success actor r h =
    elim (Option-cases (find_message id s.messages)) [
      | inl unknown ↦ absurd (ground (arith, h, unknown))
      | inr (message, known) ↦ subst (Advances s.messages) (ground (arith, h, known)) (
          set_delivery-Advances id
            (if success then DeliveryStatus.completed else DeliveryStatus.failed) s message known
            (step success message.delivery (ground (arith, h, known))))
    ]
  where
    step :
        (success : Bool) (status : DeliveryStatus)
        → is_awaiting status ≡ true
        → Step status (if success then DeliveryStatus.completed else DeliveryStatus.failed)
    step true status e = completes status e
    step false status e = fails status e

pub reduce_message-Advances :
    (env : Env) (mailbox : Mailbox) (s : Snapshot) (c : MessageCommand) (actor : ActorRef)
    (r : Reduced)
    → (reduce_message env mailbox s c actor).0 ≡ ok r
    → Advances s.messages r.0.messages
unfolding reduce_message
reduce_message-Advances env mailbox s (send_message spec) actor r h =
    reduce_send_message-Advances env mailbox s spec actor r h
reduce_message-Advances env mailbox s (ack_message id) actor r h =
    reduce_ack_message-Advances s id actor r h
reduce_message-Advances env mailbox s (complete_message id success) actor r h =
    reduce_complete_message-Advances s id success actor r h

deliver_message-Advances :
    (id : ℕ) (s : Snapshot) → Advances s.messages (deliver_message id s).messages
unfolding deliver_message
deliver_message-Advances id s = elim (Option-cases (find_message id s.messages)) [
  | inl unknown ↦ Advances-same s.messages (deliver_message id s).messages (ground (arith, unknown))
  | inr (message, known) ↦ elim (Bool-cases (is_queued message.delivery)) [
    | inl waiting ↦ subst (Advances s.messages) (ground (arith, known, waiting)) (
        set_delivery-Advances id DeliveryStatus.delivered s message known
          (step message.delivery waiting))
    | inr sent ↦
        Advances-same s.messages (deliver_message id s).messages (ground (arith, known, sent))
  ]
]
  where
    step :
        (status : DeliveryStatus) → is_queued status ≡ true → Step status DeliveryStatus.delivered
    step DeliveryStatus.queued e = delivers
    step _ e = absurd (ground (arith, e))

expire_message-Advances :
    (id : ℕ) (s : Snapshot) → Advances s.messages (expire_message id s).messages
unfolding expire_message
expire_message-Advances id s = elim (Option-cases (find_message id s.messages)) [
  | inl unknown ↦ Advances-same s.messages (expire_message id s).messages (ground (arith, unknown))
  | inr (message, known) ↦
      elim (Bool-cases (requires_reply message.act && is_awaiting message.delivery)) [
        | inl late ↦ subst (Advances s.messages) (ground (arith, known, late)) (
            set_delivery-Advances id DeliveryStatus.failed s message known
              (fails message.delivery (ground (arith, late))))
        | inr early ↦
            Advances-same s.messages (expire_message id s).messages (ground (arith, known, early))
      ]
]

make_move-Advances :
    (env : Env) (move : Move) (state : State)
    → Advances state.1.messages (make_move env move state).1.messages
unfolding make_move
make_move-Advances env (command c actor) (mailbox, s) =
    elim (Result-cases (reduce_message env mailbox s c actor).0) [
      | inl (e, q) ↦
          Advances-same s.messages (committed s (reduce_message env mailbox s c actor).0).messages
            (ap (λ o. (committed s o).messages) q)
      | inr (r, q) ↦
          subst (λ o. Advances s.messages (committed s o).messages) (sym q)
            (reduce_message-Advances env mailbox s c actor r q)
    ]
make_move-Advances env (lost c actor) (mailbox, s) = Advances-same s.messages s.messages refl
make_move-Advances env (delivery id) (mailbox, s) = deliver_message-Advances id s
make_move-Advances env (expiry id) (mailbox, s) = expire_message-Advances id s
make_move-Advances env restart (mailbox, s) = Advances-same s.messages s.messages refl

run_moves-Advances :
    (env : Env) (moves : List Move) (state : State)
    → Advances state.1.messages (run_moves env moves state).1.messages
unfolding run_moves
run_moves-Advances env [] (mailbox, s) = Advances-same s.messages s.messages refl
run_moves-Advances env (move ∷ moves) state =
    let first = make_move-Advances env move state in
    let rest = run_moves-Advances env moves (make_move env move state) in
    (
      Progress-trans state.1.messages (make_move env move state).1.messages
          (run_moves env (move ∷ moves) state).1.messages first.0 rest.0,
      λ d. rest.1 (first.1 d),
    )

-- Where the identifiers of the messages are distinct: after any moves they still are, every message
-- stands where it stood, unchanged but for its delivery, which has gone on by allowed steps, and new
-- messages stand after them.
pub run_moves-Progress :
    (env : Env) (moves : List Move) (state : State)
    → Distinct state.1.messages
    → Distinct (run_moves env moves state).1.messages
      × Progress state.1.messages (run_moves env moves state).1.messages
run_moves-Progress env moves state d =
    let advances = run_moves-Advances env moves state in (advances.1 d, advances.0)
