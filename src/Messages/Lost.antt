-- ===== src/Messages/Lost.antt =====
-- A send that is reduced and not committed: the mailbox of the daemon has seen the message, which
-- the snapshot does not have (crates/frank-orchestrator/src/reduce/message.rs and `apply` of
-- approval_flow.rs).
use frank.Prelude.{
  ℕ, ◌≡◌, sym, Bool, true, false, ◌==◌, ==_refl, ==_iff, none, List, [], ◌∷◌, any, contains, arith,
  inl, inr, ok, Option-cases, Bool-cases, Result-cases, subst,
}
use frank.Protocol.Messages.{MessageSpec, DeliveryStatus}
use frank.Protocol.Records.{committed, ActorRef, Snapshot, Env, Reduced}
use frank.Runtime.Mailbox.{Mailbox, accept}
use frank.Messages.{
  MessageCommand, send_message, ack_message, complete_message, reduce_message, reduce_send_message,
  reduce_ack_message, reduce_complete_message, queue_message, check_send, find_message, message_id,
  new_message, deliver_message, expire_message,
}
use frank.Messages.Steps.{find_message-append, find_message-modified}
use frank.Messages.Runs.{
  Move, command, lost, delivery, expiry, restart, State, make_move, run_moves,
}

abbrev pub is_restart : Move → Bool
is_restart restart = true
is_restart _ = false

-- Seen by the mailbox, and not stored.
abbrev IsLost : ℕ → State → Type 0
IsLost id state = (contains state.0.seen id ≡ true) × (find_message id state.1.messages ≡ none)

seen-accept :
    (id k hop : ℕ) (m : Mailbox)
    → contains m.seen id ≡ true
    → contains (accept k hop m).1.seen id ≡ true
unfolding accept
seen-accept id k hop m h = ground (arith, h)

apart-accept :
    (id k hop : ℕ) (m : Mailbox)
    → contains m.seen id ≡ true
    → (accept k hop m).0 ≡ true
    → (k == id) ≡ false
unfolding accept
apart-accept id k hop m h taken = elim (Bool-cases (k == id)) [
  | inr apart ↦ apart
  | inl same ↦
      let seen : contains m.seen k ≡ true =
        subst (λ i. contains m.seen i ≡ true) (sym ((==_iff k id).0 same)) h in
      absurd (ground (arith, seen, taken))
]

taken-accept :
    (k hop : ℕ) (m : Mailbox)
    → (accept k hop m).0 ≡ true
    → contains (accept k hop m).1.seen k ≡ true
unfolding accept
taken-accept k hop m taken = ground (arith, taken, ==_refl k)

-- The outcome of a send: nothing is stored, or the mailbox took a message that is stored.
queue_message-IsLost :
    (env : Env) (mailbox : Mailbox) (s : Snapshot) (spec : MessageSpec) (actor : ActorRef) (id : ℕ)
    → IsLost id (mailbox, s)
    → IsLost id (
      (queue_message env mailbox s spec actor).1,
      committed s (queue_message env mailbox s spec actor).0,
    )
unfolding queue_message new_message
queue_message-IsLost env mailbox s spec actor id (seen, unknown) =
    let kept = seen-accept id (message_id env s spec) spec.hop mailbox seen in
    elim (Option-cases (find_message (message_id env s spec) s.messages)) [
      | inr (existing, known) ↦ (ground (arith, known, seen), ground (arith, known, unknown))
      | inl new ↦ elim (Bool-cases (accept (message_id env s spec) spec.hop mailbox).0) [
        | inr refused ↦ (ground (arith, new, refused, kept), ground (arith, new, refused, unknown))
        | inl taken ↦
            let apart = apart-accept id (message_id env s spec) spec.hop mailbox seen taken in
            let later =
              find_message-append id s.messages (new_message env s spec actor) unknown apart in
            (ground (arith, new, taken, kept), ground (arith, new, taken, later))
      ]
    ]

reduce_send_message-IsLost :
    (env : Env) (mailbox : Mailbox) (s : Snapshot) (spec : MessageSpec) (actor : ActorRef) (id : ℕ)
    → IsLost id (mailbox, s)
    → IsLost id (
      (reduce_send_message env mailbox s spec actor).1,
      committed s (reduce_send_message env mailbox s spec actor).0,
    )
unfolding reduce_send_message
reduce_send_message-IsLost env mailbox s spec actor id l =
    elim (Result-cases (check_send env s spec actor)) [
      | inl (e, q) ↦ rw (q, reduce_send_message) l
      | inr (passed, q) ↦
          rw (q, reduce_send_message) (queue_message-IsLost env mailbox s spec actor id l)
    ]

ack-unknown :
    (s : Snapshot) (k : ℕ) (actor : ActorRef) (id : ℕ)
    → find_message id s.messages ≡ none
    → find_message id (committed s (reduce_ack_message s k actor)).messages ≡ none
unfolding reduce_ack_message
ack-unknown s k actor id h =
    ground (arith, h, find_message-modified id k DeliveryStatus.acknowledged s.messages h)

complete-unknown :
    (s : Snapshot) (k : ℕ) (success : Bool) (actor : ActorRef) (id : ℕ)
    → find_message id s.messages ≡ none
    → find_message id (committed s (reduce_complete_message s k success actor)).messages ≡ none
unfolding reduce_complete_message
complete-unknown s k true actor id h =
    ground (arith, h, find_message-modified id k DeliveryStatus.completed s.messages h)
complete-unknown s k false actor id h =
    ground (arith, h, find_message-modified id k DeliveryStatus.failed s.messages h)

deliver-unknown :
    (s : Snapshot) (k id : ℕ)
    → find_message id s.messages ≡ none
    → find_message id (deliver_message k s).messages ≡ none
unfolding deliver_message
deliver-unknown s k id h =
    ground (arith, h, find_message-modified id k DeliveryStatus.delivered s.messages h)

expire-unknown :
    (s : Snapshot) (k id : ℕ)
    → find_message id s.messages ≡ none
    → find_message id (expire_message k s).messages ≡ none
unfolding expire_message
expire-unknown s k id h =
    ground (arith, h, find_message-modified id k DeliveryStatus.failed s.messages h)

reduce_message-IsLost :
    (env : Env) (mailbox : Mailbox) (s : Snapshot) (c : MessageCommand) (actor : ActorRef) (id : ℕ)
    → IsLost id (mailbox, s)
    → IsLost id (
      (reduce_message env mailbox s c actor).1,
      committed s (reduce_message env mailbox s c actor).0,
    )
unfolding reduce_message
reduce_message-IsLost env mailbox s (send_message spec) actor id l =
    reduce_send_message-IsLost env mailbox s spec actor id l
reduce_message-IsLost env mailbox s (ack_message k) actor id l = (l.0, ack-unknown s k actor id l.1)
reduce_message-IsLost env mailbox s (complete_message k success) actor id l =
    (l.0, complete-unknown s k success actor id l.1)

make_move-IsLost :
    (env : Env) (move : Move) (state : State) (id : ℕ)
    → is_restart move ≡ false
    → IsLost id state
    → IsLost id (make_move env move state)
unfolding make_move
make_move-IsLost env (command c actor) (mailbox, s) id running l =
    reduce_message-IsLost env mailbox s c actor id l
make_move-IsLost env (lost c actor) (mailbox, s) id running l =
    ((reduce_message-IsLost env mailbox s c actor id l).0, l.1)
make_move-IsLost env (delivery k) (mailbox, s) id running l = (l.0, deliver-unknown s k id l.1)
make_move-IsLost env (expiry k) (mailbox, s) id running l = (l.0, expire-unknown s k id l.1)
make_move-IsLost env restart (mailbox, s) id running l = absurd (ground (arith, running))

run_moves-IsLost :
    (env : Env) (moves : List Move) (state : State) (id : ℕ)
    → any is_restart moves ≡ false
    → IsLost id state
    → IsLost id (run_moves env moves state)
unfolding run_moves
run_moves-IsLost env [] state id running l = l
run_moves-IsLost env (move ∷ moves) state id running l =
    run_moves-IsLost env moves (make_move env move state) id (ground (arith, running))
      (make_move-IsLost env move state id (ground (arith, running)) l)

-- A send that is reduced is noted by the mailbox.
sent-seen :
    (env : Env) (mailbox : Mailbox) (s : Snapshot) (spec : MessageSpec) (actor : ActorRef)
    (r : Reduced)
    → (reduce_send_message env mailbox s spec actor).0 ≡ ok r
    → find_message (message_id env s spec) s.messages ≡ none
    → contains (reduce_send_message env mailbox s spec actor).1.seen (message_id env s spec) ≡ true
unfolding reduce_send_message queue_message
sent-seen env mailbox s spec actor r h unknown = elim (Result-cases (check_send env s spec actor)) [
  | inl (e, q) ↦ absurd (ground (arith, h, q))
  | inr (passed, q) ↦ elim (Bool-cases (accept (message_id env s spec) spec.hop mailbox).0) [
    | inr refused ↦ absurd (ground (arith, h, q, unknown, refused))
    | inl taken ↦
        ground
          (arith, q, unknown, taken, taken-accept (message_id env s spec) spec.hop mailbox taken)
  ]
]

-- Where a send of a new message is reduced without an error and its commit is lost, the message is
-- not stored by any further moves without a restart, be they sends of the same message.
pub run_moves-lost :
    (env : Env) (mailbox : Mailbox) (s : Snapshot) (spec : MessageSpec) (actor : ActorRef)
    (r : Reduced) (moves : List Move)
    → (reduce_message env mailbox s (send_message spec) actor).0 ≡ ok r
    → find_message (message_id env s spec) s.messages ≡ none
    → any is_restart moves ≡ false
    → find_message
        (message_id env s spec)
        (run_moves env (lost (send_message spec) actor ∷ moves) (mailbox, s)).1.messages
      ≡ none
unfolding run_moves make_move reduce_message
run_moves-lost env mailbox s spec actor r moves done unknown running =
    (run_moves-IsLost env moves ((reduce_send_message env mailbox s spec actor).1, s)
      (message_id env s spec) running
      (sent-seen env mailbox s spec actor r done unknown, unknown)).1
