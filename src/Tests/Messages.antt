-- ===== src/Tests/Messages.antt =====
-- Runs of the mailbox (crates/frank-orchestrator/src/reduce/message.rs and messaging.rs).
use frank.Prelude.{ℕ, ◌≡◌, refl, none, some, List, [], ◌∷◌, Result, ok, err, map, is_blank}
use frank.Protocol.Status.{ActorKind}
use frank.Protocol.Messages.{MessageAct, MessageSpec, DeliveryStatus, requires_reply}
use frank.Protocol.Records.{ActorRef, Reduced, Event, CommandResult}
use frank.Runtime.Mailbox.{Mailbox, accept}
use frank.Messages.{
  send_message, ack_message, reduce_message, reduce_send_message, reduce_ack_message, queue_message,
  check_send, new_message, deliver_message, find_message, expire_message,
}
use frank.Messages.Steps.{Progress, Distinct}
use frank.Messages.Runs.{
  Move, command, lost, delivery, expiry, restart, State, make_move, run_moves, run_moves-Progress,
}
use frank.Messages.Lost.{run_moves-lost}
use frank.Tests.Data.{sample_env, workspace, person}

abbrev supervisor : ActorRef
supervisor = record { kind = ActorKind.supervisor; id = none; display_name = none }

abbrev question : ℕ → MessageSpec
question id = record {
  message_id = some id;
  mission_id = 1;
  task_id = none;
  recipient = supervisor;
  act = MessageAct.query;
  body = "how far";
  artifact_ids = [];
  reply_to = none;
  hop = 0;
}

abbrev empty_mailbox : Mailbox
empty_mailbox = record { hop_limit = 6; seen = [] }

abbrev start : State
start = (empty_mailbox, workspace [] [])

-- A send, its repetition, the delivery, an acknowledgement, a restart, and an expiry.
abbrev moves : List Move
moves =
    command (send_message (question 30)) person
    ∷ command (send_message (question 30)) person
    ∷ delivery 30
    ∷ command (ack_message 30) supervisor
    ∷ restart
    ∷ command (send_message (question 31)) person
    ∷ expiry 30
    ∷ []

moves-deliveries :
    map (λ m. m.delivery) (run_moves sample_env moves start).1.messages
    ≡ DeliveryStatus.failed ∷ DeliveryStatus.queued ∷ []
unfolding run_moves make_move reduce_message reduce_send_message check_send queue_message accept
    new_message reduce_ack_message deliver_message expire_message is_blank requires_reply
moves-deliveries = refl

run_moves-Progress_example :
    Distinct (run_moves sample_env moves start).1.messages
    × Progress start.1.messages (run_moves sample_env moves start).1.messages
run_moves-Progress_example = run_moves-Progress sample_env moves start tt

abbrev value : Result Reduced → Reduced
value (ok r) = r
value (err e) = (start.1, Event.message_failed 0, CommandResult.accepted)

abbrev sent : Result Reduced
sent = (reduce_message sample_env empty_mailbox start.1 (send_message (question 30)) person).0

sent-ok : sent ≡ ok (value sent)
unfolding reduce_message reduce_send_message check_send queue_message accept is_blank
sent-ok = refl

run_moves-lost_example :
    find_message 30
      (run_moves sample_env
        (lost (send_message (question 30)) person
          ∷ command (send_message (question 30)) person
          ∷ delivery 30
          ∷ [])
        start).1.messages
    ≡ none
run_moves-lost_example =
    run_moves-lost sample_env empty_mailbox start.1 (question 30) person (value sent)
      (command (send_message (question 30)) person ∷ delivery 30 ∷ []) sent-ok refl refl
