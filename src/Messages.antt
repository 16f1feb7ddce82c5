-- ===== src/Messages.antt =====
-- The agent mailbox: `reduce_message` of crates/frank-orchestrator/src/reduce/message.rs, and the
-- delivery and expiry of messages in messaging.rs. The mailbox of the daemon is in memory: a reducer
-- gives it back beside its result. The waking of a recipient is left out.
pub mod Steps
pub mod Runs
pub mod Lost
use frank.Prelude.{
  ℕ, zero, suc, ◌+◌, ◌-◌, ◌/◌, String, Bool, true, false, not, ◌&&◌, ◌||◌, ◌==◌, Option, none, some,
  List, [], ◌∷◌, ◌++◌, map, any, all, keep, find, length, modify_first, is_some_and, is_none,
  unwrap_or, option_eq, option_text_eq, and_then, ltb, leb, text_eq, is_blank, byte_len,
  parse_below, u64_limit, if◌then◌else◌, Result, ok, err, ◌>>=◌, ◌>>◌, refuse, ok_or,
  OrchestratorError, validation, invalid_transition, forbidden, not_found,
}
use frank.Protocol.Status.{ActorKind, is_agent, is_device, is_supervisor}
use frank.Protocol.Messages.{
  MessageSpec, MessageView, DeliveryStatus, is_delivered, is_queued, is_awaiting, requires_reply,
}
use frank.Protocol.Records.{ActorRef, Snapshot, Env, Event, CommandResult, Reduced, ArtifactView}
use frank.Tasks.Feed.{find_task, find_mission}
use frank.Validate.Checks.{max_message_body_bytes}
use frank.Runtime.Mailbox.{Mailbox, accept}

abbrev pub default_message_hop_limit : ℕ
default_message_hop_limit = 6

abbrev pub has_message_id : ℕ → MessageView → Bool
has_message_id id message = message.id == id

abbrev pub find_message : ℕ → List MessageView → Option MessageView
find_message id messages = find (has_message_id id) messages

abbrev fits_artifact : MessageSpec → ArtifactView → Bool
fits_artifact spec artifact =
    artifact.mission_id == spec.mission_id
    && (is_none spec.task_id || option_eq artifact.task_id spec.task_id)

abbrev known_artifact : Snapshot → MessageSpec → ℕ → Bool
known_artifact s spec id =
    any (λ artifact. artifact.id == id && fits_artifact spec artifact) s.artifacts

-- What an agent may send: about its own task, to the supervisor.
unfoldable pub check_agent_sender : Env → Snapshot → MessageSpec → ActorRef → Result (Unit {0})
check_agent_sender env s spec actor = do
  task_id ← ok_or spec.task_id forbidden
  refuse
      (not (
        is_some_and (and_then (find_task task_id s.tasks) (λ task. task.assigned_agent))
          (λ assigned. text_eq (env.show_uuid assigned) (unwrap_or actor.id ""))))
      forbidden
  refuse (not (is_supervisor spec.recipient.kind)) forbidden

unfoldable pub check_send : Env → Snapshot → MessageSpec → ActorRef → Result (Unit {0})
check_send env s spec actor = do
  refuse (ltb max_message_body_bytes (byte_len spec.body))
      (validation "message body exceeds 64 KiB; publish an artifact instead")
  mission ← ok_or (find_mission spec.mission_id s.missions) not_found
  refuse
      (is_some_and spec.task_id
        (λ id. not (any (λ task. task.id == id && task.mission_id == mission.id) s.tasks)))
      not_found
  refuse (ltb 256 (length spec.artifact_ids) || not (all (known_artifact s spec) spec.artifact_ids))
      not_found
  if is_agent actor.kind then check_agent_sender env s spec actor else ok tt
  refuse
      (is_blank spec.body
        || is_some_and spec.recipient.id (λ id. ltb 128 (byte_len id))
        || ltb default_message_hop_limit spec.hop)
      (validation "message recipient, body, or hop is invalid")
  refuse (is_device actor.kind && not (is_supervisor spec.recipient.kind)) forbidden

abbrev pub message_id : Env → Snapshot → MessageSpec → ℕ
message_id env s spec = unwrap_or spec.message_id (env.uuid s.draws)

-- The snapshot after the identifier was drawn, where none was given.
abbrev drawn : Snapshot → MessageSpec → Snapshot
drawn s spec = if is_none spec.message_id then record s { draws = s.draws + 1 } else s

unfoldable pub new_message : Env → Snapshot → MessageSpec → ActorRef → MessageView
new_message env s spec actor = record {
  id = message_id env s spec;
  mission_id = spec.mission_id;
  task_id = spec.task_id;
  sender = actor;
  recipient = spec.recipient;
  act = spec.act;
  body = spec.body;
  artifact_ids = spec.artifact_ids;
  reply_to = spec.reply_to;
  hop = spec.hop;
  delivery = DeliveryStatus.queued;
  created_at = env.timestamp s.draws;
}

abbrev pub queued_reply : Env → Snapshot → MessageView → Reduced
queued_reply env s message =
    (s, Event.message_queued message, CommandResult.created (env.show_uuid message.id))

-- The end of a send: a message that is stored is given back, one that the mailbox takes is stored.
unfoldable pub queue_message :
    Env → Mailbox → Snapshot → MessageSpec → ActorRef → Result Reduced × Mailbox
queue_message env mailbox s spec actor =
    let id = message_id env s spec in
    let (taken, next) = accept id spec.hop mailbox in
    let message = new_message env s spec actor in
    elim (find_message id s.messages) [
      | some existing ↦ (ok (queued_reply env (drawn s spec) existing), mailbox)
      | none ↦
          if taken
          then (
            ok (
                queued_reply env
                  (record s { messages = s.messages ++ message ∷ []; draws = s.draws + 1 })
                  message),
            next,
          )
          else (err (validation "message hop limit exceeded or duplicate message"), next)
    ]

unfoldable pub reduce_send_message :
    Env → Mailbox → Snapshot → MessageSpec → ActorRef → Result Reduced × Mailbox
reduce_send_message env mailbox s spec actor = elim (check_send env s spec actor) [
  | err e ↦ (err e, mailbox)
  | ok passed ↦ queue_message env mailbox s spec actor
]

abbrev pub with_delivery : DeliveryStatus → MessageView → MessageView
with_delivery status message = record message { delivery = status }

abbrev pub set_delivery : ℕ → DeliveryStatus → Snapshot → Snapshot
set_delivery id status s = record s {
  messages = modify_first (has_message_id id) (with_delivery status) s.messages;
}

abbrev is_for_other : ActorRef → MessageView → Bool
is_for_other actor message =
    is_agent actor.kind && not (option_text_eq actor.id message.recipient.id)

unfoldable pub reduce_ack_message : Snapshot → ℕ → ActorRef → Result Reduced
reduce_ack_message s id actor = do
  message ← ok_or (find_message id s.messages) not_found
  refuse (is_for_other actor message) forbidden
  refuse (not (is_delivered message.delivery))
      (invalid_transition "only a delivered message can be acknowledged")
  ok (
    set_delivery id DeliveryStatus.acknowledged s,
    Event.message_acknowledged id,
    CommandResult.accepted,
  )

unfoldable pub reduce_complete_message : Snapshot → ℕ → Bool → ActorRef → Result Reduced
reduce_complete_message s id success actor = do
  message ← ok_or (find_message id s.messages) not_found
  refuse (is_for_other actor message) forbidden
  refuse (not (is_awaiting message.delivery))
      (invalid_transition "message is not awaiting completion")
  ok (
    set_delivery id (if success then DeliveryStatus.completed else DeliveryStatus.failed) s,
    if success then Event.message_completed id else Event.message_failed id,
    CommandResult.accepted,
  )

pub data MessageCommand : Type 0 where
  send_message : MessageSpec → MessageCommand
  ack_message : ℕ → MessageCommand
  complete_message : ℕ → Bool → MessageCommand

unfoldable pub reduce_message :
    Env → Mailbox → Snapshot → MessageCommand → ActorRef → Result Reduced × Mailbox
reduce_message env mailbox s (send_message spec) actor =
    reduce_send_message env mailbox s spec actor
reduce_message env mailbox s (ack_message id) actor = (reduce_ack_message s id actor, mailbox)
reduce_message env mailbox s (complete_message id success) actor =
    (reduce_complete_message s id success actor, mailbox)

-- What `deliver_message` commits, where the message is still queued.
unfoldable pub deliver_message : ℕ → Snapshot → Snapshot
deliver_message id s = elim (find_message id s.messages) [
  | none ↦ s
  | some message ↦
      if is_queued message.delivery then set_delivery id DeliveryStatus.delivered s else s
]

abbrev reply_timeout_seconds : ℕ
reply_timeout_seconds = 600

abbrev is_overdue : ℕ → MessageView → Bool
is_overdue now message =
    requires_reply message.act
    && is_awaiting message.delivery
    && is_some_and (parse_below u64_limit message.created_at)
        (λ millis. leb reply_timeout_seconds (now - millis / 1000))

-- The first pass of `expire_pending_messages`.
unfoldable pub overdue : ℕ → Snapshot → List ℕ
overdue now s = map (λ message. message.id) (keep (is_overdue now) s.messages)

-- What the second pass commits for one of them, on the latest snapshot.
unfoldable pub expire_message : ℕ → Snapshot → Snapshot
expire_message id s = elim (find_message id s.messages) [
  | none ↦ s
  | some message ↦
      if requires_reply message.act && is_awaiting message.delivery
      then set_delivery id DeliveryStatus.failed s
      else s
]
