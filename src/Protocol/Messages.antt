-- ===== src/Protocol/Messages.antt =====
-- Messages and approvals of crates/frank-protocol/src/usage.rs.
use frank.Prelude.{ℕ, String, Bool, true, false, Option, List}
use frank.Protocol.Actors.{ActorRef}

pub data MessageAct : Type 0 where
  request inform propose query agree refuse done handoff : MessageAct

unfoldable pub requires_reply : MessageAct → Bool
requires_reply MessageAct.request = true
requires_reply MessageAct.query = true
requires_reply MessageAct.propose = true
requires_reply _ = false

pub data DeliveryStatus : Type 0 where
  queued delivered acknowledged completed failed : DeliveryStatus

abbrev pub is_delivered : DeliveryStatus → Bool
is_delivered DeliveryStatus.delivered = true
is_delivered _ = false

abbrev pub is_queued : DeliveryStatus → Bool
is_queued DeliveryStatus.queued = true
is_queued _ = false

-- `Delivered | Acknowledged`
abbrev pub is_awaiting : DeliveryStatus → Bool
is_awaiting DeliveryStatus.delivered = true
is_awaiting DeliveryStatus.acknowledged = true
is_awaiting _ = false

pub record MessageSpec : Type 0 where
  pub message_id : Option ℕ
  pub mission_id : ℕ
  pub task_id : Option ℕ
  pub recipient : ActorRef
  pub act : MessageAct
  pub body : String
  pub artifact_ids : List ℕ
  pub reply_to : Option ℕ
  pub hop : ℕ  -- u8

pub record MessageView : Type 0 where
  pub id : ℕ
  pub mission_id : ℕ
  pub task_id : Option ℕ
  pub sender : ActorRef
  pub recipient : ActorRef
  pub act : MessageAct
  pub body : String
  pub artifact_ids : List ℕ
  pub reply_to : Option ℕ
  pub hop : ℕ  -- u8
  pub delivery : DeliveryStatus
  pub created_at : String

pub data ApprovalStatus : Type 0 where
  pending approved denied expired : ApprovalStatus

abbrev pub is_undecided : ApprovalStatus → Bool
is_undecided ApprovalStatus.pending = true
is_undecided _ = false

pub data ApprovalDecision : Type 0 where
  allow_once allow_for_task deny_once : ApprovalDecision

pub record ApprovalView : Type 0 where
  pub id : ℕ
  pub agent_id : ℕ
  pub task_id : ℕ
  pub operation : String
  pub cwd : String
  pub project : String
  pub reason : String
  pub status : ApprovalStatus
  pub expires_at : String

pub record ApprovalSpec : Type 0 where
  pub agent_id : ℕ
  pub task_id : ℕ
  pub operation : String
  pub cwd : String
  pub project : String
  pub reason : String
