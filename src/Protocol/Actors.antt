-- ===== src/Protocol/Actors.antt =====
-- Agents, roles and the actors of commands (crates/frank-protocol/src/team.rs and
-- settings_capabilities.rs), with the budgets that they carry (usage.rs).
use frank.Prelude.{ℕ, String, Bool, Option}
use frank.Protocol.Status.{AgentStatus, ActorKind}

-- A signed number that the reducers only carry (`priority: i32`).
pub data ℤ : Type 0 where
  pos : ℕ → ℤ
  negsuc : ℕ → ℤ

pub record Budget : Type 0 where
  pub time_seconds : Option ℕ  -- u64
  pub turns : Option ℕ  -- u32
  pub measured_tokens : Option ℕ  -- u64
  pub cost_micros : Option ℕ  -- u64

pub data WorkItemKind : Type 0 where
  task human_question idea note : WorkItemKind

pub data FilesystemPolicy : Type 0 where
  read_only workspace_write : FilesystemPolicy

pub data ShellPolicy : Type 0 where
  deny ask allow : ShellPolicy

pub data NetworkPolicy : Type 0 where
  deny ask allow : NetworkPolicy

pub data ApprovalPolicy : Type 0 where
  never ask : ApprovalPolicy

pub record AgentPolicy : Type 0 where
  pub filesystem : FilesystemPolicy
  pub shell : ShellPolicy
  pub network : NetworkPolicy
  pub approval : ApprovalPolicy

pub data ModelSource : Type 0 where
  role agent : ModelSource

pub record AgentView : Type 0 where
  pub id : ℕ
  pub role_id : Option ℕ
  pub role_revision : ℕ  -- u64
  pub display_name : String
  pub model : Option String
  pub effective_model : Option String
  pub model_source : ModelSource
  pub model_override : Option String
  pub pending_model_override : Option (Option String)
  pub pending_model_change : Bool
  pub instructions : String
  pub policy : AgentPolicy
  pub budget : Budget
  pub status : AgentStatus
  pub provider_session_id : Option String
  pub last_claimed_at : Option String
  pub archived : Bool

pub record RoleView : Type 0 where
  pub id : ℕ
  pub name : String
  pub model : Option String
  pub instructions : String
  pub policy : AgentPolicy
  pub budget : Budget
  pub revision : ℕ  -- u64
  pub archived : Bool

pub record ActorRef : Type 0 where
  pub kind : ActorKind
  pub id : Option String
  pub display_name : Option String

pub record AgentSpec : Type 0 where
  pub role_id : ℕ
  pub display_name : String
  pub model_override : Option String

pub record AgentPatch : Type 0 where
  pub role_id : Option (Option ℕ)
  pub display_name : Option String
  pub model_override : Option (Option String)
  pub clear_model_override : Bool

pub record RoleSpec : Type 0 where
  pub name : String
  pub model : Option String
  pub instructions : String
  pub policy : AgentPolicy
  pub budget : Budget

pub record RolePatch : Type 0 where
  pub name : Option String
  pub model : Option (Option String)
  pub clear_model : Bool
  pub instructions : Option String
  pub policy : Option AgentPolicy
  pub budget : Option Budget
