-- ===== src/Protocol/Records.antt =====
-- The views of crates/frank-protocol that the reducers read and write. An identifier is the
-- number of its UUID (`nil` is 0) and a timestamp is its text. `Snapshot` has the fields that the
-- modelled reducers touch. Its `draws` is no field of the source: it counts the calls of
-- `Uuid::new_v4` and of the clock, whose results `Env` gives by that count.
use frank.Prelude.{ℕ, ◌⊎◌, String, Bool, Option, List, Result, ok, err}
use frank.Protocol.Mission.{MissionStatus}
use frank.Protocol.Task.{TaskStatus}
use frank.Protocol.Connector.{OrganizationCapabilityKind, ConnectorKind, ConnectorHealth}
use frank.Protocol.Status.{
  TaskClaimSource, TaskFeedKind, ReviewWorkItemStatus, OrganizationDrainStatus,
  OrganizationNodeKind, OrganizationRelationKind, OperationKind, OperationStatus, BudgetScope,
}
pub use frank.Protocol.Actors.{
  ℤ, pos, negsuc, Budget, WorkItemKind, FilesystemPolicy, ShellPolicy, NetworkPolicy,
  ApprovalPolicy, AgentPolicy, ModelSource, AgentView, RoleView, ActorRef,
}
use frank.Protocol.Messages.{MessageView, ApprovalView, ApprovalDecision}

pub record MissionView : Type 0 where
  pub id : ℕ
  pub project_id : ℕ
  pub objective : String
  pub status : MissionStatus
  pub supervisor_session_id : Option String
  pub branch : String
  pub budget : Budget
  pub last_error : Option String
  pub created_at : String
  pub updated_at : String

pub record TaskView : Type 0 where
  pub id : ℕ
  pub mission_id : ℕ
  pub title : String
  pub objective : String
  pub dependencies : List ℕ
  pub required_role_id : Option ℕ
  pub priority : ℤ
  pub budget : Budget
  pub status : TaskStatus
  pub assigned_agent : Option ℕ
  pub reviewer_agent : Option ℕ
  pub claimed_at : Option String
  pub claim_source : Option TaskClaimSource
  pub attempt : ℕ  -- u8
  pub max_attempts : ℕ  -- u8
  pub worktree : Option String
  pub branch : Option String
  pub result_artifact : Option ℕ
  pub taskboard_id : Option ℕ
  pub workflow_id : Option ℕ
  pub parent_task_id : Option ℕ
  pub child_task_ids : List ℕ
  pub kind : WorkItemKind
  pub active_role_node_id : Option String
  pub organization_revision : Option ℕ  -- u64
  pub rework_limit : ℕ  -- u8
  pub rework_count : ℕ  -- u8

pub record TaskSpec : Type 0 where
  pub mission_id : ℕ
  pub title : String
  pub objective : String
  pub dependencies : List ℕ
  pub required_role_id : Option ℕ
  pub priority : ℤ
  pub assigned_agent : Option ℕ
  pub budget : Budget
  pub taskboard_id : Option ℕ
  pub workflow_id : Option ℕ
  pub parent_task_id : Option ℕ
  pub kind : WorkItemKind
  pub rework_limit : ℕ  -- u8

pub record TaskPatch : Type 0 where
  pub title : Option String
  pub objective : Option String
  pub dependencies : Option (List ℕ)
  pub required_role_id : Option (Option ℕ)
  pub priority : Option ℤ
  pub assigned_agent : Option (Option ℕ)
  pub budget : Option Budget

pub record TaskFeedEntry : Type 0 where
  pub id : ℕ
  pub task_id : ℕ
  pub actor : ActorRef
  pub kind : TaskFeedKind
  pub body : String
  pub artifact_ids : List ℕ
  pub created_at : String

pub data TaskGrantEffect : Type 0 where
  workspace_write check : TaskGrantEffect

pub record TaskGrantView : Type 0 where
  pub id : String
  pub task_id : ℕ
  pub agent_id : ℕ
  pub worktree : String
  pub effect : TaskGrantEffect
  pub expires_at : String
  pub revoked : Bool
  pub source_approval_id : Option ℕ

pub record OrganizationHandoffContract : Type 0 where
  pub input_summary : String
  pub expected_output : String

pub record OrganizationNode : Type 0 where
  pub id : String
  pub kind : OrganizationNodeKind
  pub agent_id : Option ℕ
  pub capability : Option OrganizationCapabilityKind
  pub connector_profile_id : Option ℕ
  pub role_id : Option ℕ
  pub taskboard_id : Option ℕ

pub record OrganizationRelation : Type 0 where
  pub id : String
  pub kind : OrganizationRelationKind
  pub source_node_id : String
  pub target_node_id : String
  pub permissions : List String
  pub contract : OrganizationHandoffContract

pub record OrganizationGraph : Type 0 where
  pub id : ℕ
  pub draft_revision : ℕ  -- u64
  pub published_revision : ℕ  -- u64
  pub nodes : List OrganizationNode
  pub relations : List OrganizationRelation

pub record ConnectorProfileView : Type 0 where
  pub id : ℕ
  pub name : String
  pub kind : ConnectorKind
  pub health : ConnectorHealth
  pub configured : Bool
  pub archived : Bool

pub record ReviewWorkItemView : Type 0 where
  pub id : ℕ
  pub mission_id : ℕ
  pub source_task_id : ℕ
  pub source_agent : ℕ
  pub reviewer_agent : ℕ
  pub relation_id : String
  pub contract : OrganizationHandoffContract
  pub status : ReviewWorkItemStatus
  pub decision_reason : Option String
  pub created_at : String
  pub updated_at : String

pub record OperationView : Type 0 where
  pub id : ℕ
  pub kind : OperationKind
  pub status : OperationStatus
  pub resource : String
  pub phase : String
  pub attempt : ℕ  -- u16
  pub error : Option String
  pub created_at : String
  pub updated_at : String

pub record CreateWorktreeOperation : Type 0 where
  pub project_id : ℕ
  pub mission_id : ℕ
  pub mission_branch : String
  pub mission_base : String
  pub mission_path : String
  pub task_id : ℕ
  pub task_branch : String
  pub task_base : String
  pub task_path : String

pub record ProjectView : Type 0 where
  pub id : ℕ
  pub path : String
  pub base_branch : String
  pub worktree_root : String
  pub archived : Bool

pub record ArtifactView : Type 0 where
  pub id : ℕ
  pub mission_id : ℕ
  pub task_id : Option ℕ

pub record Snapshot : Type 0 where
  pub revision : ℕ  -- u64
  pub event_seq : ℕ  -- u64
  pub allowed_project_roots : List String
  pub projects : List ProjectView
  pub roles : List RoleView
  pub agents : List AgentView
  pub missions : List MissionView
  pub tasks : List TaskView
  pub artifacts : List ArtifactView
  pub operations : List OperationView
  pub task_feed : List TaskFeedEntry
  pub task_grants : List TaskGrantView
  pub draft : OrganizationGraph
  pub published : Option OrganizationGraph
  pub connector_profiles : List ConnectorProfileView
  pub drain_status : OrganizationDrainStatus
  pub review_items : List ReviewWorkItemView
  pub messages : List MessageView
  pub approvals : List ApprovalView
  pub approval_ttl_seconds : ℕ  -- u64
  pub draws : ℕ

-- What the program reads from outside its repository: the `uuid` and `serde_json` crates, the
-- clock, and the file system. The number is the count of draws so far.
pub record Env : Type 0 where
  pub uuid : ℕ → ℕ
  pub timestamp : ℕ → String
  pub show_uuid : ℕ → String
  pub parse_uuid : String → Option ℕ
  pub encode_worktree : CreateWorktreeOperation → String ⊎ String  -- `inl` is the error's text
  pub decode_worktree : String → Option CreateWorktreeOperation
  pub canonicalize_allow_missing : String → Option String
  pub is_dir : String → Bool
  pub canonicalize : String → Option String
  pub seconds : ℕ → ℕ  -- the clock, in seconds since the epoch
  pub validate_repository : ProjectView → Option String  -- the text of a Git error

-- The events and replies of the modelled reducers (event.rs, command.rs).
pub data Event : Type 0 where
  snapshot_replaced : Snapshot → Event
  artifact_published : ArtifactView → Event
  task_created : TaskView → Event
  task_updated : TaskView → Event
  task_assigned : ℕ → ℕ → Event
  task_claimed : ℕ → ℕ → String → TaskClaimSource → Event
  task_released : ℕ → Event
  task_activity_added : TaskFeedEntry → Event
  task_status_changed : ℕ → TaskStatus → Event
  task_worktree_provisioning : TaskView → OperationView → Event
  review_work_item_opened : TaskView → ReviewWorkItemView → Event
  review_work_item_decided : TaskView → ReviewWorkItemView → Event
  operation_changed : OperationView → Event
  mission_status_changed : ℕ → MissionStatus → Event
  approval_requested : ApprovalView → Event
  approval_expired : ℕ → Event
  approval_decided : ℕ → ApprovalDecision → Event
  task_grant_created : TaskGrantView → Event
  task_grant_revoked : String → Event
  budget_paused : BudgetScope → String → Event
  message_queued : MessageView → Event
  message_acknowledged message_completed message_failed message_delivered : ℕ → Event
  agent_upserted : AgentView → Event
  agent_archived : ℕ → Event
  role_upserted : RoleView → Event
  role_archived : ℕ → Event

pub data CommandResult : Type 0 where
  accepted : CommandResult
  created : String → CommandResult
  operation : OperationView → CommandResult

abbrev pub Reduced : Type 0
Reduced = Snapshot × Event × CommandResult

-- The snapshot after a command: a refused one changes nothing.
abbrev pub committed : Snapshot → Result Reduced → Snapshot
committed s (ok r) = r.0
committed s (err e) = s
