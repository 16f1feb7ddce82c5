-- ===== src/Protocol/Status.antt =====
-- The other statuses and kinds of crates/frank-protocol (usage.rs, team.rs, workflow.rs,
-- settings_capabilities.rs, operations_artifacts_terminal.rs) with the tests made on them.
use frank.Prelude.{Bool, true, false}

pub data TaskClaimSource : Type 0 where
  automatic manual reclaim : TaskClaimSource

abbrev pub is_reclaim : TaskClaimSource → Bool
is_reclaim TaskClaimSource.reclaim = true
is_reclaim _ = false

pub data TaskFeedKind : Type 0 where
  comment created status_changed assigned claimed released agent_departed : TaskFeedKind
  dependency_locked dependency_unlocked attachment_added : TaskFeedKind

abbrev pub is_assigned_kind : TaskFeedKind → Bool
is_assigned_kind TaskFeedKind.assigned = true
is_assigned_kind _ = false

pub data ReviewWorkItemStatus : Type 0 where
  pending approved rejected cancelled : ReviewWorkItemStatus

abbrev pub is_pending : ReviewWorkItemStatus → Bool
is_pending ReviewWorkItemStatus.pending = true
is_pending _ = false

abbrev pub is_approved : ReviewWorkItemStatus → Bool
is_approved ReviewWorkItemStatus.approved = true
is_approved _ = false

pub data ReviewDecision : Type 0 where
  approve reject : ReviewDecision

pub data AgentStatus : Type 0 where
  offline idle starting thinking working waiting needs_approval paused failed stopping : AgentStatus

-- `Offline | Idle`
abbrev pub is_available : AgentStatus → Bool
is_available AgentStatus.offline = true
is_available AgentStatus.idle = true
is_available _ = false

pub data OrganizationDrainStatus : Type 0 where
  running draining paused : OrganizationDrainStatus

abbrev pub is_draining : OrganizationDrainStatus → Bool
is_draining OrganizationDrainStatus.draining = true
is_draining _ = false

pub data OrganizationNodeKind : Type 0 where
  staff capability approval role taskboard child_workflow : OrganizationNodeKind

abbrev pub is_staff : OrganizationNodeKind → Bool
is_staff OrganizationNodeKind.staff = true
is_staff _ = false

abbrev pub is_capability : OrganizationNodeKind → Bool
is_capability OrganizationNodeKind.capability = true
is_capability _ = false

abbrev pub is_role : OrganizationNodeKind → Bool
is_role OrganizationNodeKind.role = true
is_role _ = false

-- `Role | Taskboard | ChildWorkflow`
abbrev pub is_v2 : OrganizationNodeKind → Bool
is_v2 OrganizationNodeKind.role = true
is_v2 OrganizationNodeKind.taskboard = true
is_v2 OrganizationNodeKind.child_workflow = true
is_v2 _ = false

pub data OrganizationRelationKind : Type 0 where
  handoff tool_access review pickup drop rework : OrganizationRelationKind

abbrev pub is_handoff : OrganizationRelationKind → Bool
is_handoff OrganizationRelationKind.handoff = true
is_handoff _ = false

abbrev pub is_tool_access : OrganizationRelationKind → Bool
is_tool_access OrganizationRelationKind.tool_access = true
is_tool_access _ = false

abbrev pub is_review_relation : OrganizationRelationKind → Bool
is_review_relation OrganizationRelationKind.review = true
is_review_relation _ = false

pub data ActorKind : Type 0 where
  device agent supervisor system : ActorKind

abbrev pub is_agent : ActorKind → Bool
is_agent ActorKind.agent = true
is_agent _ = false

abbrev pub is_device : ActorKind → Bool
is_device ActorKind.device = true
is_device _ = false

abbrev pub is_supervisor : ActorKind → Bool
is_supervisor ActorKind.supervisor = true
is_supervisor _ = false

pub data OperationKind : Type 0 where
  clone_project create_worktree run_checks commit_task merge_task push_mission : OperationKind
  open_draft_pull_request artifact_upload service_apply network_apply host_update : OperationKind
  stage_update artifact_prune write_memory : OperationKind

abbrev pub is_create_worktree : OperationKind → Bool
is_create_worktree OperationKind.create_worktree = true
is_create_worktree _ = false

abbrev pub is_commit_task : OperationKind → Bool
is_commit_task OperationKind.commit_task = true
is_commit_task _ = false

-- `PushMission | OpenDraftPullRequest`
abbrev pub is_delivery : OperationKind → Bool
is_delivery OperationKind.push_mission = true
is_delivery OperationKind.open_draft_pull_request = true
is_delivery _ = false

pub data OperationStatus : Type 0 where
  queued running waiting succeeded failed cancelled recovering : OperationStatus

abbrev pub is_queued : OperationStatus → Bool
is_queued OperationStatus.queued = true
is_queued _ = false

-- `Succeeded | Cancelled | Failed`
abbrev pub is_settled : OperationStatus → Bool
is_settled OperationStatus.succeeded = true
is_settled OperationStatus.cancelled = true
is_settled OperationStatus.failed = true
is_settled _ = false

-- `Queued | Running | Waiting | Recovering`
abbrev pub is_in_flight : OperationStatus → Bool
is_in_flight OperationStatus.queued = true
is_in_flight OperationStatus.running = true
is_in_flight OperationStatus.waiting = true
is_in_flight OperationStatus.recovering = true
is_in_flight _ = false

-- `Cancelled | Failed`
abbrev pub is_abandoned : OperationStatus → Bool
is_abandoned OperationStatus.cancelled = true
is_abandoned OperationStatus.failed = true
is_abandoned _ = false

pub data BudgetScope : Type 0 where
  mission agent task : BudgetScope
