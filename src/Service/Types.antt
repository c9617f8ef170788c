-- ===== src/Service/Types.antt =====
-- The service's stores and the values that pass between them: internal/runtime/store.go,
-- task_dispatch.go and commands.go, internal/state/types.go, internal/reporting/types.go. `B` stands for
-- the parts of the financial state and `P` for checkpoint payloads, which the runtime passes on.
use personal_cfo_os.Base.{ℕ, String, Bool, false, Option, none, List, [], nat_eq}
use personal_cfo_os.Base.Dict.{Dict}
use personal_cfo_os.WorkQueue.Types.{WorkItemKind, WorkEnqueueResult}
use personal_cfo_os.WorkQueue.{Items}
use personal_cfo_os.Workflow.Types.{
  WorkflowExecutionState, FailureCategory, RecoveryStrategy, CheckpointRecord, ResumeToken,
  HumanApprovalPending,
}
use personal_cfo_os.Workflow.Checkpoints.{Runtime}
use personal_cfo_os.Stores.Types.{
  TaskQueueStatus, ready, dependency_blocked, deferred, waiting_approval, queued_pending_capability,
  executing, completed, failed, other_queue_status, ApprovalStatus, pending, approved, denied,
  other_approval_status, OperatorActionRecord,
}
use personal_cfo_os.Stores.Approvals.{Approvals}
use personal_cfo_os.Stores.Executions.{Executions}
use personal_cfo_os.Stores.Actions.{ActionStore}
use personal_cfo_os.TaskGraph.Store.{GraphStore}

pub record StateVersion : Type 0 where
  pub sequence : ℕ
  pub snapshot_id : String
  pub updated_at : ℕ

pub record FinancialWorldState (B : Type 0) : Type 0 where
  pub body : B
  pub version : StateVersion

pub record StateSnapshot (B : Type 0) : Type 0 where
  pub state : FinancialWorldState B
  pub captured_at : ℕ
  pub reason : String

pub record WorkflowArtifact : Type 0 where
  pub id : String
  pub workflow_id : String
  pub task_id : String
  pub kind : String
  pub produced_by : String
  pub consumed_by : List String
  pub location : String
  pub summary : String
  pub content_json : String
  pub created_at : ℕ

pub record ReplayEventRecord : Type 0 where
  pub event_id : String
  pub root_correlation_id : String
  pub parent_workflow_id : String
  pub workflow_id : String
  pub graph_id : String
  pub task_id : String
  pub approval_id : String
  pub execution_id : String
  pub action_type : String
  pub summary : String
  pub occurred_at : ℕ
  pub details_json : String
  pub committed_state_ref : String
  pub updated_state_ref : String
  pub artifact_ids : List String
  pub operator_action_id : String
  pub checkpoint_id : String
  pub resume_token : String

-- An event without the fields that its place in the code fills in.
abbrev pub no_event : ReplayEventRecord
no_event = record {
  event_id = "";
  root_correlation_id = "";
  parent_workflow_id = "";
  workflow_id = "";
  graph_id = "";
  task_id = "";
  approval_id = "";
  execution_id = "";
  action_type = "";
  summary = "";
  occurred_at = 0;
  details_json = "";
  committed_state_ref = "";
  updated_state_ref = "";
  artifact_ids = [];
  operator_action_id = "";
  checkpoint_id = "";
  resume_token = "";
}

pub record FollowUpWorkflowRunResult (B P : Type 0) : Type 0 where
  pub workflow_id : String
  pub runtime_state : WorkflowExecutionState
  pub updated_state : FinancialWorldState B
  pub artifacts : List WorkflowArtifact
  pub checkpoint : Option CheckpointRecord
  pub resume_token : Option ResumeToken
  pub checkpoint_payload : Option P
  pub pending_approval : Option HumanApprovalPending
  pub failure_category : Option FailureCategory
  pub failure_summary : String
  pub last_recovery_strategy : Option RecoveryStrategy

-- The stores that the service is built over, all of them in memory.
pub record Backend (B P : Type 0) : Type 0 where
  pub graphs : GraphStore (StateSnapshot B)
  pub executions : Executions
  pub approvals : Approvals
  pub actions : ActionStore
  pub checkpoints : Runtime
  pub payloads : Dict P
  pub artifacts : Dict WorkflowArtifact
  pub replay : List ReplayEventRecord
  pub items : Items

pub record TaskCommandResult : Type 0 where
  pub action : Option OperatorActionRecord
  pub graph_id : String
  pub task_id : String
  pub approval_id : String
  pub execution_id : String
  pub status : Option TaskQueueStatus
  pub auto_resume_tried : Bool
  pub auto_resume_applied : Bool
  pub failure_summary : String
  pub enqueue_results : List WorkEnqueueResult
  pub enqueued_work_item_ids : List String
  pub enqueued_work_kinds : List WorkItemKind
  pub async_dispatch_accepted : Bool

abbrev pub no_result : TaskCommandResult
no_result = record {
  action = none;
  graph_id = "";
  task_id = "";
  approval_id = "";
  execution_id = "";
  status = none;
  auto_resume_tried = false;
  auto_resume_applied = false;
  failure_summary = "";
  enqueue_results = [];
  enqueued_work_item_ids = [];
  enqueued_work_kinds = [];
  async_dispatch_accepted = false;
}

abbrev pub queue_status_text : TaskQueueStatus → String
queue_status_text ready = "ready"
queue_status_text dependency_blocked = "dependency_blocked"
queue_status_text deferred = "deferred"
queue_status_text waiting_approval = "waiting_approval"
queue_status_text queued_pending_capability = "queued_pending_capability"
queue_status_text executing = "executing"
queue_status_text completed = "completed"
queue_status_text failed = "failed"
queue_status_text (other_queue_status text) = text

abbrev pub approval_status_text : ApprovalStatus → String
approval_status_text pending = "pending"
approval_status_text approved = "approved"
approval_status_text denied = "denied"
approval_status_text (other_approval_status text) = text
