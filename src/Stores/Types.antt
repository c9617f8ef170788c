-- ===== src/Stores/Types.antt =====
-- internal/runtime/store.go and task_dispatch.go: the records of approvals, executions and operator
-- actions; TaskQueueStatus of task_graph.go. A version is an int64, by its bit pattern.
use personal_cfo_os.Base.{ℕ, String, Bool, true, false, Option, List}
use personal_cfo_os.Workflow.Types.{WorkflowExecutionState, FailureCategory, RecoveryStrategy}

-- `other_queue_status` holds a text that is none of the constants.
pub data TaskQueueStatus : Type 0 where
  ready dependency_blocked deferred waiting_approval queued_pending_capability : TaskQueueStatus
  executing completed failed : TaskQueueStatus
  other_queue_status : String → TaskQueueStatus

pub data ApprovalStatus : Type 0 where
  pending approved denied : ApprovalStatus
  other_approval_status : String → ApprovalStatus

abbrev pub is_pending : ApprovalStatus → Bool
is_pending pending = true
is_pending _ = false

pub record ApprovalStateRecord : Type 0 where
  pub approval_id : String
  pub graph_id : String
  pub task_id : String
  pub workflow_id : String
  pub execution_id : String
  pub requested_action : String
  pub required_roles : List String
  pub requested_at : ℕ
  pub deadline : Option ℕ
  pub status : ApprovalStatus
  pub resolved_at : Option ℕ
  pub resolved_by : String
  pub resolution_note : String
  pub version : ℕ

pub record TaskExecutionRecord : Type 0 where
  pub execution_id : String
  pub task_id : String
  pub intent : String
  pub parent_graph_id : String
  pub parent_workflow_id : String
  pub root_task_id : String
  pub triggered_by_task_id : String
  pub execution_depth : ℕ
  pub capability : String
  pub workflow_id : String
  pub root_correlation_id : String
  pub correlation_id : String
  pub causation_id : String
  pub status : TaskQueueStatus
  pub version : ℕ
  pub attempt : ℕ
  pub retry_count : ℕ
  pub last_recovery_strategy : Option RecoveryStrategy
  pub last_transition_at : ℕ
  pub started_at : ℕ
  pub completed_at : ℕ
  pub failed_at : ℕ
  pub input_state_version : ℕ
  pub updated_state_version : ℕ
  pub input_state_snapshot_ref : String
  pub updated_state_snapshot_ref : String
  pub committed : Bool
  pub checkpoint_id : String
  pub resume_token : String
  pub resume_state : Option WorkflowExecutionState
  pub approval_id : String
  pub pending_approval : Bool
  pub failure_category : Option FailureCategory
  pub failure_summary : String
  pub artifact_ids : List String

pub data OperatorActionType : Type 0 where
  approve deny resume retry reevaluate : OperatorActionType
  other_action_type : String → OperatorActionType

pub data OperatorActionStatus : Type 0 where
  requested applied action_failed : OperatorActionStatus
  other_action_status : String → OperatorActionStatus

pub record OperatorActionRecord : Type 0 where
  pub action_id : String
  pub request_id : String
  pub action_type : OperatorActionType
  pub actor : String
  pub roles : List String
  pub graph_id : String
  pub task_id : String
  pub approval_id : String
  pub workflow_id : String
  pub status : OperatorActionStatus
  pub note : String
  pub requested_at : ℕ
  pub applied_at : Option ℕ
  pub failure_summary : String
  pub expected_version : ℕ
