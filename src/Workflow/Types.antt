-- ===== src/Workflow/Types.antt =====
-- internal/runtime/types.go and validation.go: workflow states, failures, checkpoints and tokens.
use personal_cfo_os.Base.{
  ℕ, String, Bool, true, false, ◌||◌, not, Option, none, some, List, ltb, ◌==◌, nat_eq, string_eq,
  if◌then◌else◌, is_empty,
}
use personal_cfo_os.Errors.{RuntimeError, failure}

-- `other_state` holds a text that is none of the constants.
pub data WorkflowExecutionState : Type 0 where
  created planning acting verifying replanning waiting_approval : WorkflowExecutionState
  paused retrying completed failed aborted : WorkflowExecutionState
  other_state : String → WorkflowExecutionState

pub data FailureCategory : Type 0 where
  transient timeout validation trust_validation policy governance_denied : FailureCategory
  denied_by_operator protocol unrecoverable : FailureCategory
  other_category : String → FailureCategory

pub data RecoveryStrategy : Type 0 where
  retry replan wait_for_approval abort escalate : RecoveryStrategy

pub record CheckpointRecord : Type 0 where
  pub id : String
  pub workflow_id : String
  pub state : WorkflowExecutionState
  pub resume_state : WorkflowExecutionState
  pub state_version : ℕ
  pub summary : String
  pub captured_at : ℕ

pub record ResumeToken : Type 0 where
  pub token : String
  pub workflow_id : String
  pub checkpoint_id : String
  pub issued_at : ℕ
  pub expires_at : ℕ

pub record HumanApprovalPending : Type 0 where
  pub approval_id : String
  pub workflow_id : String
  pub requested_action : String
  pub required_roles : List String
  pub requested_at : ℕ
  pub deadline : Option ℕ

abbrev pub valid_workflow_state : WorkflowExecutionState → Bool
valid_workflow_state (other_state text) = false
valid_workflow_state _ = true

-- `IsZero`
abbrev pub is_zero : ℕ → Bool
is_zero t = t == 0

unfoldable pub validate_checkpoint : CheckpointRecord → Option RuntimeError
validate_checkpoint c =
    if is_empty c.id
    then some (failure "checkpoint id is required")
    else if is_empty c.workflow_id
    then some (failure "checkpoint workflow id is required")
    else if not (valid_workflow_state c.state) || not (valid_workflow_state c.resume_state)
    then some (failure "checkpoint states must be valid")
    else if is_zero c.captured_at
    then some (failure "checkpoint captured_at is required")
    else none

unfoldable pub validate_token : ResumeToken → Option RuntimeError
validate_token r =
    if is_empty r.token
    then some (failure "resume token is required")
    else if is_empty r.workflow_id || is_empty r.checkpoint_id
    then some (failure "resume token must bind workflow and checkpoint")
    else if is_zero r.issued_at || is_zero r.expires_at
    then some (failure "resume token timestamps are required")
    else if ltb r.expires_at r.issued_at
    then some (failure "resume token expiry must be after issue time")
    else none
