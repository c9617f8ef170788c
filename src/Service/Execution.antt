-- ===== src/Service/Execution.antt =====
-- internal/runtime/task_activation.go and service_helpers.go: the record of an execution, from its
-- result to the graph that it is written into.
pub mod Commit
use personal_cfo_os.Base.{
  ℕ, String, Bool, true, false, Option, none, some, List, [], ◌∷◌, ◌++◌, map, nat_eq, string_eq,
  if◌then◌else◌, is_empty, push,
}
use personal_cfo_os.Workflow.Types.{
  WorkflowExecutionState, waiting_approval as state_waiting, completed as state_completed,
  replanning, retrying, failed as state_failed, CheckpointRecord, ResumeToken, HumanApprovalPending,
}
use personal_cfo_os.Stores.Types.{
  TaskExecutionRecord, TaskQueueStatus, waiting_approval, completed, failed,
}
use personal_cfo_os.TaskSpec.{TaskGenerationReason, TaskTriggerSource, TaskGraph}
use personal_cfo_os.TaskGraph.{FollowUpTaskRecord, TaskGraphSnapshot}
use personal_cfo_os.TaskGraph.Activation.{unique_texts, update_task_status}
use personal_cfo_os.Service.Types.{StateSnapshot, FollowUpWorkflowRunResult}
use personal_cfo_os.Service.Persist.{snapshot_of, snapshot_ref_for}

-- `firstNonEmpty` of two texts.
abbrev pub first_text : String → String → String
first_text a b = if is_empty a then b else a

pub record FollowUpActivationContext : Type 0 where
  pub graph_id : String
  pub parent_graph_id : String
  pub parent_workflow_id : String
  pub root_task_id : String
  pub triggered_by_task_id : String
  pub root_correlation_id : String
  pub trigger_source : TaskTriggerSource
  pub generation_reasons : List TaskGenerationReason
  pub life_event_id : String
  pub life_event_kind : String
  pub source_evidence_ids : List String
  pub execution_depth : ℕ

-- The first text of the reasons that is not empty.
unfoldable pub first_reason_text :
    (TaskGenerationReason → String) → List TaskGenerationReason → String
first_reason_text field [] = ""
first_reason_text field (r ∷ rs) = first_text (field r) (first_reason_text field rs)

unfoldable pub evidence_of : List TaskGenerationReason → List String
evidence_of [] = []
evidence_of (r ∷ rs) = r.evidence_ids ++ (r.deadline_evidence ++ evidence_of rs)

unfoldable pub build_activation_context : TaskGraph → FollowUpTaskRecord → FollowUpActivationContext
build_activation_context graph task =
    let reasons = task.metadata.generation_reasons in
    record {
      graph_id = graph.graph_id;
      parent_graph_id = graph.graph_id;
      parent_workflow_id = graph.parent_workflow_id;
      root_task_id = graph.parent_task_id;
      triggered_by_task_id = task.task.id;
      root_correlation_id = first_text task.metadata.root_correlation_id graph.parent_workflow_id;
      trigger_source = task.metadata.trigger_source;
      generation_reasons = reasons;
      life_event_id = first_reason_text (λ r. r.life_event_id) reasons;
      life_event_kind = first_reason_text (λ r. r.life_event_kind) reasons;
      source_evidence_ids = unique_texts (evidence_of reasons);
      execution_depth = task.metadata.execution_depth;
    }

abbrev pub or_old : {A : Type 0} → Option A → Option A → Option A
or_old none old = old
or_old (some new) old = some new

abbrev pub pending_id : Option HumanApprovalPending → String → String
pending_id none old = old
pending_id (some h) old = h.approval_id

abbrev pub is_there : {A : Type 0} → Option A → Bool
is_there none = false
is_there (some a) = true

abbrev pub with_checkpoint : Option CheckpointRecord → TaskExecutionRecord → TaskExecutionRecord
with_checkpoint none r = r
with_checkpoint (some c) r = record r { checkpoint_id = c.id; resume_state = some c.resume_state }

abbrev pub with_token : Option ResumeToken → TaskExecutionRecord → TaskExecutionRecord
with_token none r = r
with_token (some t) r = record r { resume_token = t.token }

unfoldable pub as_completed : TaskExecutionRecord → ℕ → TaskExecutionRecord
as_completed r now = record r { status = completed; committed = true; completed_at = now }

module _ {B P : Type 0} where
  -- The fields that every result sets.
  unfoldable pub with_result :
      TaskExecutionRecord → FollowUpWorkflowRunResult B P → ℕ → TaskExecutionRecord
  with_result r result now = record r {
    workflow_id = result.workflow_id;
    last_recovery_strategy = or_old result.last_recovery_strategy r.last_recovery_strategy;
    last_transition_at = now;
    updated_state_version = result.updated_state.version.sequence;
    updated_state_snapshot_ref = result.updated_state.version.snapshot_id;
    artifact_ids = map (λ a. a.id) result.artifacts;
  }

  unfoldable pub as_waiting :
      TaskExecutionRecord → FollowUpWorkflowRunResult B P → TaskExecutionRecord
  as_waiting r result = with_token result.resume_token (
      with_checkpoint result.checkpoint (record r {
        status = waiting_approval;
        pending_approval = is_there result.pending_approval;
        committed = false;
        approval_id = pending_id result.pending_approval r.approval_id;
      }))

  unfoldable pub as_failed :
      TaskExecutionRecord → FollowUpWorkflowRunResult B P → ℕ → TaskExecutionRecord
  as_failed r result now = record r {
    status = failed;
    failure_category = result.failure_category;
    failure_summary = result.failure_summary;
    failed_at = now;
  }

  unfoldable pub as_unsupported :
      TaskExecutionRecord → FollowUpWorkflowRunResult B P → ℕ → TaskExecutionRecord
  as_unsupported r result now = record r {
    status = failed;
    failure_summary =
        first_text result.failure_summary
          "follow-up workflow returned an unsupported terminal state";
    failed_at = now;
  }

  unfoldable pub by_runtime_state :
      WorkflowExecutionState
      → TaskExecutionRecord
      → FollowUpWorkflowRunResult B P
      → ℕ
      → TaskExecutionRecord
  by_runtime_state state_completed r result now = as_completed r now
  by_runtime_state state_waiting r result now = as_waiting r result
  by_runtime_state state_failed r result now = as_failed r result now
  by_runtime_state replanning r result now = as_failed r result now
  by_runtime_state retrying r result now = as_failed r result now
  by_runtime_state _ r result now = as_unsupported r result now

  unfoldable pub finalize_task_execution_record :
      TaskExecutionRecord → FollowUpWorkflowRunResult B P → ℕ → TaskExecutionRecord
  finalize_task_execution_record r result now =
      by_runtime_state result.runtime_state (with_result r result now) result now

abbrev pub by_queue_status : {A : Type 0} → TaskQueueStatus → A → A → A → A
by_queue_status waiting_approval w f other = w
by_queue_status failed w f other = f
by_queue_status _ w f other = other

-- A nil slice is `none`.
unfoldable pub execution_blocking_reasons : TaskExecutionRecord → Option (List String)
execution_blocking_reasons r =
    by_queue_status r.status
      (some (
        (if is_empty r.approval_id
          then "waiting for human approval"
          else push "waiting for approval " r.approval_id)
        ∷ []))
      (some (
        (if is_empty r.failure_summary then "follow-up execution failed" else r.failure_summary)
        ∷ []))
      none

module _ {B P : Type 0} where
  -- The committed state advances only with a completed execution.
  unfoldable pub with_committed :
      TaskQueueStatus
      → TaskExecutionRecord
      → FollowUpWorkflowRunResult B P
      → ℕ
      → TaskGraphSnapshot (StateSnapshot B)
      → TaskGraphSnapshot (StateSnapshot B)
  with_committed completed r result now snapshot =
      let captured =
        snapshot_of result.updated_state "follow_up_task_committed" r.completed_at now in
      record snapshot {
        latest_committed_state_snapshot = captured;
        latest_committed_state_ref =
            first_text r.updated_state_snapshot_ref (snapshot_ref_for captured);
      }
  with_committed _ r result now snapshot = snapshot

  unfoldable pub apply_execution_record :
      TaskGraphSnapshot (StateSnapshot B)
      → TaskExecutionRecord
      → FollowUpWorkflowRunResult B P
      → ℕ
      → TaskGraphSnapshot (StateSnapshot B)
  apply_execution_record snapshot r result now =
      update_task_status
        (with_committed r.status r result now
          (record snapshot { executed_tasks = snapshot.executed_tasks ++ (r ∷ []) }))
        r.task_id r.status (execution_blocking_reasons r) none r.last_transition_at
