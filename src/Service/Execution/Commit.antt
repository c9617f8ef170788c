-- ===== src/Service/Execution/Commit.antt =====
-- The commit rule of internal/runtime/task_activation.go and service_helpers.go.
use personal_cfo_os.Base.{ℕ, ◌≡◌, ◌⊎◌, inl, inr, refl, true, false, Option, none, some}
use personal_cfo_os.Workflow.Types.{
  WorkflowExecutionState, waiting_approval as state_waiting, completed as state_completed,
  CheckpointRecord, ResumeToken,
}
use personal_cfo_os.Stores.Types.{TaskExecutionRecord, completed, waiting_approval, failed}
use personal_cfo_os.TaskGraph.{TaskGraphSnapshot}
use personal_cfo_os.TaskGraph.Activation.{update_task_status}
use personal_cfo_os.Service.Types.{StateSnapshot, FollowUpWorkflowRunResult}
use personal_cfo_os.Service.Execution.{
  with_checkpoint, with_token, as_completed, as_waiting, as_failed, as_unsupported, with_result,
  by_runtime_state, finalize_task_execution_record, with_committed, apply_execution_record,
}

-- Not completed, and not committed.
record IsOpen (r : TaskExecutionRecord) : Type 0 where
  pub uncommitted : r.committed ≡ false
  pub status_open : (r.status ≡ waiting_approval) ⊎ (r.status ≡ failed)

with_checkpoint-IsOpen :
    (o : Option CheckpointRecord) (r : TaskExecutionRecord)
    → IsOpen r
    → IsOpen (with_checkpoint o r)
with_checkpoint-IsOpen none r h = h
with_checkpoint-IsOpen (some c) r h = record {
  uncommitted = h.uncommitted;
  status_open = h.status_open;
}

with_token-IsOpen :
    (o : Option ResumeToken) (r : TaskExecutionRecord) → IsOpen r → IsOpen (with_token o r)
with_token-IsOpen none r h = h
with_token-IsOpen (some t) r h = record { uncommitted = h.uncommitted; status_open = h.status_open }

module _ {B P : Type 0} where
  -- A result completes the execution and commits it, or does neither.
  by_runtime_state-cases :
      (state : WorkflowExecutionState) (r : TaskExecutionRecord)
      (result : FollowUpWorkflowRunResult B P) (now : ℕ)
      → r.committed ≡ false
      → ((state ≡ state_completed)
          × ((by_runtime_state state r result now).status ≡ completed)
          × ((by_runtime_state state r result now).committed ≡ true))
        ⊎ IsOpen (by_runtime_state state r result now)
  unfolding by_runtime_state as_completed as_waiting as_failed as_unsupported
  by_runtime_state-cases state_completed r result now h = inl (refl, refl, refl)
  by_runtime_state-cases state_waiting r result now h = inr (
      with_token-IsOpen result.resume_token _ (
        with_checkpoint-IsOpen result.checkpoint _
          (record { uncommitted = refl; status_open = inl refl })))
  by_runtime_state-cases _ r result now h = inr (record { uncommitted = h; status_open = inr refl })

  committed-completed :
      (g : TaskGraphSnapshot (StateSnapshot B)) (r : TaskExecutionRecord)
      (result : FollowUpWorkflowRunResult B P) (now : ℕ)
      → r.status ≡ completed
      → (apply_execution_record g r result now).latest_committed_state_snapshot.state
        ≡ result.updated_state
  unfolding apply_execution_record update_task_status with_committed
  committed-completed g r result now h = rw h refl

  committed-open :
      (g : TaskGraphSnapshot (StateSnapshot B)) (r : TaskExecutionRecord)
      (result : FollowUpWorkflowRunResult B P) (now : ℕ)
      → (r.status ≡ waiting_approval) ⊎ (r.status ≡ failed)
      → ((apply_execution_record g r result now).latest_committed_state_snapshot
          ≡ g.latest_committed_state_snapshot)
        × ((apply_execution_record g r result now).latest_committed_state_ref
            ≡ g.latest_committed_state_ref)
  unfolding apply_execution_record update_task_status with_committed
  committed-open g r result now (inl h) = rw h (refl, refl)
  committed-open g r result now (inr h) = rw h (refl, refl)

-- The committed state of a graph advances with completed executions alone. When an execution that has not
-- been committed gets its result and is written into the graph, either the workflow has completed, the
-- execution is marked completed and committed and the committed state is the result's; or it is not marked
-- committed, its status is waiting for approval or failed, and the committed state and its reference stay.
pub apply_finalized_lem :
    {B P : Type 0} (g : TaskGraphSnapshot (StateSnapshot B)) (r : TaskExecutionRecord)
    (result : FollowUpWorkflowRunResult B P) (now later : ℕ)
    → r.committed ≡ false
    → ((result.runtime_state ≡ state_completed)
        × ((finalize_task_execution_record r result now).status ≡ completed)
        × ((finalize_task_execution_record r result now).committed ≡ true)
        × ((apply_execution_record g
              (finalize_task_execution_record r result now)
              result
              later).latest_committed_state_snapshot.state
            ≡ result.updated_state))
      ⊎ (((finalize_task_execution_record r result now).committed ≡ false)
          × (((finalize_task_execution_record r result now).status ≡ waiting_approval)
              ⊎ ((finalize_task_execution_record r result now).status ≡ failed))
          × ((apply_execution_record g
                (finalize_task_execution_record r result now)
                result
                later).latest_committed_state_snapshot
              ≡ g.latest_committed_state_snapshot)
          × ((apply_execution_record g
                (finalize_task_execution_record r result now)
                result
                later).latest_committed_state_ref
              ≡ g.latest_committed_state_ref))
unfolding finalize_task_execution_record with_result
apply_finalized_lem g r result now later h =
    elim (by_runtime_state-cases result.runtime_state (with_result r result now) result now h) [
      | inl (done, status, committed) ↦
          inl (done, status, committed, committed-completed g _ result later status)
      | inr left ↦
          let (same, same_ref) = committed-open g _ result later left.status_open in
          inr (left.uncommitted, left.status_open, same, same_ref)
    ]
