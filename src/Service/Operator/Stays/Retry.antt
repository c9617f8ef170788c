-- ===== src/Service/Operator/Stays/Retry.antt =====
-- Retries and reevaluations of internal/runtime/operator_service.go and service.go keep what a stored
-- approval has reached.
use personal_cfo_os.Base.{ℕ, zero, suc, ◌+◌, String, inl, inr}
use personal_cfo_os.Errors.{Result, RuntimeError, Result-cases}
use personal_cfo_os.Workflow.Types.{
  WorkflowExecutionState, FailureCategory, RecoveryStrategy, retry,
}
use personal_cfo_os.Workflow.Controller.{handle_failure}
use personal_cfo_os.Stores.Types.{TaskExecutionRecord, ApprovalStatus, OperatorActionRecord}
use personal_cfo_os.TaskGraph.{FollowUpTaskRecord, TaskGraphSnapshot}
use personal_cfo_os.Service.Types.{
  FinancialWorldState, StateSnapshot, FollowUpWorkflowRunResult, Backend,
}
use personal_cfo_os.Service.Effects.{Step, Keeps, >>=-Keeps, pure-Keeps, on_result-Keeps, if-Keeps}
use personal_cfo_os.Service.Attempts.{
  handle_runtime_failure, if_retry, run_attempts, execute_single_follow_up,
}
use personal_cfo_os.Service.Operator.{Deps, Resolution, found, missing}
use personal_cfo_os.Service.Operator.Retry.{
  RetryFailedFollowUpTaskCommand, is_failed_task, dispatch_retry, store_retry, retry_now,
  with_workflow, retry_fresh, retry_failed_follow_up_task,
}
use personal_cfo_os.Service.Operator.Reevaluate.{
  ReevaluateTaskGraphCommand, reevaluate_graph, dispatch_reevaluation, reevaluate_now,
  reevaluate_command,
}
use personal_cfo_os.Service.Operator.Keeps.{
  save_changed_graph-Keeps, share_tasks-Keeps, write_action-Keeps, enqueue_work_item-Keeps,
  fail_action-Keeps, begin_action-Keeps, append_replay-Keeps, reads-Keeps, rebuild_projection-Keeps,
  persist_outcome-Keeps,
}
use personal_cfo_os.Service.Operator.Resolved.{HasReached-save}
use personal_cfo_os.Service.Operator.Stays.{Stays, unless_repeated-Keeps}

module _ {B P : Type 0} (env : Deps B P) (id : String) (status : ApprovalStatus) where
  handle_failure-Keeps :
      (current : WorkflowExecutionState) (category : FailureCategory) (summary : String) (now : ℕ)
      → Keeps
          (Stays {B = B} {P = P} id status)
          (handle_runtime_failure current category summary now)
  unfolding handle_runtime_failure
  handle_failure-Keeps current category summary now = record {
    keeps = λ s k. elim (Result-cases (handle_failure current category)) [
      | inl (answer, e) ↦ rw (e, handle_runtime_failure) k
      | inr (x, e) ↦ rw (e, handle_runtime_failure) k
    ];
  }

  if_retry-Keeps :
      {A : Type 0} (strategy : RecoveryStrategy) {again stop : Step (Backend B P) A}
      → Keeps (Stays id status) again
      → Keeps (Stays id status) stop
      → Keeps (Stays id status) (if_retry strategy again stop)
  if_retry-Keeps retry h g = h
  if_retry-Keeps _ h g = g

  run_attempts-Keeps :
      (category_of : RuntimeError → FailureCategory) (words : RuntimeError → String)
      (no_state : FinancialWorldState B) (clock : ℕ → ℕ)
      (run : ℕ → Result (FollowUpWorkflowRunResult B P)) (left attempt i : ℕ)
      (r : TaskExecutionRecord)
      → Keeps (Stays id status) (run_attempts category_of words no_state clock run left attempt i r)
  unfolding run_attempts
  run_attempts-Keeps category_of words no_state clock run zero attempt i r = record {
    keeps = λ s k. elim (Result-cases (run attempt)) [
      | inl (result, e) ↦ rw (e, run_attempts) k
      | inr (x, e) ↦
          rw (e, run_attempts)
            ((>>=-Keeps (handle_failure-Keeps _ _ _ _) (λ answer. pure-Keeps)).keeps s k)
    ];
  }
  run_attempts-Keeps category_of words no_state clock run (suc left) attempt i r = record {
    keeps = λ s k. elim (Result-cases (run attempt)) [
      | inl (result, e) ↦ rw (e, run_attempts) k
      | inr (x, e) ↦
          rw (e, run_attempts)
            ((>>=-Keeps (handle_failure-Keeps _ _ _ _) (λ answer.
                if_retry-Keeps answer.1
                  (run_attempts-Keeps category_of words no_state clock run left (suc attempt)
                    (2 + i) _)
                  pure-Keeps)).keeps
              s k)
    ];
  }

  store_retry-Keeps :
      (clock : ℕ → ℕ) (cmd : RetryFailedFollowUpTaskCommand)
      (snapshot : TaskGraphSnapshot (StateSnapshot B)) (task : FollowUpTaskRecord)
      (action : OperatorActionRecord) (late : ℕ) (saved : TaskGraphSnapshot (StateSnapshot B))
      (outcome : TaskExecutionRecord × FollowUpWorkflowRunResult B P)
      → Keeps (Stays id status) (store_retry env clock cmd snapshot task action late saved outcome)
  unfolding store_retry
  store_retry-Keeps clock cmd snapshot task action late saved outcome =
      >>=-Keeps
        (persist_outcome-Keeps _ env.make_id env.marshal env.validate_payload late
          (HasReached-save id status) saved outcome.0 outcome.1)
        (λ r. >>=-Keeps (save_changed_graph-Keeps _ _ _) (λ graph.
          >>=-Keeps (write_action-Keeps _ _) (λ u.
            >>=-Keeps (rebuild_projection-Keeps _ env graph.graph.graph_id) (λ u. pure-Keeps))))

  with_workflow-Keeps :
      (clock : ℕ → ℕ) (cmd : RetryFailedFollowUpTaskCommand)
      (snapshot : TaskGraphSnapshot (StateSnapshot B)) (task : FollowUpTaskRecord)
      (action : OperatorActionRecord) (late : ℕ) (answer : Resolution B P)
      → Keeps (Stays id status) (with_workflow env clock cmd snapshot task action late answer)
  unfolding dispatch_retry retry_now execute_single_follow_up
  with_workflow-Keeps clock cmd snapshot task action late (missing reason) =
      fail_action-Keeps _ _ _ _ _ _
  with_workflow-Keeps clock cmd snapshot task action late (found capability) =
      if-Keeps env.async
        (>>=-Keeps (write_action-Keeps _ _) (λ u. >>=-Keeps (reads-Keeps _ _) (λ existing.
          >>=-Keeps (enqueue_work_item-Keeps _ _) (λ answer.
            >>=-Keeps (append_replay-Keeps _ _) (λ u.
              >>=-Keeps (rebuild_projection-Keeps _ env snapshot.graph.graph_id)
                (λ u. pure-Keeps))))))
        (>>=-Keeps (save_changed_graph-Keeps _ _ _) (λ saved.
          on_result-Keeps
            (>>=-Keeps (share_tasks-Keeps _ _) (λ u. run_attempts-Keeps _ _ _ _ _ _ _ _ _))
            (store_retry-Keeps clock cmd snapshot task action late _)
            (λ e. fail_action-Keeps _ _ _ _ _ _)))

  pub retry_failed-Keeps :
      (clock : ℕ → ℕ) (late : ℕ) (cmd : RetryFailedFollowUpTaskCommand)
      → Keeps (Stays id status) (retry_failed_follow_up_task env clock late cmd)
  unfolding retry_failed_follow_up_task retry_fresh
  retry_failed-Keeps clock late cmd = >>=-Keeps (reads-Keeps _ _) (λ located.
      >>=-Keeps (begin_action-Keeps _ _ _ _) (λ b. unless_repeated-Keeps id status b (λ action.
        if-Keeps (is_failed_task located.1.status)
          (with_workflow-Keeps clock cmd located.0 located.1 action late _)
          (fail_action-Keeps _ _ _ _ _ _))))

  reevaluate_now-Keeps :
      (cmd : ReevaluateTaskGraphCommand) (clock : ℕ → ℕ) (action : OperatorActionRecord)
      → Keeps (Stays id status) (reevaluate_now env cmd clock action)
  unfolding reevaluate_now reevaluate_graph
  reevaluate_now-Keeps cmd clock action =
      on_result-Keeps
        (>>=-Keeps (reads-Keeps _ _) (λ snapshot.
          >>=-Keeps (reads-Keeps _ _)
            (λ updated. >>=-Keeps (save_changed_graph-Keeps _ _ _) (λ saved. pure-Keeps))))
        (λ activation. >>=-Keeps (write_action-Keeps _ _) (λ u.
          >>=-Keeps (append_replay-Keeps _ _)
            (λ u. >>=-Keeps (rebuild_projection-Keeps _ env cmd.graph_id) (λ u. pure-Keeps))))
        (λ e. fail_action-Keeps _ _ _ _ _ _)

  pub reevaluate_command-Keeps :
      (cmd : ReevaluateTaskGraphCommand) (clock : ℕ → ℕ)
      → Keeps (Stays id status) (reevaluate_command env cmd clock)
  unfolding reevaluate_command dispatch_reevaluation
  reevaluate_command-Keeps cmd clock = >>=-Keeps (begin_action-Keeps _ _ _ _) (λ b.
      unless_repeated-Keeps id status b (λ action.
        if-Keeps env.async
          (>>=-Keeps (write_action-Keeps _ _) (λ u.
            >>=-Keeps (enqueue_work_item-Keeps _ _)
              (λ answer. >>=-Keeps (append_replay-Keeps _ _) (λ u. pure-Keeps))))
          (reevaluate_now-Keeps cmd clock action)))
