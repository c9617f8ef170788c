-- ===== src/Service/Attempts.antt =====
-- executeSingleFollowUp of internal/runtime/task_activation.go, and HandleFailure of local_runtime.go:
-- the attempts to run one task. `clock i` is what the i-th reading of the clock gives.
pub mod Bounds
use personal_cfo_os.Base.{
  ℕ, zero, suc, ◌+◌, ◌-◌, String, Bool, true, false, Option, none, some, List, [], ◌∷◌,
  if◌then◌else◌, int_suc, is_pos,
}
use personal_cfo_os.Errors.{Result, ok, err, RuntimeError}
use personal_cfo_os.Workflow.Types.{
  WorkflowExecutionState, acting, waiting_approval as state_waiting, other_state, FailureCategory,
  RecoveryStrategy, retry, CheckpointRecord, ResumeToken,
}
use personal_cfo_os.Workflow.Controller.{handle_failure}
use personal_cfo_os.Workflow.Checkpoints.{append_timeline}
use personal_cfo_os.WorkQueue.Types.{IdPart, text, time}
use personal_cfo_os.Stores.Types.{
  TaskExecutionRecord, TaskQueueStatus, executing, failed, waiting_approval,
}
use personal_cfo_os.TaskSpec.{
  TaskSpec, UserIntentType, unknown_intent, monthly_review, debt_vs_invest, behavior_intervention,
  life_event_trigger, tax_optimization, rebalance_portfolio, other_intent,
}
use personal_cfo_os.TaskGraph.{FollowUpTaskRecord, TaskGraphSnapshot}
use personal_cfo_os.TaskGraph.Activation.{update_task_status}
use personal_cfo_os.Service.Graphs.{share_tasks}
use personal_cfo_os.Service.Types.{
  FinancialWorldState, StateSnapshot, FollowUpWorkflowRunResult, Backend,
}
use personal_cfo_os.Service.Effects.{Step, ◌>>=◌, ◌>>◌, pure}
use personal_cfo_os.Service.Execution.{
  FollowUpActivationContext, build_activation_context, finalize_task_execution_record,
}

-- The workflow behind a task. `execute n` is its n-th answer: two attempts need not end alike.
pub record Capability (B P : Type 0) : Type 0 where
  pub execute :
      ℕ
      → TaskSpec
      → FollowUpActivationContext
      → FinancialWorldState B
      → Result (FollowUpWorkflowRunResult B P)
  pub resume_run :
      TaskSpec
      → FollowUpActivationContext
      → FinancialWorldState B
      → CheckpointRecord
      → ResumeToken
      → P
      → Result (FollowUpWorkflowRunResult B P)

abbrev pub intent_text : UserIntentType → String
intent_text unknown_intent = "unknown"
intent_text monthly_review = "monthly_review"
intent_text debt_vs_invest = "debt_vs_invest"
intent_text behavior_intervention = "behavior_intervention"
intent_text life_event_trigger = "life_event_trigger"
intent_text tax_optimization = "tax_optimization"
intent_text rebalance_portfolio = "portfolio_rebalance"
intent_text (other_intent t) = t

-- The record of the execution before its first attempt.
unfoldable pub started_execution :
    {B : Type 0}
    → (List IdPart → String)
    → TaskGraphSnapshot (StateSnapshot B)
    → FollowUpTaskRecord
    → FinancialWorldState B
    → ℕ
    → TaskExecutionRecord
started_execution make_id snapshot task input now =
    let activation = build_activation_context snapshot.graph task in
    record {
      execution_id = make_id (text snapshot.graph.graph_id ∷ text task.task.id ∷ time now ∷ []);
      task_id = task.task.id;
      intent = intent_text task.task.user_intent_type;
      parent_graph_id = snapshot.graph.graph_id;
      parent_workflow_id = snapshot.graph.parent_workflow_id;
      root_task_id = activation.root_task_id;
      triggered_by_task_id = activation.triggered_by_task_id;
      execution_depth = activation.execution_depth;
      capability = task.required_capability;
      workflow_id = "";
      root_correlation_id = activation.root_correlation_id;
      correlation_id = activation.root_correlation_id;
      causation_id = task.task.id;
      status = executing;
      version = 1;
      attempt = 1;
      retry_count = 0;
      last_recovery_strategy = none;
      last_transition_at = now;
      started_at = now;
      completed_at = 0;
      failed_at = 0;
      input_state_version = input.version.sequence;
      updated_state_version = 0;
      input_state_snapshot_ref = input.version.snapshot_id;
      updated_state_snapshot_ref = "";
      committed = false;
      checkpoint_id = "";
      resume_token = "";
      resume_state = none;
      approval_id = "";
      pending_approval = false;
      failure_category = none;
      failure_summary = "";
      artifact_ids = [];
    }

abbrev pub is_waiting_state : WorkflowExecutionState → Bool
is_waiting_state state_waiting = true
is_waiting_state _ = false

-- The record after the last attempt has failed.
unfoldable pub given_up :
    TaskExecutionRecord
    → FailureCategory
    → String
    → WorkflowExecutionState
    → ℕ
    → ℕ
    → TaskExecutionRecord
given_up r category summary next failed_at transition_at = record r {
  status = if is_waiting_state next then waiting_approval else failed;
  failure_category = some category;
  failure_summary = summary;
  failed_at = failed_at;
  last_transition_at = transition_at;
}

abbrev pub if_retry : {A : Type 0} → RecoveryStrategy → A → A → A
if_retry retry again stop = again
if_retry _ again stop = stop

unfoldable pub handle_runtime_failure :
    {B P : Type 0}
    → WorkflowExecutionState
    → FailureCategory
    → String
    → ℕ
    → Step (Backend B P) (WorkflowExecutionState × RecoveryStrategy)
handle_runtime_failure current category summary now s = elim (handle_failure current category) [
  | ok (next, strategy) ↦ (
    record s { checkpoints = append_timeline next "failure_handled" summary now s.checkpoints },
    ok (next, strategy),
  )
  | err e ↦ (s, err e)
]

-- `FollowUpWorkflowRunResult{}` over the zero state.
abbrev pub no_run_result : {B P : Type 0} → FinancialWorldState B → FollowUpWorkflowRunResult B P
no_run_result no_state = record {
  workflow_id = "";
  runtime_state = other_state "";
  updated_state = no_state;
  artifacts = [];
  checkpoint = none;
  resume_token = none;
  checkpoint_payload = none;
  pending_approval = none;
  failure_category = none;
  failure_summary = "";
  last_recovery_strategy = none;
}

abbrev pub attempts_allowed : ℕ → ℕ
attempts_allowed n = if is_pos n then n else 1

module _ {B P : Type 0} (category_of : RuntimeError → FailureCategory)
    (error_text : RuntimeError → String) (no_state : FinancialWorldState B) (clock : ℕ → ℕ)
    (run : ℕ → Result (FollowUpWorkflowRunResult B P)) where
  abbrev pub Outcome : Type 0
  Outcome = TaskExecutionRecord × FollowUpWorkflowRunResult B P

  abbrev pub with_strategy : RecoveryStrategy → ℕ → TaskExecutionRecord → TaskExecutionRecord
  with_strategy strategy now r = record r {
    last_recovery_strategy = some strategy;
    last_transition_at = now;
  }

  abbrev pub give_up :
      TaskExecutionRecord
      → RuntimeError
      → WorkflowExecutionState × RecoveryStrategy
      → ℕ
      → Step (Backend B P) Outcome
  give_up r e answer i = pure (
    given_up (with_strategy answer.1 (clock (1 + i)) r) (category_of e) (error_text e) answer.0
        (clock (2 + i)) (clock (3 + i)),
    no_run_result no_state,
  )

  abbrev pub failed_attempt :
      RuntimeError → ℕ → Step (Backend B P) (WorkflowExecutionState × RecoveryStrategy)
  failed_attempt e i = handle_runtime_failure acting (category_of e) (error_text e) (clock i)

  -- The loop at its `attempt`-th attempt, with the number of those left after it.
  unfoldable pub run_attempts : ℕ → ℕ → ℕ → TaskExecutionRecord → Step (Backend B P) Outcome
  run_attempts zero attempt i r = elim (run attempt) [
    | ok result ↦
        pure
          (finalize_task_execution_record (record r { attempt = attempt }) result (clock i), result)
    | err e ↦ failed_attempt e i >>= λ answer. give_up (record r { attempt = attempt }) e answer i
  ]
  run_attempts (suc left) attempt i r = elim (run attempt) [
    | ok result ↦
        pure
          (finalize_task_execution_record (record r { attempt = attempt }) result (clock i), result)
    | err e ↦ failed_attempt e i >>= λ answer.
        if_retry answer.1
          (run_attempts left (suc attempt) (2 + i)
            (record (with_strategy answer.1 (clock (1 + i)) (record r { attempt = attempt })) {
              retry_count = int_suc r.retry_count;
            }))
          (give_up (record r { attempt = attempt }) e answer i)
  ]

-- The graph with the task marked as executing.
abbrev pub marked_executing :
    {B : Type 0}
    → TaskGraphSnapshot (StateSnapshot B)
    → FollowUpTaskRecord
    → ℕ
    → TaskGraphSnapshot (StateSnapshot B)
marked_executing snapshot task now =
    update_task_status snapshot task.task.id executing none none now

unfoldable pub execute_single_follow_up :
    {B P : Type 0}
    → (List IdPart → String)
    → (RuntimeError → FailureCategory)
    → (RuntimeError → String)
    → FinancialWorldState B
    → (ℕ → ℕ)
    → TaskGraphSnapshot (StateSnapshot B)
    → FollowUpTaskRecord
    → Capability B P
    → FinancialWorldState B
    → ℕ
    → Step (Backend B P) (TaskExecutionRecord × FollowUpWorkflowRunResult B P)
execute_single_follow_up make_id category_of error_text no_state clock snapshot task capability
      input n =
    share_tasks (marked_executing snapshot task (clock 0))
    >> run_attempts category_of error_text no_state clock
        (λ attempt.
          capability.execute attempt task.task (build_activation_context snapshot.graph task) input)
        (attempts_allowed n - 1) 1 1 (started_execution make_id snapshot task input (clock 0))
