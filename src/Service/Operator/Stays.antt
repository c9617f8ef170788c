-- ===== src/Service/Operator/Stays.antt =====
-- Steps of internal/runtime/operator_service.go that keep what a stored approval has reached.
pub mod Resume
pub mod Retry
use personal_cfo_os.Base.{
  ℕ, zero, suc, ◌+◌, ◌≡◌, ◌≢◌, refl, String, Bool, true, false, Option, none, some, List, [], ◌∷◌,
  if◌then◌else◌, int_suc, Bool-cases, Option-cases, inl, inr,
}
use personal_cfo_os.Base.Dict.{lookup}
use personal_cfo_os.Errors.{Result, ok, err, RuntimeError, Result-cases, or_fail, not_found}
use personal_cfo_os.Governance.Rules.{is_blank}
use personal_cfo_os.Workflow.Types.{
  CheckpointRecord, ResumeToken, WorkflowExecutionState, FailureCategory, RecoveryStrategy, retry,
}
use personal_cfo_os.Workflow.Controller.{handle_failure}
use personal_cfo_os.Workflow.Checkpoints.{load, load_resume_token}
use personal_cfo_os.Stores.Types.{
  TaskExecutionRecord, ApprovalStateRecord, ApprovalStatus, pending, is_pending,
  OperatorActionRecord, OperatorActionType,
}
use personal_cfo_os.Stores.Approvals.{Approvals, update_approval, load_approval}
use personal_cfo_os.TaskGraph.{FollowUpTaskRecord, TaskGraphSnapshot, TaskActivationResult}
use personal_cfo_os.Service.Types.{
  FinancialWorldState, StateSnapshot, FollowUpWorkflowRunResult, Backend, TaskCommandResult,
}
use personal_cfo_os.Service.Effects.{
  Step, and_then, ◌>>=◌, ◌>>◌, pure, Keeps, >>=-Keeps, pure-Keeps, fails-Keeps, on_result-Keeps,
  if-Keeps, written-keeps_ok, when,
}
use personal_cfo_os.Service.Persist.{append_replay}
use personal_cfo_os.Service.Actions.{Begun, duplicate, fresh}
use personal_cfo_os.Service.Attempts.{
  Capability, handle_runtime_failure, if_retry, run_attempts, execute_single_follow_up,
}
use personal_cfo_os.Service.Operator.{
  ApproveTaskCommand, Deps, Resolution, found, missing, reads, unless_repeated, write_resolution,
  on_approval, approve_pending, dispatch_resume, deny_execution, deny_pending, deny_task, resolved,
}
use personal_cfo_os.Service.Operator.Resume.{
  is_waiting, after_failure, after_success, after_resume, run_resume, with_capability,
  with_pending_state, resume_latest, unless_unresolved, resume_fresh, resume_begun,
  resume_task_internal, dropping, ResumeFollowUpTaskCommand,
}
use personal_cfo_os.Service.Operator.Commands.{
  try_resume, resume_now, approve_task, resume_follow_up_task, OperatorCommand, approve_command,
  deny_command, resume_command, retry_command, reevaluate_graph_command, run_command, run_commands,
}
use personal_cfo_os.Service.Operator.Retry.{
  RetryFailedFollowUpTaskCommand, is_failed_task, dispatch_retry, store_retry, retry_now,
  with_workflow, retry_fresh, retry_failed_follow_up_task,
}
use personal_cfo_os.Service.Operator.Reevaluate.{
  ReevaluateTaskGraphCommand, reevaluate_graph, dispatch_reevaluation, reevaluate_now,
  reevaluate_command,
}
use personal_cfo_os.Service.Operator.Keeps.{
  At, save_changed_graph-Keeps, rewrite_execution-Keeps, write_action-Keeps,
  enqueue_work_item-Keeps, fail_action-Keeps, begin_action-Keeps, append_replay-Keeps, reads-Keeps,
  latest_execution-Keeps, rebuild_projection-Keeps, persist_outcome-Keeps,
}
use personal_cfo_os.Service.Operator.Resolved.{
  Reaches, approves, denies, MayWrite, HasReached, HasReached-save, HasReached-update,
  pending-MayWrite,
}

module _ {B P : Type 0} (id : String) (status : ApprovalStatus) where
  abbrev pub Stays : Backend B P → Type 0
  Stays = At (HasReached id status)

  pub dropping-Keeps :
      {A : Type 0} {m : Step (Backend B P) A} → Keeps Stays m → Keeps Stays (dropping m)
  dropping-Keeps h = record { keeps = h.keeps }

  pub write_resolution-Keeps :
      (a : ApprovalStateRecord) (expected : ℕ)
      → MayWrite id status a
      → Reaches pending a.status
      → Keeps Stays (write_resolution a expected)
  unfolding write_resolution
  write_resolution-Keeps a expected may reaches = record {
    keeps = λ s k.
        written-keeps_ok Stays _ s (update_approval a expected s.approvals) k
          (λ next e. HasReached-update id status a expected s.approvals next e may reaches k);
  }

  pub unless_repeated-Keeps :
      (b : Begun) {rest : OperatorActionRecord → Step (Backend B P) TaskCommandResult}
      → ((action : OperatorActionRecord) → Keeps Stays (rest action))
      → Keeps Stays (unless_repeated b rest)
  unfolding unless_repeated
  unless_repeated-Keeps (duplicate action answer) h = pure-Keeps
  unless_repeated-Keeps (fresh action) h = h action
