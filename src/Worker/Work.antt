-- ===== src/Worker/Work.antt =====
-- The work that processClaim of internal/runtime/worker.go does for a claim, by the kind of its item. What
-- the service does for an item is a parameter, which the heartbeats of the lease's renewal interleave with.
use personal_cfo_os.Base.{
  ℕ, String, Bool, false, Option, none, some, List, [], ◌∷◌, ◌++◌, if◌then◌else◌, is_empty,
}
use personal_cfo_os.Errors.{Result, ok, err, RuntimeError}
use personal_cfo_os.WorkQueue.Types.{
  WorkItem, FenceValidation, reevaluate_task_graph, execute_ready_task, resume_approved_checkpoint,
  retry_failed_execution, scheduler_wakeup,
}
use personal_cfo_os.Stores.Types.{TaskExecutionRecord, TaskQueueStatus, other_queue_status}
use personal_cfo_os.Service.Types.{Backend, TaskCommandResult}
use personal_cfo_os.Service.Effects.{Step}

pub record WorkerPassResult : Type 0 where
  pub worker_id : String
  pub scanned_graphs : ℕ
  pub reevaluated : List String
  pub executed : List TaskExecutionRecord
  pub resumed_tasks : List String
  pub skipped_tasks : List String
  pub claimed_work_item_ids : List String
  pub completed_work_item_ids : List String
  pub failed_work_item_ids : List String
  pub reclaimed_work_item_ids : List String
  pub scheduler_wakeups : List String
  pub completed_at : String
  pub dry_run : Bool

-- The service's handlers of work items, each under the worker's fence.
pub record Handlers (B P : Type 0) : Type 0 where
  pub handle_scheduler_wakeup : WorkItem → Step (Backend B P) (Unit {0})
  pub reevaluate : String → FenceValidation → Step (Backend B P) (Unit {0})
  pub execute_ready : String → FenceValidation → Step (Backend B P) (List TaskExecutionRecord)
  pub resume_approved :
      String → String → String → FenceValidation → Step (Backend B P) TaskCommandResult
  pub retry_failed :
      String → String → String → FenceValidation → Step (Backend B P) TaskCommandResult

abbrev pub status_or_empty : Option TaskQueueStatus → TaskQueueStatus
status_or_empty none = other_queue_status ""
status_or_empty (some s) = s

-- A record with four fields, the others at their zero values.
abbrev pub retried_record : TaskCommandResult → TaskExecutionRecord
retried_record r = record {
  execution_id = r.execution_id;
  task_id = r.task_id;
  intent = "";
  parent_graph_id = r.graph_id;
  parent_workflow_id = "";
  root_task_id = "";
  triggered_by_task_id = "";
  execution_depth = 0;
  capability = "";
  workflow_id = "";
  root_correlation_id = "";
  correlation_id = "";
  causation_id = "";
  status = status_or_empty r.status;
  version = 0;
  attempt = 0;
  retry_count = 0;
  last_recovery_strategy = none;
  last_transition_at = 0;
  started_at = 0;
  completed_at = 0;
  failed_at = 0;
  input_state_version = 0;
  updated_state_version = 0;
  input_state_snapshot_ref = "";
  updated_state_snapshot_ref = "";
  committed = false;
  checkpoint_id = "";
  resume_token = "";
  resume_state = none;
  approval_id = "";
  pending_approval = false;
  failure_category = none;
  failure_summary = "";
  artifact_ids = [];
}

-- What a handler's success adds to the pass.
abbrev pub noted :
    {S A : Type 0}
    → (A → WorkerPassResult)
    → WorkerPassResult
    → S × Result A
    → S × WorkerPassResult × Option RuntimeError
noted f pass (s, ok a) = (s, f a, none)
noted f pass (s, err e) = (s, pass, some e)

abbrev pub with_resumed : WorkerPassResult → TaskCommandResult → WorkerPassResult
with_resumed pass r =
    if is_empty r.task_id
    then pass
    else record pass { resumed_tasks = pass.resumed_tasks ++ (r.task_id ∷ []) }

abbrev pub with_retried : WorkerPassResult → TaskCommandResult → WorkerPassResult
with_retried pass r =
    if is_empty r.execution_id
    then pass
    else record pass { executed = pass.executed ++ (retried_record r ∷ []) }

module _ {B P : Type 0} (handlers : Handlers B P) where
  unfoldable pub do_work :
      WorkItem
      → FenceValidation
      → Backend B P
      → WorkerPassResult
      → Backend B P × WorkerPassResult × Option RuntimeError
  do_work item fence s pass = elim item.kind [
    | scheduler_wakeup ↦ noted (λ u. pass) pass (handlers.handle_scheduler_wakeup item s)
    | reevaluate_task_graph ↦
        noted (λ u. record pass { reevaluated = pass.reevaluated ++ (item.graph_id ∷ []) }) pass
          (handlers.reevaluate item.graph_id fence s)
    | execute_ready_task ↦
        noted (λ records. record pass { executed = pass.executed ++ records }) pass
          (handlers.execute_ready item.graph_id fence s)
    | resume_approved_checkpoint ↦
        noted (with_resumed pass) pass
          (handlers.resume_approved item.graph_id item.task_id item.approval_id fence s)
    | retry_failed_execution ↦
        noted (with_retried pass) pass
          (handlers.retry_failed item.graph_id item.task_id item.execution_id fence s)
  ]
