-- ===== src/Service/Operator/Retry.antt =====
-- RetryFailedFollowUpTask of internal/runtime/operator_service.go.
use personal_cfo_os.Base.{
  ℕ, ◌+◌, String, Bool, true, false, none, some, List, [], ◌∷◌, if◌then◌else◌, push, ◌==◌, nat_eq,
}
use personal_cfo_os.Errors.{conflict, not_found, invalid_transition, or_fail}
use personal_cfo_os.WorkQueue.Types.{
  text, time, WorkItem, retry_failed_execution, retry as retry_wakeup,
}
use personal_cfo_os.Stores.Types.{
  TaskExecutionRecord, TaskQueueStatus, executing, failed, OperatorActionRecord, retry,
}
use personal_cfo_os.Stores.Executions.{load_latest_by_task}
use personal_cfo_os.TaskGraph.{FollowUpTaskRecord, TaskGraphSnapshot, seen_after}
use personal_cfo_os.TaskGraph.Activation.{update_task_status, default_auto_execution_policy}
use personal_cfo_os.Service.Types.{
  FinancialWorldState, StateSnapshot, FollowUpWorkflowRunResult, no_event, Backend,
  TaskCommandResult, no_result, queue_status_text,
}
use personal_cfo_os.Service.Effects.{Step, ◌>>=◌, ◌>>◌, pure, on_result}
use personal_cfo_os.Service.Execution.{first_text, apply_execution_record}
use personal_cfo_os.Service.Attempts.{Capability, marked_executing, execute_single_follow_up}
use personal_cfo_os.Service.Graphs.{locate_task}
use personal_cfo_os.Service.Persist.{append_replay, save_changed_graph, persist_execution_outcome}
use personal_cfo_os.Service.Actions.{ActionRequest, begin_action, enqueue_work_item, error_text}
use personal_cfo_os.Service.Operator.{
  Deps, Resolution, found, missing, reads, unless_repeated, rebuild_projection, refuse,
  write_action, as_applied, new_item, work_kind_text, dispatch_details,
}

pub record RetryFailedFollowUpTaskCommand : Type 0 where
  pub request_id : String
  pub graph_id : String
  pub task_id : String
  pub actor : String
  pub roles : List String
  pub note : String
  pub expected_version : ℕ

abbrev pub retry_request : RetryFailedFollowUpTaskCommand → String → String → ActionRequest
retry_request cmd graph_id task_id = record {
  action_type = retry;
  request_id = cmd.request_id;
  actor = cmd.actor;
  roles = cmd.roles;
  graph_id = graph_id;
  task_id = task_id;
  approval_id = "";
  workflow_id = "";
  note = cmd.note;
  expected_version = cmd.expected_version;
}

abbrev pub is_failed_task : TaskQueueStatus → Bool
is_failed_task failed = true
is_failed_task _ = false

-- The committed state, or the first one where none has been committed.
abbrev pub input_state : {B : Type 0} → TaskGraphSnapshot (StateSnapshot B) → FinancialWorldState B
input_state g =
    if g.latest_committed_state_snapshot.state.version.sequence == 0
    then g.base_state_snapshot.state
    else g.latest_committed_state_snapshot.state

module _ {B P : Type 0} (env : Deps B P) (clock : ℕ → ℕ) (cmd : RetryFailedFollowUpTaskCommand)
    (snapshot : TaskGraphSnapshot (StateSnapshot B)) (task : FollowUpTaskRecord)
    (action : OperatorActionRecord) where
  abbrev pub retry_item : TaskExecutionRecord → ℕ → WorkItem
  retry_item existing now = record (new_item retry_failed_execution retry_wakeup now) {
    id = env.make_id (
        text "work"
        ∷ text (work_kind_text retry_failed_execution)
        ∷ text snapshot.graph.graph_id
        ∷ text task.task.id
        ∷ time now
        ∷ []);
    dedupe_key = push "retry:" (push snapshot.graph.graph_id (push ":" task.task.id));
    graph_id = snapshot.graph.graph_id;
    task_id = task.task.id;
    execution_id = existing.execution_id;
    workflow_id = snapshot.graph.parent_workflow_id;
    reason = first_text cmd.note "operator requested retry";
  }

  unfoldable pub dispatch_retry : Step (Backend B P) TaskCommandResult
  dispatch_retry = do
    let now = clock 1
    write_action (as_applied now action)
    existing ← reads (λ s.
        or_fail (load_latest_by_task snapshot.graph.graph_id task.task.id s.executions)
          (not_found "task_execution" task.task.id))
    let item = retry_item existing now
    answer ← enqueue_work_item item
    append_replay (record no_event {
      event_id =
          env.make_id (text "replay" ∷ text "retry-enqueue" ∷ text task.task.id ∷ time now ∷ []);
      root_correlation_id = snapshot.graph.parent_workflow_id;
      parent_workflow_id = snapshot.graph.parent_workflow_id;
      graph_id = snapshot.graph.graph_id;
      task_id = task.task.id;
      execution_id = existing.execution_id;
      action_type = "async_dispatch";
      summary = push "operator enqueued async retry for " task.task.id;
      occurred_at = now;
      operator_action_id = action.action_id;
      details_json = dispatch_details env retry item;
    })
    rebuild_projection env snapshot.graph.graph_id
    pure (record answer { action = some (as_applied now action) })

  abbrev pub run_again :
      TaskGraphSnapshot (StateSnapshot B)
      → Capability B P
      → Step (Backend B P) (TaskExecutionRecord × FollowUpWorkflowRunResult B P)
  run_again saved capability =
      execute_single_follow_up env.make_id env.category_of (error_text env.quote) env.no_state
        (λ i. clock (2 + i)) saved task capability (input_state saved)
        default_auto_execution_policy.max_attempts

  -- `late` is the time at which the outcome is stored, after the readings that the attempts take.
  unfoldable pub store_retry :
      ℕ
      → TaskGraphSnapshot (StateSnapshot B)
      → TaskExecutionRecord × FollowUpWorkflowRunResult B P
      → Step (Backend B P) TaskCommandResult
  store_retry late saved outcome = do
    r ←
        persist_execution_outcome env.make_id env.marshal env.validate_payload late saved outcome.0
          outcome.1
    graph ← save_changed_graph (apply_execution_record saved r outcome.1 late) saved.version
    let done = record (as_applied (clock 1) action) { workflow_id = r.workflow_id }
    write_action done
    rebuild_projection env graph.graph.graph_id
    pure (record no_result {
      action = some done;
      graph_id = graph.graph.graph_id;
      task_id = task.task.id;
      execution_id = r.execution_id;
      status = some r.status;
    })

  -- The graph that was saved shares its tasks with the one that the run marks as executing.
  unfoldable pub retry_now : ℕ → Capability B P → Step (Backend B P) TaskCommandResult
  retry_now late capability = do
    saved ←
        save_changed_graph (update_task_status snapshot task.task.id executing none none (clock 1))
          snapshot.version
    on_result (run_again saved capability)
        (store_retry late (seen_after saved (marked_executing saved task (clock 2))))
        (λ e. refuse env action e late)

  abbrev pub with_workflow : ℕ → Resolution B P → Step (Backend B P) TaskCommandResult
  with_workflow late (found capability) =
      if env.async then dispatch_retry else retry_now late capability
  with_workflow late (missing reason) =
      refuse env action
        (conflict "follow_up_task" task.task.id
          (first_text reason "workflow capability is not available"))
        (clock 1)

  unfoldable pub retry_fresh : ℕ → Step (Backend B P) TaskCommandResult
  retry_fresh late =
      if is_failed_task task.status
      then with_workflow late (env.resolve task.task)
      else refuse env action
          (invalid_transition "follow_up_task" task.task.id (queue_status_text task.status)
            "executing" "task is not failed")
          (clock 1)

-- `late` is a reading of the clock after the run.
unfoldable pub retry_failed_follow_up_task :
    {B P : Type 0}
    → Deps B P
    → (ℕ → ℕ)
    → ℕ
    → RetryFailedFollowUpTaskCommand
    → Step (Backend B P) TaskCommandResult
retry_failed_follow_up_task env clock late cmd = do
  located ← reads (λ s. locate_task s cmd.graph_id cmd.task_id)
  b ←
      begin_action env.make_id (retry_request cmd located.0.graph.graph_id located.1.task.id)
        (clock 0)
  unless_repeated b (λ action. retry_fresh env clock cmd located.0 located.1 action late)
