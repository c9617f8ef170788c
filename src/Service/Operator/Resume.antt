-- ===== src/Service/Operator/Resume.antt =====
-- resumeTaskInternal of internal/runtime/operator_service.go, by the points at which it can stop.
use personal_cfo_os.Base.{
  ℕ, String, Bool, true, false, Option, none, some, List, [], ◌∷◌, if◌then◌else◌, int_suc, push,
}
use personal_cfo_os.Base.Dict.{lookup}
use personal_cfo_os.Errors.{
  Result, ok, err, RuntimeError, conflict, not_found, invalid_transition, or_fail,
}
use personal_cfo_os.Workflow.Types.{CheckpointRecord, ResumeToken}
use personal_cfo_os.Workflow.Checkpoints.{load, load_resume_token}
use personal_cfo_os.WorkQueue.Types.{text, time}
use personal_cfo_os.Stores.Types.{
  TaskExecutionRecord, TaskQueueStatus, waiting_approval, executing, failed, ApprovalStateRecord,
  ApprovalStatus, approved, OperatorActionRecord, resume,
}
use personal_cfo_os.Stores.Approvals.{load_by_task}
use personal_cfo_os.Stores.Executions.{load_latest_by_task}
use personal_cfo_os.TaskGraph.{FollowUpTaskRecord, TaskGraphSnapshot}
use personal_cfo_os.TaskGraph.Activation.{update_task_status}
use personal_cfo_os.Service.Types.{
  StateSnapshot, FollowUpWorkflowRunResult, ReplayEventRecord, no_event, Backend, TaskCommandResult,
  no_result, queue_status_text, approval_status_text,
}
use personal_cfo_os.Service.Effects.{Step, ◌>>=◌, ◌>>◌, pure, when}
use personal_cfo_os.Service.Execution.{
  first_text, build_activation_context, finalize_task_execution_record, apply_execution_record,
}
use personal_cfo_os.Service.Attempts.{Capability, no_run_result}
use personal_cfo_os.Service.Graphs.{load_state, locate_task}
use personal_cfo_os.Service.Persist.{append_replay, save_changed_graph, persist_execution_outcome}
use personal_cfo_os.Service.Actions.{
  Begun, duplicate, fresh, ActionRequest, action_type_text, begin_action, error_text,
}
use personal_cfo_os.Service.Operator.{
  Deps, Resolution, found, missing, reads, rebuild_projection, refuse, rewrite_execution,
  write_action, latest_execution, as_applied,
}

pub record ResumeFollowUpTaskCommand : Type 0 where
  pub request_id : String
  pub graph_id : String
  pub task_id : String
  pub actor : String
  pub roles : List String
  pub note : String
  pub expected_version : ℕ

abbrev pub resume_request : ResumeFollowUpTaskCommand → String → String → ActionRequest
resume_request cmd graph_id task_id = record {
  action_type = resume;
  request_id = cmd.request_id;
  actor = cmd.actor;
  roles = cmd.roles;
  graph_id = graph_id;
  task_id = task_id;
  approval_id = "";
  workflow_id = "";
  note = cmd.note;
  expected_version = cmd.expected_version;
}

abbrev pub is_waiting : TaskQueueStatus → Bool
is_waiting waiting_approval = true
is_waiting _ = false

abbrev pub is_approved : ApprovalStatus → Bool
is_approved approved = true
is_approved _ = false

abbrev pub unresolved : Option ApprovalStateRecord → Option RuntimeError
unresolved none = none
unresolved (some a) =
    if is_approved a.status
    then none
    else some (
        invalid_transition "approval" a.approval_id (approval_status_text a.status) "approved"
          "task cannot resume before approval resolution")

abbrev pub with_latest :
    TaskCommandResult → String → String → Option TaskExecutionRecord → TaskCommandResult
with_latest answer graph_id task_id none = answer
with_latest answer graph_id task_id (some r) = record answer {
  graph_id = graph_id;
  task_id = task_id;
  approval_id = r.approval_id;
  execution_id = r.execution_id;
  status = some r.status;
}

unfoldable pub running_again : ℕ → TaskExecutionRecord → TaskExecutionRecord
running_again now r = record r {
  status = executing;
  pending_approval = false;
  last_transition_at = now;
}

unfoldable pub waiting_again : ℕ → TaskExecutionRecord → TaskExecutionRecord
waiting_again now r = record r {
  status = waiting_approval;
  pending_approval = true;
  last_transition_at = now;
  failure_category = none;
  failure_summary = "";
  failed_at = 0;
}

module _ {B P : Type 0} where
  -- An error of the step is dropped.
  abbrev pub dropping : {A : Type 0} → Step (Backend B P) A → Step (Backend B P) (Unit {0})
  dropping m s = ((m s).0, ok tt)

  abbrev pub resume_event :
      Deps B P → String → TaskExecutionRecord → OperatorActionRecord → ℕ → ReplayEventRecord
  resume_event env graph_id r action now = record no_event {
    event_id = env.make_id (text "replay" ∷ text "resume" ∷ text r.execution_id ∷ time now ∷ []);
    root_correlation_id = r.root_correlation_id;
    parent_workflow_id = r.parent_workflow_id;
    workflow_id = r.workflow_id;
    graph_id = graph_id;
    task_id = r.task_id;
    approval_id = r.approval_id;
    execution_id = r.execution_id;
    action_type = action_type_text resume;
    summary = push "operator resumed follow-up task " r.task_id;
    occurred_at = now;
    operator_action_id = action.action_id;
  }

  module _ (env : Deps B P) (clock : ℕ → ℕ) (explicit : Bool) (task : FollowUpTaskRecord)
      (action : OperatorActionRecord) where
    -- What is written when the capability fails: an explicit resume fails the task, an automatic one
    -- lets it wait again. `saved` is the graph as it was saved, `latest` the execution as it was loaded.
    unfoldable pub after_failure :
        TaskGraphSnapshot (StateSnapshot B)
        → TaskExecutionRecord
        → RuntimeError
        → String
        → Step (Backend B P) (Unit {0})
    after_failure saved latest e summary =
        let running = running_again (clock 1) latest in
        let broken = record running {
          status = failed;
          failure_category = some (env.category_of e);
          failure_summary = summary;
          failed_at = clock 1;
          last_transition_at = clock 1;
        } in
        if explicit
        then (rewrite_execution broken (int_suc latest.version)
            >> dropping (
                save_changed_graph
                  (apply_execution_record {P = P} saved broken (no_run_result env.no_state)
                    (clock 2))
                  saved.version))
        else (rewrite_execution (waiting_again (clock 1) running) (int_suc latest.version)
            >> dropping (
                save_changed_graph
                  (update_task_status saved task.task.id waiting_approval
                    (some (
                      "approved but automatic resume attempt failed; explicit resume required"
                      ∷ []))
                    none (clock 1))
                  saved.version))

    unfoldable pub after_success :
        TaskGraphSnapshot (StateSnapshot B)
        → TaskExecutionRecord
        → FollowUpWorkflowRunResult B P
        → Step (Backend B P) TaskCommandResult
    after_success saved latest result = do
      let now = clock 1
      let running = running_again now latest
      r ←
          persist_execution_outcome env.make_id env.marshal env.validate_payload (clock 3) saved
            (finalize_task_execution_record running result (clock 2)) result
      graph ← save_changed_graph (apply_execution_record saved r result (clock 4)) saved.version
      let done = record (as_applied now action) {
        approval_id = latest.approval_id;
        workflow_id = r.workflow_id;
      }
      write_action done
      when explicit (append_replay (resume_event env graph.graph.graph_id r done now))
      rebuild_projection env graph.graph.graph_id
      pure (record no_result {
        action = some done;
        graph_id = graph.graph.graph_id;
        task_id = task.task.id;
        approval_id = latest.approval_id;
        execution_id = r.execution_id;
        status = some r.status;
      })

    abbrev pub after_resume :
        TaskGraphSnapshot (StateSnapshot B)
        → TaskExecutionRecord
        → Result (FollowUpWorkflowRunResult B P)
        → Step (Backend B P) TaskCommandResult
    after_resume saved latest (ok result) = after_success saved latest result
    after_resume saved latest (err e) =
        after_failure saved latest e (error_text env.quote e) >> refuse env action e (clock 2)

    unfoldable pub run_resume :
        TaskGraphSnapshot (StateSnapshot B)
        → TaskExecutionRecord
        → CheckpointRecord
        → ResumeToken
        → P
        → StateSnapshot B
        → Capability B P
        → Step (Backend B P) TaskCommandResult
    run_resume snapshot latest checkpoint token payload pending_state capability = do
      saved ←
          save_changed_graph
            (update_task_status snapshot task.task.id executing none none (clock 1))
            snapshot.version
      rewrite_execution (running_again (clock 1) latest) latest.version
      after_resume saved latest (
          capability.resume_run task.task (build_activation_context saved.graph task)
            pending_state.state checkpoint token payload)

    abbrev pub with_capability :
        Resolution B P
        → (Capability B P → Step (Backend B P) TaskCommandResult)
        → Step (Backend B P) TaskCommandResult
    with_capability (found capability) run = run capability
    with_capability (missing reason) run =
        refuse env action
          (conflict "follow_up_task" task.task.id
            (first_text reason "workflow capability is not available"))
          (clock 1)

    abbrev pub with_pending_state :
        TaskExecutionRecord
        → Option String
        → (StateSnapshot B → Step (Backend B P) TaskCommandResult)
        → Step (Backend B P) TaskCommandResult
    with_pending_state latest none run =
        refuse env action
          (conflict "checkpoint_payload" latest.checkpoint_id
            "follow-up finalize resume payload is missing")
          (clock 1)
    with_pending_state latest (some ref) run =
        reads (λ s. load_state s (first_text latest.updated_state_snapshot_ref ref)) >>= run

    abbrev pub resume_latest :
        TaskGraphSnapshot (StateSnapshot B)
        → Option TaskExecutionRecord
        → Step (Backend B P) TaskCommandResult
    resume_latest snapshot none =
        refuse env action (not_found "task_execution" task.task.id) (clock 1)
    resume_latest snapshot (some latest) = do
      checkpoint ← reads (λ s. load latest.workflow_id latest.checkpoint_id s.checkpoints)
      token ← reads (λ s. load_resume_token latest.resume_token s.checkpoints)
      payload ← reads (λ s.
          or_fail (lookup latest.checkpoint_id s.payloads)
            (not_found "checkpoint_payload" latest.checkpoint_id))
      with_pending_state latest (env.pending_state_ref payload) (λ pending_state.
          with_capability (env.resolve task.task)
            (run_resume snapshot latest checkpoint token payload pending_state))

    abbrev pub unless_unresolved :
        Option RuntimeError
        → Step (Backend B P) TaskCommandResult
        → Step (Backend B P) TaskCommandResult
    unless_unresolved none run = run
    unless_unresolved (some e) run = refuse env action e (clock 1)

    unfoldable pub resume_fresh :
        TaskGraphSnapshot (StateSnapshot B) → Step (Backend B P) TaskCommandResult
    resume_fresh snapshot =
        if is_waiting task.status
        then (reads (λ s. ok (load_by_task snapshot.graph.graph_id task.task.id s.approvals))
            >>= λ approval.
                unless_unresolved (unresolved approval) (
                  latest_execution snapshot.graph.graph_id task.task.id >>= resume_latest snapshot))
        else refuse env action
            (invalid_transition "follow_up_task" task.task.id (queue_status_text task.status)
              "executing" "task is not waiting approval")
            (clock 1)

  abbrev pub resume_begun :
      Deps B P
      → (ℕ → ℕ)
      → Bool
      → TaskGraphSnapshot (StateSnapshot B)
      → FollowUpTaskRecord
      → Begun
      → Step (Backend B P) TaskCommandResult
  resume_begun env clock explicit snapshot task (duplicate action answer) s = (
    s,
    ok (
        with_latest answer snapshot.graph.graph_id task.task.id
          (load_latest_by_task snapshot.graph.graph_id task.task.id s.executions)),
  )
  resume_begun env clock explicit snapshot task (fresh action) s =
      resume_fresh env clock explicit task action snapshot s

  unfoldable pub resume_task_internal :
      Deps B P → (ℕ → ℕ) → Bool → ResumeFollowUpTaskCommand → Step (Backend B P) TaskCommandResult
  resume_task_internal env clock explicit cmd = do
    located ← reads (λ s. locate_task s cmd.graph_id cmd.task_id)
    b ←
        begin_action env.make_id (resume_request cmd located.0.graph.graph_id located.1.task.id)
          (clock 0)
    resume_begun env clock explicit located.0 located.1 b
