-- ===== src/Service/Operator.antt =====
-- internal/runtime/operator_service.go: ApproveTask and DenyTask, and what its commands share. `clock i`
-- is the time that the i-th reading of the clock gives.
pub mod Resume
pub mod Retry
pub mod Reevaluate
pub mod Commands
pub mod Keeps
pub mod Resolved
pub mod Stays
pub mod Once
pub mod Repeats
use personal_cfo_os.Base.{
  ℕ, String, Bool, true, false, not, Option, none, some, List, [], ◌∷◌, if◌then◌else◌, is_empty,
  is_pos, push,
}
use personal_cfo_os.Base.Dict.{lookup}
use personal_cfo_os.Errors.{
  Result, ok, err, RuntimeError, conflict, not_found, invalid_transition, failure, or_fail,
}
use personal_cfo_os.Governance.Rules.{is_blank}
use personal_cfo_os.Workflow.Types.{
  FailureCategory, CheckpointRecord, ResumeToken, denied_by_operator,
}
use personal_cfo_os.WorkQueue.Types.{
  IdPart, text, time, WorkItem, WorkItemKind, reevaluate_task_graph, execute_ready_task,
  resume_approved_checkpoint, retry_failed_execution, scheduler_wakeup, queued, SchedulerWakeupKind,
  no_wakeup, approval,
}
use personal_cfo_os.Stores.Types.{
  TaskExecutionRecord, ApprovalStateRecord, ApprovalStatus, is_pending, approved, denied, failed,
  OperatorActionRecord, OperatorActionType, approve, deny, applied,
}
use personal_cfo_os.Stores.Approvals.{load_approval, update_approval}
use personal_cfo_os.Stores.Executions.{update_execution, load_latest_by_task}
use personal_cfo_os.Stores.Actions.{save_action}
use personal_cfo_os.TaskSpec.{TaskSpec}
use personal_cfo_os.TaskGraph.{FollowUpTaskRecord, TaskGraphSnapshot}
use personal_cfo_os.TaskGraph.Activation.{update_task_status}
use personal_cfo_os.Scheduler.{kind_text}
use personal_cfo_os.Service.Types.{
  FinancialWorldState, StateSnapshot, FollowUpWorkflowRunResult, ReplayEventRecord, no_event,
  Backend, TaskCommandResult, no_result, approval_status_text,
}
use personal_cfo_os.Service.Effects.{Step, ◌>>=◌, ◌>>◌, pure, fails, skip, unless_error, written}
use personal_cfo_os.Service.Execution.{first_text, FollowUpActivationContext}
use personal_cfo_os.Service.Attempts.{Capability}
use personal_cfo_os.Service.Graphs.{locate_task}
use personal_cfo_os.Service.Persist.{
  FollowUpExecutionReplayDetails, append_replay, save_changed_graph,
}
use personal_cfo_os.Service.Actions.{
  Begun, duplicate, fresh, ActionRequest, action_type_text, begin_action, fail_action,
  enqueue_work_item,
}

pub record ApproveTaskCommand : Type 0 where
  pub request_id : String
  pub approval_id : String
  pub actor : String
  pub roles : List String
  pub note : String
  pub expected_version : ℕ

pub record OperatorAsyncDispatchReplayDetails : Type 0 where
  pub worker_action : String
  pub work_item_id : String
  pub work_item_kind : String
  pub scheduler_decision : String
  pub store_backend_profile : String

-- The answer of ResolveWorkflow: the capability, or why there is none.
pub data Resolution (B P : Type 0) : Type 0 where
  found : Capability B P → Resolution B P
  missing : String → Resolution B P

-- What the service is built with beside its stores. `quote` is %q, `marshal` and `print_dispatch` print
-- JSON, `rebuild` is the projection writer, `async` whether there are a queue and a scheduler,
-- `pending_state_ref` reads the payload's finalize-resume part, `no_state` is the zero state,
-- and `resolve_task` and `rfc3339` are what a task graph is reevaluated with.
pub record Deps (B P : Type 0) : Type 0 where
  pub make_id : List IdPart → String
  pub quote : String → String
  pub marshal : FollowUpExecutionReplayDetails → Result String
  pub print_dispatch : OperatorAsyncDispatchReplayDetails → String
  pub validate_payload : P → Option RuntimeError
  pub pending_state_ref : P → Option String
  pub resolve : TaskSpec → Resolution B P
  pub resolve_task : TaskSpec → String × Bool × String
  pub rfc3339 : ℕ → String
  pub category_of : RuntimeError → FailureCategory
  pub rebuild : String → Option RuntimeError
  pub no_state : FinancialWorldState B
  pub backend_profile : String
  pub async : Bool

abbrev pub work_kind_text : WorkItemKind → String
work_kind_text reevaluate_task_graph = "reevaluate_task_graph"
work_kind_text execute_ready_task = "execute_ready_task"
work_kind_text resume_approved_checkpoint = "resume_approved_checkpoint"
work_kind_text retry_failed_execution = "retry_failed_execution"
work_kind_text scheduler_wakeup = "scheduler_wakeup"

-- A queued item with the fields that its place in the code fills in.
abbrev pub new_item : WorkItemKind → SchedulerWakeupKind → ℕ → WorkItem
new_item kind wakeup now = record {
  id = "";
  kind = kind;
  status = queued;
  dedupe_key = "";
  graph_id = "";
  task_id = "";
  execution_id = "";
  approval_id = "";
  checkpoint_id = "";
  workflow_id = "";
  available_at = now;
  claimed_at = none;
  completed_at = none;
  failed_at = none;
  last_updated_at = now;
  reason = "";
  wakeup_kind = wakeup;
  retry_not_before = none;
  attempt_count = 0;
  lease_id = "";
  fencing_token = 0;
  claim_token = "";
  claimed_by_worker_id = "";
  lease_expires_at = none;
}

abbrev pub approval_request :
    OperatorActionType → ApproveTaskCommand → ApprovalStateRecord → ActionRequest
approval_request type cmd a = record {
  action_type = type;
  request_id = cmd.request_id;
  actor = cmd.actor;
  roles = cmd.roles;
  graph_id = a.graph_id;
  task_id = a.task_id;
  approval_id = a.approval_id;
  workflow_id = a.workflow_id;
  note = cmd.note;
  expected_version = cmd.expected_version;
}

abbrev pub not_pending : ApprovalStateRecord → String → RuntimeError
not_pending a to =
    invalid_transition "approval" a.approval_id (approval_status_text a.status) to
      "approval is not pending"

unfoldable pub resolved :
    ApprovalStatus → ApproveTaskCommand → ℕ → ApprovalStateRecord → ApprovalStateRecord
resolved status cmd now a = record a {
  status = status;
  resolved_at = some now;
  resolved_by = cmd.actor;
  resolution_note = cmd.note;
}

abbrev pub version_expected : ApproveTaskCommand → ApprovalStateRecord → ℕ
version_expected cmd a = if is_pos cmd.expected_version then cmd.expected_version else a.version

abbrev pub as_applied : ℕ → OperatorActionRecord → OperatorActionRecord
as_applied now action = record action { status = applied; applied_at = some now }

abbrev pub resolution_event : ApprovalStateRecord → OperatorActionRecord → ℕ → ReplayEventRecord
resolution_event a action now = record no_event {
  root_correlation_id = a.graph_id;
  parent_workflow_id = a.workflow_id;
  workflow_id = a.workflow_id;
  graph_id = a.graph_id;
  task_id = a.task_id;
  approval_id = a.approval_id;
  occurred_at = now;
  operator_action_id = action.action_id;
}

unfoldable pub denied_execution : String → ℕ → TaskExecutionRecord → TaskExecutionRecord
denied_execution reason now r = record r {
  status = failed;
  pending_approval = false;
  failure_category = some denied_by_operator;
  failure_summary = reason;
  failed_at = now;
  last_transition_at = now;
}

module _ {B P : Type 0} where
  unfoldable pub reads : {A : Type 0} → (Backend B P → Result A) → Step (Backend B P) A
  reads f s = (s, f s)

  unfoldable pub write_resolution : ApprovalStateRecord → ℕ → Step (Backend B P) (Unit {0})
  write_resolution a expected s =
      written (λ x. record s { approvals = x }) s (update_approval a expected s.approvals)

  unfoldable pub write_action : OperatorActionRecord → Step (Backend B P) (Unit {0})
  write_action a s = written (λ x. record s { actions = x }) s (save_action a s.actions)

  unfoldable pub rewrite_execution : TaskExecutionRecord → ℕ → Step (Backend B P) (Unit {0})
  rewrite_execution r expected s =
      written (λ x. record s { executions = x }) s (update_execution r expected s.executions)

  unfoldable pub latest_execution :
      String → String → Step (Backend B P) (Option TaskExecutionRecord)
  latest_execution graph_id task_id s = (s, ok (load_latest_by_task graph_id task_id s.executions))

  -- A repeated request gets the answer that is on record.
  unfoldable pub unless_repeated :
      Begun
      → (OperatorActionRecord → Step (Backend B P) TaskCommandResult)
      → Step (Backend B P) TaskCommandResult
  unless_repeated (duplicate action answer) rest = pure answer
  unless_repeated (fresh action) rest = rest action

  module _ (env : Deps B P) where
    abbrev pub rebuild_projection : String → Step (Backend B P) (Unit {0})
    rebuild_projection graph_id =
        if is_blank graph_id then skip else unless_error (env.rebuild graph_id)

    abbrev pub refuse :
        {A : Type 0} → OperatorActionRecord → RuntimeError → ℕ → Step (Backend B P) A
    refuse action e now = fail_action env.make_id env.quote action e now

    abbrev pub resume_item : ApprovalStateRecord → ℕ → WorkItem
    resume_item a now = record (new_item resume_approved_checkpoint approval now) {
      id = env.make_id (
          text "work" ∷ text (work_kind_text resume_approved_checkpoint) ∷ text a.approval_id ∷ []);
      dedupe_key = push "resume:" (push a.graph_id (push ":" a.task_id));
      graph_id = a.graph_id;
      task_id = a.task_id;
      approval_id = a.approval_id;
      workflow_id = a.workflow_id;
      reason = "approval resolved to approved";
    }

    abbrev pub dispatch_details : OperatorActionType → WorkItem → String
    dispatch_details type item = env.print_dispatch (record {
      worker_action = action_type_text type;
      work_item_id = item.id;
      work_item_kind = work_kind_text item.kind;
      scheduler_decision = kind_text item.wakeup_kind;
      store_backend_profile = env.backend_profile;
    })

    -- The update of the approval, the record of the action and its event.
    unfoldable pub approve_pending :
        ApproveTaskCommand
        → ApprovalStateRecord
        → OperatorActionRecord
        → ℕ
        → Step (Backend B P) (Unit {0})
    approve_pending cmd a action now = do
      write_resolution (resolved approved cmd now a) (version_expected cmd a)
      write_action (as_applied now action)
      append_replay (record (resolution_event a action now) {
        event_id =
            env.make_id (text "replay" ∷ text "approve" ∷ text a.approval_id ∷ time now ∷ []);
        action_type = action_type_text approve;
        summary = push "operator approved task " a.task_id;
      })

    unfoldable pub dispatch_resume :
        ApprovalStateRecord → OperatorActionRecord → ℕ → Step (Backend B P) TaskCommandResult
    dispatch_resume a action now = do
      answer ← enqueue_work_item (resume_item a now)
      append_replay (record (resolution_event a action now) {
        event_id =
            env.make_id
              (text "replay" ∷ text "approve-enqueue" ∷ text a.approval_id ∷ time now ∷ []);
        action_type = "async_dispatch";
        summary = push "approval " (push a.approval_id " enqueued async resume");
        details_json = dispatch_details approve (resume_item a now);
      })
      rebuild_projection a.graph_id
      pure (record answer { action = some (as_applied now action); auto_resume_tried = false })

    -- The execution of the task, if there is one, fails with the operator's reason.
    unfoldable pub deny_execution :
        String → ℕ → Option TaskExecutionRecord → Step (Backend B P) (Unit {0})
    deny_execution reason now none = skip
    deny_execution reason now (some r) = rewrite_execution (denied_execution reason now r) r.version

    unfoldable pub deny_pending :
        ApproveTaskCommand
        → ApprovalStateRecord
        → OperatorActionRecord
        → ℕ
        → Step (Backend B P) TaskCommandResult
    deny_pending cmd a action now = do
      located ← reads (λ s. locate_task s a.graph_id a.task_id)
      let reason = first_text cmd.note "operator denied approval"
      let snapshot = located.0
      let task_id = located.1.task.id
      write_resolution (resolved denied cmd now a) (version_expected cmd a)
      latest ← latest_execution snapshot.graph.graph_id task_id
      deny_execution reason now latest
      save_changed_graph (update_task_status snapshot task_id failed (some (reason ∷ [])) none now)
          snapshot.version
      write_action (as_applied now action)
      append_replay (record (resolution_event a action now) {
        event_id = env.make_id (text "replay" ∷ text "deny" ∷ text a.approval_id ∷ time now ∷ []);
        action_type = action_type_text deny;
        summary = push "operator denied task " a.task_id;
      })
      rebuild_projection a.graph_id
      pure (record no_result {
        action = some (as_applied now action);
        graph_id = a.graph_id;
        task_id = a.task_id;
        approval_id = a.approval_id;
        status = some failed;
        failure_summary = reason;
      })

    -- What both commands do first.
    unfoldable pub on_approval :
        OperatorActionType
        → String
        → ApproveTaskCommand
        → (ℕ → ℕ)
        → (ApprovalStateRecord → OperatorActionRecord → Step (Backend B P) TaskCommandResult)
        → Step (Backend B P) TaskCommandResult
    on_approval type to cmd clock rest = do
      a ← reads (λ s.
          or_fail (load_approval cmd.approval_id s.approvals)
            (not_found "approval" cmd.approval_id))
      b ← begin_action env.make_id (approval_request type cmd a) (clock 0)
      unless_repeated b (λ action.
          if is_pending a.status then rest a action else refuse action (not_pending a to) (clock 1))

    unfoldable pub deny_task : ApproveTaskCommand → (ℕ → ℕ) → Step (Backend B P) TaskCommandResult
    deny_task cmd clock =
        on_approval deny "denied" cmd clock (λ a action. deny_pending cmd a action (clock 1))
