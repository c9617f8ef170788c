-- ===== src/Service/Actions.antt =====
-- beginAction, failAction and enqueueWorkItem of internal/runtime/service.go. `quote` is Go's %q.
use personal_cfo_os.Base.{
  ℕ, String, Bool, true, false, Option, none, some, List, [], ◌∷◌, string_eq, if◌then◌else◌,
  is_empty, push,
}
use personal_cfo_os.Errors.{ok, err, RuntimeError, conflict, not_found, invalid_transition, failure}
use personal_cfo_os.Governance.Rules.{is_blank}
use personal_cfo_os.WorkQueue.Types.{
  IdPart, text, time, WorkItem, WorkEnqueueResult, enqueued, WorkEnqueueDisposition,
  duplicate_suppressed,
}
use personal_cfo_os.WorkQueue.{enqueue}
use personal_cfo_os.Stores.Types.{
  OperatorActionRecord, OperatorActionType, approve, deny, resume, retry, reevaluate,
  other_action_type, requested, action_failed,
}
use personal_cfo_os.Stores.Actions.{save_action, load_by_request_id, after_save}
use personal_cfo_os.Service.Types.{
  Backend, ReplayEventRecord, no_event, TaskCommandResult, no_result,
}
use personal_cfo_os.Service.Effects.{Step, ◌>>◌, fails}
use personal_cfo_os.Service.Execution.{first_text}
use personal_cfo_os.Service.Persist.{append_replay}

abbrev pub action_type_text : OperatorActionType → String
action_type_text approve = "approve"
action_type_text deny = "deny"
action_type_text resume = "resume"
action_type_text retry = "retry"
action_type_text reevaluate = "reevaluate"
action_type_text (other_action_type t) = t

-- The methods `Error`.
unfoldable pub error_text : (String → String) → RuntimeError → String
error_text quote (conflict resource id reason) = push resource (
    push " " (push (quote id) (if is_empty reason then " conflict" else push " conflict: " reason)))
error_text quote (not_found resource id) = push resource (push " " (push (quote id) " not found"))
error_text quote (invalid_transition resource id from to reason) = push resource (
    push " " (
      push (quote id) (
        push " cannot transition from "
          (push from (push " to " (push to (if is_empty reason then "" else push ": " reason)))))))
error_text quote (failure message) = message

-- The answer of `beginAction`: what was recorded under the request before, or a new action.
pub data Begun : Type 0 where
  duplicate : OperatorActionRecord → TaskCommandResult → Begun
  fresh : OperatorActionRecord → Begun

-- The arguments of `beginAction`.
pub record ActionRequest : Type 0 where
  pub action_type : OperatorActionType
  pub request_id : String
  pub actor : String
  pub roles : List String
  pub graph_id : String
  pub task_id : String
  pub approval_id : String
  pub workflow_id : String
  pub note : String
  pub expected_version : ℕ

abbrev pub recorded_result : OperatorActionRecord → TaskCommandResult
recorded_result a = record no_result {
  action = some a;
  graph_id = a.graph_id;
  task_id = a.task_id;
  approval_id = a.approval_id;
  failure_summary = a.failure_summary;
}

abbrev pub new_action : (List IdPart → String) → ActionRequest → ℕ → OperatorActionRecord
new_action make_id q now = record {
  action_id =
      make_id
        (text "operator-action" ∷ text (action_type_text q.action_type) ∷ text q.request_id ∷ []);
  request_id = q.request_id;
  action_type = q.action_type;
  actor = q.actor;
  roles = q.roles;
  graph_id = q.graph_id;
  task_id = q.task_id;
  approval_id = q.approval_id;
  workflow_id = q.workflow_id;
  status = requested;
  note = q.note;
  requested_at = now;
  applied_at = none;
  failure_summary = "";
  expected_version = q.expected_version;
}

abbrev pub begun : Option OperatorActionRecord → OperatorActionRecord → Begun
begun none new = fresh new
begun (some existing) new = duplicate existing (recorded_result existing)

abbrev pub failed_action :
    (String → String) → OperatorActionRecord → RuntimeError → ℕ → OperatorActionRecord
failed_action quote a e now = record a {
  status = action_failed;
  applied_at = some now;
  failure_summary = error_text quote e;
}

abbrev pub failure_event :
    (List IdPart → String)
    → (String → String)
    → OperatorActionRecord
    → RuntimeError
    → ℕ
    → ReplayEventRecord
failure_event make_id quote a e now = record no_event {
  event_id =
      make_id
        (text "replay" ∷ text (action_type_text a.action_type) ∷ text a.request_id ∷ time now ∷ []);
  root_correlation_id = first_text a.graph_id a.workflow_id;
  parent_workflow_id = a.workflow_id;
  workflow_id = a.workflow_id;
  graph_id = a.graph_id;
  task_id = a.task_id;
  approval_id = a.approval_id;
  action_type = action_type_text a.action_type;
  summary = push "operator action " (push (action_type_text a.action_type) " failed");
  occurred_at = now;
  details_json = push "{\"failure_summary\":" (push (quote (error_text quote e)) "}");
  operator_action_id = a.action_id;
}

module _ {B P : Type 0} where
  unfoldable pub begin_action :
      (List IdPart → String) → ActionRequest → ℕ → Step (Backend B P) Begun
  begin_action make_id q now s =
      if is_blank q.request_id
      then (s, err (failure "request_id is required"))
      else (s, ok (begun (load_by_request_id q.request_id s.actions) (new_action make_id q now)))

  -- The error is the caller's; the result that comes with it, which repeats the action, is left out.
  -- An error of the save is dropped.
  unfoldable pub fail_action :
      {A : Type 0}
      → (List IdPart → String)
      → (String → String)
      → OperatorActionRecord
      → RuntimeError
      → ℕ
      → Step (Backend B P) A
  fail_action make_id quote a e now s =
      (append_replay (failure_event make_id quote a e now) >> fails e) (record s {
        actions = after_save s.actions (save_action (failed_action quote a e now) s.actions);
      })

abbrev pub is_accepted : WorkEnqueueDisposition → Bool
is_accepted enqueued = true
is_accepted duplicate_suppressed = false

abbrev pub enqueued_result : WorkItem → WorkEnqueueResult → TaskCommandResult
enqueued_result item answer = record no_result {
  graph_id = item.graph_id;
  task_id = item.task_id;
  execution_id = item.execution_id;
  approval_id = item.approval_id;
  enqueue_results = answer ∷ [];
  async_dispatch_accepted = is_accepted answer.disposition;
  enqueued_work_item_ids =
      if is_accepted answer.disposition then first_text answer.work_item_id item.id ∷ [] else [];
  enqueued_work_kinds = if is_accepted answer.disposition then item.kind ∷ [] else [];
}

unfoldable pub enqueue_work_item : {B P : Type 0} → WorkItem → Step (Backend B P) TaskCommandResult
enqueue_work_item item s = elim (enqueue item s.items) [
  | ok (items, answer) ↦ (record s { items = items }, ok (enqueued_result item answer))
  | err e ↦ (s, err e)
]
