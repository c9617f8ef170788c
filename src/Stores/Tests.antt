-- ===== src/Stores/Tests.antt =====
-- The theorems on the stores at one approval, one execution and one operator action.
use personal_cfo_os.Base.{
  ℕ, List, String, ◌≡◌, ◌≢◌, ◌≤◌, ◌↔◌, refl, true, false, none, some, [], ◌∷◌, inl, Has, Ascending,
  eq_iff,
}
use personal_cfo_os.Base.Dict.{lookup, insert, values}
use personal_cfo_os.Errors.{err, conflict}
use personal_cfo_os.Stores.Types.{
  ApprovalStateRecord, pending, is_pending, TaskExecutionRecord, executing, OperatorActionRecord,
  approve, requested,
}
use personal_cfo_os.Stores.Versioned.{successes}
use personal_cfo_os.Stores.Versioned.Updates.{successes_bound}
use personal_cfo_os.Stores.Approvals.{Approvals, approval_record, list_pending, list_pending_lem}
use personal_cfo_os.Stores.Executions.{
  Executions, is_of_task, load_latest_by_task, load_latest_by_task_lem,
}
use personal_cfo_os.Stores.Actions.{
  ActionStore, save_action, save_fresh, load_by_request_id, save_all,
}
use personal_cfo_os.Stores.Actions.Requests.{save_action_once}

abbrev pub asked : ApprovalStateRecord
asked = record {
  approval_id = "approval-1";
  graph_id = "graph-1";
  task_id = "task-1";
  workflow_id = "workflow-1";
  execution_id = "";
  requested_action = "disclose";
  required_roles = [];
  requested_at = 5;
  deadline = none;
  status = pending;
  resolved_at = none;
  resolved_by = "";
  resolution_note = "";
  version = 2;
}

abbrev pub approvals : Approvals
approvals = ("approval-1", asked) ∷ []

abbrev calls : List (ApprovalStateRecord × ℕ)
calls = (asked, 2) ∷ (asked, 2) ∷ (asked, 3) ∷ []

successes_bound_example : successes approval_record 2 (asked ∷ asked ∷ []) approvals ≤ 1
successes_bound_example =
    successes_bound approval_record "approval-1" 2 (asked ∷ asked ∷ []) approvals (refl, (refl, tt))
      refl

list_pending_lem_example :
    Ascending (λ r. r.requested_at) (list_pending approvals)
    × ((r : ApprovalStateRecord)
        → Has r (list_pending approvals)
          ↔ (Has r (values approvals) × (is_pending r.status ≡ true)))
list_pending_lem_example = list_pending_lem approvals

abbrev pub execution : TaskExecutionRecord
execution = record {
  execution_id = "execution-1";
  task_id = "task-1";
  intent = "monthly_review";
  parent_graph_id = "graph-1";
  parent_workflow_id = "workflow-1";
  root_task_id = "task-0";
  triggered_by_task_id = "task-0";
  execution_depth = 1;
  capability = "monthly_review_workflow";
  workflow_id = "workflow-2";
  root_correlation_id = "workflow-1";
  correlation_id = "workflow-1";
  causation_id = "task-1";
  status = executing;
  version = 1;
  attempt = 1;
  retry_count = 0;
  last_recovery_strategy = none;
  last_transition_at = 7;
  started_at = 7;
  completed_at = 0;
  failed_at = 0;
  input_state_version = 1;
  updated_state_version = 0;
  input_state_snapshot_ref = "";
  updated_state_snapshot_ref = "";
  committed = false;
  checkpoint_id = "";
  resume_token = "";
  resume_state = none;
  approval_id = "";
  pending_approval = false;
  failure_category = none;
  failure_summary = "";
  artifact_ids = [];
}

abbrev executions : Executions
executions = ("execution-1", execution) ∷ []

load_latest_by_task_lem_example :
    (r : TaskExecutionRecord) × (load_latest_by_task "graph-1" "task-1" executions ≡ some r)
    × Has r (values executions)
    × (is_of_task "graph-1" "task-1" r ≡ true)
    × (execution.started_at ≤ r.started_at)
unfolding values
load_latest_by_task_lem_example =
    load_latest_by_task_lem "graph-1" "task-1" executions execution (inl refl) refl

abbrev action : String → String → OperatorActionRecord
action id request = record {
  action_id = id;
  request_id = request;
  action_type = approve;
  actor = "operator";
  roles = [];
  graph_id = "graph-1";
  task_id = "task-1";
  approval_id = "approval-1";
  workflow_id = "workflow-1";
  status = requested;
  note = "";
  requested_at = 8;
  applied_at = none;
  failure_summary = "";
  expected_version = 0;
}

abbrev pub no_actions : ActionStore
no_actions = record { by_id = []; by_request = [] }

abbrev one_action : ActionStore
one_action = record {
  by_id = ("action-1", action "action-1" "request-1") ∷ [];
  by_request = ("request-1", "action-1") ∷ [];
}

other_id : ◌≢◌ {A = String} "action-2" "action-1"
other_id e = let no : false ≡ true = (eq_iff "action-2" "action-1").1 e in cc

save_action_once_example :
    (load_by_request_id "request-1" (save_all (action "action-2" "request-2" ∷ []) one_action)
      ≡ some (action "action-1" "request-1"))
    × (save_action
          (action "action-3" "request-1")
          (save_all (action "action-2" "request-2" ∷ []) one_action)
        ≡ err (conflict "operator_action_request" "action-1" "duplicate operator request"))
unfolding save_action save_fresh lookup insert
save_action_once_example =
    save_action_once (action "action-1" "request-1") (action "action-3" "request-1") no_actions
      one_action (action "action-2" "request-2" ∷ []) refl (other_id, tt) refl refl
