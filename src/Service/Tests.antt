-- ===== src/Service/Tests.antt =====
-- The theorems on the service's commits, executions and operator commands at one task graph of one task.
use personal_cfo_os.Base.{
  ℕ, ◌+◌, ◌≤◌, ◌≡◌, ◌⊎◌, refl, String, true, false, Option, none, some, List, [], ◌∷◌, arith,
  eq_iff, ◌==◌, nat_eq, if◌then◌else◌,
}
use personal_cfo_os.Base.{find}
use personal_cfo_os.Base.Dict.{lookup, insert, values}
use personal_cfo_os.Errors.{Result, ok, err, RuntimeError, failure}
use personal_cfo_os.Governance.Rules.{is_blank}
use personal_cfo_os.WorkQueue.{enqueue, blocks, validate_fence}
use personal_cfo_os.WorkQueue.History.{Call, completes, run}
use personal_cfo_os.WorkQueue.History.Stale.{completed_it}
use personal_cfo_os.WorkQueue.Tests.{ids, held, held_store, held_fence, later_calls}
use personal_cfo_os.Workflow.Types.{
  completed as state_completed, transient, retrying, retry, FailureCategory,
}
use personal_cfo_os.Workflow.Controller.{handle_failure, recover}
use personal_cfo_os.Workflow.Checkpoints.{empty_runtime}
use personal_cfo_os.Stores.Types.{
  TaskExecutionRecord, ApprovalStateRecord, OperatorActionRecord, pending, completed, failed,
  waiting_approval,
}
use personal_cfo_os.Stores.Versioned.{update, update_checked}
use personal_cfo_os.Stores.Actions.{load_by_request_id, save_action, save_fresh}
use personal_cfo_os.Stores.Tests.{asked, approvals, execution, no_actions}
use personal_cfo_os.TaskGraph.{TaskGraphSnapshot}
use personal_cfo_os.TaskGraph.Tests.{graph, task_record, resolve, date}
use personal_cfo_os.Service.Types.{
  FinancialWorldState, StateSnapshot, FollowUpWorkflowRunResult, Backend, TaskCommandResult,
  no_result,
}
use personal_cfo_os.Service.Effects.{IsError}
use personal_cfo_os.Service.Persist.{
  FenceSite, execution_site, FollowUpExecutionReplayDetails, persist_execution_outcome,
  persist_execution_outcome_guarded, save_updated_graph_guarded, append_replay,
}
use personal_cfo_os.Service.Persist.Guard.{persist_guarded_lem, persist_guarded_refused}
use personal_cfo_os.Service.Persist.Stale.{stale_worker_refused}
use personal_cfo_os.Service.Execution.{finalize_task_execution_record, apply_execution_record}
use personal_cfo_os.Service.Execution.Commit.{apply_finalized_lem}
use personal_cfo_os.Service.Actions.{recorded_result, begin_action, enqueue_work_item}
use personal_cfo_os.Service.Attempts.{Capability, attempts_allowed, execute_single_follow_up}
use personal_cfo_os.Service.Attempts.Bounds.{IsSettled, execute_single_lem}
use personal_cfo_os.Service.Operator.{
  ApproveTaskCommand, Deps, missing, on_approval, reads, unless_repeated, approve_pending,
  write_resolution, write_action, dispatch_resume, resolved,
}
use personal_cfo_os.Service.Operator.Commands.{
  approve_task, approve_command, deny_command, run_commands,
}
use personal_cfo_os.Service.Operator.Resolved.{HasReached, unchanged}
use personal_cfo_os.Service.Operator.Once.{run_commands-HasReached}
use personal_cfo_os.Service.Operator.Repeats.{approve_task_again}

abbrev world : String → ℕ → FinancialWorldState String
world id n = record {
  body = "state";
  version = record { sequence = n; snapshot_id = id; updated_at = 5 };
}

abbrev state : String → ℕ → StateSnapshot String
state id n = record { state = world id n; captured_at = 5; reason = "base" }

abbrev snapshot : TaskGraphSnapshot (StateSnapshot String)
snapshot = record {
  graph = graph;
  version = 1;
  registered_tasks = task_record "task-1" [] ∷ [];
  spawned = [];
  deferred_tasks = [];
  executed_tasks = [];
  base_state_snapshot = state "state-1" 1;
  base_state_snapshot_ref = "state-1";
  latest_committed_state_snapshot = state "state-1" 1;
  latest_committed_state_ref = "state-1";
  registered_at = 1;
}

abbrev result : FollowUpWorkflowRunResult String String
result = record {
  workflow_id = "workflow-2";
  runtime_state = state_completed;
  updated_state = world "state-2" 2;
  artifacts = [];
  checkpoint = none;
  resume_token = none;
  checkpoint_payload = none;
  pending_approval = none;
  failure_category = none;
  failure_summary = "";
  last_recovery_strategy = none;
}

abbrev pub stores : Backend String String
stores = record {
  graphs = record { snapshots = ("graph-1", snapshot) ∷ []; states = [] };
  executions = ("execution-1", execution) ∷ [];
  approvals = approvals;
  actions = no_actions;
  checkpoints = empty_runtime;
  payloads = [];
  artifacts = [];
  replay = [];
  items = [];
}

abbrev print : FollowUpExecutionReplayDetails → Result String
print details = ok "{}"

abbrev accepts : String → Option RuntimeError
accepts payload = none

persist_guarded_lem_example :
    persist_execution_outcome_guarded ids print accepts 9 (λ site. none) snapshot execution result
    ≡ persist_execution_outcome ids print accepts 9 snapshot execution result
persist_guarded_lem_example =
    persist_guarded_lem ids print accepts 9 (λ site. none) snapshot execution result (λ site. refl)

abbrev lost : FenceSite → Option RuntimeError
lost execution_site = some (failure "lease was lost")
lost _ = none

persist_guarded_refused_example :
    ((persist_execution_outcome_guarded ids print accepts 9 lost snapshot execution result
        stores).0.executions
      ≡ stores.executions)
    × ((persist_execution_outcome_guarded ids print accepts 9 lost snapshot execution result
          stores).0.replay
        ≡ stores.replay)
    × IsError
        (persist_execution_outcome_guarded ids print accepts 9 lost snapshot execution result
          stores).1
persist_guarded_refused_example =
    persist_guarded_refused ids print accepts 9 lost (failure "lease was lost") snapshot execution
      result stores refl

abbrev calls : FenceSite → List Call
calls site = later_calls

abbrev answers : FenceSite → Option RuntimeError
answers site = validate_fence held_fence (run ids (completes held_fence 12 ∷ calls site) held_store)

stale_worker_refused_example :
    ((e : RuntimeError) × (persist_execution_outcome_guarded ids print accepts 9 answers snapshot
          execution result stores
        ≡ (stores, err e)))
    × ((e : RuntimeError) × (save_updated_graph_guarded answers snapshot 1 stores
          ≡ (stores, err e)))
unfolding lookup
stale_worker_refused_example =
    stale_worker_refused ids print accepts 9 held_store held_fence held refl
      (completes held_fence 12) calls answers snapshot execution result 1 stores
      (refl, refl, (refl, refl, tt))
      (completed_it 12 (record {
        same_item = refl;
        leased = refl;
        same_lease = refl;
        same_token = refl;
        same_worker = refl;
      }))
      (omega arith) (λ site. (tt, (tt, tt))) (λ site. omega arith) (λ site. refl)

apply_finalized_lem_example :
    ((result.runtime_state ≡ state_completed)
      × ((finalize_task_execution_record execution result 8).status ≡ completed)
      × ((finalize_task_execution_record execution result 8).committed ≡ true)
      × ((apply_execution_record snapshot
            (finalize_task_execution_record execution result 8)
            result
            9).latest_committed_state_snapshot.state
          ≡ result.updated_state))
    ⊎ (((finalize_task_execution_record execution result 8).committed ≡ false)
        × (((finalize_task_execution_record execution result 8).status ≡ waiting_approval)
            ⊎ ((finalize_task_execution_record execution result 8).status ≡ failed))
        × ((apply_execution_record snapshot
              (finalize_task_execution_record execution result 8)
              result
              9).latest_committed_state_snapshot
            ≡ snapshot.latest_committed_state_snapshot)
        × ((apply_execution_record snapshot
              (finalize_task_execution_record execution result 8)
              result
              9).latest_committed_state_ref
            ≡ snapshot.latest_committed_state_ref))
apply_finalized_lem_example = apply_finalized_lem snapshot execution result 8 9 refl

abbrev second : ℕ → Result (FollowUpWorkflowRunResult String String)
second n = if n == 2 then ok result else err (failure "unavailable")

-- The first attempt fails for the moment, the second one completes.
abbrev workflow : Capability String String
workflow = record {
  execute = λ n spec activation input. second n;
  resume_run = λ spec activation input checkpoint token payload. ok result;
}

abbrev all_transient : RuntimeError → FailureCategory
all_transient e = transient

abbrev words : RuntimeError → String
words e = "unavailable"

execute_single_lem_example :
    (t : Backend String String) × (r : TaskExecutionRecord) × (answer : FollowUpWorkflowRunResult
      String String)
    × (execute_single_follow_up ids all_transient words
          (world "" 0)
          (λ i. i)
          snapshot
          (task_record "task-1" [])
          workflow
          (world "state-1" 1)
          2
          stores
        ≡ (t, ok (r, answer)))
    × IsSettled r.status
    × (1 ≤ r.attempt)
    × (r.attempt ≤ attempts_allowed 2)
    × (r.attempt ≡ r.retry_count + 1)
    × (r.task_id ≡ "task-1")
unfolding handle_failure recover
execute_single_lem_example =
    execute_single_lem ids all_transient words (world "" 0) (λ i. i) snapshot
      (task_record "task-1" []) workflow (world "state-1" 1) 2 stores
      (λ e. ((retrying, retry), refl))

abbrev env : Deps String String
env = record {
  make_id = ids;
  quote = λ t. t;
  marshal = print;
  print_dispatch = λ details. "{}";
  validate_payload = accepts;
  pending_state_ref = λ payload. none;
  resolve = λ spec. missing "no workflow";
  resolve_task = resolve;
  rfc3339 = date;
  category_of = all_transient;
  rebuild = λ graph_id. none;
  no_state = world "" 0;
  backend_profile = "memory";
  async = true;
}

abbrev approval_command : String → ApproveTaskCommand
approval_command request = record {
  request_id = request;
  approval_id = "approval-1";
  actor = "operator";
  roles = [];
  note = "";
  expected_version = 0;
}

stores_filed :
    (key : String) (r : ApprovalStateRecord) → lookup key approvals ≡ some r → r.approval_id ≡ key
unfolding lookup
stores_filed key r h = ground (arith, eq_iff "approval-1" key)

run_commands-HasReached_example :
    HasReached "approval-1" pending
      (run_commands env
        (approve_command (approval_command "request-1") (λ i. 20)
          ∷ deny_command (approval_command "request-2") (λ i. 30)
          ∷ [])
        stores).approvals
unfolding lookup
run_commands-HasReached_example =
    run_commands-HasReached env "approval-1" pending
      (approve_command (approval_command "request-1") (λ i. 20)
        ∷ deny_command (approval_command "request-2") (λ i. 30)
        ∷ [])
      stores (stores_filed, (asked, refl, unchanged))

abbrev approved_once : Backend String String × Result TaskCommandResult
approved_once = approve_task env (approval_command "request-1") (λ i. 20) stores

abbrev answer_or : Result TaskCommandResult → TaskCommandResult
answer_or (ok r) = r
answer_or (err e) = no_result

approve_task_again_example :
    (action : OperatorActionRecord) × (load_by_request_id "request-1" approved_once.0.actions
      ≡ some action)
    × (approve_task env (approval_command "request-1") (λ i. 40) approved_once.0
        ≡ (approved_once.0, ok (recorded_result action)))
unfolding approve_task on_approval reads begin_action load_by_request_id unless_repeated
    approve_pending write_resolution update update_checked write_action save_action save_fresh
    append_replay dispatch_resume enqueue_work_item enqueue blocks lookup insert resolved is_blank
    find values
approve_task_again_example =
    approve_task_again env (approval_command "request-1") (λ i. 20) (λ i. 40) stores approved_once.0
      (answer_or approved_once.1) refl refl
