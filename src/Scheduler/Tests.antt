-- ===== src/Scheduler/Tests.antt =====
-- The scheduler's theorems at a retry, at two tasks and at a tick.
use personal_cfo_os.WorkQueue.{enqueue, blocks}
use personal_cfo_os.Scheduler.Tick.{schedule_graphs, dispatch}
use personal_cfo_os.Scheduler.Scan.{
  schedule_graph, finish_scan, enqueue_ready, dependency_wakeups, retry_wakeups, scan_tasks,
  task_wakeups,
}
use personal_cfo_os.TaskGraph.{
  reevaluate_follow_up_task_graph, reevaluate_from, last_execution, after_dependencies,
  dependency_blocking_reasons, derive_deferred, derive_spawned, evaluate_pre_execution_status,
  follow_status, last_status, ready_ids, reevaluate_task, reevaluate_waiting, unblock, with_reason,
}
use personal_cfo_os.TaskSpec.{
  validate_graph, graph_complaints, task_complaints, validate_generated, validate_task,
  validate_metadata, dependency_complaints, known_ids,
}
use personal_cfo_os.Governance.Rules.{is_blank, among}
use personal_cfo_os.Base.Dict.{delete, insert, values}
use personal_cfo_os.Base.{find, keep, insert_sorted, sort, str_lt}
use personal_cfo_os.Scheduler.{
  list_due_wakeups, mark_wakeup_dispatched, next_retry_time, retry_delay, retry_policy, save_wakeup,
  some_changed, status_changes_require_reevaluation, to_work_item,
}
use personal_cfo_os.Stores.Approvals.{load_by_task}
use personal_cfo_os.Stores.Executions.{list_executions_by_graph}
use personal_cfo_os.Base.{
  ◌+◌, ◌*◌, ◌-◌, ◌^◌, ◌==◌, nat_eq, min, some, none, Has, ◌≡◌, refl, String, List, [], ◌∷◌,
  if◌then◌else◌, arith,
}
use personal_cfo_os.Base.Dict.{lookup}
use personal_cfo_os.Errors.{Result, ok, err}
use personal_cfo_os.WorkQueue.Types.{IdPart, due_window}
use personal_cfo_os.TaskGraph.Tests.{snapshot, resolve, date}
use personal_cfo_os.Scheduler.{grow, SchedulerWakeup, RetryBackoffPolicy}
use personal_cfo_os.Scheduler.Tick.{SchedulerTickResult, tick_result, tick}
use personal_cfo_os.Scheduler.Tick.Due.{IsDue, IsUnknown, tick_settles}
use personal_cfo_os.Scheduler.Retry.{next_retry_time_lem}
use personal_cfo_os.Stores.Types.{TaskExecutionRecord}
use personal_cfo_os.Stores.Tests.{execution}
use personal_cfo_os.Scheduler.Scan.{SchedulerStores, bare_wakeup, needs_dependency_wakeup}

abbrev failed_once : TaskExecutionRecord
failed_once = record execution { retry_count = 3; failed_at = 50 }

abbrev five_at_most : RetryBackoffPolicy
five_at_most = record { base_delay = 5000000000; max_delay = 300000000000 }

next_retry_time_lem_example :
    next_retry_time failed_once five_at_most 60
    ≡ (if failed_once.failed_at == 0 then 60 else failed_once.failed_at)
      + min 300000000000 (5000000000 * 2 ^ (3 - 1))
next_retry_time_lem_example =
    next_retry_time_lem failed_once five_at_most 60 (omega arith) (omega arith) (omega arith)
      (omega arith)

abbrev due : SchedulerWakeup
due = record (bare_wakeup "graph-1") {
  id = "wakeup-1";
  kind = due_window;
  available_at = 5;
  reason = "due";
}

abbrev stores : SchedulerStores
stores = record { wakeups = ("wakeup-1", due) ∷ []; items = []; approvals = []; executions = [] }

abbrev same_id : List IdPart → String
same_id parts = "id-1"

abbrev delays : RetryBackoffPolicy
delays = record { base_delay = 0; max_delay = 0 }

abbrev ran : SchedulerStores × Result SchedulerTickResult
ran = tick same_id delays resolve date (snapshot ∷ []) 10 stores

abbrev reported : SchedulerStores × Result SchedulerTickResult → SchedulerTickResult
reported (s, ok r) = r
reported (s, err e) = tick_result 0 0 [] []

ran-ok : ran ≡ (ran.0, ok (reported ran))
unfolding lookup enqueue blocks tick schedule_graphs schedule_graph reevaluate_follow_up_task_graph
    validate_graph graph_complaints is_blank task_complaints validate_generated validate_task
    validate_metadata among dependency_complaints known_ids finish_scan enqueue_ready
    reevaluate_from last_execution delete insert values find keep insert_sorted sort str_lt
    dependency_wakeups needs_dependency_wakeup retry_wakeups scan_tasks task_wakeups dispatch
    tick_result grow list_due_wakeups mark_wakeup_dispatched next_retry_time retry_delay
    retry_policy save_wakeup some_changed status_changes_require_reevaluation to_work_item
    load_by_task list_executions_by_graph after_dependencies dependency_blocking_reasons
    derive_deferred derive_spawned evaluate_pre_execution_status follow_status last_status ready_ids
    reevaluate_task reevaluate_waiting unblock with_reason
ran-ok = refl

tick_settles_example :
    ((k : String) (w : SchedulerWakeup)
      → lookup k ran.0.wakeups ≡ some w
      → IsDue 10 w
      → IsUnknown w.kind)
    × ((w : SchedulerWakeup)
        → Has w (reported ran).dispatched_wakeups
        → IsDue 10 w × (lookup w.id ran.0.wakeups ≡ none))
unfolding lookup
tick_settles_example =
    tick_settles same_id delays resolve date (snapshot ∷ []) 10 stores ran.0 (reported ran) ran-ok
      (refl, refl, tt)

abbrev scanned : SchedulerStores × Result (List SchedulerWakeup)
scanned = schedule_graph same_id delays resolve date snapshot 10 stores

abbrev saved_by : SchedulerStores × Result (List SchedulerWakeup) → List SchedulerWakeup
saved_by (s, ok ws) = ws
saved_by (s, err e) = []
