-- ===== src/Worker/Reclaim.antt =====
-- handleLeaseReclaim of internal/runtime/async_service.go, which follows up on a lease that ran out. `clock`
-- gives the time at each place that reads it.
use personal_cfo_os.Base.{
  ℕ, ◌-◌, String, Bool, true, false, none, some, List, [], ◌∷◌, ltb, leb, nat_eq, if◌then◌else◌,
  is_empty, add_duration, two_63, two_64,
}
use personal_cfo_os.Errors.{Result, ok, err}
use personal_cfo_os.WorkQueue.Types.{
  IdPart, text, time, WorkItem, WorkItemKind, LeaseReclaimResult, execute_ready_task,
  retry_failed_execution, retry,
}
use personal_cfo_os.WorkQueue.{Items, load}
use personal_cfo_os.Workflow.Types.{timeout}
use personal_cfo_os.Stores.Types.{TaskExecutionRecord, executing, failed}
use personal_cfo_os.Stores.Executions.{
  Executions, execution_record, load_execution, update_execution,
}
use personal_cfo_os.Scheduler.{
  SchedulerWakeup, Wakeups, save_wakeup, kind_text, RetryBackoffPolicy, next_retry_time,
  same_status,
}
use personal_cfo_os.Worker.Work.{retried_record}
use personal_cfo_os.Service.Types.{no_result}

abbrev pub is_execution_kind : WorkItemKind → Bool
is_execution_kind execute_ready_task = true
is_execution_kind retry_failed_execution = true
is_execution_kind _ = false

-- `t.Sub(u)`, a duration by its bit pattern: what does not fit is the greatest or the least one.
abbrev pub time_sub : ℕ → ℕ → ℕ
time_sub t u =
    if leb u t
    then if ltb (t - u) two_63 then t - u else two_63 - 1
    else if leb (u - t) two_63
    then two_64 - (u - t)
    else two_63

-- 2 seconds and a minute in nanoseconds.
abbrev pub reclaim_backoff : RetryBackoffPolicy
reclaim_backoff = record { base_delay = 2000000000; max_delay = 60000000000 }

module _ (make_id : List IdPart → String) (clock : ℕ → ℕ) where
  abbrev pub timed_out : TaskExecutionRecord → TaskExecutionRecord
  timed_out r = record r {
    status = failed;
    failure_category = some timeout;
    failure_summary = "lease reclaimed after worker heartbeat expired";
    failed_at = clock 0;
    last_transition_at = clock 1;
  }

  unfoldable pub fail_executing : String → Executions → Result Executions
  fail_executing id executions =
      if is_empty id then ok executions else elim (load_execution id executions) [
        | none ↦ ok executions
        | some r ↦
            if same_status r.status executing
            then update_execution (timed_out r) r.version executions
            else ok executions
      ]

  abbrev pub reclaim_wakeup : LeaseReclaimResult → WorkItem → SchedulerWakeup
  reclaim_wakeup reclaim item = record {
    id = make_id (
        text "wakeup"
        ∷ text (kind_text retry)
        ∷ text item.graph_id
        ∷ text item.task_id
        ∷ time (clock 2)
        ∷ []);
    graph_id = item.graph_id;
    task_id = item.task_id;
    execution_id = item.execution_id;
    approval_id = "";
    kind = retry;
    available_at = add_duration (clock 3) (
        time_sub
          (next_retry_time
            (record (retried_record no_result) { retry_count = 1; failed_at = clock 4 })
            reclaim_backoff (clock 5))
          (clock 6));
    reason = reclaim.reason;
  }

  abbrev pub with_wakeup :
      LeaseReclaimResult → WorkItem → Wakeups → Result Executions → Result (Executions × Wakeups)
  with_wakeup reclaim item wakeups (err e) = err e
  with_wakeup reclaim item wakeups (ok executions) = ok (
    executions,
    if is_empty item.graph_id then wakeups else save_wakeup (reclaim_wakeup reclaim item) wakeups,
  )

  unfoldable pub handle_lease_reclaim :
      LeaseReclaimResult → Items → Executions → Wakeups → Result (Executions × Wakeups)
  handle_lease_reclaim reclaim items executions wakeups = elim (load reclaim.work_item_id items) [
    | none ↦ ok (executions, wakeups)
    | some item ↦
        if is_execution_kind item.kind
        then with_wakeup reclaim item wakeups (fail_executing item.execution_id executions)
        else ok (executions, wakeups)
  ]
