-- ===== src/Scheduler/Scan.antt =====
-- `scheduleGraph` of internal/runtime/scheduler.go over the in-memory stores, without the
-- replay log. The snapshot that is reevaluated shares its list of tasks with the result, so the loops
-- that read the old snapshot see the new records, and so does the store that it came from.
pub mod Dependency
use personal_cfo_os.Base.{
  ℕ, ◌-◌, ◌%◌, ◌≡◌, String, Bool, true, false, ◌&&◌, ◌||◌, not, Option, none, some, List, [], ◌∷◌,
  ◌++◌, nat_eq, string_eq, if◌then◌else◌, push,
}
use personal_cfo_os.Errors.{Result, ok, err, RuntimeError}
use personal_cfo_os.Governance.Rules.{no_items}
use personal_cfo_os.WorkQueue.Types.{
  IdPart, text, time, WorkItem, execute_ready_task, queued, no_wakeup, due_window, dependency,
  approval, retry,
}
use personal_cfo_os.WorkQueue.{Items, enqueue}
use personal_cfo_os.Workflow.Types.{RecoveryStrategy, retry as retry_strategy}
use personal_cfo_os.Stores.Types.{
  TaskExecutionRecord, TaskQueueStatus, ApprovalStateRecord, ApprovalStatus, waiting_approval,
  failed, approved,
}
use personal_cfo_os.Stores.Approvals.{Approvals, load_by_task}
use personal_cfo_os.Stores.Executions.{Executions, list_executions_by_graph}
use personal_cfo_os.TaskSpec.{TaskSpec}
use personal_cfo_os.TaskGraph.{
  FollowUpTaskRecord, TaskGraphSnapshot, is_ready, is_deferred, seen_after,
  reevaluate_follow_up_task_graph,
}
use personal_cfo_os.Scheduler.{
  SchedulerWakeup, Wakeups, save_wakeup, RetryBackoffPolicy, retry_policy, next_retry_time,
  status_changes_require_reevaluation,
}

abbrev pub is_waiting : TaskQueueStatus → Bool
is_waiting waiting_approval = true
is_waiting _ = false

abbrev pub is_failed_status : TaskQueueStatus → Bool
is_failed_status failed = true
is_failed_status _ = false

abbrev pub is_approved : ApprovalStatus → Bool
is_approved approved = true
is_approved _ = false

abbrev pub is_retry : Option RecoveryStrategy → Bool
is_retry (some retry_strategy) = true
is_retry _ = false

pub record SchedulerStores : Type 0 where
  pub wakeups : Wakeups
  pub items : Items
  pub approvals : Approvals
  pub executions : Executions

abbrev pub save_all_wakeups : List SchedulerWakeup → SchedulerStores → SchedulerStores
save_all_wakeups [] s = s
save_all_wakeups (w ∷ ws) s = save_all_wakeups ws (record s { wakeups = save_wakeup w s.wakeups })

abbrev pub bare_wakeup : String → SchedulerWakeup
bare_wakeup graph_id = record {
  id = "";
  graph_id = graph_id;
  task_id = "";
  execution_id = "";
  approval_id = "";
  kind = no_wakeup;
  available_at = 0;
  reason = "";
}

-- `now.Truncate(time.Second)`
abbrev pub to_second : ℕ → ℕ
to_second t = t - t % 1000000000

-- The test for a wakeup of dependencies, on the snapshots before and after.
unfoldable pub needs_dependency_wakeup :
    List FollowUpTaskRecord → List FollowUpTaskRecord → List String → Bool
needs_dependency_wakeup before after ready_task_ids =
    status_changes_require_reevaluation before after || not (no_items ready_task_ids)

module _ (make_id : List IdPart → String) where
  abbrev pub due_wakeup : String → String → Option ℕ → List SchedulerWakeup
  due_wakeup graph_id task_id none = []
  due_wakeup graph_id task_id (some t) =
      record (bare_wakeup graph_id) {
        id =
            make_id
              (text "wakeup" ∷ text "due_window" ∷ text graph_id ∷ text task_id ∷ time t ∷ []);
        task_id = task_id;
        kind = due_window;
        available_at = t;
        reason = "due window reached";
      }
      ∷ []

  abbrev pub approval_wakeup :
      String → String → ℕ → Option ApprovalStateRecord → List SchedulerWakeup
  approval_wakeup graph_id task_id now none = []
  approval_wakeup graph_id task_id now (some a) =
      if is_approved a.status
      then record (bare_wakeup graph_id) {
        id = make_id (text "wakeup" ∷ text "approval_resume" ∷ text a.approval_id ∷ []);
        task_id = task_id;
        approval_id = a.approval_id;
        kind = approval;
        available_at = now;
        reason = "approval resolved to approved";
      }
        ∷ []
      else []

  -- The wakeups of the first loop, none or one to a task.
  unfoldable pub task_wakeups :
      String → ℕ → Approvals → List FollowUpTaskRecord → List SchedulerWakeup
  task_wakeups graph_id now approvals [] = []
  task_wakeups graph_id now approvals (r ∷ rs) =
      let rest = task_wakeups graph_id now approvals rs in
      if is_deferred r.status
      then due_wakeup graph_id r.task.id r.metadata.due_window.not_before ++ rest
      else if is_waiting r.status
      then approval_wakeup graph_id r.task.id now (load_by_task graph_id r.task.id approvals)
        ++ rest
      else rest

  abbrev pub ready_item : String → String → ℕ → WorkItem
  ready_item graph_id workflow_id now = record {
    id = make_id (text "work" ∷ text "execute_ready_task" ∷ text graph_id ∷ []);
    kind = execute_ready_task;
    status = queued;
    dedupe_key = push "execute:" graph_id;
    graph_id = graph_id;
    task_id = "";
    execution_id = "";
    approval_id = "";
    checkpoint_id = "";
    workflow_id = workflow_id;
    available_at = now;
    claimed_at = none;
    completed_at = none;
    failed_at = none;
    last_updated_at = now;
    reason = "ready task detected during scheduler scan";
    wakeup_kind = no_wakeup;
    retry_not_before = none;
    attempt_count = 0;
    lease_id = "";
    fencing_token = 0;
    claim_token = "";
    claimed_by_worker_id = "";
    lease_expires_at = none;
  }

  -- One submission to a ready task; the first error ends the loop.
  unfoldable pub enqueue_ready :
      WorkItem → List FollowUpTaskRecord → SchedulerStores → SchedulerStores × Option RuntimeError
  enqueue_ready item [] s = (s, none)
  enqueue_ready item (r ∷ rs) s =
      if is_ready r.status
      then elim (enqueue item s.items) [
        | ok (items, result) ↦ enqueue_ready item rs (record s { items = items })
        | err e ↦ (s, some e)
      ]
      else enqueue_ready item rs s

  unfoldable pub dependency_wakeups : String → ℕ → Bool → List SchedulerWakeup
  dependency_wakeups graph_id now needed =
      if needed
      then record (bare_wakeup graph_id) {
        id = make_id (
            text "wakeup"
            ∷ text "dependency_reevaluation"
            ∷ text graph_id
            ∷ time (to_second now)
            ∷ []);
        kind = dependency;
        available_at = now;
        reason = "graph status changed under reevaluation";
      }
        ∷ []
      else []

  unfoldable pub retry_wakeups :
      String → RetryBackoffPolicy → ℕ → List TaskExecutionRecord → List SchedulerWakeup
  retry_wakeups graph_id policy now [] = []
  retry_wakeups graph_id policy now (x ∷ xs) =
      let rest = retry_wakeups graph_id policy now xs in
      let next = next_retry_time x (retry_policy policy) now in
      if is_failed_status x.status && is_retry x.last_recovery_strategy
      then record (bare_wakeup graph_id) {
        id = make_id (text "wakeup" ∷ text "retry_backoff" ∷ text x.execution_id ∷ time next ∷ []);
        task_id = x.task_id;
        execution_id = x.execution_id;
        kind = retry;
        available_at = next;
        reason = "retry backoff reached";
      }
        ∷ rest
      else rest

  -- The state that a scan works on: the stores, and the policy of retries.
  module _ (policy : RetryBackoffPolicy) where
    -- The last two steps of a scan, once the ready tasks are queued.
    unfoldable pub finish_scan :
        String
        → ℕ
        → Bool
        → List SchedulerWakeup
        → SchedulerStores × Option RuntimeError
        → SchedulerStores × Result (List SchedulerWakeup)
    finish_scan graph_id now needed saved (s, some e) = (s, err e)
    finish_scan graph_id now needed saved (s, none) =
        let later =
          dependency_wakeups graph_id now needed
          ++ retry_wakeups graph_id policy now (list_executions_by_graph graph_id s.executions) in
        (save_all_wakeups later s, ok (saved ++ later))

    -- A scan of the tasks of the given snapshot and of the reevaluated one.
    unfoldable pub scan_tasks :
        String
        → String
        → ℕ
        → List FollowUpTaskRecord
        → List FollowUpTaskRecord
        → List String
        → SchedulerStores
        → SchedulerStores × Result (List SchedulerWakeup)
    scan_tasks graph_id workflow_id now before records ready_task_ids s =
        let saved = task_wakeups graph_id now s.approvals before in
        finish_scan graph_id now (needs_dependency_wakeup before records ready_task_ids) saved
          (enqueue_ready (ready_item graph_id workflow_id now) records (save_all_wakeups saved s))

    module _ (resolve : TaskSpec → String × Bool × String) (rfc3339 : ℕ → String) where
      unfoldable pub schedule_graph :
          {S : Type 0}
          → TaskGraphSnapshot S
          → ℕ
          → SchedulerStores
          → SchedulerStores × Result (List SchedulerWakeup)
      unfolding scan_tasks
      schedule_graph snapshot now s =
          elim (reevaluate_follow_up_task_graph resolve rfc3339 now snapshot) [
            | err e ↦ (s, err e)
            | ok (updated, activation) ↦
                scan_tasks snapshot.graph.graph_id snapshot.graph.parent_workflow_id now
                  (seen_after snapshot updated).registered_tasks updated.registered_tasks
                  activation.ready_task_ids s
          ]
