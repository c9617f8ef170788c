-- ===== src/Scheduler.antt =====
-- internal/runtime/scheduler.go: wakeups, the work they make, retry times, and what a scan of a graph
-- schedules. Times count nanoseconds since the zero time, durations and counts are int64 by their bit
-- patterns; `make_id` makes identifiers of their parts, `rfc3339` texts of times.
pub mod Retry
pub mod Changes
pub mod Scan
pub mod Tick
mod Tests
use personal_cfo_os.Base.{
  ℕ, zero, suc, length, ◌+◌, ◌*◌, ◌-◌, String, Bool, true, false, ◌&&◌, ◌||◌, not, Option, none,
  some, List, [], ◌∷◌, ltb, leb, ◌==◌, nat_eq, string_eq, if◌then◌else◌, is_pos, signed_lt,
  int_double, add_duration, push, keep, sort, str_lt, is_empty,
}
use personal_cfo_os.Base.Dict.{Dict, lookup, insert, delete, values}
use personal_cfo_os.WorkQueue.Types.{
  IdPart, text, time, WorkItem, reevaluate_task_graph, resume_approved_checkpoint,
  retry_failed_execution, execute_ready_task, queued, SchedulerWakeupKind, no_wakeup, other_wakeup,
  due_window, dependency, capability, approval, retry, operator,
}
use personal_cfo_os.Stores.Types.{
  TaskExecutionRecord, TaskQueueStatus, ready, dependency_blocked, deferred, waiting_approval,
  queued_pending_capability, executing, completed, failed, other_queue_status,
}
use personal_cfo_os.TaskGraph.{FollowUpTaskRecord, last_status}

pub record SchedulerWakeup : Type 0 where
  pub id : String
  pub graph_id : String
  pub task_id : String
  pub execution_id : String
  pub approval_id : String
  pub kind : SchedulerWakeupKind
  pub available_at : ℕ
  pub reason : String

abbrev pub Wakeups : Type 0
Wakeups = Dict SchedulerWakeup

unfoldable pub save_wakeup : SchedulerWakeup → Wakeups → Wakeups
save_wakeup w wakeups = insert w.id w wakeups

abbrev pub due_before : SchedulerWakeup → SchedulerWakeup → Bool
due_before a b =
    if ltb a.available_at b.available_at
    then true
    else if ltb b.available_at a.available_at
    then false
    else str_lt a.id b.id

unfoldable pub list_due_wakeups : ℕ → Wakeups → List SchedulerWakeup
list_due_wakeups now wakeups =
    sort due_before (keep (λ w. not (ltb now w.available_at)) (values wakeups))

unfoldable pub mark_wakeup_dispatched : String → Wakeups → Wakeups
mark_wakeup_dispatched id wakeups = delete id wakeups

-- A queued item with the fields that every branch of `toWorkItem` leaves empty.
abbrev pub queued_item : SchedulerWakeup → WorkItem
queued_item w = record {
  id = "";
  kind = reevaluate_task_graph;
  status = queued;
  dedupe_key = "";
  graph_id = w.graph_id;
  task_id = "";
  execution_id = "";
  approval_id = "";
  checkpoint_id = "";
  workflow_id = "";
  available_at = w.available_at;
  claimed_at = none;
  completed_at = none;
  failed_at = none;
  last_updated_at = w.available_at;
  reason = w.reason;
  wakeup_kind = w.kind;
  retry_not_before = none;
  attempt_count = 0;
  lease_id = "";
  fencing_token = 0;
  claim_token = "";
  claimed_by_worker_id = "";
  lease_expires_at = none;
}

abbrev pub kind_text : SchedulerWakeupKind → String
kind_text no_wakeup = ""
kind_text due_window = "due_window"
kind_text dependency = "dependency_reevaluation"
kind_text capability = "capability_reevaluation"
kind_text approval = "approval_resume"
kind_text retry = "retry_backoff"
kind_text operator = "operator_reevaluate"
kind_text (other_wakeup t) = t

module _ (make_id : List IdPart → String) where
  abbrev pub reevaluation : SchedulerWakeup → WorkItem
  reevaluation w = record (queued_item w) {
    id = make_id (
        text "work"
        ∷ text "reevaluate_task_graph"
        ∷ text w.graph_id
        ∷ text (kind_text w.kind)
        ∷ time w.available_at
        ∷ []);
    kind = reevaluate_task_graph;
    dedupe_key = push "reevaluate:" w.graph_id;
  }

  abbrev pub resumption : SchedulerWakeup → WorkItem
  resumption w = record (queued_item w) {
    id = make_id (text "work" ∷ text "resume_approved_checkpoint" ∷ text w.approval_id ∷ []);
    kind = resume_approved_checkpoint;
    dedupe_key = push "resume:" (push w.graph_id (push ":" w.task_id));
    task_id = w.task_id;
    approval_id = w.approval_id;
  }

  abbrev pub retrial : SchedulerWakeup → WorkItem
  retrial w = record (queued_item w) {
    id = make_id (
        text "work"
        ∷ text "retry_failed_execution"
        ∷ text w.execution_id
        ∷ time w.available_at
        ∷ []);
    kind = retry_failed_execution;
    dedupe_key = push "retry:" w.execution_id;
    task_id = w.task_id;
    execution_id = w.execution_id;
  }

  abbrev pub item_of_kind : SchedulerWakeupKind → SchedulerWakeup → Option WorkItem
  item_of_kind no_wakeup w = none
  item_of_kind (other_wakeup t) w = none
  item_of_kind due_window w = some (reevaluation w)
  item_of_kind dependency w = some (reevaluation w)
  item_of_kind capability w = some (reevaluation w)
  item_of_kind operator w = some (reevaluation w)
  item_of_kind approval w = some (resumption w)
  item_of_kind retry w = some (retrial w)

  unfoldable pub to_work_item : SchedulerWakeup → Option WorkItem
  to_work_item w = item_of_kind w.kind w

pub record RetryBackoffPolicy : Type 0 where
  pub base_delay : ℕ
  pub max_delay : ℕ

-- 5 seconds and 5 minutes in nanoseconds.
abbrev pub five_seconds : ℕ
five_seconds = 5000000000

abbrev pub five_minutes : ℕ
five_minutes = 300000000000

unfoldable pub retry_policy : RetryBackoffPolicy → RetryBackoffPolicy
retry_policy p = record {
  base_delay = if is_pos p.base_delay then p.base_delay else five_seconds;
  max_delay = if is_pos p.max_delay then p.max_delay else five_minutes;
}

-- `n` rounds of the loop.
unfoldable pub grow : ℕ → ℕ → ℕ → ℕ
grow zero max_delay delay = delay
grow (suc n) max_delay delay =
    let rest = grow n max_delay (int_double delay) in
    if is_pos max_delay && signed_lt max_delay (int_double delay) then max_delay else rest

-- `max(record.RetryCount, 1) - 1`
abbrev pub rounds : ℕ → ℕ
rounds retry_count = if signed_lt 1 retry_count then retry_count - 1 else 0

unfoldable pub retry_delay : TaskExecutionRecord → RetryBackoffPolicy → ℕ
retry_delay r p =
    grow (rounds r.retry_count) p.max_delay
      (if is_pos p.base_delay then p.base_delay else five_seconds)

unfoldable pub next_retry_time : TaskExecutionRecord → RetryBackoffPolicy → ℕ → ℕ
next_retry_time r p now =
    add_duration (if r.failed_at == 0 then now else r.failed_at) (retry_delay r p)

abbrev pub same_status : TaskQueueStatus → TaskQueueStatus → Bool
same_status ready ready = true
same_status dependency_blocked dependency_blocked = true
same_status deferred deferred = true
same_status waiting_approval waiting_approval = true
same_status queued_pending_capability queued_pending_capability = true
same_status executing executing = true
same_status completed completed = true
same_status failed failed = true
same_status (other_queue_status a) (other_queue_status b) = a == b
same_status _ _ = false

abbrev pub changed_from : Option TaskQueueStatus → TaskQueueStatus → Bool
changed_from none status = true
changed_from (some previous) status = not (same_status previous status)

-- The comparison of a record with the status that the map `byID` holds for it.
unfoldable pub some_changed : List FollowUpTaskRecord → List FollowUpTaskRecord → Bool
some_changed before [] = false
some_changed before (r ∷ rs) =
    let rest = some_changed before rs in
    if changed_from (last_status r.task.id before) r.status then true else rest

unfoldable pub status_changes_require_reevaluation :
    List FollowUpTaskRecord → List FollowUpTaskRecord → Bool
status_changes_require_reevaluation before after =
    if not (length before == length after) then true else some_changed before after
