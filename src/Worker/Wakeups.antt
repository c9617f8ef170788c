-- ===== src/Worker/Wakeups.antt =====
-- handleSchedulerWakeup of internal/runtime/async_service.go. `clock` gives the time at each place that reads
-- it.
use personal_cfo_os.Base.{ℕ, String, Option, none, some, List, [], ◌∷◌, push}
use personal_cfo_os.Errors.{ok, err, failure}
use personal_cfo_os.WorkQueue.Types.{
  IdPart, text, WorkItem, reevaluate_task_graph, resume_approved_checkpoint, retry_failed_execution,
  queued, SchedulerWakeupKind, no_wakeup, other_wakeup, due_window, dependency, capability,
  approval, retry, operator,
}
use personal_cfo_os.WorkQueue.{enqueue}
use personal_cfo_os.Scheduler.{kind_text}
use personal_cfo_os.Service.Types.{Backend}
use personal_cfo_os.Service.Effects.{Step}

module _ (make_id : List IdPart → String) (clock : ℕ → ℕ) where
  -- A queued item with the fields that every branch sets alike, and the others empty.
  abbrev pub follow_up_item : WorkItem → WorkItem
  follow_up_item item = record {
    id = "";
    kind = reevaluate_task_graph;
    status = queued;
    dedupe_key = "";
    graph_id = item.graph_id;
    task_id = "";
    execution_id = "";
    approval_id = "";
    checkpoint_id = "";
    workflow_id = "";
    available_at = clock 0;
    claimed_at = none;
    completed_at = none;
    failed_at = none;
    last_updated_at = clock 1;
    reason = item.reason;
    wakeup_kind = item.wakeup_kind;
    retry_not_before = none;
    attempt_count = 0;
    lease_id = "";
    fencing_token = 0;
    claim_token = "";
    claimed_by_worker_id = "";
    lease_expires_at = none;
  }

  abbrev pub reevaluate_item : WorkItem → WorkItem
  reevaluate_item item = record (follow_up_item item) {
    id = make_id (
        text "work"
        ∷ text "reevaluate_task_graph"
        ∷ text item.graph_id
        ∷ text (kind_text item.wakeup_kind)
        ∷ []);
    kind = reevaluate_task_graph;
    dedupe_key = push "reevaluate:" item.graph_id;
    workflow_id = item.workflow_id;
  }

  abbrev pub resume_item : WorkItem → WorkItem
  resume_item item = record (follow_up_item item) {
    id = make_id (text "work" ∷ text "resume_approved_checkpoint" ∷ text item.approval_id ∷ []);
    kind = resume_approved_checkpoint;
    dedupe_key = push "resume:" (push item.graph_id (push ":" item.task_id));
    task_id = item.task_id;
    approval_id = item.approval_id;
  }

  abbrev pub retry_item : WorkItem → WorkItem
  retry_item item = record (follow_up_item item) {
    id = make_id (text "work" ∷ text "retry_failed_execution" ∷ text item.execution_id ∷ []);
    kind = retry_failed_execution;
    dedupe_key = push "retry:" item.execution_id;
    task_id = item.task_id;
    execution_id = item.execution_id;
  }

  -- The item that a wakeup of the given kind is followed by.
  abbrev pub follow_up_of_kind : SchedulerWakeupKind → WorkItem → Option WorkItem
  follow_up_of_kind no_wakeup item = none
  follow_up_of_kind (other_wakeup t) item = none
  follow_up_of_kind due_window item = some (reevaluate_item item)
  follow_up_of_kind dependency item = some (reevaluate_item item)
  follow_up_of_kind capability item = some (reevaluate_item item)
  follow_up_of_kind operator item = some (reevaluate_item item)
  follow_up_of_kind approval item = some (resume_item item)
  follow_up_of_kind retry item = some (retry_item item)

  module _ {B P : Type 0} where
    abbrev pub enqueued : WorkItem → Step (Backend B P) (Unit {0})
    enqueued item s = elim (enqueue item s.items) [
      | err e ↦ (s, err e)
      | ok (items, answer) ↦ (record s { items = items }, ok tt)
    ]

    unfoldable pub handle_scheduler_wakeup : WorkItem → Step (Backend B P) (Unit {0})
    handle_scheduler_wakeup item s = elim (follow_up_of_kind item.wakeup_kind item) [
      | none ↦ (s, err (failure "unsupported scheduler wakeup kind %q"))
      | some next ↦ enqueued next s
    ]
