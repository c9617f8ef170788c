-- ===== src/WorkQueue/Types.antt =====
-- internal/runtime/async_types.go: work items, claims, fences and what the queue's operations return.
-- Times count nanoseconds from Go's zero time; `int`, `int64` and durations are 64-bit patterns.
use personal_cfo_os.Base.{ℕ, String, Bool, true, false, Option}

abbrev pub Time : Type 0
Time = ℕ

pub data WorkItemKind : Type 0 where
  reevaluate_task_graph execute_ready_task resume_approved_checkpoint : WorkItemKind
  retry_failed_execution scheduler_wakeup : WorkItemKind

-- `unset` is the empty string, the zero value of the type.
pub data WorkItemStatus : Type 0 where
  unset queued claimed completed failed abandoned : WorkItemStatus

abbrev pub is_unset : WorkItemStatus → Bool
is_unset unset = true
is_unset _ = false

abbrev pub is_queued : WorkItemStatus → Bool
is_queued queued = true
is_queued _ = false

abbrev pub is_claimed : WorkItemStatus → Bool
is_claimed claimed = true
is_claimed _ = false

abbrev pub is_completed : WorkItemStatus → Bool
is_completed completed = true
is_completed _ = false

abbrev pub is_failed : WorkItemStatus → Bool
is_failed failed = true
is_failed _ = false

abbrev pub is_abandoned : WorkItemStatus → Bool
is_abandoned abandoned = true
is_abandoned _ = false

-- `no_wakeup` is the empty text, `other_wakeup` holds one that is none of the constants.
pub data SchedulerWakeupKind : Type 0 where
  no_wakeup due_window dependency capability approval retry operator : SchedulerWakeupKind
  other_wakeup : String → SchedulerWakeupKind

pub record WorkItem : Type 0 where
  pub id : String
  pub kind : WorkItemKind
  pub status : WorkItemStatus
  pub dedupe_key : String
  pub graph_id : String
  pub task_id : String
  pub execution_id : String
  pub approval_id : String
  pub checkpoint_id : String
  pub workflow_id : String
  pub available_at : Time
  pub claimed_at : Option Time
  pub completed_at : Option Time
  pub failed_at : Option Time
  pub last_updated_at : Time
  pub reason : String
  pub wakeup_kind : SchedulerWakeupKind
  pub retry_not_before : Option Time
  pub attempt_count : ℕ
  pub lease_id : String
  pub fencing_token : ℕ
  pub claim_token : String
  pub claimed_by_worker_id : String
  pub lease_expires_at : Option Time

pub record WorkClaim : Type 0 where
  pub work_item : WorkItem
  pub worker_id : String
  pub lease_id : String
  pub claim_token : String
  pub fencing_token : ℕ
  pub claimed_at : Time
  pub lease_expires_at : Time

pub record FenceValidation : Type 0 where
  pub work_item_id : String
  pub lease_id : String
  pub fencing_token : ℕ
  pub worker_id : String

pub record LeaseHeartbeat : Type 0 where
  pub work_item_id : String
  pub worker_id : String
  pub lease_id : String
  pub fencing_token : ℕ
  pub recorded_at : Time
  pub lease_expires_at : Time

pub data WorkEnqueueDisposition : Type 0 where
  enqueued duplicate_suppressed : WorkEnqueueDisposition

pub record WorkEnqueueResult : Type 0 where
  pub work_item_id : String
  pub kind : WorkItemKind
  pub disposition : WorkEnqueueDisposition
  pub dedupe_key : String
  pub existing_work_item_id : String

pub record LeaseReclaimResult : Type 0 where
  pub work_item_id : String
  pub lease_id : String
  pub worker_id : String
  pub fencing_token : ℕ
  pub reason : String
  pub reclaimed_at : Time

-- The arguments of `makeID`, which hashes their printed forms.
pub data IdPart : Type 0 where
  text : String → IdPart
  int : ℕ → IdPart
  time : Time → IdPart
