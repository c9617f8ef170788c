-- ===== src/Worker/Registry.antt =====
-- InMemoryWorkAttemptStore and InMemoryWorkerRegistryStore of internal/runtime/work_queue_store.go.
use personal_cfo_os.Base.{
  ℕ, String, Bool, true, false, Option, none, some, List, keep, sort, ltb, str_lt, ◌==◌, string_eq,
  if◌then◌else◌, is_empty,
}
use personal_cfo_os.Base.Dict.{Dict, lookup, insert, values}
use personal_cfo_os.Errors.{Result, ok, err, not_found, failure}
use personal_cfo_os.WorkQueue.Types.{WorkItemKind}
use personal_cfo_os.Workflow.Types.{FailureCategory}

pub data ExecutionAttemptStatus : Type 0 where
  started succeeded attempt_failed abandoned reclaimed : ExecutionAttemptStatus

pub record ExecutionAttempt : Type 0 where
  pub attempt_id : String
  pub work_item_id : String
  pub work_item_kind : WorkItemKind
  pub graph_id : String
  pub task_id : String
  pub execution_id : String
  pub approval_id : String
  pub worker_id : String
  pub lease_id : String
  pub fencing_token : ℕ
  pub status : ExecutionAttemptStatus
  pub failure_category : Option FailureCategory
  pub failure_summary : String
  pub started_at : ℕ
  pub finished_at : Option ℕ
  pub checkpoint_id : String
  pub produced_artifact_ids : List String

abbrev pub Attempts : Type 0
Attempts = Dict ExecutionAttempt

unfoldable pub save_attempt : ExecutionAttempt → Attempts → Attempts
save_attempt a attempts = insert a.attempt_id a attempts

unfoldable pub update_attempt : ExecutionAttempt → Attempts → Result Attempts
update_attempt a attempts = elim (lookup a.attempt_id attempts) [
  | none ↦ err (not_found "execution_attempt" a.attempt_id)
  | some old ↦ ok (insert a.attempt_id a attempts)
]

abbrev pub attempt_before : ExecutionAttempt → ExecutionAttempt → Bool
attempt_before a b =
    if ltb a.started_at b.started_at
    then true
    else if ltb b.started_at a.started_at
    then false
    else str_lt a.attempt_id b.attempt_id

pub list_attempts : String → Attempts → List ExecutionAttempt
list_attempts work_item_id attempts =
    sort attempt_before (keep (λ a. a.work_item_id == work_item_id) (values attempts))

pub data WorkerRole : Type 0 where
  worker scheduler all_roles : WorkerRole
  other_role : String → WorkerRole

pub record WorkerRegistration : Type 0 where
  pub worker_id : String
  pub role : WorkerRole
  pub backend_profile : String
  pub started_at : ℕ
  pub last_heartbeat : ℕ

abbrev pub Workers : Type 0
Workers = Dict WorkerRegistration

pub register : WorkerRegistration → Workers → Result Workers
register w workers =
    if is_empty w.worker_id
    then err (failure "worker id is required")
    else ok (insert w.worker_id w workers)

pub worker_heartbeat : String → ℕ → Workers → Result Workers
worker_heartbeat worker_id now workers = elim (lookup worker_id workers) [
  | none ↦ err (not_found "worker" worker_id)
  | some w ↦ ok (insert worker_id (record w { last_heartbeat = now }) workers)
]

abbrev pub load_worker : String → Workers → Option WorkerRegistration
load_worker = lookup

pub list_workers : Workers → List WorkerRegistration
list_workers workers = sort (λ a b. str_lt a.worker_id b.worker_id) (values workers)
