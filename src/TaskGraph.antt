-- ===== src/TaskGraph.antt =====
-- internal/runtime/task_graph.go: follow-up tasks, their states before execution, and the graph store.
-- `S` stands for the financial state's snapshots, which are passed on unread; `resolve` for the
-- resolver of capabilities, an interface; `rfc3339` for the text of a time. Go's loop writes each
-- record into the slice it reads from, so the records before the current one are the new ones.
pub mod Registration
pub mod Readiness
pub mod Keeps
pub mod Reevaluation
pub mod Store
pub mod Activation
pub mod Order
pub mod Tests
use personal_cfo_os.Base.{
  ℕ, suc, ◌≡◌, String, Bool, true, false, ◌&&◌, ◌||◌, not, Option, none, some, List, [], ◌∷◌, ◌++◌,
  ltb, ◌==◌, nat_eq, string_eq, if◌then◌else◌, push, find, keep,
}
use personal_cfo_os.Base.Dict.{Dict, lookup, insert, values}
use personal_cfo_os.Errors.{
  Result, ok, err, RuntimeError, conflict, not_found, failure, unless, or_fail, ◌>>=◌,
}
use personal_cfo_os.Governance.Rules.{is_blank, no_items}
use personal_cfo_os.Stores.Types.{
  TaskQueueStatus, ready, dependency_blocked, deferred, waiting_approval, queued_pending_capability,
  executing, completed, failed, other_queue_status, TaskExecutionRecord,
}
use personal_cfo_os.TaskSpec.{
  TaskSpec, GeneratedTaskMetadata, GeneratedTaskSpec, TaskDependency, TaskGraph, validate_task,
  validate_graph,
}

pub record FollowUpTaskRecord : Type 0 where
  pub task : TaskSpec
  pub metadata : GeneratedTaskMetadata
  pub version : ℕ
  pub status : TaskQueueStatus
  pub required_capability : String
  pub missing_capability_reason : String
  pub dependencies : List TaskDependency
  pub blocking_reasons : List String
  pub suppressed_reasons : List String
  pub registered_at : ℕ
  pub registration_order : ℕ
  pub last_updated_at : ℕ

pub record SpawnedTaskRecord : Type 0 where
  pub task_id : String
  pub status : TaskQueueStatus
  pub required_capability : String
  pub missing_capability_reason : String
  pub registered_at : ℕ

pub record DeferredTaskRecord : Type 0 where
  pub task_id : String
  pub status : TaskQueueStatus
  pub not_before : Option ℕ
  pub not_after : Option ℕ
  pub reason : String
  pub deferred_at : ℕ

pub record TaskGraphSnapshot (S : Type 0) : Type 0 where
  pub graph : TaskGraph
  pub version : ℕ
  pub registered_tasks : List FollowUpTaskRecord
  pub spawned : List SpawnedTaskRecord
  pub deferred_tasks : List DeferredTaskRecord
  pub base_state_snapshot : S
  pub base_state_snapshot_ref : String
  pub latest_committed_state_snapshot : S
  pub latest_committed_state_ref : String
  pub executed_tasks : List TaskExecutionRecord
  pub registered_at : ℕ

abbrev pub is_ready : TaskQueueStatus → Bool
is_ready ready = true
is_ready _ = false

abbrev pub is_completed : TaskQueueStatus → Bool
is_completed completed = true
is_completed _ = false

abbrev pub is_deferred : TaskQueueStatus → Bool
is_deferred deferred = true
is_deferred _ = false

abbrev pub is_queued : TaskQueueStatus → Bool
is_queued queued_pending_capability = true
is_queued _ = false

abbrev pub is_dependency_blocked : TaskQueueStatus → Bool
is_dependency_blocked dependency_blocked = true
is_dependency_blocked _ = false

-- `t != nil && t.After(now)`
abbrev pub not_open : Option ℕ → ℕ → Bool
not_open none now = false
not_open (some t) now = ltb now t

-- The value that the last entry with a key leaves in a map filled in list order.
unfoldable pub last_status : String → List FollowUpTaskRecord → Option TaskQueueStatus
last_status task_id [] = none
last_status task_id (r ∷ rs) = elim (last_status task_id rs) [
  | some status ↦ some status
  | none ↦ if r.task.id == task_id then some r.status else none
]

unfoldable pub last_execution : String → List TaskExecutionRecord → Option TaskExecutionRecord
last_execution task_id [] = none
last_execution task_id (x ∷ xs) = elim (last_execution task_id xs) [
  | some later ↦ some later
  | none ↦ if x.task_id == task_id then some x else none
]

abbrev pub done_status : Option TaskQueueStatus → Bool
done_status none = false
done_status (some status) = is_completed status

-- The upstream task is registered as completed.
abbrev pub upstream_done : List FollowUpTaskRecord → TaskDependency → Bool
upstream_done records dep = done_status (last_status dep.upstream_task_id records)

unfoldable pub dependency_blocking_reasons :
    List TaskDependency → List FollowUpTaskRecord → String → List String
dependency_blocking_reasons [] records task_id = []
dependency_blocking_reasons (dep ∷ deps) records task_id =
    let rest = dependency_blocking_reasons deps records task_id in
    if dep.downstream_task_id == task_id
    then if upstream_done records dep
      then rest
      else push "blocked by upstream task " dep.upstream_task_id ∷ rest
    else rest

-- `downstreamDependencies(deps)[taskID]`
unfoldable pub downstream_dependencies : List TaskDependency → String → List TaskDependency
downstream_dependencies deps task_id = keep (λ dep. dep.downstream_task_id == task_id) deps

abbrev pub no_capability : String
no_capability = "required capability is not available in the current runtime"

-- The reason is filled in for a task that waits for a capability without one.
unfoldable pub with_reason : FollowUpTaskRecord → FollowUpTaskRecord
with_reason r =
    if is_queued r.status && is_blank r.missing_capability_reason
    then record r { missing_capability_reason = no_capability }
    else r

-- The record's status and reasons, written together.
abbrev pub settled : FollowUpTaskRecord → TaskQueueStatus × List String → FollowUpTaskRecord
settled r (status, reasons) = record r { status = status; blocking_reasons = reasons }

-- A task that was executed takes the status of its execution.
unfoldable pub follow_status :
    TaskQueueStatus → TaskExecutionRecord → FollowUpTaskRecord → FollowUpTaskRecord
follow_status completed x r = record r { status = completed }
follow_status failed x r = record r { status = failed }
follow_status executing x r = record r { status = executing }
follow_status waiting_approval x r = record r {
  status = waiting_approval;
  blocking_reasons = r.blocking_reasons ++ (push "waiting for approval " x.approval_id ∷ []);
}
follow_status _ x r = r

module _ (resolve : TaskSpec → String × Bool × String) (rfc3339 : ℕ → String) (now : ℕ) where
  abbrev pub due_reason : Option ℕ → List String
  due_reason none = []
  due_reason (some t) = push "due window not open until " (rfc3339 t) ∷ []

  unfoldable pub evaluate_pre_execution_status :
      FollowUpTaskRecord → Bool → TaskQueueStatus × List String
  evaluate_pre_execution_status r available =
      if r.metadata.requires_approval
      then (waiting_approval, "approval required before task execution" ∷ [])
      else if not_open r.metadata.due_window.not_before now
      then (deferred, due_reason r.metadata.due_window.not_before)
      else if not (no_items r.dependencies)
      then (dependency_blocked, [])
      else if not available
      then (queued_pending_capability, r.missing_capability_reason ∷ [])
      else (ready, [])

  -- A task that its dependencies held up, by what still blocks it.
  unfoldable pub unblock : FollowUpTaskRecord → Bool → List String → FollowUpTaskRecord
  unblock r available [] =
      if not available
      then settled r (
        queued_pending_capability,
        if is_blank r.missing_capability_reason then [] else r.missing_capability_reason ∷ [],
      )
      else settled r (ready, [])
  unblock r available (reason ∷ reasons) = settled r (dependency_blocked, reason ∷ reasons)

  unfoldable pub after_dependencies : FollowUpTaskRecord → Bool → List String → FollowUpTaskRecord
  unfolding unblock
  after_dependencies r available reasons =
      if is_dependency_blocked r.status then unblock r available reasons else r

  -- A task that has no execution, given all the records as they stand.
  unfoldable pub reevaluate_waiting :
      List TaskDependency → List FollowUpTaskRecord → FollowUpTaskRecord → FollowUpTaskRecord
  unfolding evaluate_pre_execution_status after_dependencies
  reevaluate_waiting deps records r =
      let (capability, available, reason) = resolve r.task in
      let resolved = record r {
        required_capability = capability;
        missing_capability_reason = reason;
      } in
      with_reason (
        after_dependencies (settled resolved (evaluate_pre_execution_status resolved available))
          available (dependency_blocking_reasons deps records r.task.id))

  -- The loop's body.
  unfoldable pub reevaluate_task :
      List TaskDependency
      → List TaskExecutionRecord
      → List FollowUpTaskRecord
      → FollowUpTaskRecord
      → FollowUpTaskRecord
  unfolding reevaluate_waiting
  reevaluate_task deps executions records r =
      let fresh = record r { blocking_reasons = []; last_updated_at = now } in
      elim (last_execution r.task.id executions) [
        | some x ↦ follow_status x.status x fresh
        | none ↦ reevaluate_waiting deps records fresh
      ]

  -- The loop: the records that are written, and those still to visit.
  unfoldable pub reevaluate_from :
      List TaskDependency
      → List TaskExecutionRecord
      → List FollowUpTaskRecord
      → List FollowUpTaskRecord
      → List FollowUpTaskRecord
  unfolding reevaluate_task
  reevaluate_from deps executions written [] = written
  reevaluate_from deps executions written (r ∷ rest) =
      reevaluate_from deps executions
        (written ++ (reevaluate_task deps executions (written ++ (r ∷ rest)) r ∷ [])) rest

-- One list of spawned tasks, one entry to a record.
unfoldable pub derive_spawned : List FollowUpTaskRecord → List SpawnedTaskRecord
derive_spawned [] = []
derive_spawned (r ∷ rs) =
    record {
      task_id = r.task.id;
      status = r.status;
      required_capability = r.required_capability;
      missing_capability_reason = r.missing_capability_reason;
      registered_at = r.registered_at;
    }
    ∷ derive_spawned rs

abbrev pub first_reason : List String → String
first_reason [] = "task due window has not opened yet"
first_reason (reason ∷ reasons) = reason

unfoldable pub derive_deferred : List FollowUpTaskRecord → ℕ → List DeferredTaskRecord
derive_deferred [] now = []
derive_deferred (r ∷ rs) now =
    let rest = derive_deferred rs now in
    if is_deferred r.status
    then record {
      task_id = r.task.id;
      status = r.status;
      not_before = r.metadata.due_window.not_before;
      not_after = r.metadata.due_window.not_after;
      reason = first_reason r.blocking_reasons;
      deferred_at = now;
    }
      ∷ rest
    else rest

pub record TaskActivationResult : Type 0 where
  pub graph_id : String
  pub registered_tasks : List FollowUpTaskRecord
  pub ready_task_ids : List String
  pub evaluated_at : ℕ

unfoldable pub ready_ids : List FollowUpTaskRecord → List String
ready_ids [] = []
ready_ids (r ∷ rs) = if is_ready r.status then r.task.id ∷ ready_ids rs else ready_ids rs

-- The snapshot that was given to a reevaluation, as it reads afterwards: the copy of the struct that the
-- reevaluation has changed shares the array of its registered tasks.
abbrev pub seen_after :
    {S : Type 0} → TaskGraphSnapshot S → TaskGraphSnapshot S → TaskGraphSnapshot S
seen_after snapshot updated = record snapshot { registered_tasks = updated.registered_tasks }

module _ (resolve : TaskSpec → String × Bool × String) (rfc3339 : ℕ → String) (now : ℕ) where
  -- `ReevaluateFollowUpTaskGraph`. The caller's snapshot shares the slice of the registered tasks
  -- with the one returned, and so holds the new records as well.
  unfoldable pub reevaluate_follow_up_task_graph :
      {S : Type 0} → TaskGraphSnapshot S → Result (TaskGraphSnapshot S × TaskActivationResult)
  reevaluate_follow_up_task_graph snapshot = unless (validate_graph snapshot.graph) (
      let records =
        reevaluate_from resolve rfc3339 now snapshot.graph.dependencies snapshot.executed_tasks []
          snapshot.registered_tasks in
      ok (
        record snapshot {
          registered_tasks = records;
          spawned = derive_spawned records;
          deferred_tasks = derive_deferred records now;
        },
        record {
          graph_id = snapshot.graph.graph_id;
          registered_tasks = records;
          ready_task_ids = ready_ids records;
          evaluated_at = now;
        },
      ))
