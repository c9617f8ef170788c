-- ===== src/TaskGraph/Registration.antt =====
-- RegisterFollowUpTaskGraph of internal/runtime/task_graph.go, and the validation of its records.
use personal_cfo_os.Base.{
  ℕ, suc, String, Bool, ◌&&◌, Option, none, some, List, [], ◌∷◌, ◌==◌, nat_eq, string_eq,
  if◌then◌else◌,
}
use personal_cfo_os.Errors.{Result, ok, RuntimeError, failure, unless, ◌>>=◌}
use personal_cfo_os.Governance.Rules.{is_blank}
use personal_cfo_os.Stores.Types.{other_queue_status}
use personal_cfo_os.TaskSpec.{
  TaskSpec, GeneratedTaskSpec, TaskDependency, TaskGraph, validate_task, validate_graph,
}
use personal_cfo_os.TaskGraph.{
  FollowUpTaskRecord, SpawnedTaskRecord, DeferredTaskRecord, is_queued, downstream_dependencies,
  with_reason, settled, evaluate_pre_execution_status, derive_spawned, derive_deferred,
}

-- `FollowUpTaskRecord.Validate`
unfoldable pub validate_follow_up : FollowUpTaskRecord → Option RuntimeError
validate_follow_up r = elim (validate_task r.task) [
  | some e ↦ some e
  | none ↦
      if is_blank r.required_capability
      then some (failure "follow-up task %q requires required_capability")
      else if r.registered_at == 0
      then some (failure "follow-up task %q requires registered_at")
      else if is_queued r.status && is_blank r.missing_capability_reason
      then some (
          failure
            "follow-up task %q requires missing_capability_reason when queued_pending_capability")
      else none
]

module _ (resolve : TaskSpec → String × Bool × String) (rfc3339 : ℕ → String) (now : ℕ) where
  -- The record of one generated task.
  unfoldable pub initial_record : List TaskDependency → ℕ → GeneratedTaskSpec → FollowUpTaskRecord
  initial_record deps index g =
      let (capability, available, reason) = resolve g.task in
      let bare : FollowUpTaskRecord = record {
        task = g.task;
        metadata = g.metadata;
        version = 1;
        status = other_queue_status "";
        required_capability = capability;
        missing_capability_reason = reason;
        dependencies = downstream_dependencies deps g.task.id;
        blocking_reasons = [];
        suppressed_reasons = [];
        registered_at = now;
        registration_order = index;
        last_updated_at = now;
      } in
      with_reason (settled bare (evaluate_pre_execution_status resolve rfc3339 now bare available))

  unfoldable pub initial_follow_up_task_records :
      List TaskDependency → ℕ → List GeneratedTaskSpec → Result (List FollowUpTaskRecord)
  initial_follow_up_task_records deps index [] = ok []
  initial_follow_up_task_records deps index (g ∷ rest) =
      let later = initial_follow_up_task_records deps (suc index) rest in
      unless (validate_follow_up (initial_record deps index g))
        (later >>= λ records. ok (initial_record deps index g ∷ records))

  -- `RegisterFollowUpTaskGraph`
  unfoldable pub register_follow_up_task_graph :
      TaskGraph
      → Result (List FollowUpTaskRecord × List SpawnedTaskRecord × List DeferredTaskRecord)
  register_follow_up_task_graph graph = unless (validate_graph graph) (
      initial_follow_up_task_records graph.dependencies 0 graph.generated_tasks >>= λ records.
      ok (records, derive_spawned records, derive_deferred records now))
