-- ===== src/Service/Graphs.antt =====
-- loadTaskGraphSnapshot of internal/runtime/service_helpers.go and locateTask of service.go.
use personal_cfo_os.Base.{
  String, Bool, true, false, Option, none, some, List, [], ◌∷◌, ltb, str_lt, sort, find, ◌==◌,
  string_eq, if◌then◌else◌,
}
use personal_cfo_os.Errors.{Result, ok, err, conflict, not_found, failure, or_fail, ◌>>=◌}
use personal_cfo_os.Governance.Rules.{is_blank}
use personal_cfo_os.Stores.Types.{TaskExecutionRecord}
use personal_cfo_os.Stores.Executions.{list_executions_by_graph}
use personal_cfo_os.TaskGraph.{FollowUpTaskRecord, TaskGraphSnapshot}
use personal_cfo_os.TaskGraph.Store.{load_graph, list_graphs, load_state_snapshot, share_written}
use personal_cfo_os.Service.Types.{StateSnapshot, Backend}
use personal_cfo_os.Service.Effects.{Step}

-- The order of `sortExecutions`.
abbrev pub started_before : TaskExecutionRecord → TaskExecutionRecord → Bool
started_before a b =
    if ltb a.started_at b.started_at
    then true
    else if ltb b.started_at a.started_at
    then false
    else str_lt a.execution_id b.execution_id

unfoldable pub find_task_record : List FollowUpTaskRecord → String → Option FollowUpTaskRecord
find_task_record records task_id = find (λ r. r.task.id == task_id) records

module _ {B P : Type 0} (s : Backend B P) where
  unfoldable pub load_task_graph_snapshot : String → Result (TaskGraphSnapshot (StateSnapshot B))
  load_task_graph_snapshot graph_id = do
    snapshot ← or_fail (load_graph graph_id s.graphs) (not_found "task_graph" graph_id)
    ok (record snapshot {
      executed_tasks = sort started_before (list_executions_by_graph graph_id s.executions);
    })

  unfoldable pub load_state : String → Result (StateSnapshot B)
  load_state ref = or_fail (load_state_snapshot ref s.graphs) (not_found "state_snapshot" ref)

  abbrev pub Located : Type 0
  Located = TaskGraphSnapshot (StateSnapshot B) × FollowUpTaskRecord

  abbrev pub if_found :
      TaskGraphSnapshot (StateSnapshot B) → Option FollowUpTaskRecord → List Located → List Located
  if_found snapshot none rest = rest
  if_found snapshot (some r) rest = (snapshot, r) ∷ rest

  unfoldable pub matches_in :
      String → List (TaskGraphSnapshot (StateSnapshot B)) → Result (List Located)
  matches_in task_id [] = ok []
  matches_in task_id (g ∷ gs) = do
    hydrated ← load_task_graph_snapshot g.graph.graph_id
    rest ← matches_in task_id gs
    ok (if_found hydrated (find_task_record hydrated.registered_tasks task_id) rest)

  abbrev pub only_one : String → List Located → Result Located
  only_one task_id [] = err (not_found "follow_up_task" task_id)
  only_one task_id (l ∷ []) = ok l
  only_one task_id (l ∷ k ∷ ls) =
      err (conflict "follow_up_task" task_id "task id is not unique across graphs")

  unfoldable pub locate_in : String → String → Result Located
  locate_in graph_id task_id = do
    snapshot ← load_task_graph_snapshot graph_id
    r ←
        or_fail (find_task_record snapshot.registered_tasks task_id)
          (not_found "follow_up_task" task_id)
    ok (snapshot, r)

  unfoldable pub locate_task : String → String → Result Located
  locate_task graph_id task_id =
      if is_blank task_id
      then err (failure "task id is required")
      else if is_blank graph_id
      then matches_in task_id (list_graphs s.graphs) >>= only_one task_id
      else locate_in graph_id task_id

-- The stored graph gets what was written to the registered tasks of the loaded one.
unfoldable pub share_tasks :
    {B P : Type 0} → TaskGraphSnapshot (StateSnapshot B) → Step (Backend B P) (Unit {0})
share_tasks snapshot s = (record s { graphs = share_written snapshot s.graphs }, ok tt)
