-- ===== src/TaskGraph/Tests.antt =====
-- A graph of two tasks, the second of which waits for the first.
use personal_cfo_os.Base.{
  ℕ, ◌≡◌, ◌==◌, string_eq, if◌then◌else◌, some, arith, refl, String, Bool, true, false, none, List,
  [], ◌∷◌, All,
}
use personal_cfo_os.Errors.{err, conflict}
use personal_cfo_os.Governance.Types.{risk_low}
use personal_cfo_os.Governance.Rules.{among, is_blank}
use personal_cfo_os.Stores.Types.{ready, dependency_blocked}
use personal_cfo_os.TaskSpec.{
  TaskSpec, no_requirement, monthly_review, GeneratedTaskMetadata, life_event, priority_low,
  TaskDependency, TaskGraph, validate_task, graph_complaints, validate_metadata, validate_generated,
  known_ids, task_complaints, dependency_complaints, validate_graph,
}
use personal_cfo_os.TaskGraph.{
  FollowUpTaskRecord, TaskGraphSnapshot, TaskActivationResult, derive_spawned, derive_deferred,
  ready_ids, last_status, reevaluate_from, reevaluate_follow_up_task_graph,
}
use personal_cfo_os.Base.Dict.{lookup}
use personal_cfo_os.TaskSpec.Valid.{DistinctTasks, Joins, validate_graph-Joins}
use personal_cfo_os.TaskGraph.Store.{
  GraphStore, write, replace, update_graph, load_graph, next_version, save_updated,
  save_updated_once,
}
use personal_cfo_os.TaskGraph.Activation.{map_status, update_task_status, update_task_status_lem}
use personal_cfo_os.TaskGraph.Readiness.{AllBacked}
use personal_cfo_os.TaskGraph.Reevaluation.{IsJustified, reevaluate-Justified}
use personal_cfo_os.Base.{◌≤◌, Has}
use personal_cfo_os.TaskGraph.Order.Counts.{count}
use personal_cfo_os.TaskGraph.Order.{topological_task_order}
use personal_cfo_os.TaskGraph.Order.Rounds.{BehindUpstream, WaitsOutside}
use personal_cfo_os.TaskGraph.Order.Complete.{topological_task_order_lem}

abbrev task : String → TaskSpec
task id = record {
  id = id;
  goal = "review the month";
  scope = record { areas = []; start = none; end = none; notes = [] };
  constraints = record { hard = []; soft = [] };
  risk_level = risk_low;
  success_criteria = record { id = "criteria-1"; description = "reviewed" } ∷ [];
  required_evidence = [];
  approval_requirement = no_requirement;
  deadline = none;
  user_intent_type = monthly_review;
  created_at = 1;
}

abbrev metadata : GeneratedTaskMetadata
metadata = record {
  generated_at = 1;
  parent_workflow_id = "workflow-1";
  parent_task_id = "task-0";
  root_correlation_id = "";
  trigger_source = life_event;
  priority = priority_low;
  due_window = record { not_before = none; not_after = none };
  requires_approval = false;
  execution_depth = 1;
  generation_reasons = [];
}

abbrev dependency : TaskDependency
dependency = record {
  upstream_task_id = "task-1";
  downstream_task_id = "task-2";
  reason = "needs the review";
  mandatory = true;
}

abbrev pub graph : TaskGraph
graph = record {
  graph_id = "graph-1";
  parent_workflow_id = "workflow-1";
  parent_task_id = "task-0";
  trigger_source = life_event;
  generated_at = 1;
  generated_tasks =
      record { task = task "task-1"; metadata = metadata }
      ∷ record { task = task "task-2"; metadata = metadata }
      ∷ [];
  dependencies = dependency ∷ [];
  suppression_notes = [];
  generation_summary = "";
}

abbrev pub task_record : String → List TaskDependency → FollowUpTaskRecord
task_record id deps = record {
  task = task id;
  metadata = metadata;
  version = 1;
  status = dependency_blocked;
  required_capability = "monthly_review_workflow";
  missing_capability_reason = "";
  dependencies = deps;
  blocking_reasons = [];
  suppressed_reasons = [];
  registered_at = 1;
  registration_order = 0;
  last_updated_at = 1;
}

-- The financial state is a text here.
abbrev pub snapshot : TaskGraphSnapshot String
snapshot = record {
  graph = graph;
  version = 1;
  registered_tasks = task_record "task-1" [] ∷ task_record "task-2" (dependency ∷ []) ∷ [];
  spawned = [];
  deferred_tasks = [];
  base_state_snapshot = "state-1";
  base_state_snapshot_ref = "";
  latest_committed_state_snapshot = "state-1";
  latest_committed_state_ref = "";
  executed_tasks = [];
  registered_at = 1;
}

abbrev pub resolve : TaskSpec → String × Bool × String
resolve spec = ("monthly_review_workflow", true, "")

abbrev pub date : ℕ → String
date t = "2026-01-01T00:00:00Z"

abbrev records : List FollowUpTaskRecord
records = reevaluate_from resolve date 10 (dependency ∷ []) [] [] snapshot.registered_tasks

abbrev pub updated : TaskGraphSnapshot String
updated = record snapshot {
  registered_tasks = records;
  spawned = derive_spawned records;
  deferred_tasks = derive_deferred records 10;
}

abbrev pub activation : TaskActivationResult
activation = record {
  graph_id = "graph-1";
  registered_tasks = records;
  ready_task_ids = ready_ids records;
  evaluated_at = 10;
}

reevaluate-Justified_example :
    All (IsJustified resolve date 10 (dependency ∷ []) []) updated.registered_tasks
    × AllBacked updated.executed_tasks updated.registered_tasks
unfolding reevaluate_follow_up_task_graph validate_graph validate_task validate_metadata
    validate_generated graph_complaints known_ids task_complaints dependency_complaints among
    is_blank
reevaluate-Justified_example =
    reevaluate-Justified resolve date 10 snapshot updated activation (refl, (refl, tt)) refl

validate_graph-Joins_example :
    DistinctTasks graph.generated_tasks × All (Joins graph.generated_tasks) graph.dependencies
unfolding validate_graph validate_task validate_metadata validate_generated graph_complaints
    known_ids task_complaints dependency_complaints among is_blank
validate_graph-Joins_example = validate_graph-Joins graph refl

abbrev graphs : GraphStore String
graphs = record { snapshots = ("graph-1", snapshot) ∷ []; states = [] }

save_updated_once_example :
    ((current : TaskGraphSnapshot String) × (load_graph "graph-1" graphs ≡ some current)
      × (current.version ≡ 1))
    × (load_graph "graph-1" (write (next_version snapshot 1) graphs)
        ≡ some (next_version snapshot 1))
    × (next_version snapshot 1 ≡ next_version snapshot 1)
    × (save_updated snapshot 1 (write (next_version snapshot 1) graphs)
        ≡ err (conflict "task_graph" "graph-1" "expected version %d, got %d"))
unfolding save_updated update_graph replace lookup
save_updated_once_example =
    save_updated_once snapshot snapshot 1 graphs (write (next_version snapshot 1) graphs)
      (next_version snapshot 1) (omega arith) refl refl

update_task_status_lem_example :
    last_status "task-1" (update_task_status snapshot "task-1" ready none none 11).registered_tasks
    ≡ (if ◌==◌ {A = String} "task-1" "task-1"
        then map_status ready (last_status "task-1" snapshot.registered_tasks)
        else last_status "task-1" snapshot.registered_tasks)
update_task_status_lem_example =
    update_task_status_lem snapshot "task-1" "task-1" ready none none 11

topological_task_order_lem_example :
    (order : List String) × (topological_task_order 3 (dependency ∷ []) snapshot.registered_tasks
      ≡ some order)
    × ((x : String) → count x order ≤ 1)
    × BehindUpstream (dependency ∷ []) [] order
    × ((r : FollowUpTaskRecord)
        → Has r snapshot.registered_tasks
        → count r.task.id order ≡ 0
        → WaitsOutside (dependency ∷ []) order r.task.id)
topological_task_order_lem_example =
    topological_task_order_lem 3 (dependency ∷ []) snapshot.registered_tasks (omega arith)
      (omega arith)
