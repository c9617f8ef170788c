-- ===== src/Service/Operator/Reevaluate.antt =====
-- ReevaluateTaskGraph of internal/runtime/service.go and of local_runtime.go.
use personal_cfo_os.Base.{ℕ, String, some, List, [], ◌∷◌, if◌then◌else◌, push}
use personal_cfo_os.WorkQueue.Types.{text, time, WorkItem, reevaluate_task_graph, operator}
use personal_cfo_os.Stores.Types.{OperatorActionRecord, reevaluate}
use personal_cfo_os.TaskGraph.{TaskActivationResult, reevaluate_follow_up_task_graph}
use personal_cfo_os.Service.Types.{
  ReplayEventRecord, no_event, Backend, TaskCommandResult, no_result,
}
use personal_cfo_os.Service.Effects.{Step, ◌>>=◌, ◌>>◌, pure, on_result}
use personal_cfo_os.Service.Execution.{first_text}
use personal_cfo_os.Service.Graphs.{load_task_graph_snapshot}
use personal_cfo_os.Service.Persist.{append_replay, save_changed_graph}
use personal_cfo_os.Service.Actions.{
  ActionRequest, action_type_text, begin_action, enqueue_work_item,
}
use personal_cfo_os.Service.Operator.{
  Deps, reads, unless_repeated, rebuild_projection, refuse, write_action, as_applied, new_item,
  work_kind_text, dispatch_details,
}

pub record ReevaluateTaskGraphCommand : Type 0 where
  pub request_id : String
  pub graph_id : String
  pub actor : String
  pub roles : List String
  pub note : String

abbrev pub reevaluate_request : ReevaluateTaskGraphCommand → ActionRequest
reevaluate_request cmd = record {
  action_type = reevaluate;
  request_id = cmd.request_id;
  actor = cmd.actor;
  roles = cmd.roles;
  graph_id = cmd.graph_id;
  task_id = "";
  approval_id = "";
  workflow_id = "";
  note = cmd.note;
  expected_version = 0;
}

abbrev pub reevaluation_event :
    ReevaluateTaskGraphCommand → OperatorActionRecord → ℕ → ReplayEventRecord
reevaluation_event cmd action now = record no_event {
  root_correlation_id = cmd.graph_id;
  parent_workflow_id = cmd.graph_id;
  graph_id = cmd.graph_id;
  action_type = action_type_text reevaluate;
  occurred_at = now;
  operator_action_id = action.action_id;
}

module _ {B P : Type 0} (env : Deps B P) where
  -- The runtime's: the graph is evaluated again and saved over the version that was loaded.
  unfoldable pub reevaluate_graph : String → ℕ → Step (Backend B P) TaskActivationResult
  reevaluate_graph graph_id now = do
    snapshot ← reads (λ s. load_task_graph_snapshot s graph_id)
    updated ← reads (λ s. reevaluate_follow_up_task_graph env.resolve_task env.rfc3339 now snapshot)
    saved ← save_changed_graph updated.0 snapshot.version
    pure updated.1

  module _ (cmd : ReevaluateTaskGraphCommand) (clock : ℕ → ℕ) (action : OperatorActionRecord) where
    abbrev pub reevaluate_item : ℕ → WorkItem
    reevaluate_item now = record (new_item reevaluate_task_graph operator now) {
      id = env.make_id (
          text "work"
          ∷ text (work_kind_text reevaluate_task_graph)
          ∷ text cmd.graph_id
          ∷ time now
          ∷ []);
      dedupe_key = push "reevaluate:" cmd.graph_id;
      graph_id = cmd.graph_id;
      reason = first_text cmd.note "operator requested task-graph reevaluation";
    }

    unfoldable pub dispatch_reevaluation : Step (Backend B P) TaskCommandResult
    dispatch_reevaluation = do
      let now = clock 1
      write_action (as_applied now action)
      let item = reevaluate_item now
      answer ← enqueue_work_item item
      append_replay (record (reevaluation_event cmd action now) {
        event_id =
            env.make_id
              (text "replay" ∷ text "reevaluate-enqueued" ∷ text cmd.graph_id ∷ time now ∷ []);
        summary = push "enqueued task-graph reevaluation for " cmd.graph_id;
        details_json = dispatch_details env reevaluate item;
      })
      pure (record answer { action = some (as_applied now action) })

    abbrev pub record_reevaluation : TaskActivationResult → Step (Backend B P) TaskCommandResult
    record_reevaluation activation = do
      let now = clock 2
      write_action (as_applied now action)
      append_replay (record (reevaluation_event cmd action now) {
        event_id =
            env.make_id (text "replay" ∷ text "reevaluate" ∷ text cmd.graph_id ∷ time now ∷ []);
        summary = push "reevaluated task graph " cmd.graph_id;
      })
      rebuild_projection env cmd.graph_id
      pure (record no_result { action = some (as_applied now action); graph_id = cmd.graph_id })

    unfoldable pub reevaluate_now : Step (Backend B P) TaskCommandResult
    reevaluate_now =
        on_result (reevaluate_graph cmd.graph_id (clock 1)) record_reevaluation
          (λ e. refuse env action e (clock 2))

  -- The activation that comes with the result is left out.
  unfoldable pub reevaluate_command :
      ReevaluateTaskGraphCommand → (ℕ → ℕ) → Step (Backend B P) TaskCommandResult
  reevaluate_command cmd clock = do
    b ← begin_action env.make_id (reevaluate_request cmd) (clock 0)
    unless_repeated b (λ action.
        if env.async
        then dispatch_reevaluation cmd clock action
        else reevaluate_now cmd clock action)
