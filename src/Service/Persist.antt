-- ===== src/Service/Persist.antt =====
-- persistExecutionOutcome of internal/runtime/service_helpers.go, and the commit guard of
-- async_commit_guard.go. `check` answers each call of ValidateFence, by its place in the code: the queue
-- may change between two of them. `marshal` prints details as JSON, `validate_payload` is the check on a
-- payload, and `now` the clock, which a snapshot without a time reads.
pub mod Guard
pub mod Stale
use personal_cfo_os.Base.{
  ℕ, zero, suc, ◌≡◌, refl, String, Bool, true, false, not, Option, none, some, List, [], ◌∷◌, ◌++◌,
  ◌==◌, nat_eq, string_eq, if◌then◌else◌, is_empty, push,
}
use personal_cfo_os.Base.Dict.{Dict, lookup, insert}
use personal_cfo_os.Errors.{Result, ok, err, RuntimeError, failure, is_conflict}
use personal_cfo_os.WorkQueue.Types.{IdPart, text, time}
use personal_cfo_os.Workflow.Types.{
  FailureCategory, CheckpointRecord, ResumeToken, HumanApprovalPending,
}
use personal_cfo_os.Workflow.Checkpoints.{Runtime, save, save_resume_token}
use personal_cfo_os.Stores.Types.{
  TaskExecutionRecord, ApprovalStateRecord, TaskQueueStatus, completed, pending,
}
use personal_cfo_os.Stores.Approvals.{save_approval}
use personal_cfo_os.Stores.Executions.{save_execution, update_execution, load_execution}
use personal_cfo_os.TaskGraph.{TaskGraphSnapshot, is_completed}
use personal_cfo_os.TaskGraph.Store.{save_state_snapshot, save_updated}
use personal_cfo_os.Service.Graphs.{share_tasks}
use personal_cfo_os.Service.Types.{
  FinancialWorldState, StateSnapshot, WorkflowArtifact, ReplayEventRecord, no_event,
  FollowUpWorkflowRunResult, Backend, queue_status_text,
}
use personal_cfo_os.Service.Effects.{
  Step, and_then, ◌>>=◌, ◌>>◌, pure, fails, skip, unless_error, written, lifted, on_some, when,
}

-- The calls of ValidateFence, with the artifacts numbered.
pub data FenceSite : Type 0 where
  graph_site entry_site state_site checkpoint_site token_site payload_site approval_site : FenceSite
  execution_site replay_site : FenceSite
  artifact_site : ℕ → FenceSite

pub record FollowUpExecutionReplayDetails : Type 0 where
  pub status : TaskQueueStatus
  pub intent : String
  pub failure_category : Option FailureCategory
  pub failure_summary : String
  pub approval_id : String
  pub checkpoint_id : String
  pub resume_token : String
  pub committed : Bool
  pub updated_state_ref : String
  pub artifact_ids : List String

abbrev pub replay_details : TaskExecutionRecord → FollowUpExecutionReplayDetails
replay_details r = record {
  status = r.status;
  intent = r.intent;
  failure_category = r.failure_category;
  failure_summary = r.failure_summary;
  approval_id = r.approval_id;
  checkpoint_id = r.checkpoint_id;
  resume_token = r.resume_token;
  committed = r.committed;
  updated_state_ref = r.updated_state_snapshot_ref;
  artifact_ids = r.artifact_ids;
}

abbrev pub snapshot_ref_for : {B : Type 0} → StateSnapshot B → String
snapshot_ref_for s = s.state.version.snapshot_id

abbrev pub snapshot_of : {B : Type 0} → FinancialWorldState B → String → ℕ → ℕ → StateSnapshot B
snapshot_of w reason captured_at now = record {
  state = w;
  captured_at = if captured_at == 0 then now else captured_at;
  reason = reason;
}

abbrev pub versioned : TaskExecutionRecord → TaskExecutionRecord
versioned r = record r { version = if r.version == 0 then 1 else r.version }

abbrev pub state_kind : TaskExecutionRecord → String
state_kind r = if is_completed r.status then "follow_up_committed" else "follow_up_pending"

abbrev pub both : {A C : Type 0} → Option A → Option C → Option (A × C)
both none c = none
both (some a) none = none
both (some a) (some c) = some (a, c)

-- A conflict means that the approval was saved before.
abbrev pub unless_conflict : {S : Type 0} → S × Result (Unit {0}) → S × Result (Unit {0})
unless_conflict (s, ok u) = (s, ok u)
unless_conflict (s, err e) = if is_conflict e then (s, ok tt) else (s, err e)

unfoldable pub committed_state_ref :
    {B : Type 0} → TaskExecutionRecord → TaskGraphSnapshot (StateSnapshot B) → String
committed_state_ref r snapshot =
    if not r.committed
    then snapshot.latest_committed_state_ref
    else if is_empty r.updated_state_snapshot_ref
    then snapshot.latest_committed_state_ref
    else r.updated_state_snapshot_ref

unfoldable pub save_payload :
    {P : Type 0} → (P → Option RuntimeError) → String → P → Dict P → Result (Dict P)
save_payload validate_payload checkpoint_id payload payloads =
    if is_empty checkpoint_id
    then err (failure "checkpoint id is required")
    else elim (validate_payload payload) [
      | some e ↦ err e
      | none ↦ ok (insert checkpoint_id payload payloads)
    ]

module _ {B P : Type 0} where
  unfoldable pub append_replay : ReplayEventRecord → Step (Backend B P) (Unit {0})
  append_replay event s = (record s { replay = s.replay ++ (event ∷ []) }, ok tt)

  unfoldable pub save_updated_graph :
      TaskGraphSnapshot (StateSnapshot B)
      → ℕ
      → Step (Backend B P) (TaskGraphSnapshot (StateSnapshot B))
  save_updated_graph snapshot expected s = elim (save_updated snapshot expected s.graphs) [
    | ok (saved, graphs) ↦ (record s { graphs = graphs }, ok saved)
    | err e ↦ (s, err e)
  ]

  -- The same for a snapshot whose registered tasks were written in place.
  unfoldable pub save_changed_graph :
      TaskGraphSnapshot (StateSnapshot B)
      → ℕ
      → Step (Backend B P) (TaskGraphSnapshot (StateSnapshot B))
  save_changed_graph snapshot expected =
      share_tasks snapshot >> save_updated_graph snapshot expected

  unfoldable pub save_updated_graph_guarded :
      (FenceSite → Option RuntimeError)
      → TaskGraphSnapshot (StateSnapshot B)
      → ℕ
      → Step (Backend B P) (TaskGraphSnapshot (StateSnapshot B))
  save_updated_graph_guarded check snapshot expected =
      unless_error (check graph_site) >> save_updated_graph snapshot expected

  module _ (make_id : List IdPart → String)
      (marshal : FollowUpExecutionReplayDetails → Result String)
      (validate_payload : P → Option RuntimeError) (now : ℕ) where
    unfoldable pub write_state :
        TaskExecutionRecord → FollowUpWorkflowRunResult B P → Step (Backend B P) TaskExecutionRecord
    write_state r result s =
        elim (save_state_snapshot snapshot_ref_for
          (snapshot_of result.updated_state (state_kind r) r.last_transition_at now) s.graphs) [
            | ok (ref, graphs) ↦
                (record s { graphs = graphs }, ok (record r { updated_state_snapshot_ref = ref }))
            | err e ↦ (s, err e)
          ]

    unfoldable pub write_checkpoint : CheckpointRecord → Step (Backend B P) (Unit {0})
    write_checkpoint c s = written (λ x. record s { checkpoints = x }) s (save c s.checkpoints)

    unfoldable pub write_token : ResumeToken → Step (Backend B P) (Unit {0})
    write_token t s =
        written (λ x. record s { checkpoints = x }) s (save_resume_token t s.checkpoints)

    unfoldable pub write_payload : CheckpointRecord × P → Step (Backend B P) (Unit {0})
    write_payload (c, p) s =
        written (λ x. record s { payloads = x }) s (save_payload validate_payload c.id p s.payloads)

    abbrev pub pending_approval_record :
        TaskGraphSnapshot (StateSnapshot B)
        → TaskExecutionRecord
        → HumanApprovalPending
        → ApprovalStateRecord
    pending_approval_record snapshot r h = record {
      approval_id = h.approval_id;
      graph_id = snapshot.graph.graph_id;
      task_id = r.task_id;
      workflow_id = h.workflow_id;
      execution_id = r.execution_id;
      requested_action = h.requested_action;
      required_roles = h.required_roles;
      requested_at = h.requested_at;
      deadline = h.deadline;
      status = pending;
      resolved_at = none;
      resolved_by = "";
      resolution_note = "";
      version = 1;
    }

    unfoldable pub write_approval :
        TaskGraphSnapshot (StateSnapshot B)
        → TaskExecutionRecord
        → HumanApprovalPending
        → Step (Backend B P) (Unit {0})
    write_approval snapshot r h s = unless_conflict (
        written (λ x. record s { approvals = x }) s
          (save_approval (pending_approval_record snapshot r h) s.approvals))

    unfoldable pub write_artifact : WorkflowArtifact → Step (Backend B P) (Unit {0})
    write_artifact a s = (record s { artifacts = insert a.id a s.artifacts }, ok tt)

    unfoldable pub write_execution : TaskExecutionRecord → Step (Backend B P) (Unit {0})
    write_execution r s = elim (load_execution r.execution_id s.executions) [
      | some current ↦
          written (λ x. record s { executions = x }) s
            (update_execution r current.version s.executions)
      | none ↦ written (λ x. record s { executions = x }) s (save_execution r s.executions)
    ]

    abbrev pub execution_event :
        TaskGraphSnapshot (StateSnapshot B) → TaskExecutionRecord → String → ReplayEventRecord
    execution_event snapshot r details = record no_event {
      event_id = make_id (
          text "replay"
          ∷ text snapshot.graph.graph_id
          ∷ text r.execution_id
          ∷ text (queue_status_text r.status)
          ∷ time r.last_transition_at
          ∷ []);
      root_correlation_id = r.root_correlation_id;
      parent_workflow_id = r.parent_workflow_id;
      workflow_id = r.workflow_id;
      graph_id = snapshot.graph.graph_id;
      task_id = r.task_id;
      approval_id = r.approval_id;
      execution_id = r.execution_id;
      action_type = "follow_up_execution";
      summary =
          push "follow-up task " (push r.task_id (push " ended as " (queue_status_text r.status)));
      occurred_at = r.last_transition_at;
      details_json = details;
      committed_state_ref = committed_state_ref r snapshot;
      updated_state_ref = r.updated_state_snapshot_ref;
      artifact_ids = r.artifact_ids;
      checkpoint_id = r.checkpoint_id;
      resume_token = r.resume_token;
    }

    unfoldable pub persist_execution_replay :
        TaskGraphSnapshot (StateSnapshot B) → TaskExecutionRecord → Step (Backend B P) (Unit {0})
    persist_execution_replay snapshot r = do
      details ← lifted (marshal (replay_details r))
      append_replay (execution_event snapshot r details)

    abbrev pub require_id : TaskExecutionRecord → Step (Backend B P) (Unit {0})
    require_id r =
        if is_empty r.execution_id
        then fails (failure "task execution requires execution id")
        else skip

    unfoldable pub write_artifacts : List WorkflowArtifact → Step (Backend B P) (Unit {0})
    write_artifacts [] = skip
    write_artifacts (a ∷ as_left) = write_artifact a >> write_artifacts as_left

    -- The record comes back with the version and the reference that the code writes into it.
    unfoldable pub persist_execution_outcome :
        TaskGraphSnapshot (StateSnapshot B)
        → TaskExecutionRecord
        → FollowUpWorkflowRunResult B P
        → Step (Backend B P) TaskExecutionRecord
    persist_execution_outcome snapshot r0 result = do
      require_id r0
      r ←
          (if is_empty result.updated_state.version.snapshot_id
            then pure (versioned r0)
            else write_state (versioned r0) result)
      on_some result.checkpoint write_checkpoint
      on_some result.resume_token write_token
      on_some (both result.checkpoint result.checkpoint_payload) write_payload
      on_some result.pending_approval (write_approval snapshot r)
      write_artifacts result.artifacts
      write_execution r
      persist_execution_replay snapshot r
      pure r

    module _ (check : FenceSite → Option RuntimeError) where
      abbrev pub checked : FenceSite → {A : Type 0} → Step (Backend B P) A → Step (Backend B P) A
      checked site m = unless_error (check site) >> m

      unfoldable pub write_artifacts_guarded :
          ℕ → List WorkflowArtifact → Step (Backend B P) (Unit {0})
      write_artifacts_guarded i [] = skip
      write_artifacts_guarded i (a ∷ as_left) =
          checked (artifact_site i) (write_artifact a) >> write_artifacts_guarded (suc i) as_left

      unfoldable pub persist_execution_outcome_guarded :
          TaskGraphSnapshot (StateSnapshot B)
          → TaskExecutionRecord
          → FollowUpWorkflowRunResult B P
          → Step (Backend B P) TaskExecutionRecord
      persist_execution_outcome_guarded snapshot r0 result = do
        unless_error (check entry_site)
        require_id r0
        r ←
            (if is_empty result.updated_state.version.snapshot_id
              then pure (versioned r0)
              else checked state_site (write_state (versioned r0) result))
        on_some result.checkpoint (λ c. checked checkpoint_site (write_checkpoint c))
        on_some result.resume_token (λ t. checked token_site (write_token t))
        on_some (both result.checkpoint result.checkpoint_payload)
            (λ p. checked payload_site (write_payload p))
        on_some result.pending_approval (λ h. checked approval_site (write_approval snapshot r h))
        write_artifacts_guarded 0 result.artifacts
        checked execution_site (write_execution r)
        checked replay_site (persist_execution_replay snapshot r)
        pure r
