-- ===== src/Service/Operator/Keeps.antt =====
-- What the steps of the operator service do to the stored approvals: only a save and an update write them.
use personal_cfo_os.Base.{
  ℕ, ◌≡◌, String, Option, List, [], ◌∷◌, is_empty, Bool-cases, Option-cases, inl, inr,
}
use personal_cfo_os.Errors.{Result, ok, err, RuntimeError, is_conflict, Result-cases}
use personal_cfo_os.Governance.Rules.{is_blank}
use personal_cfo_os.WorkQueue.Types.{IdPart, WorkItem}
use personal_cfo_os.WorkQueue.{enqueue}
use personal_cfo_os.Workflow.Types.{CheckpointRecord, ResumeToken, HumanApprovalPending}
use personal_cfo_os.Workflow.Checkpoints.{save, save_resume_token}
use personal_cfo_os.Stores.Types.{TaskExecutionRecord, ApprovalStateRecord, OperatorActionRecord}
use personal_cfo_os.Stores.Approvals.{Approvals, save_approval}
use personal_cfo_os.Stores.Executions.{load_execution, update_execution, save_execution}
use personal_cfo_os.Stores.Actions.{save_action}
use personal_cfo_os.TaskGraph.{TaskGraphSnapshot}
use personal_cfo_os.TaskGraph.Store.{save_state_snapshot, save_updated}
use personal_cfo_os.Service.Types.{
  StateSnapshot, WorkflowArtifact, FollowUpWorkflowRunResult, Backend, ReplayEventRecord,
}
use personal_cfo_os.Service.Effects.{
  Keeps, >>=-Keeps, pure-Keeps, fails-Keeps, if-Keeps, unless_error-Keeps, lifted-Keeps,
  on_some-Keeps, written-keeps, written-keeps_ok,
}
use personal_cfo_os.Service.Graphs.{share_tasks}
use personal_cfo_os.Service.Persist.{
  FollowUpExecutionReplayDetails, replay_details, snapshot_ref_for, snapshot_of, state_kind,
  unless_conflict, save_payload, save_updated_graph, save_changed_graph, append_replay, write_state,
  write_checkpoint, write_token, write_payload, write_approval, write_artifact,
  pending_approval_record, write_artifacts, write_execution, persist_execution_replay,
  persist_execution_outcome,
}
use personal_cfo_os.Service.Actions.{ActionRequest, begin_action, fail_action, enqueue_work_item}
use personal_cfo_os.Service.Operator.{
  Deps, reads, latest_execution, rebuild_projection, rewrite_execution, write_action,
}

module _ {B P : Type 0} (K : Approvals → Type 0) where
  abbrev pub At : Backend B P → Type 0
  At s = K s.approvals

  save_updated_graph-Keeps :
      (snapshot : TaskGraphSnapshot (StateSnapshot B)) (expected : ℕ)
      → Keeps At (save_updated_graph snapshot expected)
  unfolding save_updated_graph
  save_updated_graph-Keeps snapshot expected = record {
    keeps = λ s k. elim (Result-cases (save_updated snapshot expected s.graphs)) [
      | inl ((saved, graphs), e) ↦ rw (e, save_updated_graph) k
      | inr (x, e) ↦ rw (e, save_updated_graph) k
    ];
  }

  pub share_tasks-Keeps :
      (snapshot : TaskGraphSnapshot (StateSnapshot B)) → Keeps At (share_tasks snapshot)
  unfolding share_tasks
  share_tasks-Keeps snapshot = record { keeps = λ s k. k }

  pub save_changed_graph-Keeps :
      (snapshot : TaskGraphSnapshot (StateSnapshot B)) (expected : ℕ)
      → Keeps At (save_changed_graph snapshot expected)
  unfolding save_changed_graph
  save_changed_graph-Keeps snapshot expected =
      >>=-Keeps (share_tasks-Keeps snapshot) (λ u. save_updated_graph-Keeps snapshot expected)

  pub rewrite_execution-Keeps :
      (r : TaskExecutionRecord) (expected : ℕ) → Keeps At (rewrite_execution r expected)
  unfolding rewrite_execution
  rewrite_execution-Keeps r expected = record {
    keeps = λ s k. written-keeps At _ s (update_execution r expected s.executions) k (λ x. k);
  }

  pub write_action-Keeps : (a : OperatorActionRecord) → Keeps At (write_action a)
  unfolding write_action
  write_action-Keeps a = record {
    keeps = λ s k. written-keeps At _ s (save_action a s.actions) k (λ x. k);
  }

  pub enqueue_work_item-Keeps : (item : WorkItem) → Keeps At (enqueue_work_item item)
  unfolding enqueue_work_item
  enqueue_work_item-Keeps item = record {
    keeps = λ s k. elim (Result-cases (enqueue item s.items)) [
      | inl ((items, answer), e) ↦ rw (e, enqueue_work_item) k
      | inr (x, e) ↦ rw (e, enqueue_work_item) k
    ];
  }

  pub fail_action-Keeps :
      {A : Type 0} (make_id : List IdPart → String) (quote : String → String)
      (a : OperatorActionRecord) (e : RuntimeError) (now : ℕ)
      → Keeps At (fail_action {A = A} make_id quote a e now)
  unfolding fail_action append_replay
  fail_action-Keeps make_id quote a e now = record { keeps = λ s k. k }

  pub begin_action-Keeps :
      (make_id : List IdPart → String) (q : ActionRequest) (now : ℕ)
      → Keeps At (begin_action make_id q now)
  unfolding begin_action
  begin_action-Keeps make_id q now = record {
    keeps = λ s k. elim (Bool-cases (is_blank q.request_id)) [
      | inl e ↦ rw (e, begin_action) k
      | inr e ↦ rw (e, begin_action) k
    ];
  }

  pub append_replay-Keeps : (event : ReplayEventRecord) → Keeps At (append_replay event)
  unfolding append_replay
  append_replay-Keeps event = record { keeps = λ s k. k }

  pub reads-Keeps : {A : Type 0} (f : Backend B P → Result A) → Keeps At (reads f)
  unfolding reads
  reads-Keeps f = record { keeps = λ s k. k }

  pub latest_execution-Keeps :
      (graph_id task_id : String) → Keeps At (latest_execution graph_id task_id)
  unfolding latest_execution
  latest_execution-Keeps graph_id task_id = record { keeps = λ s k. k }

  pub rebuild_projection-Keeps :
      (env : Deps B P) (graph_id : String) → Keeps At (rebuild_projection env graph_id)
  rebuild_projection-Keeps env graph_id =
      if-Keeps (is_blank graph_id) pure-Keeps (unless_error-Keeps (env.rebuild graph_id))

  module _ (make_id : List IdPart → String)
      (marshal : FollowUpExecutionReplayDetails → Result String)
      (validate_payload : P → Option RuntimeError) (now : ℕ) where
    write_state-Keeps :
        (r : TaskExecutionRecord) (result : FollowUpWorkflowRunResult B P)
        → Keeps At (write_state make_id marshal validate_payload now r result)
    unfolding write_state
    write_state-Keeps r result = record {
      keeps = λ s k.
          elim (Result-cases (
            save_state_snapshot snapshot_ref_for
              (snapshot_of result.updated_state (state_kind r) r.last_transition_at now)
              s.graphs)) [
                | inl ((ref, graphs), e) ↦ rw (e, write_state) k
                | inr (x, e) ↦ rw (e, write_state) k
              ];
    }

    write_payload-Keeps :
        (p : CheckpointRecord × P) → Keeps At (write_payload make_id marshal validate_payload now p)
    unfolding write_payload
    write_payload-Keeps (c, p) = record {
      keeps =
          λ s k. written-keeps At _ s (save_payload validate_payload c.id p s.payloads) k (λ x. k);
    }

    write_checkpoint-Keeps :
        (c : CheckpointRecord) → Keeps At (write_checkpoint make_id marshal validate_payload now c)
    unfolding write_checkpoint
    write_checkpoint-Keeps c = record {
      keeps = λ s k. written-keeps At _ s (save c s.checkpoints) k (λ x. k);
    }

    write_token-Keeps :
        (t : ResumeToken) → Keeps At (write_token make_id marshal validate_payload now t)
    unfolding write_token
    write_token-Keeps t = record {
      keeps = λ s k. written-keeps At _ s (save_resume_token t s.checkpoints) k (λ x. k);
    }

    write_execution-Keeps :
        (r : TaskExecutionRecord)
        → Keeps At (write_execution make_id marshal validate_payload now r)
    unfolding write_execution
    write_execution-Keeps r = record {
      keeps = λ s k. elim (Option-cases (load_execution r.execution_id s.executions)) [
        | inl e ↦
            rw (e, write_execution)
              (written-keeps At _ s (save_execution r s.executions) k (λ x. k))
        | inr (current, e) ↦
            rw (e, write_execution)
              (written-keeps At _ s (update_execution r current.version s.executions) k (λ x. k))
      ];
    }

    write_artifacts-Keeps :
        (artifacts : List WorkflowArtifact)
        → Keeps At (write_artifacts make_id marshal validate_payload now artifacts)
    unfolding write_artifacts write_artifact
    write_artifacts-Keeps [] = pure-Keeps
    write_artifacts-Keeps (a ∷ rest) =
        >>=-Keeps {m = write_artifact make_id marshal validate_payload now a}
          (record { keeps = λ s k. k }) (λ u. write_artifacts-Keeps rest)

    persist_replay-Keeps :
        (snapshot : TaskGraphSnapshot (StateSnapshot B)) (r : TaskExecutionRecord)
        → Keeps At (persist_execution_replay make_id marshal validate_payload now snapshot r)
    unfolding persist_execution_replay
    persist_replay-Keeps snapshot r =
        >>=-Keeps (lifted-Keeps (marshal (replay_details r))) (λ details. append_replay-Keeps _)

    module _
        (on_save : (a : ApprovalStateRecord) (x next : Approvals)
          → save_approval a x ≡ ok next
          → K x
          → K next) where
      unless_conflict-keeps :
          (r : Backend B P × Result (Unit {0})) → At r.0 → At (unless_conflict r).0
      unless_conflict-keeps (s, ok u) k = k
      unless_conflict-keeps (s, err e) k = elim (Bool-cases (is_conflict e)) [
        | inl c ↦ rw c k
        | inr c ↦ rw c k
      ]

      write_approval-Keeps :
          (snapshot : TaskGraphSnapshot (StateSnapshot B)) (r : TaskExecutionRecord)
          (h : HumanApprovalPending)
          → Keeps At (write_approval make_id marshal validate_payload now snapshot r h)
      unfolding write_approval
      write_approval-Keeps snapshot r h =
          let a = pending_approval_record make_id marshal validate_payload now snapshot r h in
          record {
            keeps = λ s k. unless_conflict-keeps _ (
                written-keeps_ok At _ s (save_approval a s.approvals) k
                  (λ next e. on_save a s.approvals next e k));
          }

      -- A commit writes approvals by saves alone.
      pub persist_outcome-Keeps :
          (snapshot : TaskGraphSnapshot (StateSnapshot B)) (r0 : TaskExecutionRecord)
          (result : FollowUpWorkflowRunResult B P)
          → Keeps At
              (persist_execution_outcome make_id marshal validate_payload now snapshot r0 result)
      unfolding persist_execution_outcome
      persist_outcome-Keeps snapshot r0 result =
          >>=-Keeps (if-Keeps (is_empty r0.execution_id) fails-Keeps pure-Keeps) (λ u.
            >>=-Keeps
              (if-Keeps (is_empty result.updated_state.version.snapshot_id) pure-Keeps
                (write_state-Keeps _ result))
              (λ r. >>=-Keeps (on_some-Keeps result.checkpoint write_checkpoint-Keeps) (λ u.
                >>=-Keeps (on_some-Keeps result.resume_token write_token-Keeps) (λ u.
                  >>=-Keeps (on_some-Keeps _ write_payload-Keeps) (λ u.
                    >>=-Keeps
                      (on_some-Keeps result.pending_approval (write_approval-Keeps snapshot r))
                      (λ u. >>=-Keeps (write_artifacts-Keeps result.artifacts) (λ u.
                        >>=-Keeps (write_execution-Keeps r) (λ u.
                          >>=-Keeps (persist_replay-Keeps snapshot r) (λ u. pure-Keeps)))))))))
