-- ===== src/Service/Persist/Guard.antt =====
-- The commit guard against the unguarded commit, and under a fence that is refused.
use mathlib.Core.Path.{fun_ext}
use personal_cfo_os.Base.{
  ℕ, suc, ◌≡◌, refl, ap, ◌∙◌, String, Option, none, some, List, [], ◌∷◌, is_empty, Bool-cases, inl,
  inr,
}
use personal_cfo_os.Errors.{is_conflict, Result, ok, err, RuntimeError, Result-cases}
use personal_cfo_os.WorkQueue.Types.{IdPart}
use personal_cfo_os.Workflow.Checkpoints.{save, save_resume_token}
use personal_cfo_os.Stores.Types.{TaskExecutionRecord}
use personal_cfo_os.Stores.Executions.{Executions}
use personal_cfo_os.Stores.Approvals.{save_approval}
use personal_cfo_os.Workflow.Types.{CheckpointRecord, HumanApprovalPending}
use personal_cfo_os.TaskGraph.{TaskGraphSnapshot}
use personal_cfo_os.TaskGraph.Store.{save_state_snapshot}
use personal_cfo_os.Service.Types.{
  StateSnapshot, WorkflowArtifact, FollowUpWorkflowRunResult, Backend, ReplayEventRecord,
}
use personal_cfo_os.Service.Effects.{
  Step, ◌>>=◌, ◌>>◌, unless_error, Keeps, >>=-Keeps, Refuses, >>=-Refuses, Refuses->>=, pure-Keeps,
  fails-Keeps, if-Keeps, unless_error-Keeps, on_some-Keeps, written-keeps, IsError,
}
use personal_cfo_os.Service.Persist.{
  FenceSite, entry_site, state_site, checkpoint_site, token_site, payload_site, approval_site,
  save_payload, execution_site, FollowUpExecutionReplayDetails, write_artifacts,
  persist_execution_outcome, write_artifact, write_artifacts_guarded, write_state, write_approval,
  write_checkpoint, write_token, write_payload, snapshot_ref_for, snapshot_of, state_kind,
  unless_conflict, artifact_site, persist_execution_outcome_guarded,
}

abbrev accepting : FenceSite → Option RuntimeError
accepting site = none

module _ {B P : Type 0} (make_id : List IdPart → String)
    (marshal : FollowUpExecutionReplayDetails → Result String)
    (validate_payload : P → Option RuntimeError) (now : ℕ) where
  write_artifacts-accepting :
      (i : ℕ) (artifacts : List WorkflowArtifact)
      → write_artifacts_guarded {B = B} make_id marshal validate_payload now accepting i artifacts
        ≡ write_artifacts make_id marshal validate_payload now artifacts
  unfolding write_artifacts_guarded write_artifacts
  write_artifacts-accepting i [] = refl
  write_artifacts-accepting i (a ∷ rest) =
      ap (λ m. write_artifact {B = B} make_id marshal validate_payload now a >> m)
        (write_artifacts-accepting (suc i) rest)

  persist_accepting :
      (snapshot : TaskGraphSnapshot (StateSnapshot B)) (r : TaskExecutionRecord)
      (result : FollowUpWorkflowRunResult B P)
      → persist_execution_outcome_guarded make_id marshal validate_payload now accepting snapshot r
          result
        ≡ persist_execution_outcome make_id marshal validate_payload now snapshot r result
  unfolding persist_execution_outcome_guarded persist_execution_outcome
  persist_accepting snapshot r result = rw (write_artifacts-accepting 0 result.artifacts)

  module _ (executions : Executions) (replay : List ReplayEventRecord) where
    -- No execution is stored and no event is logged.
    abbrev Uncommitted : Backend B P → Type 0
    Uncommitted s = (s.executions ≡ executions) × (s.replay ≡ replay)

    write_state-Keeps :
        (r : TaskExecutionRecord) (result : FollowUpWorkflowRunResult B P)
        → Keeps Uncommitted (write_state make_id marshal validate_payload now r result)
    unfolding write_state
    write_state-Keeps r result = record {
      keeps = λ s k.
          elim (Result-cases (
            save_state_snapshot snapshot_ref_for
              (snapshot_of result.updated_state (state_kind r) r.last_transition_at now)
              s.graphs)) [
                | inl ((ref, graphs), e) ↦ rw (e, write_state) k
                | inr (x, e) ↦ rw (e, write_state) k
              ];
    }

    write_payload-Keeps :
        (p : CheckpointRecord × P)
        → Keeps Uncommitted (write_payload {B = B} make_id marshal validate_payload now p)
    unfolding write_payload
    write_payload-Keeps (c, p) = record {
      keeps = λ s k.
          written-keeps Uncommitted _ s (save_payload validate_payload c.id p s.payloads) k
            (λ x. k);
    }

    unless_conflict-keeps :
        (r : Backend B P × Result (Unit {0})) → Uncommitted r.0 → Uncommitted (unless_conflict r).0
    unless_conflict-keeps (s, ok u) k = k
    unless_conflict-keeps (s, err e) k = elim (Bool-cases (is_conflict e)) [
      | inl c ↦ rw c k
      | inr c ↦ rw c k
    ]

    write_approval-Keeps :
        (snapshot : TaskGraphSnapshot (StateSnapshot B)) (r : TaskExecutionRecord)
        (h : HumanApprovalPending)
        → Keeps Uncommitted (write_approval make_id marshal validate_payload now snapshot r h)
    unfolding write_approval
    write_approval-Keeps snapshot r h = record {
      keeps = λ s k.
          unless_conflict-keeps _
            (written-keeps Uncommitted _ s (save_approval _ s.approvals) k (λ x. k));
    }

    write_artifacts-Keeps :
        (check : FenceSite → Option RuntimeError) (i : ℕ) (artifacts : List WorkflowArtifact)
        → Keeps Uncommitted
            (write_artifacts_guarded make_id marshal validate_payload now check i artifacts)
    unfolding write_artifacts_guarded write_artifact
    write_artifacts-Keeps check i [] = pure-Keeps
    write_artifacts-Keeps check i (a ∷ rest) =
        >>=-Keeps
          (>>=-Keeps (unless_error-Keeps (check (artifact_site i)))
            (λ u. record { keeps = λ s k. k }))
          (λ u. write_artifacts-Keeps check (suc i) rest)

    checked-Keeps :
        {A : Type 0} (o : Option RuntimeError) {m : Step (Backend B P) A}
        → Keeps Uncommitted m
        → Keeps Uncommitted (unless_error o >> m)
    checked-Keeps o k = >>=-Keeps (unless_error-Keeps o) (λ u. k)

    refused_check :
        {A : Type 0} (o : Option RuntimeError) (e : RuntimeError)
        (f : Unit {0} → Step (Backend B P) A)
        → o ≡ some e
        → Refuses Uncommitted (unless_error o >>= f)
    refused_check o e f h = record { refuses = λ s k. rw h (k, tt) }

    -- A refusal of the check before the execution is written.
    persist-Refuses :
        (check : FenceSite → Option RuntimeError) (e : RuntimeError)
        (snapshot : TaskGraphSnapshot (StateSnapshot B)) (r0 : TaskExecutionRecord)
        (result : FollowUpWorkflowRunResult B P)
        → check execution_site ≡ some e
        → Refuses Uncommitted (
            persist_execution_outcome_guarded make_id marshal validate_payload now check snapshot r0
              result)
    unfolding persist_execution_outcome_guarded write_checkpoint write_token write_payload
    persist-Refuses check e snapshot r0 result h =
        >>=-Refuses (unless_error-Keeps (check entry_site)) (λ u.
          >>=-Refuses (if-Keeps (is_empty r0.execution_id) fails-Keeps pure-Keeps) (λ u.
            >>=-Refuses
              (if-Keeps (is_empty result.updated_state.version.snapshot_id) pure-Keeps
                (checked-Keeps (check state_site) (write_state-Keeps _ result)))
              (λ r.
                >>=-Refuses
                  (on_some-Keeps result.checkpoint (λ c.
                    checked-Keeps (check checkpoint_site) (record {
                      keeps =
                          λ s k. written-keeps Uncommitted _ s (save c s.checkpoints) k (λ x. k);
                    })))
                  (λ u.
                    >>=-Refuses
                      (on_some-Keeps result.resume_token (λ t.
                        checked-Keeps (check token_site) (record {
                          keeps = λ s k.
                              written-keeps Uncommitted _ s (save_resume_token t s.checkpoints) k
                                (λ x. k);
                        })))
                      (λ u.
                        >>=-Refuses
                          (on_some-Keeps _
                            (λ p. checked-Keeps (check payload_site) (write_payload-Keeps p)))
                          (λ u.
                            >>=-Refuses
                              (on_some-Keeps result.pending_approval (λ a.
                                checked-Keeps (check approval_site)
                                  (write_approval-Keeps snapshot r a)))
                              (λ u.
                                >>=-Refuses (write_artifacts-Keeps check 0 result.artifacts) (λ u.
                                  Refuses->>= _ (refused_check (check execution_site) e _ h)))))))))

-- Where the fence passes each check, the guarded commit is the unguarded one.
pub persist_guarded_lem :
    {B P : Type 0} (make_id : List IdPart → String)
    (marshal : FollowUpExecutionReplayDetails → Result String)
    (validate_payload : P → Option RuntimeError) (now : ℕ) (check : FenceSite → Option RuntimeError)
    (snapshot : TaskGraphSnapshot (StateSnapshot B)) (r : TaskExecutionRecord)
    (result : FollowUpWorkflowRunResult B P)
    → ((site : FenceSite) → check site ≡ none)
    → persist_execution_outcome_guarded make_id marshal validate_payload now check snapshot r result
      ≡ persist_execution_outcome make_id marshal validate_payload now snapshot r result
persist_guarded_lem make_id marshal validate_payload now check snapshot r result h =
    ap
      (λ c.
        persist_execution_outcome_guarded make_id marshal validate_payload now c snapshot r result)
      (fun_ext h)
    ∙ persist_accepting make_id marshal validate_payload now snapshot r result

-- A guarded commit whose fence is refused right before the execution is written fails, and leaves the
-- executions and the replay log as they were, whatever the earlier checks answer.
pub persist_guarded_refused :
    {B P : Type 0} (make_id : List IdPart → String)
    (marshal : FollowUpExecutionReplayDetails → Result String)
    (validate_payload : P → Option RuntimeError) (now : ℕ) (check : FenceSite → Option RuntimeError)
    (e : RuntimeError) (snapshot : TaskGraphSnapshot (StateSnapshot B)) (r : TaskExecutionRecord)
    (result : FollowUpWorkflowRunResult B P) (s : Backend B P)
    → check execution_site ≡ some e
    → ((persist_execution_outcome_guarded make_id marshal validate_payload now check snapshot r
          result s).0.executions
        ≡ s.executions)
      × ((persist_execution_outcome_guarded make_id marshal validate_payload now check snapshot r
            result s).0.replay
          ≡ s.replay)
      × IsError
          (persist_execution_outcome_guarded make_id marshal validate_payload now check snapshot r
            result s).1
persist_guarded_refused make_id marshal validate_payload now check e snapshot r result s h =
    let ((same, log), failed) =
      (persist-Refuses make_id marshal validate_payload now s.executions s.replay check e snapshot r
          result h).refuses
        s (refl, refl) in
    (same, log, failed)
