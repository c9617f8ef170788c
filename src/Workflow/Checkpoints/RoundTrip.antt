-- ===== src/Workflow/Checkpoints/RoundTrip.antt =====
-- A checkpoint and its token, saved and resumed.
use personal_cfo_os.Base.{
  ℕ, ◌+◌, ◌*◌, String, ◌≡◌, refl, ap, inl, inr, none, some, List, [], ◌∷◌, ◌++◌, if◌then◌else◌, ltb,
  string_eq, eq_iff, Option-cases, Bool-cases,
}
use personal_cfo_os.Base.Dict.{lookup, insert, lookup-insert_self}
use personal_cfo_os.Errors.{ok, err, RuntimeError, failure}
use personal_cfo_os.WorkQueue.Types.{IdPart}
use personal_cfo_os.Workflow.Types.{
  WorkflowExecutionState, CheckpointRecord, ResumeToken, validate_checkpoint, validate_token,
}
use personal_cfo_os.Workflow.Controller.{resume}
use personal_cfo_os.Workflow.Checkpoints.{
  Runtime, of_workflow, save, load, save_resume_token, load_resume_token, token_life,
  checkpoint_record, resume_token, issue, record_checkpoint, checkpoint, resume_checked,
  resume_workflow,
}

module _ (make_id : List IdPart → String) (c : CheckpointRecord) (now : ℕ) (r : Runtime) where
  abbrev issued : ResumeToken
  issued = resume_token make_id c now

  -- The runtime after both saves.
  abbrev recorded : Runtime
  recorded = record r {
    checkpoints =
        insert c.workflow_id (insert c.id c (of_workflow (lookup c.workflow_id r.checkpoints)))
          r.checkpoints;
    tokens = insert issued.token issued r.tokens;
    journal = r.journal ++ (c ∷ []);
    timeline =
        r.timeline
        ++ (record {
          state = c.state;
          event = "checkpoint_created";
          summary = c.summary;
          occurred_at = now;
        }
            ∷ []);
  }

  recorded_lem :
      validate_checkpoint c ≡ none
      → validate_token issued ≡ none
      → record_checkpoint make_id c now r ≡ (recorded, ok (c, issued))
  unfolding record_checkpoint issue save save_resume_token
  recorded_lem v w = rw (v, record_checkpoint) (rw (w, issue))

  no_checkpoint :
      (e : RuntimeError)
      → validate_checkpoint c ≡ some e
      → record_checkpoint make_id c now r ≡ (r, err e)
  unfolding record_checkpoint save
  no_checkpoint e v = rw (v, record_checkpoint)

  no_token :
      (e : RuntimeError)
      → validate_checkpoint c ≡ none
      → validate_token issued ≡ some e
      → (record_checkpoint make_id c now r).1 ≡ err e
  unfolding record_checkpoint issue save save_resume_token
  no_token e v w = rw (v, record_checkpoint) (rw (w, issue))

  -- A recording that succeeds has passed both validations.
  recorded-valid :
      (d : CheckpointRecord) (t : ResumeToken)
      → (record_checkpoint make_id c now r).1 ≡ ok (d, t)
      → (validate_checkpoint c ≡ none)
        × (validate_token issued ≡ none)
        × (record_checkpoint make_id c now r ≡ (recorded, ok (c, issued)))
  recorded-valid d t h = elim (Option-cases (validate_checkpoint c)) [
    | inr (e, v) ↦ cc (h, ap (λ p. p.1) (no_checkpoint e v))
    | inl v ↦ elim (Option-cases (validate_token issued)) [
      | inr (e, w) ↦ cc (h, no_token e v w)
      | inl w ↦ (v, w, recorded_lem v w)
    ]
  ]

  load-recorded : load c.workflow_id c.id recorded ≡ ok c
  unfolding load
  load-recorded =
      rw
        (lookup-insert_self c.workflow_id
          (insert c.id c (of_workflow (lookup c.workflow_id r.checkpoints))) r.checkpoints)
        (rw (lookup-insert_self c.id c (of_workflow (lookup c.workflow_id r.checkpoints))))

  load_token-recorded : load_resume_token issued.token recorded ≡ ok issued
  unfolding load_resume_token
  load_token-recorded = rw (lookup-insert_self issued.token issued r.tokens)

  resume-issued :
      (later : ℕ)
      → validate_checkpoint c ≡ none
      → validate_token issued ≡ none
      → resume c issued later ≡ (
          if ltb (now + token_life) later
          then err (failure "resume token has expired")
          else ok c.resume_state)
  unfolding resume resume_token
  resume-issued later v w =
      rw (v, w, (eq_iff c.workflow_id c.workflow_id).1 refl, (eq_iff c.id c.id).1 refl)

  resumed-recorded :
      (later again : ℕ)
      → validate_checkpoint c ≡ none
      → validate_token issued ≡ none
      → (resume_workflow c.workflow_id c.id issued later again recorded).1 ≡ (
          if ltb (now + token_life) later
          then err (failure "resume token has expired")
          else ok c.resume_state)
  unfolding resume_workflow resume_checked
  resumed-recorded later again v w =
      rw (load-recorded, resume_workflow, resume_checked)
        (rw (load_token-recorded, resume_workflow)
          (elim (Bool-cases (ltb (now + token_life) later)) [
            | inl e ↦ rw (resume-issued later v w, e)
            | inr e ↦ rw (resume-issued later v w, e)
          ]))

  resume-recorded :
      (later again : ℕ) (d : CheckpointRecord) (t : ResumeToken)
      → (record_checkpoint make_id c now r).1 ≡ ok (d, t)
      → (resume_workflow c.workflow_id d.id t later again (record_checkpoint make_id c now r).0).1
        ≡ (if ltb (now + token_life) later
            then err (failure "resume token has expired")
            else ok c.resume_state)
  resume-recorded later again d t h =
      let (v, w, e) = recorded-valid d t h in
      let made : (record_checkpoint make_id c now r).1 ≡ ok (c, issued) = ap (λ p. p.1) e in
      let same_c : d ≡ c = cc in
      let same_t : t ≡ issued = cc in rw (e, same_c, same_t) (resumed-recorded later again v w)

module _ (make_id : List IdPart → String) where
  -- When a checkpoint is taken, resuming it by its identifier and token returns the resume state up
  -- to 24 hours later, and fails as expired from then on.
  pub checkpoint-resume :
      (workflow_id summary : String) (current resume_state : WorkflowExecutionState)
      (version now later again : ℕ) (r : Runtime) (c : CheckpointRecord) (t : ResumeToken)
      → (checkpoint make_id workflow_id current resume_state version summary now r).1 ≡ ok (c, t)
      → (resume_workflow workflow_id c.id t later again
          (checkpoint make_id workflow_id current resume_state version summary now r).0).1
        ≡ (if ltb (now + 24 * 3600 * 1000000000) later
            then err (failure "resume token has expired")
            else ok resume_state)
  unfolding checkpoint checkpoint_record
  checkpoint-resume workflow_id summary current resume_state version now later again r c t h =
      resume-recorded make_id
        (checkpoint_record make_id workflow_id current resume_state version summary now) now r later
        again c t h
