-- ===== src/Workflow/Checkpoints/Sound.antt =====
-- What a resume that succeeds has checked.
use personal_cfo_os.Base.{
  ℕ, ◌≤◌, String, ◌≡◌, ap, ◌∙◌, inl, inr, true, none, arith, string_eq, eq_iff, subst,
}
use personal_cfo_os.Errors.{ok, err, >>=-ok, unless-ok, Result-cases}
use personal_cfo_os.Workflow.Types.{
  WorkflowExecutionState, CheckpointRecord, ResumeToken, validate_checkpoint, validate_token,
  valid_workflow_state,
}
use personal_cfo_os.Workflow.Controller.{resume}
use personal_cfo_os.Workflow.Checkpoints.{
  Runtime, load, load_resume_token, resume_checked, resume_workflow,
}

-- The token is bound to the checkpoint and has not run out, and the state to go on in is valid.
pub record Permits (c : CheckpointRecord) (t : ResumeToken) (now : ℕ)
    (next : WorkflowExecutionState) : Type 0 where
  pub goes_on : next ≡ c.resume_state
  pub valid_next : valid_workflow_state next ≡ true
  pub same_workflow : t.workflow_id ≡ c.workflow_id
  pub same_checkpoint : t.checkpoint_id ≡ c.id
  pub in_time : now ≤ t.expires_at

checkpoint_states :
    (c : CheckpointRecord)
    → validate_checkpoint c ≡ none
    → valid_workflow_state c.resume_state ≡ true
unfolding validate_checkpoint
checkpoint_states c h = ground arith

resume-Permits :
    (c : CheckpointRecord) (t : ResumeToken) (now : ℕ) (next : WorkflowExecutionState)
    → resume c t now ≡ ok next
    → Permits c t now next
unfolding resume
resume-Permits c t now next h =
    let (valid, rest) = unless-ok (validate_checkpoint c) _ next h in
    let (valid', last) = unless-ok (validate_token t) _ next rest in
    ground (
      arith,
      checkpoint_states c valid,
      eq_iff t.workflow_id c.workflow_id,
      eq_iff t.checkpoint_id c.id,
    )

module _ (workflow_id checkpoint_id token : String) (now : ℕ) (r : Runtime) where
  checked-Permits :
      (c : CheckpointRecord) (next : WorkflowExecutionState)
      → resume_checked workflow_id checkpoint_id token now r ≡ ok (c, next)
      → (t : ResumeToken) × (load workflow_id checkpoint_id r ≡ ok c)
        × (load_resume_token token r ≡ ok t)
        × Permits c t now next
  unfolding resume_checked
  checked-Permits c next h =
      let (d, loaded, h') = >>=-ok (load workflow_id checkpoint_id r) _ _ h in
      let (t, loaded', h'') = >>=-ok (load_resume_token token r) _ _ h' in
      let (s, resumed, last) = >>=-ok (resume d t now) _ _ h'' in
      let same_c : d ≡ c = cc in
      let same_s : s ≡ next = cc in
      (
        t,
        cc,
        loaded',
        subst (λ e. Permits e t now next) same_c
            (resume-Permits d t now next (resumed ∙ ap ok same_s)),
      )

-- A resume that succeeds found a stored checkpoint and a stored token under the names it was given,
-- and that stored token, whatever else the caller's says, permits the state that it returns.
pub resume_workflow-Permits :
    (workflow_id checkpoint_id : String) (token : ResumeToken) (now later : ℕ) (r : Runtime)
    (next : WorkflowExecutionState)
    → (resume_workflow workflow_id checkpoint_id token now later r).1 ≡ ok next
    → (c : CheckpointRecord) × (t : ResumeToken) × (load workflow_id checkpoint_id r ≡ ok c)
      × (load_resume_token token.token r ≡ ok t)
      × Permits c t now next
unfolding resume_workflow resume_checked
resume_workflow-Permits workflow_id checkpoint_id token now later r next h =
    elim (Result-cases (resume_checked workflow_id checkpoint_id token.token now r)) [
      | inl ((c, s), e) ↦
          let at : ok s ≡ ok next = rw (e, resume_workflow) at h in
          let same : s ≡ next = cc in
          let (t, loaded, stored, permits) =
            checked-Permits workflow_id checkpoint_id token.token now r c next
              (e ∙ ap (λ x. ok (c, x)) same) in
          (c, t, loaded, stored, permits)
      | inr (e, w) ↦ let at : err e ≡ ok next = rw (w, resume_workflow) at h in cc
    ]
