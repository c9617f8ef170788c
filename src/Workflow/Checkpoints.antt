-- ===== src/Workflow/Checkpoints.antt =====
-- internal/runtime/checkpoint_store.go, timeline.go and the checkpoint methods of local_runtime.go.
-- The stored payloads and the event log, which the transitions never read, are left out.
pub mod RoundTrip
pub mod Sound
pub mod Pause
use personal_cfo_os.Base.{
  ℕ, ◌+◌, ◌*◌, String, ◌≡◌, refl, Bool, true, false, ◌||◌, Option, none, some, List, [], ◌∷◌, ◌++◌,
  arith, is_empty, if◌then◌else◌, ◌==◌, string_eq,
}
use personal_cfo_os.Base.Dict.{Dict, lookup, insert}
use personal_cfo_os.Errors.{
  Result, ok, err, RuntimeError, failure, not_found, unless, or_fail, ◌>>=◌,
}
use personal_cfo_os.WorkQueue.Types.{IdPart, text, time}
use personal_cfo_os.Workflow.Types.{
  WorkflowExecutionState, CheckpointRecord, ResumeToken, validate_checkpoint, validate_token,
  HumanApprovalPending, FailureCategory, RecoveryStrategy,
}
use personal_cfo_os.Workflow.Controller.{resume, pause_for_approval}

pub record WorkflowTimelineEntry : Type 0 where
  pub state : WorkflowExecutionState
  pub event : String
  pub summary : String
  pub occurred_at : ℕ

-- The runtime's checkpoint store, journal and timeline.
pub record Runtime : Type 0 where
  pub checkpoints : Dict (Dict CheckpointRecord)
  pub tokens : Dict ResumeToken
  pub journal : List CheckpointRecord
  pub timeline : List WorkflowTimelineEntry

abbrev pub empty_runtime : Runtime
empty_runtime = record { checkpoints = []; tokens = []; journal = []; timeline = [] }

-- The checkpoints of a workflow, none if it has no entry yet.
abbrev pub of_workflow : Option (Dict CheckpointRecord) → Dict CheckpointRecord
of_workflow none = []
of_workflow (some byID) = byID

unfoldable pub save : CheckpointRecord → Runtime → Result Runtime
save c r = unless (validate_checkpoint c) (
    ok (record r {
      checkpoints =
          insert c.workflow_id (insert c.id c (of_workflow (lookup c.workflow_id r.checkpoints)))
            r.checkpoints;
    }))

unfoldable pub load : String → String → Runtime → Result CheckpointRecord
load workflow_id checkpoint_id r = do
  by_workflow ← or_fail (lookup workflow_id r.checkpoints) (not_found "workflow" workflow_id)
  or_fail (lookup checkpoint_id by_workflow) (not_found "checkpoint" checkpoint_id)

unfoldable pub save_resume_token : ResumeToken → Runtime → Result Runtime
save_resume_token t r =
    unless (validate_token t) (ok (record r { tokens = insert t.token t r.tokens }))

unfoldable pub load_resume_token : String → Runtime → Result ResumeToken
load_resume_token t r = or_fail (lookup t r.tokens) (not_found "resume_token" t)

abbrev pub append_timeline : WorkflowExecutionState → String → String → ℕ → Runtime → Runtime
append_timeline state event summary at r = record r {
  timeline =
      r.timeline
      ++ (record { state = state; event = event; summary = summary; occurred_at = at } ∷ []);
}

-- 24 hours in nanoseconds.
abbrev pub token_life : ℕ
token_life = 24 * 3600 * 1000000000

-- A method of the runtime returns the state it leaves also where it fails.
abbrev pub Run : Type 0 → Type 0
Run A = Runtime × Result A

module _ (make_id : List IdPart → String) where
  unfoldable pub checkpoint_record :
      String → WorkflowExecutionState → WorkflowExecutionState → ℕ → String → ℕ → CheckpointRecord
  checkpoint_record workflow_id current resume_state version summary now = record {
    id = make_id (text workflow_id ∷ text summary ∷ time now ∷ []);
    workflow_id = workflow_id;
    state = current;
    resume_state = resume_state;
    state_version = version;
    summary = summary;
    captured_at = now;
  }

  unfoldable pub resume_token : CheckpointRecord → ℕ → ResumeToken
  resume_token c now = record {
    token = make_id (text c.workflow_id ∷ text c.id ∷ time now ∷ []);
    workflow_id = c.workflow_id;
    checkpoint_id = c.id;
    issued_at = now;
    expires_at = now + token_life;
  }

  unfoldable pub issue : CheckpointRecord → ℕ → Runtime → Run (CheckpointRecord × ResumeToken)
  unfolding save_resume_token resume_token
  issue c now r = elim (save_resume_token (resume_token c now) r) [
    | ok r' ↦ (r', ok (c, resume_token c now))
    | err e ↦ (r, err e)
  ]

  -- `LocalWorkflowRuntime.Checkpoint` after the record is built.
  unfoldable pub record_checkpoint :
      CheckpointRecord → ℕ → Runtime → Run (CheckpointRecord × ResumeToken)
  unfolding save issue
  record_checkpoint c now r = elim (save c r) [
    | ok r' ↦ issue c now (
        append_timeline c.state "checkpoint_created" c.summary now
          (record r' { journal = r'.journal ++ (c ∷ []) }))
    | err e ↦ (r, err e)
  ]

  unfoldable pub checkpoint :
      String
      → WorkflowExecutionState
      → WorkflowExecutionState
      → ℕ
      → String
      → ℕ
      → Runtime
      → Run (CheckpointRecord × ResumeToken)
  unfolding record_checkpoint checkpoint_record
  checkpoint workflow_id current resume_state version summary now r =
      record_checkpoint (checkpoint_record workflow_id current resume_state version summary now) now
        r

unfoldable pub resume_checked :
    String → String → String → ℕ → Runtime → Result (CheckpointRecord × WorkflowExecutionState)
unfolding load load_resume_token
resume_checked workflow_id checkpoint_id token now r = do
  c ← load workflow_id checkpoint_id r
  t ← load_resume_token token r
  next ← resume c t now
  ok (c, next)

-- `LocalWorkflowRuntime.Resume`: the clock is read again for the timeline. Only the text of the
-- caller's token is used: the stored token decides.
unfoldable pub resume_workflow :
    String → String → ResumeToken → ℕ → ℕ → Runtime → Run WorkflowExecutionState
unfolding resume_checked
resume_workflow workflow_id checkpoint_id token now later r =
    elim (resume_checked workflow_id checkpoint_id token.token now r) [
      | ok (c, next) ↦ (append_timeline next "resumed" c.summary later r, ok next)
      | err e ↦ (r, err e)
    ]

abbrev after_pause :
    HumanApprovalPending → ℕ → Runtime → Result WorkflowExecutionState → Run WorkflowExecutionState
after_pause p at r (ok next) =
    (append_timeline next "approval_required" p.requested_action at r, ok next)
after_pause p at r (err e) = (r, err e)

-- `LocalWorkflowRuntime.PauseForApproval`
unfoldable pub pause_workflow :
    WorkflowExecutionState → HumanApprovalPending → ℕ → Runtime → Run WorkflowExecutionState
pause_workflow current p at r = after_pause p at r (pause_for_approval current p)
