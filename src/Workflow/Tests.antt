-- ===== src/Workflow/Tests.antt =====
-- The workflow's theorems at a workflow that pauses while acting.
use personal_cfo_os.Base.{◌+◌, String, ◌≡◌, refl, none, List, [], ◌∷◌}
use personal_cfo_os.Errors.{ok, ◌>>=◌}
use personal_cfo_os.Base.Dict.{lookup}
use personal_cfo_os.WorkQueue.Types.{IdPart}
use personal_cfo_os.Workflow.Types.{
  WorkflowExecutionState, acting, waiting_approval, transient, HumanApprovalPending,
  RecoveryStrategy, CheckpointRecord, ResumeToken, validate_checkpoint, validate_token,
}
use personal_cfo_os.Workflow.Controller.{
  handle_failure, strategy_for, resume, Leads, handle_failure-strategy_for,
}
use personal_cfo_os.Workflow.Checkpoints.{
  pause_workflow, Runtime, empty_runtime, checkpoint, checkpoint_record, resume_token,
  record_checkpoint, issue, save, load, save_resume_token, load_resume_token, resume_workflow,
  resume_checked, token_life,
}
use personal_cfo_os.Workflow.Checkpoints.RoundTrip.{checkpoint-resume}
use personal_cfo_os.Workflow.Checkpoints.Sound.{Permits, resume_workflow-Permits}

abbrev ids : List IdPart → String
ids parts = "id-1"

abbrev taken : CheckpointRecord
taken = record {
  id = "id-1";
  workflow_id = "workflow-1";
  state = waiting_approval;
  resume_state = acting;
  state_version = 3;
  summary = "approval";
  captured_at = 10;
}

abbrev token : ResumeToken
token = record {
  token = "id-1";
  workflow_id = "workflow-1";
  checkpoint_id = "id-1";
  issued_at = 10;
  expires_at = 10 + token_life;
}

abbrev before : Runtime
before = record empty_runtime {
  checkpoints = ("workflow-1", ("id-1", taken) ∷ []) ∷ [];
  tokens = ("id-1", token) ∷ [];
}

abbrev request : HumanApprovalPending
request = record {
  approval_id = "approval-1";
  workflow_id = "workflow-1";
  requested_action = "disclose";
  required_roles = [];
  requested_at = 10;
  deadline = none;
}

handle_failure-strategy_for_example :
    ((handle_failure acting transient >>= λ p. ok p.1) ≡ strategy_for transient)
    × ((next : WorkflowExecutionState) (s : RecoveryStrategy)
        → handle_failure acting transient ≡ ok (next, s)
        → Leads s next)
handle_failure-strategy_for_example = handle_failure-strategy_for acting transient refl

abbrev paused_run : Runtime
paused_run =
    (checkpoint ids "workflow-1" waiting_approval acting 3 "approval" 10
      (pause_workflow acting request 9 empty_runtime).0).0

checkpoint-resume_example :
    (resume_workflow "workflow-1" "id-1" token 50 51
      (checkpoint ids "workflow-1" waiting_approval acting 3 "approval" 10 empty_runtime).0).1
    ≡ ok acting
unfolding checkpoint checkpoint_record record_checkpoint issue save save_resume_token resume_token
    validate_checkpoint validate_token
checkpoint-resume_example =
    checkpoint-resume ids "workflow-1" "approval" waiting_approval acting 3 10 50 51 empty_runtime
      taken token refl

resume_workflow-Permits_example :
    (c : CheckpointRecord) × (t : ResumeToken) × (load "workflow-1" "id-1" before ≡ ok c)
    × (load_resume_token "id-1" before ≡ ok t)
    × Permits c t 50 acting
unfolding resume_workflow resume_checked load load_resume_token lookup resume validate_checkpoint
    validate_token
resume_workflow-Permits_example =
    resume_workflow-Permits "workflow-1" "id-1" token 50 51 before acting refl
