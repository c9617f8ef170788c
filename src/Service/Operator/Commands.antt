-- ===== src/Service/Operator/Commands.antt =====
-- ApproveTask and ResumeFollowUpTask of internal/runtime/operator_service.go, and any number of the
-- service's commands one after the other.
use personal_cfo_os.Base.{ℕ, ◌+◌, String, true, false, some, List, [], ◌∷◌, if◌then◌else◌, push}
use personal_cfo_os.Errors.{Result, ok, err}
use personal_cfo_os.Stores.Types.{ApprovalStateRecord, OperatorActionRecord, approve}
use personal_cfo_os.Service.Types.{Backend, TaskCommandResult, no_result}
use personal_cfo_os.Service.Effects.{Step, ◌>>◌}
use personal_cfo_os.Service.Actions.{error_text}
use personal_cfo_os.Service.Operator.{
  ApproveTaskCommand, Deps, rebuild_projection, as_applied, on_approval, approve_pending,
  dispatch_resume, deny_task,
}
use personal_cfo_os.Service.Operator.Resume.{ResumeFollowUpTaskCommand, resume_task_internal}
use personal_cfo_os.Service.Operator.Retry.{
  RetryFailedFollowUpTaskCommand, retry_failed_follow_up_task,
}
use personal_cfo_os.Service.Operator.Reevaluate.{ReevaluateTaskGraphCommand, reevaluate_command}

abbrev pub auto_resume : ApproveTaskCommand → ApprovalStateRecord → ResumeFollowUpTaskCommand
auto_resume cmd a = record {
  request_id = push a.approval_id (push ":approve-resume:" cmd.request_id);
  graph_id = a.graph_id;
  task_id = a.task_id;
  actor = cmd.actor;
  roles = cmd.roles;
  note = "auto resume after approval";
  expected_version = 0;
}

abbrev pub resumed_answer :
    (String → String) → TaskCommandResult → Result TaskCommandResult → TaskCommandResult
resumed_answer quote answer (ok r) = record answer {
  auto_resume_applied = true;
  execution_id = r.execution_id;
  status = r.status;
}
resumed_answer quote answer (err e) = record answer { failure_summary = error_text quote e }

module _ {B P : Type 0} (env : Deps B P) where
  -- The approval stands where the resume fails.
  abbrev pub try_resume :
      ApproveTaskCommand
      → ApprovalStateRecord
      → (ℕ → ℕ)
      → TaskCommandResult
      → Step (Backend B P) TaskCommandResult
  try_resume cmd a clock answer s =
      let ran = resume_task_internal env clock false (auto_resume cmd a) s in
      (ran.0, ok (resumed_answer env.quote answer ran.1))

  unfoldable pub resume_now :
      ApproveTaskCommand
      → ApprovalStateRecord
      → OperatorActionRecord
      → (ℕ → ℕ)
      → Step (Backend B P) TaskCommandResult
  resume_now cmd a action clock =
      rebuild_projection env a.graph_id
      >> try_resume cmd a (λ i. clock (2 + i))
          (record no_result {
            action = some (as_applied (clock 1) action);
            graph_id = a.graph_id;
            task_id = a.task_id;
            approval_id = a.approval_id;
            auto_resume_tried = true;
          })

  unfoldable pub approve_task : ApproveTaskCommand → (ℕ → ℕ) → Step (Backend B P) TaskCommandResult
  approve_task cmd clock = on_approval env approve "approved" cmd clock (λ a action.
      approve_pending env cmd a action (clock 1)
      >> (if env.async
          then dispatch_resume env a action (clock 1)
          else resume_now cmd a action clock))

  unfoldable pub resume_follow_up_task :
      ResumeFollowUpTaskCommand → (ℕ → ℕ) → Step (Backend B P) TaskCommandResult
  resume_follow_up_task cmd clock = resume_task_internal env clock true cmd

-- A command and the clock while it runs.
pub data OperatorCommand : Type 0 where
  approve_command : ApproveTaskCommand → (ℕ → ℕ) → OperatorCommand
  deny_command : ApproveTaskCommand → (ℕ → ℕ) → OperatorCommand
  resume_command : ResumeFollowUpTaskCommand → (ℕ → ℕ) → OperatorCommand
  retry_command : RetryFailedFollowUpTaskCommand → (ℕ → ℕ) → ℕ → OperatorCommand
  reevaluate_graph_command : ReevaluateTaskGraphCommand → (ℕ → ℕ) → OperatorCommand

module _ {B P : Type 0} (env : Deps B P) where
  unfoldable pub run_command : OperatorCommand → Step (Backend B P) TaskCommandResult
  run_command (approve_command cmd clock) = approve_task env cmd clock
  run_command (deny_command cmd clock) = deny_task env cmd clock
  run_command (resume_command cmd clock) = resume_follow_up_task env cmd clock
  run_command (retry_command cmd clock late) = retry_failed_follow_up_task env clock late cmd
  run_command (reevaluate_graph_command cmd clock) = reevaluate_command env cmd clock

  -- The stores after the commands, whether they succeed or fail.
  unfoldable pub run_commands : List OperatorCommand → Backend B P → Backend B P
  run_commands [] s = s
  run_commands (c ∷ cs) s = run_commands cs (run_command c s).0
