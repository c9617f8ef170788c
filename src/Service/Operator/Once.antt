-- ===== src/Service/Operator/Once.antt =====
-- An approval is resolved once: the commands of internal/runtime/operator_service.go and
-- service.go against the stored approvals.
use personal_cfo_os.Base.{
  ℕ, String, true, false, Option, none, some, List, [], ◌∷◌, Bool-cases, Option-cases, inl, inr,
}
use personal_cfo_os.Stores.Types.{
  TaskExecutionRecord, ApprovalStateRecord, ApprovalStatus, is_pending, OperatorActionRecord,
  OperatorActionType,
}
use personal_cfo_os.Stores.Approvals.{load_approval}
use personal_cfo_os.Service.Types.{Backend, TaskCommandResult}
use personal_cfo_os.Service.Effects.{Step, Keeps, >>=-Keeps, pure-Keeps, if-Keeps}
use personal_cfo_os.Service.Operator.{
  ApproveTaskCommand, Deps, reads, on_approval, approve_pending, dispatch_resume, deny_execution,
  deny_pending, deny_task, resolved,
}
use personal_cfo_os.Service.Operator.Commands.{
  resume_now, approve_task, resume_follow_up_task, OperatorCommand, approve_command, deny_command,
  resume_command, retry_command, reevaluate_graph_command, run_command, run_commands,
}
use personal_cfo_os.Service.Operator.Keeps.{
  save_changed_graph-Keeps, rewrite_execution-Keeps, write_action-Keeps, enqueue_work_item-Keeps,
  fail_action-Keeps, begin_action-Keeps, append_replay-Keeps, reads-Keeps, latest_execution-Keeps,
  rebuild_projection-Keeps,
}
use personal_cfo_os.Service.Operator.Resolved.{
  approves, denies, MayWrite, HasReached, pending-MayWrite,
}
use personal_cfo_os.Service.Operator.Stays.{Stays, write_resolution-Keeps, unless_repeated-Keeps}
use personal_cfo_os.Service.Operator.Stays.Resume.{resume_task-Keeps}
use personal_cfo_os.Service.Operator.Stays.Retry.{retry_failed-Keeps, reevaluate_command-Keeps}

module _ {B P : Type 0} (env : Deps B P) (id : String) (status : ApprovalStatus) where
  on_approval-Keeps :
      (type : OperatorActionType) (to : String) (cmd : ApproveTaskCommand) (clock : ℕ → ℕ)
      (rest : ApprovalStateRecord → OperatorActionRecord → Step (Backend B P) TaskCommandResult)
      → ((a : ApprovalStateRecord) (action : OperatorActionRecord)
          → MayWrite id status a
          → Keeps (Stays id status) (rest a action))
      → Keeps (Stays id status) (on_approval env type to cmd clock rest)
  unfolding on_approval reads
  on_approval-Keeps type to cmd clock rest h = record {
    keeps = λ s k. elim (Option-cases (load_approval cmd.approval_id s.approvals)) [
      | inl e ↦ rw (e, on_approval, reads) k
      | inr (a, e) ↦
          rw (e, on_approval, reads)
            ((>>=-Keeps (begin_action-Keeps _ _ _ _) (λ b.
                unless_repeated-Keeps id status b (λ action.
                  elim (Bool-cases (is_pending a.status)) [
                    | inl waits ↦ rw waits (
                        h a action
                          (pending-MayWrite id status cmd.approval_id a s.approvals e waits k))
                    | inr over ↦ rw over (fail_action-Keeps _ _ _ _ _ _)
                  ]))).keeps
              s k)
    ];
  }

  deny_execution-Keeps :
      (reason : String) (now : ℕ) (r : Option TaskExecutionRecord)
      → Keeps (Stays id status) (deny_execution env reason now r)
  unfolding deny_execution
  deny_execution-Keeps reason now none = pure-Keeps
  deny_execution-Keeps reason now (some r) = rewrite_execution-Keeps _ _ _

  deny_task-Keeps :
      (cmd : ApproveTaskCommand) (clock : ℕ → ℕ) → Keeps (Stays id status) (deny_task env cmd clock)
  unfolding deny_task deny_pending resolved
  deny_task-Keeps cmd clock = on_approval-Keeps _ _ cmd clock _ (λ a action may.
      >>=-Keeps (reads-Keeps _ _) (λ located.
        >>=-Keeps (write_resolution-Keeps id status _ _ may denies) (λ u.
          >>=-Keeps (latest_execution-Keeps _ _ _) (λ latest.
            >>=-Keeps (deny_execution-Keeps _ _ latest) (λ u.
              >>=-Keeps (save_changed_graph-Keeps _ _ _) (λ saved.
                >>=-Keeps (write_action-Keeps _ _) (λ u. >>=-Keeps (append_replay-Keeps _ _) (λ u.
                  >>=-Keeps (rebuild_projection-Keeps _ env a.graph_id) (λ u. pure-Keeps)))))))))

  approve_task-Keeps :
      (cmd : ApproveTaskCommand) (clock : ℕ → ℕ)
      → Keeps (Stays id status) (approve_task env cmd clock)
  unfolding approve_task approve_pending dispatch_resume resume_now resolved
  approve_task-Keeps cmd clock = on_approval-Keeps _ _ cmd clock _ (λ a action may.
      >>=-Keeps
        (>>=-Keeps (write_resolution-Keeps id status _ _ may approves)
          (λ u. >>=-Keeps (write_action-Keeps _ _) (λ u. append_replay-Keeps _ _)))
        (λ u.
          if-Keeps env.async
            (>>=-Keeps (enqueue_work_item-Keeps _ _) (λ answer.
              >>=-Keeps (append_replay-Keeps _ _)
                (λ u. >>=-Keeps (rebuild_projection-Keeps _ env a.graph_id) (λ u. pure-Keeps))))
            (>>=-Keeps (rebuild_projection-Keeps _ env a.graph_id) (λ u. record {
              keeps = λ s k. (resume_task-Keeps env id status _ false _).keeps s k;
            }))))

  run_command-Keeps : (c : OperatorCommand) → Keeps (Stays id status) (run_command env c)
  unfolding run_command resume_follow_up_task
  run_command-Keeps (approve_command cmd clock) = approve_task-Keeps cmd clock
  run_command-Keeps (deny_command cmd clock) = deny_task-Keeps cmd clock
  run_command-Keeps (resume_command cmd clock) = resume_task-Keeps env id status clock true cmd
  run_command-Keeps (retry_command cmd clock late) = retry_failed-Keeps env id status clock late cmd
  run_command-Keeps (reevaluate_graph_command cmd clock) =
      reevaluate_command-Keeps env id status cmd clock

-- Whatever commands operators send, and whether these succeed or fail, a stored approval moves only from
-- pending to approved or to denied: one that has been resolved keeps its status, and none is dropped. The
-- approvals are each stored under their identifier, before the commands and after them.
pub run_commands-HasReached :
    {B P : Type 0} (env : Deps B P) (id : String) (status : ApprovalStatus)
    (cs : List OperatorCommand) (s : Backend B P)
    → HasReached id status s.approvals
    → HasReached id status (run_commands env cs s).approvals
unfolding run_commands
run_commands-HasReached env id status [] s k = k
run_commands-HasReached env id status (c ∷ cs) s k =
    run_commands-HasReached env id status cs (run_command env c s).0
      ((run_command-Keeps env id status c).keeps s k)
