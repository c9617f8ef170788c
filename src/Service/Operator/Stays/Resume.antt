-- ===== src/Service/Operator/Stays/Resume.antt =====
-- resumeTaskInternal of internal/runtime/operator_service.go keeps what a stored approval has reached.
use personal_cfo_os.Base.{ℕ, String, Bool, true, false, Option, none, some}
use personal_cfo_os.Errors.{Result, ok, err, RuntimeError}
use personal_cfo_os.Workflow.Types.{CheckpointRecord, ResumeToken}
use personal_cfo_os.Stores.Types.{TaskExecutionRecord, ApprovalStatus, OperatorActionRecord}
use personal_cfo_os.TaskGraph.{FollowUpTaskRecord, TaskGraphSnapshot}
use personal_cfo_os.Service.Types.{
  StateSnapshot, FollowUpWorkflowRunResult, Backend, TaskCommandResult,
}
use personal_cfo_os.Service.Effects.{Step, Keeps, >>=-Keeps, pure-Keeps, if-Keeps, when}
use personal_cfo_os.Service.Actions.{Begun, duplicate, fresh}
use personal_cfo_os.Service.Attempts.{Capability}
use personal_cfo_os.Service.Operator.{Deps, Resolution, found, missing}
use personal_cfo_os.Service.Operator.Resume.{
  is_waiting, after_failure, after_success, after_resume, run_resume, with_capability,
  with_pending_state, resume_latest, unless_unresolved, resume_fresh, resume_begun,
  resume_task_internal, ResumeFollowUpTaskCommand,
}
use personal_cfo_os.Service.Operator.Keeps.{
  save_changed_graph-Keeps, rewrite_execution-Keeps, write_action-Keeps, fail_action-Keeps,
  begin_action-Keeps, append_replay-Keeps, reads-Keeps, latest_execution-Keeps,
  rebuild_projection-Keeps, persist_outcome-Keeps,
}
use personal_cfo_os.Service.Operator.Resolved.{HasReached-save}
use personal_cfo_os.Service.Operator.Stays.{Stays, dropping-Keeps}

module _ {B P : Type 0} (env : Deps B P) (id : String) (status : ApprovalStatus) where
  module _ (clock : ℕ → ℕ) (explicit : Bool) (task : FollowUpTaskRecord)
      (action : OperatorActionRecord) where
    after_failure-Keeps :
        (saved : TaskGraphSnapshot (StateSnapshot B)) (latest : TaskExecutionRecord)
        (e : RuntimeError) (summary : String)
        → Keeps
            (Stays id status)
            (after_failure env clock explicit task action saved latest e summary)
    unfolding after_failure
    after_failure-Keeps saved latest e summary =
        if-Keeps explicit
          (>>=-Keeps (rewrite_execution-Keeps _ _ _)
            (λ u. dropping-Keeps id status (save_changed_graph-Keeps _ _ _)))
          (>>=-Keeps (rewrite_execution-Keeps _ _ _)
            (λ u. dropping-Keeps id status (save_changed_graph-Keeps _ _ _)))

    when-Keeps :
        (b : Bool) {m : Step (Backend B P) (Unit {0})}
        → Keeps (Stays id status) m
        → Keeps (Stays id status) (when b m)
    when-Keeps true h = h
    when-Keeps false h = pure-Keeps

    after_success-Keeps :
        (saved : TaskGraphSnapshot (StateSnapshot B)) (latest : TaskExecutionRecord)
        (result : FollowUpWorkflowRunResult B P)
        → Keeps (Stays id status) (after_success env clock explicit task action saved latest result)
    unfolding after_success
    after_success-Keeps saved latest result =
        >>=-Keeps
          (persist_outcome-Keeps _ env.make_id env.marshal env.validate_payload (clock 3)
            (HasReached-save id status) saved _ result)
          (λ r. >>=-Keeps (save_changed_graph-Keeps _ _ _) (λ graph.
            >>=-Keeps (write_action-Keeps _ _) (λ u.
              >>=-Keeps (when-Keeps explicit (append_replay-Keeps _ _)) (λ u.
                >>=-Keeps (rebuild_projection-Keeps _ env graph.graph.graph_id)
                  (λ u. pure-Keeps)))))

    after_resume-Keeps :
        (saved : TaskGraphSnapshot (StateSnapshot B)) (latest : TaskExecutionRecord)
        (answer : Result (FollowUpWorkflowRunResult B P))
        → Keeps (Stays id status) (after_resume env clock explicit task action saved latest answer)
    after_resume-Keeps saved latest (ok result) = after_success-Keeps saved latest result
    after_resume-Keeps saved latest (err e) =
        >>=-Keeps (after_failure-Keeps saved latest e _) (λ u. fail_action-Keeps _ _ _ _ _ _)

    run_resume-Keeps :
        (snapshot : TaskGraphSnapshot (StateSnapshot B)) (latest : TaskExecutionRecord)
        (checkpoint : CheckpointRecord) (token : ResumeToken) (payload : P)
        (pending_state : StateSnapshot B) (capability : Capability B P)
        → Keeps (Stays id status) (
            run_resume env clock explicit task action snapshot latest checkpoint token payload
              pending_state capability)
    unfolding run_resume
    run_resume-Keeps snapshot latest checkpoint token payload pending_state capability =
        >>=-Keeps (save_changed_graph-Keeps _ _ _) (λ saved.
          >>=-Keeps (rewrite_execution-Keeps _ _ _) (λ u. after_resume-Keeps saved latest _))

    with_capability-Keeps :
        (answer : Resolution B P) {run : Capability B P → Step (Backend B P) TaskCommandResult}
        → ((capability : Capability B P) → Keeps (Stays id status) (run capability))
        → Keeps (Stays id status) (with_capability env clock explicit task action answer run)
    with_capability-Keeps (found capability) h = h capability
    with_capability-Keeps (missing reason) h = fail_action-Keeps _ _ _ _ _ _

    with_pending_state-Keeps :
        (latest : TaskExecutionRecord) (ref : Option String)
        {run : StateSnapshot B → Step (Backend B P) TaskCommandResult}
        → ((x : StateSnapshot B) → Keeps (Stays id status) (run x))
        → Keeps (Stays id status) (with_pending_state env clock explicit task action latest ref run)
    with_pending_state-Keeps latest none h = fail_action-Keeps _ _ _ _ _ _
    with_pending_state-Keeps latest (some ref) h = >>=-Keeps (reads-Keeps _ _) h

    resume_latest-Keeps :
        (snapshot : TaskGraphSnapshot (StateSnapshot B)) (latest : Option TaskExecutionRecord)
        → Keeps (Stays id status) (resume_latest env clock explicit task action snapshot latest)
    resume_latest-Keeps snapshot none = fail_action-Keeps _ _ _ _ _ _
    resume_latest-Keeps snapshot (some latest) = >>=-Keeps (reads-Keeps _ _) (λ checkpoint.
        >>=-Keeps (reads-Keeps _ _) (λ token. >>=-Keeps (reads-Keeps _ _) (λ payload.
          with_pending_state-Keeps latest (env.pending_state_ref payload) (λ pending_state.
            with_capability-Keeps (env.resolve task.task)
              (run_resume-Keeps snapshot latest checkpoint token payload pending_state)))))

    unless_unresolved-Keeps :
        (refusal : Option RuntimeError) {run : Step (Backend B P) TaskCommandResult}
        → Keeps (Stays id status) run
        → Keeps (Stays id status) (unless_unresolved env clock explicit task action refusal run)
    unless_unresolved-Keeps none h = h
    unless_unresolved-Keeps (some e) h = fail_action-Keeps _ _ _ _ _ _

    resume_fresh-Keeps :
        (snapshot : TaskGraphSnapshot (StateSnapshot B))
        → Keeps (Stays id status) (resume_fresh env clock explicit task action snapshot)
    unfolding resume_fresh
    resume_fresh-Keeps snapshot =
        if-Keeps (is_waiting task.status)
          (>>=-Keeps (reads-Keeps _ _) (λ approval.
            unless_unresolved-Keeps _
              (>>=-Keeps (latest_execution-Keeps _ _ _) (resume_latest-Keeps snapshot))))
          (fail_action-Keeps _ _ _ _ _ _)

  resume_begun-Keeps :
      (clock : ℕ → ℕ) (explicit : Bool) (snapshot : TaskGraphSnapshot (StateSnapshot B))
      (task : FollowUpTaskRecord) (b : Begun)
      → Keeps (Stays id status) (resume_begun env clock explicit snapshot task b)
  resume_begun-Keeps clock explicit snapshot task (duplicate action answer) = record {
    keeps = λ s k. k;
  }
  resume_begun-Keeps clock explicit snapshot task (fresh action) = record {
    keeps = (resume_fresh-Keeps clock explicit task action snapshot).keeps;
  }

  pub resume_task-Keeps :
      (clock : ℕ → ℕ) (explicit : Bool) (cmd : ResumeFollowUpTaskCommand)
      → Keeps (Stays id status) (resume_task_internal env clock explicit cmd)
  unfolding resume_task_internal
  resume_task-Keeps clock explicit cmd = >>=-Keeps (reads-Keeps _ _) (λ located.
      >>=-Keeps (begin_action-Keeps _ _ _ _)
        (λ b. resume_begun-Keeps clock explicit located.0 located.1 b))
