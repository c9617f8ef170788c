-- ===== src/Service/Attempts/Bounds.antt =====
-- The attempts of internal/runtime/task_activation.go come to an end: how many there are, and with what.
use personal_cfo_os.Base.{
  ℕ, zero, suc, ◌+◌, ◌-◌, ◌≤◌, ◌<◌, ◌≡◌, ◌⊎◌, refl, sym, ap, subst, ◌∙◌, List, String, Bool, true,
  false, Option, none, some, inl, inr, int_suc, if◌then◌else◌, arith, two_64,
}
use personal_cfo_os.Errors.{Result, ok, RuntimeError, Result-cases}
use personal_cfo_os.WorkQueue.Types.{IdPart}
use personal_cfo_os.Workflow.Types.{
  WorkflowExecutionState, acting, waiting_approval as state_waiting, completed as state_completed,
  FailureCategory, RecoveryStrategy, retry, CheckpointRecord, ResumeToken,
}
use personal_cfo_os.Workflow.Controller.{handle_failure}
use personal_cfo_os.Workflow.Checkpoints.{append_timeline}
use personal_cfo_os.Stores.Types.{
  TaskExecutionRecord, TaskQueueStatus, completed, failed, waiting_approval,
}
use personal_cfo_os.TaskGraph.{FollowUpTaskRecord, TaskGraphSnapshot}
use personal_cfo_os.Service.Types.{
  FinancialWorldState, StateSnapshot, FollowUpWorkflowRunResult, Backend,
}
use personal_cfo_os.Service.Effects.{Step}
use personal_cfo_os.Service.Execution.{
  finalize_task_execution_record, by_runtime_state, with_result, with_checkpoint, with_token,
  as_completed, as_waiting, as_failed, as_unsupported,
}
use personal_cfo_os.Service.Graphs.{share_tasks}
use personal_cfo_os.Service.Attempts.{
  Capability, attempts_allowed, is_waiting_state, no_run_result, given_up, if_retry,
  handle_runtime_failure, run_attempts, with_strategy, started_execution, marked_executing,
  execute_single_follow_up,
}

-- An execution that is not under way any more.
abbrev pub IsSettled : TaskQueueStatus → Type 0
IsSettled status = (status ≡ completed) ⊎ ((status ≡ waiting_approval) ⊎ (status ≡ failed))

-- What became of an execution `r` after attempts up to the `last`: one for each time it was tried.
pub record HasEnded (r : TaskExecutionRecord) (last : ℕ) (r' : TaskExecutionRecord) : Type 0 where
  pub settled : IsSettled r'.status
  pub at_most : r'.attempt ≤ last
  pub retries : r'.attempt ≡ r'.retry_count + 1
  pub same_id : r'.execution_id ≡ r.execution_id
  pub same_task : r'.task_id ≡ r.task_id

-- What a result leaves of a record.
pub record Finalizes (r r' : TaskExecutionRecord) : Type 0 where
  pub settled : IsSettled r'.status
  pub same_attempt : r'.attempt ≡ r.attempt
  pub same_retries : r'.retry_count ≡ r.retry_count
  pub same_id : r'.execution_id ≡ r.execution_id
  pub same_task : r'.task_id ≡ r.task_id

with_checkpoint-Finalizes :
    (o : Option CheckpointRecord) (r r' : TaskExecutionRecord)
    → Finalizes r r'
    → Finalizes r (with_checkpoint o r')
with_checkpoint-Finalizes none r r' h = h
with_checkpoint-Finalizes (some c) r r' h = record {
  settled = h.settled;
  same_attempt = h.same_attempt;
  same_retries = h.same_retries;
  same_id = h.same_id;
  same_task = h.same_task;
}

with_token-Finalizes :
    (o : Option ResumeToken) (r r' : TaskExecutionRecord)
    → Finalizes r r'
    → Finalizes r (with_token o r')
with_token-Finalizes none r r' h = h
with_token-Finalizes (some t) r r' h = record {
  settled = h.settled;
  same_attempt = h.same_attempt;
  same_retries = h.same_retries;
  same_id = h.same_id;
  same_task = h.same_task;
}

given_up-Settled : (b : Bool) → IsSettled (if b then waiting_approval else failed)
given_up-Settled true = inr (inl refl)
given_up-Settled false = inr (inr refl)

module _ {B P : Type 0} where
  as_waiting-Finalizes :
      (r : TaskExecutionRecord) (result : FollowUpWorkflowRunResult B P)
      → Finalizes r (as_waiting r result)
  unfolding as_waiting
  as_waiting-Finalizes r result = with_token-Finalizes result.resume_token r _ (
      with_checkpoint-Finalizes result.checkpoint r _ (record {
        settled = inr (inl refl);
        same_attempt = refl;
        same_retries = refl;
        same_id = refl;
        same_task = refl;
      }))

  by_runtime_state-Finalizes :
      (state : WorkflowExecutionState) (r : TaskExecutionRecord)
      (result : FollowUpWorkflowRunResult B P) (now : ℕ)
      → Finalizes r (by_runtime_state state r result now)
  unfolding by_runtime_state as_completed as_failed as_unsupported
  by_runtime_state-Finalizes state_completed r result now = record {
    settled = inl refl;
    same_attempt = refl;
    same_retries = refl;
    same_id = refl;
    same_task = refl;
  }
  by_runtime_state-Finalizes state_waiting r result now = as_waiting-Finalizes r result
  by_runtime_state-Finalizes _ r result now = record {
    settled = inr (inr refl);
    same_attempt = refl;
    same_retries = refl;
    same_id = refl;
    same_task = refl;
  }

  finalize-Finalizes :
      (r : TaskExecutionRecord) (result : FollowUpWorkflowRunResult B P) (now : ℕ)
      → Finalizes r (finalize_task_execution_record r result now)
  unfolding finalize_task_execution_record with_result
  finalize-Finalizes r result now =
      let h =
        by_runtime_state-Finalizes result.runtime_state (with_result r result now) result now in
      record {
        settled = h.settled;
        same_attempt = h.same_attempt;
        same_retries = h.same_retries;
        same_id = h.same_id;
        same_task = h.same_task;
      }

  finalize-HasEnded :
      (r : TaskExecutionRecord) (attempt last : ℕ) (result : FollowUpWorkflowRunResult B P)
      (now : ℕ)
      → attempt ≡ r.retry_count + 1
      → attempt ≤ last
      → HasEnded r last (finalize_task_execution_record (record r { attempt = attempt }) result now)
  finalize-HasEnded r attempt last result now e bound =
      let h = finalize-Finalizes (record r { attempt = attempt }) result now in
      record {
        settled = h.settled;
        at_most = rw h.same_attempt bound;
        retries = h.same_attempt ∙ e ∙ ap (λ n. n + 1) (sym h.same_retries);
        same_id = h.same_id;
        same_task = h.same_task;
      }

retry-cases :
    (strategy : RecoveryStrategy)
    → ((A : Type 0) (again stop : A) → if_retry strategy again stop ≡ again)
      ⊎ ((A : Type 0) (again stop : A) → if_retry strategy again stop ≡ stop)
retry-cases retry = inl (λ A again stop. refl)
retry-cases _ = inr (λ A again stop. refl)

moved : (a b : ℕ) → suc a + b ≡ a + suc b
moved a b = omega arith

-- Each failure has a strategy.
abbrev pub HasStrategies : (RuntimeError → FailureCategory) → Type 0
HasStrategies category_of =
    (e : RuntimeError)
    → (answer : WorkflowExecutionState × RecoveryStrategy) × (handle_failure acting (category_of e)
        ≡ ok answer)

module _ {B P : Type 0} (category_of : RuntimeError → FailureCategory)
    (error_text : RuntimeError → String) (no_state : FinancialWorldState B) (clock : ℕ → ℕ)
    (run : ℕ → Result (FollowUpWorkflowRunResult B P)) (handled : HasStrategies category_of) where
  -- The loop returns an execution that has ended.
  Ends : ℕ → ℕ → ℕ → TaskExecutionRecord → Backend B P → Type 0
  Ends left attempt i r s =
      (t : Backend B P) × (r' : TaskExecutionRecord) × (result : FollowUpWorkflowRunResult B P)
      × (run_attempts category_of error_text no_state clock run left attempt i r s
          ≡ (t, ok (r', result)))
      × HasEnded r (attempt + left) r'

  -- The execution and the stores after a failed attempt.
  abbrev tried :
      TaskExecutionRecord → ℕ → WorkflowExecutionState × RecoveryStrategy → ℕ → TaskExecutionRecord
  tried r attempt answer i =
      with_strategy category_of error_text no_state clock run answer.1 (clock (1 + i))
        (record r { attempt = attempt })

  abbrev last_try :
      TaskExecutionRecord
      → ℕ
      → RuntimeError
      → WorkflowExecutionState × RecoveryStrategy
      → ℕ
      → TaskExecutionRecord
  last_try r attempt x answer i =
      given_up (tried r attempt answer i) (category_of x) (error_text x) answer.0 (clock (2 + i))
        (clock (3 + i))

  abbrev noted :
      RuntimeError → WorkflowExecutionState × RecoveryStrategy → ℕ → Backend B P → Backend B P
  noted x answer i s = record s {
    checkpoints = append_timeline answer.0 "failure_handled" (error_text x) (clock i) s.checkpoints;
  }

  last_try-HasEnded :
      (r : TaskExecutionRecord) (attempt last : ℕ) (x : RuntimeError)
      (answer : WorkflowExecutionState × RecoveryStrategy) (i : ℕ)
      → attempt ≡ r.retry_count + 1
      → attempt ≤ last
      → HasEnded r last (last_try r attempt x answer i)
  unfolding given_up
  last_try-HasEnded r attempt last x answer i e bound = record {
    settled = given_up-Settled (is_waiting_state answer.0);
    at_most = bound;
    retries = e;
    same_id = refl;
    same_task = refl;
  }

  -- The attempts that a retry makes count as the execution's own.
  after_retry-HasEnded :
      (r r' next : TaskExecutionRecord) (last : ℕ)
      → next.execution_id ≡ r.execution_id
      → next.task_id ≡ r.task_id
      → HasEnded next last r'
      → HasEnded r last r'
  after_retry-HasEnded r r' next last id task h = record {
    settled = h.settled;
    at_most = h.at_most;
    retries = h.retries;
    same_id = h.same_id ∙ id;
    same_task = h.same_task ∙ task;
  }

  run_attempts-Ends :
      (left attempt i : ℕ) (r : TaskExecutionRecord) (s : Backend B P)
      → attempt ≡ r.retry_count + 1
      → attempt + left < two_64
      → Ends left attempt i r s
  unfolding Ends run_attempts handle_runtime_failure given_up
  run_attempts-Ends zero attempt i r s e small = elim (Result-cases (run attempt)) [
    | inl (result, ran) ↦ (
      s,
      _,
      result,
      rw (ran, run_attempts) refl,
      finalize-HasEnded r attempt _ result (clock i) e (omega arith),
    )
    | inr (x, ran) ↦
        let (answer, h) = handled x in
        (
          noted x answer i s,
          last_try r attempt x answer i,
          no_run_result no_state,
          rw (ran, h, run_attempts, handle_runtime_failure) refl,
          last_try-HasEnded r attempt _ x answer i e (omega arith),
        )
  ]
  run_attempts-Ends (suc left) attempt i r s e small = elim (Result-cases (run attempt)) [
    | inl (result, ran) ↦ (
      s,
      _,
      result,
      rw (ran, run_attempts) refl,
      finalize-HasEnded r attempt _ result (clock i) e (omega arith),
    )
    | inr (x, ran) ↦
        let (answer, h) = handled x in
        elim (retry-cases answer.1) [
          | inl again ↦
              let next : TaskExecutionRecord = record (tried r attempt answer i) {
                retry_count = int_suc r.retry_count;
              } in
              let (t, r', result, ends, ended) =
                run_attempts-Ends left (suc attempt) (2 + i) next (noted x answer i s) (omega arith)
                  (omega arith) in
              (
                t,
                r',
                result,
                rw (ran, h, run_attempts, handle_runtime_failure)
                    (ap (λ f. f (noted x answer i s)) (again (Step (Backend B P) _) _ _) ∙ ends),
                after_retry-HasEnded r r' next (attempt + suc left) refl refl
                    (subst (λ n. HasEnded next n r') (moved attempt left) ended),
              )
          | inr stop ↦ (
            noted x answer i s,
            last_try r attempt x answer i,
            no_run_result no_state,
            rw (ran, h, run_attempts, handle_runtime_failure)
                (ap (λ f. f (noted x answer i s)) (stop (Step (Backend B P) _) _ _)),
            last_try-HasEnded r attempt _ x answer i e (omega arith),
          )
        ]
  ]

allowed_back : (n : ℕ) → 1 + (attempts_allowed n - 1) ≡ attempts_allowed n
allowed_back n = ground arith

-- If the controller has a strategy for each kind of failure, the execution of a task ends: it is completed,
-- failed or waiting for approval after at most as many attempts as are allowed, at least one, and has
-- counted one retry for each attempt after the first. It is the execution of that task.
pub execute_single_lem :
    {B P : Type 0} (make_id : List IdPart → String) (category_of : RuntimeError → FailureCategory)
    (error_text : RuntimeError → String) (no_state : FinancialWorldState B) (clock : ℕ → ℕ)
    (snapshot : TaskGraphSnapshot (StateSnapshot B)) (task : FollowUpTaskRecord)
    (capability : Capability B P) (input : FinancialWorldState B) (n : ℕ) (s : Backend B P)
    → HasStrategies category_of
    → (t : Backend B P) × (r : TaskExecutionRecord) × (result : FollowUpWorkflowRunResult B P)
      × (execute_single_follow_up make_id category_of error_text no_state clock snapshot task
            capability input n s
          ≡ (t, ok (r, result)))
      × IsSettled r.status
      × (1 ≤ r.attempt)
      × (r.attempt ≤ attempts_allowed n)
      × (r.attempt ≡ r.retry_count + 1)
      × (r.task_id ≡ task.task.id)
unfolding execute_single_follow_up started_execution Ends share_tasks
execute_single_lem make_id category_of error_text no_state clock snapshot task capability input n s
      handled =
    let (t, r, result, ends, ended) =
      run_attempts-Ends category_of error_text no_state clock _ handled (attempts_allowed n - 1) 1 1
        (started_execution make_id snapshot task input (clock 0))
        (share_tasks (marked_executing snapshot task (clock 0)) s).0 refl (ground arith) in
    (
      t,
      r,
      result,
      ends,
      ended.settled,
      rw ended.retries (omega arith),
      subst (λ k. r.attempt ≤ k) (allowed_back n) ended.at_most,
      ended.retries,
      ended.same_task,
    )
