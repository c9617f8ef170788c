-- ===== src/Workflow/Controller.antt =====
-- internal/runtime/controller.go and recovery.go: the decisions of the workflow's state machine.
-- The message of an error that formats a value is its format.
use personal_cfo_os.Base.{
  ℕ, ◌≡◌, refl, sym, ap, ◌∙◌, Bool, true, false, ◌||◌, not, arith, ltb, ◌==◌, nat_eq, string_eq,
  if◌then◌else◌, is_empty,
}
use personal_cfo_os.Errors.{Result, ok, err, failure, unless, ◌>>=◌}
use personal_cfo_os.Workflow.Types.{
  WorkflowExecutionState, acting, verifying, replanning, waiting_approval, retrying, failed,
  FailureCategory, transient, timeout, validation, trust_validation, policy, governance_denied,
  denied_by_operator, protocol, unrecoverable, other_category, RecoveryStrategy, retry, replan,
  wait_for_approval, abort, escalate, CheckpointRecord, ResumeToken, HumanApprovalPending,
  valid_workflow_state, validate_checkpoint, validate_token,
}

unfoldable pub recover : FailureCategory → Result (WorkflowExecutionState × RecoveryStrategy)
recover transient = ok (retrying, retry)
recover timeout = ok (retrying, retry)
recover validation = ok (replanning, replan)
recover policy = ok (waiting_approval, wait_for_approval)
recover trust_validation = ok (failed, abort)
recover governance_denied = ok (failed, abort)
recover denied_by_operator = ok (failed, abort)
recover protocol = ok (failed, abort)
recover unrecoverable = ok (failed, abort)
recover (other_category text) = err (failure "unsupported failure category %q")

unfoldable pub handle_failure :
    WorkflowExecutionState → FailureCategory → Result (WorkflowExecutionState × RecoveryStrategy)
unfolding recover
handle_failure current category =
    if not (valid_workflow_state current)
    then err (failure "invalid workflow state %q")
    else recover category

-- `RetryPlanner.StrategyFor`
pub strategy_for : FailureCategory → Result RecoveryStrategy
strategy_for transient = ok retry
strategy_for timeout = ok retry
strategy_for validation = ok replan
strategy_for policy = ok wait_for_approval
strategy_for trust_validation = ok abort
strategy_for governance_denied = ok abort
strategy_for denied_by_operator = ok abort
strategy_for protocol = ok abort
strategy_for unrecoverable = ok abort
strategy_for (other_category text) = err (failure "unsupported failure category %q")

abbrev pub can_pause : WorkflowExecutionState → Bool
can_pause acting = true
can_pause verifying = true
can_pause replanning = true
can_pause _ = false

unfoldable pub pause_for_approval :
    WorkflowExecutionState → HumanApprovalPending → Result WorkflowExecutionState
pause_for_approval current pending =
    if is_empty pending.approval_id
      || (is_empty pending.workflow_id || is_empty pending.requested_action)
    then err (failure "human approval pending requires ids and requested action")
    else if not (can_pause current)
    then err (failure "workflow state %q cannot pause for approval")
    else ok waiting_approval

unfoldable pub resume : CheckpointRecord → ResumeToken → ℕ → Result WorkflowExecutionState
resume checkpoint token now = unless (validate_checkpoint checkpoint) (
    unless (validate_token token) (
      if not (token.workflow_id == checkpoint.workflow_id)
      then err (failure "resume token workflow does not match checkpoint")
      else if not (token.checkpoint_id == checkpoint.id)
      then err (failure "resume token checkpoint does not match checkpoint")
      else if ltb token.expires_at now
      then err (failure "resume token has expired")
      else ok checkpoint.resume_state))

-- The strategy of an outcome.
abbrev chosen : Result (WorkflowExecutionState × RecoveryStrategy) → Result RecoveryStrategy
chosen r = r >>= λ p. ok p.1

-- The strategy leads to the state.
abbrev pub Leads : RecoveryStrategy → WorkflowExecutionState → Type 0
Leads retry next = next ≡ retrying
Leads replan next = next ≡ replanning
Leads wait_for_approval next = next ≡ waiting_approval
Leads abort next = next ≡ failed
Leads escalate next = ⊥

recover-Leads :
    (category : FailureCategory) (next : WorkflowExecutionState) (s : RecoveryStrategy)
    → recover category ≡ ok (next, s)
    → Leads s next
unfolding recover
recover-Leads transient next s h = ground arith
recover-Leads _ next s h = ground arith

recover-strategy_for :
    (category : FailureCategory) → chosen (recover category) ≡ strategy_for category
unfolding recover strategy_for
recover-strategy_for transient = refl
recover-strategy_for _ = refl

handle_failure_valid :
    (current : WorkflowExecutionState) (category : FailureCategory)
    → valid_workflow_state current ≡ true
    → handle_failure current category ≡ recover category
unfolding handle_failure
handle_failure_valid current category v = rw v

-- From a valid state the controller chooses the strategy of the retry planner, or fails with its
-- error, and its next state is the one that the strategy leads to.
pub handle_failure-strategy_for :
    (current : WorkflowExecutionState) (category : FailureCategory)
    → valid_workflow_state current ≡ true
    → (chosen (handle_failure current category) ≡ strategy_for category)
      × ((next : WorkflowExecutionState) (s : RecoveryStrategy)
          → handle_failure current category ≡ ok (next, s)
          → Leads s next)
handle_failure-strategy_for current category v =
    let e = handle_failure_valid current category v in
    (
      ap chosen e ∙ recover-strategy_for category,
      λ next s h. recover-Leads category next s (sym e ∙ h),
    )
