-- ===== src/Workflow/Checkpoints/Pause.antt =====
-- PauseForApproval of internal/runtime/local_runtime.go, with the checkpoint that brings the workflow back.
use personal_cfo_os.Base.{ℕ, ◌≡◌, ◌≢◌, ◌⊎◌, false, is_empty}
use personal_cfo_os.Errors.{RuntimeError, ok, failure}
use personal_cfo_os.Workflow.Types.{
  WorkflowExecutionState, acting, verifying, replanning, waiting_approval, HumanApprovalPending,
}
use personal_cfo_os.Workflow.Checkpoints.{Runtime, append_timeline, pause_workflow}

abbrev unnamed : RuntimeError
unnamed = failure "human approval pending requires ids and requested action"

-- The request names its approval, workflow and action, and the workflow acts, verifies or replans.
abbrev pub IsPausable : WorkflowExecutionState → HumanApprovalPending → Type 0
IsPausable current p =
    (is_empty p.approval_id ≡ false)
    × (is_empty p.workflow_id ≡ false)
    × (is_empty p.requested_action ≡ false)
    × ((current ≡ acting) ⊎ (current ≡ verifying) ⊎ (current ≡ replanning))

-- The two ends of a pause: it waits and says so in the timeline, or it fails and changes nothing.
abbrev pub PauseEnds : WorkflowExecutionState → HumanApprovalPending → ℕ → Runtime → Type 0
PauseEnds current p at r =
    (IsPausable current p
      × (pause_workflow current p at r ≡ (
        append_timeline waiting_approval "approval_required" p.requested_action at r,
        ok waiting_approval,
      )))
    ⊎ ((IsPausable current p → ⊥)
        × ((pause_workflow current p at r).0 ≡ r)
        × ((next : WorkflowExecutionState) → (pause_workflow current p at r).1 ≢ ok next))
