-- ===== src/Worker/Claims.antt =====
-- processClaim of internal/runtime/worker.go; `renewal` is the error that the renewal of the lease ended in.
use personal_cfo_os.Base.{
  ℕ, String, Bool, ◌||◌, Option, none, some, List, [], ◌∷◌, ◌++◌, if◌then◌else◌,
}
use personal_cfo_os.Errors.{Result, ok, err, RuntimeError, is_conflict, is_not_found}
use personal_cfo_os.WorkQueue.Types.{IdPart, text, int, time, WorkClaim, FenceValidation}
use personal_cfo_os.WorkQueue.{Items, complete, fail}
use personal_cfo_os.Workflow.Types.{protocol}
use personal_cfo_os.Service.Types.{Backend}
use personal_cfo_os.Worker.Registry.{
  ExecutionAttempt, started, succeeded, attempt_failed, abandoned, reclaimed, Attempts,
  save_attempt, update_attempt,
}
use personal_cfo_os.Worker.Work.{WorkerPassResult, Handlers, do_work}

pub record Node (B P : Type 0) : Type 0 where
  pub backend : Backend B P
  pub attempts : Attempts

abbrev pub fence_for : String → WorkClaim → FenceValidation
fence_for worker_id c = record {
  work_item_id = c.work_item.id;
  lease_id = c.lease_id;
  fencing_token = c.fencing_token;
  worker_id = worker_id;
}

abbrev pub new_attempt : (List IdPart → String) → String → WorkClaim → ℕ → ℕ → ExecutionAttempt
new_attempt make_id worker_id c named_at now = record {
  attempt_id =
      make_id (text "attempt" ∷ text c.work_item.id ∷ int c.fencing_token ∷ time named_at ∷ []);
  work_item_id = c.work_item.id;
  work_item_kind = c.work_item.kind;
  graph_id = c.work_item.graph_id;
  task_id = c.work_item.task_id;
  execution_id = c.work_item.execution_id;
  approval_id = c.work_item.approval_id;
  worker_id = worker_id;
  lease_id = c.lease_id;
  fencing_token = c.fencing_token;
  status = started;
  failure_category = none;
  failure_summary = "";
  started_at = now;
  finished_at = none;
  checkpoint_id = "";
  produced_artifact_ids = [];
}

-- The lease was taken over, or its item is gone.
abbrev pub is_lost : RuntimeError → Bool
is_lost e = is_conflict e || is_not_found e

-- The attempt at its end, from the errors of the renewal and of the work.
unfoldable pub ended_attempt :
    (RuntimeError → String)
    → Option RuntimeError
    → Option RuntimeError
    → ℕ
    → ExecutionAttempt
    → ExecutionAttempt
ended_attempt words (some e) work finished a = record a {
  status = if is_lost e then reclaimed else abandoned;
  failure_summary = words e;
  finished_at = some finished;
}
ended_attempt words none (some e) finished a = record a {
  status = if is_conflict e then reclaimed else attempt_failed;
  failure_category = some protocol;
  failure_summary = words e;
  finished_at = some finished;
}
ended_attempt words none none finished a = record a {
  status = succeeded;
  finished_at = some finished;
}

-- A call of the queue: a conflict is no error of the pass.
abbrev pub unless_lost : {S : Type 0} → (Items → S) → S → Result Items → S × Option RuntimeError
unless_lost put s (ok items) = (put items, none)
unless_lost put s (err e) = (s, if is_conflict e then none else some e)

abbrev pub skipped : String → WorkerPassResult → WorkerPassResult
skipped id pass = record pass { skipped_tasks = pass.skipped_tasks ++ (id ∷ []) }

abbrev pub Answer : Type 0 → Type 0 → Type 0
Answer B P = Node B P × WorkerPassResult × Option RuntimeError

module _ {B P : Type 0} where
  abbrev pub with_items : Node B P → Items → Node B P
  with_items n items = record n { backend = record (n.backend) { items = items } }

  -- The failure of the item, which the pass reports, or an error of the queue instead.
  abbrev pub report_failure :
      String → WorkerPassResult → RuntimeError → Node B P × Option RuntimeError → Answer B P
  report_failure id pass e (n, some queue_error) = (n, pass, some queue_error)
  report_failure id pass e (n, none) =
      (n, record pass { failed_work_item_ids = pass.failed_work_item_ids ++ (id ∷ []) }, some e)

  abbrev pub report_success :
      String → WorkerPassResult → Node B P × Option RuntimeError → Answer B P
  report_success id pass (n, some queue_error) = (n, pass, some queue_error)
  report_success id pass (n, none) =
      (n, record pass { completed_work_item_ids = pass.completed_work_item_ids ++ (id ∷ []) }, none)

  unfoldable pub settle_item :
      (RuntimeError → String)
      → FenceValidation
      → ℕ
      → Option RuntimeError
      → Option RuntimeError
      → Node B P
      → WorkerPassResult
      → Answer B P
  settle_item words fence finished (some e) work n pass =
      if is_lost e then (n, skipped fence.work_item_id pass, none) else (n, pass, some e)
  settle_item words fence finished none (some e) n pass =
      if is_conflict e
      then (n, skipped fence.work_item_id pass, none)
      else report_failure fence.work_item_id pass e
          (unless_lost (with_items n) n (fail fence (words e) finished n.backend.items))
  settle_item words fence finished none none n pass =
      report_success fence.work_item_id pass
        (unless_lost (with_items n) n (complete fence finished n.backend.items))

  unfoldable pub after_update :
      Node B P
      → WorkerPassResult
      → Result Attempts
      → (Node B P → WorkerPassResult → Answer B P)
      → Answer B P
  after_update n pass (err e) settle = (n, pass, some e)
  after_update n pass (ok attempts) settle = settle (record n { attempts = attempts }) pass

  unfoldable pub process_claim :
      (List IdPart → String)
      → (RuntimeError → String)
      → Handlers B P
      → String
      → (ℕ → ℕ)
      → Option RuntimeError
      → WorkClaim
      → Node B P
      → WorkerPassResult
      → Answer B P
  process_claim make_id words handlers worker_id clock renewal c n pass =
      let a = new_attempt make_id worker_id c (clock 0) (clock 1) in
      let fence = fence_for worker_id c in
      let saved = save_attempt a n.attempts in
      let worked = do_work handlers c.work_item fence n.backend pass in
      let n1 : Node B P = record { backend = worked.0; attempts = saved } in
      after_update n1 worked.1
        (update_attempt (ended_attempt words renewal worked.2 (clock 2) a) saved)
        (settle_item words fence (clock 2) renewal worked.2)
