-- ===== src/Worker/Tests.antt =====
-- The theorem on a claim's attempt, at a worker that loses its lease while it executes the ready tasks, and
-- the one on a lease that is taken back, at an execution that was running.
use personal_cfo_os.Base.{
  ◌++◌, ℕ, ◌+◌, ◌≡◌, ◌≢◌, ◌⊎◌, List, Has, refl, String, false, none, some, [], ◌∷◌,
}
use personal_cfo_os.Base.Dict.{lookup, insert}
use personal_cfo_os.Errors.{ok, err, RuntimeError, conflict}
use personal_cfo_os.WorkQueue.Types.{
  WorkItem, WorkClaim, LeaseReclaimResult, retry_failed_execution, queued,
}
use personal_cfo_os.WorkQueue.{
  Items, reclaim_expired, is_expired, lease_over, reclaim_result, reclaimed as reclaimed_item,
}
use personal_cfo_os.WorkQueue.Tests.{ids, held, held_store, held_fence}
use personal_cfo_os.Service.Types.{no_result}
use personal_cfo_os.Service.Tests.{stores}
use personal_cfo_os.Worker.Registry.{
  ExecutionAttempt, started, reclaimed, save_attempt, update_attempt,
}
use personal_cfo_os.Worker.Work.{WorkerPassResult, Handlers, do_work}
use personal_cfo_os.Worker.Claims.{
  Node, ended_attempt, skipped, Answer, settle_item, after_update, process_claim,
}
use personal_cfo_os.Stores.Tests.{execution}
use personal_cfo_os.Worker.Wakeups.{handle_scheduler_wakeup}
use personal_cfo_os.Worker.Timeouts.{IsFollowedUp, expired_lease_followed}
use personal_cfo_os.Worker.Record.{process_claim_lem}

abbrev nothing_yet : WorkerPassResult
nothing_yet = record {
  worker_id = "worker-1";
  scanned_graphs = 0;
  reevaluated = [];
  executed = [];
  resumed_tasks = [];
  skipped_tasks = [];
  claimed_work_item_ids = "item-2" ∷ [];
  completed_work_item_ids = [];
  failed_work_item_ids = [];
  reclaimed_work_item_ids = [];
  scheduler_wakeups = [];
  completed_at = "";
  dry_run = false;
}

abbrev clock : ℕ → ℕ
clock n = 10 + n

-- The commit of the execution finds that the lease was taken over.
abbrev lost : RuntimeError
lost = conflict "work_item" "item-2" "lease conflict"

abbrev handlers : Handlers String String
handlers = record {
  handle_scheduler_wakeup = handle_scheduler_wakeup ids clock;
  reevaluate = λ graph_id fence s. (s, ok tt);
  execute_ready = λ graph_id fence s. (s, err lost);
  resume_approved = λ graph_id task_id approval_id fence s. (s, ok no_result);
  retry_failed = λ graph_id task_id execution_id fence s. (s, ok no_result);
}

abbrev claim : WorkClaim
claim = record {
  work_item = held;
  worker_id = "worker-1";
  lease_id = "lease-1";
  claim_token = "claim-1";
  fencing_token = 1;
  claimed_at = 10;
  lease_expires_at = 20;
}

abbrev node : Node String String
node = record { backend = record stores { items = held_store }; attempts = [] }

abbrev words : RuntimeError → String
words e = "conflict"

abbrev processed : Answer String String
processed = process_claim ids words handlers "worker-1" clock none claim node nothing_yet

process_claim_lem_example :
    (b : ExecutionAttempt) × (lookup "lease-1" processed.0.attempts ≡ some b)
    × (b.finished_at ≡ some 12)
    × (b.status ≢ started)
    × ((b.status ≢ reclaimed)
        ⊎ ((b.status ≡ reclaimed)
            × (processed.0.backend ≡ (do_work handlers held held_fence node.backend nothing_yet).0)
            × (processed.1
                ≡ skipped "item-2" (do_work handlers held held_fence node.backend nothing_yet).1)
            × (processed.1.skipped_tasks
                ≡ (do_work handlers held held_fence node.backend nothing_yet).1.skipped_tasks
                  ++ ("item-2" ∷ []))
            × (processed.2 ≡ none)))
process_claim_lem_example =
    process_claim_lem ids words handlers "worker-1" clock none claim node nothing_yet

-- The run itself: the attempt is recorded as reclaimed, and the pass skips the claim.
process_claim_reclaimed : processed.1.skipped_tasks ≡ "item-2" ∷ []
unfolding process_claim after_update do_work settle_item ended_attempt update_attempt save_attempt
    lookup insert
process_claim_reclaimed = refl

abbrev running : WorkItem
running = record held {
  kind = retry_failed_execution;
  graph_id = "graph-1";
  task_id = "task-1";
  execution_id = "execution-1";
}

abbrev swept : Items × List LeaseReclaimResult
swept = reclaim_expired 20 (("item-2", running) ∷ [])

expired_lease_followed_example :
    Has (reclaim_result 20 running) swept.1
    × (lookup "item-2" swept.0 ≡ some (reclaimed_item 20 running))
    × ((reclaimed_item 20 running).status ≡ queued)
    × IsFollowedUp ids clock
        (reclaim_result 20 running)
        swept.0
        stores.executions
        []
        (reclaimed_item 20 running)
        execution
unfolding lookup is_expired lease_over
expired_lease_followed_example =
    expired_lease_followed ids clock 20 (("item-2", running) ∷ []) stores.executions [] "item-2"
      running execution (refl, refl, tt) refl refl refl refl refl refl refl
