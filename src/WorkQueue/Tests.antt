-- ===== src/WorkQueue/Tests.antt =====
-- The queue's operations on small maps, and its theorems at them.
use personal_cfo_os.Base.{
  ℕ, String, ◌≡◌, ◌≢◌, refl, ◌≤◌, inl, inr, none, some, List, [], ◌∷◌, arith, Has, length, keep,
  find, sort, str_lt,
}
use personal_cfo_os.Base.Dict.{lookup, insert, values}
use personal_cfo_os.Errors.{ok}
use personal_cfo_os.WorkQueue.Types.{
  WorkItem, WorkClaim, FenceValidation, IdPart, execute_ready_task, queued, claimed, no_wakeup,
}
use personal_cfo_os.WorkQueue.{
  Items, claim_of, claim_ready, fenced, validate_fence, enqueue, blocks,
}
use personal_cfo_os.WorkQueue.Claims.{passed_over}
use personal_cfo_os.WorkQueue.Fence.{fence_of, claim-fenced}
use personal_cfo_os.WorkQueue.Exclusive.{claim_exclusive}
use personal_cfo_os.WorkQueue.History.{
  Call, enqueues, claims, completes, reclaims, after_enqueue, run,
}
use personal_cfo_os.WorkQueue.History.Stale.{completed_it, ended_fence_refused}
use personal_cfo_os.WorkQueue.History.Dedupe.{IsDeduped, run-IsDeduped}
use personal_cfo_os.WorkQueue.History.Lease.{AllLeased, run-AllLeased}

abbrev pub ids : List IdPart → String
ids parts = "lease-1"

abbrev waiting : String → String → ℕ → WorkItem
waiting id key at = record {
  id = id;
  kind = execute_ready_task;
  status = queued;
  dedupe_key = key;
  graph_id = "graph-1";
  task_id = "";
  execution_id = "";
  approval_id = "";
  checkpoint_id = "";
  workflow_id = "";
  available_at = at;
  claimed_at = none;
  completed_at = none;
  failed_at = none;
  last_updated_at = at;
  reason = "";
  wakeup_kind = no_wakeup;
  retry_not_before = none;
  attempt_count = 0;
  lease_id = "";
  fencing_token = 0;
  claim_token = "";
  claimed_by_worker_id = "";
  lease_expires_at = none;
}

abbrev late : WorkItem
late = waiting "item-1" "execute:graph-1" 5

abbrev early : WorkItem
early = waiting "item-2" "" 3

abbrev store : Items
store = ("item-1", late) ∷ ("item-2", early) ∷ []

abbrev pub held : WorkItem
held = record early {
  status = claimed;
  lease_id = "lease-1";
  fencing_token = 1;
  claim_token = "claim-1";
  claimed_by_worker_id = "worker-1";
  lease_expires_at = some 20;
  claimed_at = some 10;
}

abbrev pub held_store : Items
held_store = ("item-1", late) ∷ ("item-2", held) ∷ []

abbrev pub held_fence : FenceValidation
held_fence = record {
  work_item_id = "item-2";
  lease_id = "lease-1";
  fencing_token = 1;
  worker_id = "worker-1";
}

abbrev pub later_calls : List Call
later_calls = claims "worker-2" 2 30 10 ∷ reclaims 50 ∷ []

ended_fence_refused_example :
    validate_fence held_fence (run ids (completes held_fence 12 ∷ later_calls) held_store) ≢ none
unfolding lookup
ended_fence_refused_example =
    ended_fence_refused ids held_store held_fence held refl (completes held_fence 12) later_calls
      (refl, refl, (refl, refl, tt))
      (completed_it 12 (record {
        same_item = refl;
        leased = refl;
        same_lease = refl;
        same_token = refl;
        same_worker = refl;
      }))
      (tt, (tt, tt)) (omega arith) (omega arith)

none_stored : IsDeduped []
unfolding lookup
none_stored i j x y p = cc

run-IsDeduped_example : IsDeduped (run ids (enqueues late ∷ enqueues late ∷ later_calls) [])
run-IsDeduped_example =
    run-IsDeduped ids (enqueues late ∷ enqueues late ∷ later_calls) [] tt none_stored

none_leased : AllLeased []
unfolding lookup
none_leased i x p = cc

run-AllLeased_example : AllLeased (run ids (enqueues late ∷ later_calls) [])
run-AllLeased_example =
    run-AllLeased ids (enqueues late ∷ later_calls) [] tt
      (
        record {
          waits = inr refl;
          no_lease = refl;
          no_claim = refl;
          no_worker = refl;
          no_expiry = refl;
          no_claim_time = refl;
        },
        (tt, (tt, tt)),
      )
      none_leased

abbrev first_claim : WorkClaim
first_claim = claim_of ids "worker-1" 10 20 early

abbrev second_claim : WorkClaim
second_claim = claim_of ids "worker-2" 11 20 late

claim_exclusive_example : first_claim.work_item.id ≢ second_claim.work_item.id
unfolding claim_ready keep sort values insert lookup str_lt
claim_exclusive_example =
    claim_exclusive ids store (refl, refl, (refl, refl, tt)) "worker-1" "worker-2" 1 1 10 11 20 20
      first_claim second_claim (inl refl) (inl refl)

claim-fenced_example :
    fenced (fence_of first_claim) (claim_ready ids "worker-1" 1 10 20 store).0
    ≡ ok first_claim.work_item
unfolding claim_ready keep sort values insert lookup str_lt
claim-fenced_example =
    claim-fenced ids "worker-1" 10 20 1 store (refl, refl, (refl, refl, tt)) first_claim (inl refl)

passed_over_example :
    (length (claim_ready ids "worker-1" 1 10 20 store).1 ≡ 1)
    × ((c : WorkClaim)
        → Has c (claim_ready ids "worker-1" 1 10 20 store).1
        → c.work_item.available_at ≤ 5)
unfolding claim_ready keep sort values insert lookup str_lt
passed_over_example =
    passed_over ids "worker-1" 10 20 1 store (refl, refl, (refl, refl, tt)) "item-1" late refl refl
      refl

-- A second submission under the key of a waiting item is suppressed.
enqueue_again : after_enqueue store (enqueue (record late { id = "item-9" }) store) ≡ store
unfolding enqueue values find blocks
enqueue_again = refl
