-- ===== src/WorkQueue/History.antt =====
-- Histories of the queue: the mutex makes every call one step, so a run is a list of calls.
pub mod Changes
pub mod Stale
pub mod Dedupe
pub mod Lease
use personal_cfo_os.Base.{
  ℕ, suc, String, ◌≡◌, refl, Bool, true, false, ◌⊎◌, Option, none, some, List, [], ◌∷◌, arith,
}
use personal_cfo_os.Errors.{Result, ok, err}
use personal_cfo_os.WorkQueue.Types.{
  Time, WorkItem, unset, queued, FenceValidation, LeaseHeartbeat, WorkEnqueueResult, IdPart,
}
use personal_cfo_os.WorkQueue.{
  Items, enqueue, claim_ready, heartbeat, complete, fail, requeue, reclaim_expired,
}

pub data Call : Type 0 where
  enqueues : WorkItem → Call
  claims : (worker : String) (limit : ℕ) (now : Time) (ttl : ℕ) → Call
  heartbeats : LeaseHeartbeat → Call
  completes : FenceValidation → Time → Call
  fails : FenceValidation → String → Time → Call
  requeues : FenceValidation → Time → String → Time → Call
  reclaims : Time → Call

-- A call that returns an error leaves the map as it was.
abbrev pub after : Items → Result Items → Items
after items (ok items') = items'
after items (err e) = items

abbrev pub after_enqueue : Items → Result (Items × WorkEnqueueResult) → Items
after_enqueue items (ok (items', result)) = items'
after_enqueue items (err e) = items

module _ (make_id : List IdPart → String) where
  pub step : Call → Items → Items
  step (enqueues item) items = after_enqueue items (enqueue item items)
  step (claims worker limit now ttl) items = (claim_ready make_id worker limit now ttl items).0
  step (heartbeats h) items = after items (heartbeat h items)
  step (completes fence now) items = after items (complete fence now items)
  step (fails fence summary now) items = after items (fail fence summary now items)
  step (requeues fence next reason now) items = after items (requeue fence next reason now items)
  step (reclaims now) items = (reclaim_expired now items).0

  pub run : List Call → Items → Items
  unfolding step
  run [] items = items
  run (c ∷ cs) items = run cs (step c items)

-- How many of the calls are claims.
abbrev pub claim_count : List Call → ℕ
claim_count [] = 0
claim_count (claims worker limit now ttl ∷ cs) = suc (claim_count cs)
claim_count (_ ∷ cs) = claim_count cs

-- What the runtime submits: an item that waits and carries no lease.
pub record IsFresh (s : WorkItem) : Type 0 where
  pub waits : (s.status ≡ unset) ⊎ (s.status ≡ queued)
  pub no_lease : s.lease_id ≡ ""
  pub no_claim : s.claim_token ≡ ""
  pub no_worker : s.claimed_by_worker_id ≡ ""
  pub no_expiry : s.lease_expires_at ≡ none
  pub no_claim_time : s.claimed_at ≡ none

abbrev pub SubmitsFresh : Call → Type 0
SubmitsFresh (enqueues s) = IsFresh s
SubmitsFresh _ = Unit
