-- ===== src/WorkQueue.antt =====
-- internal/runtime/work_queue_store.go: the in-memory work queue. Each method takes the map of items
-- and returns the new map with its result; the mutex makes a method one step.
pub mod Types
pub mod Claims
pub mod Fence
pub mod Exclusive
pub mod History
pub mod Tests
pub mod Reclaim
use personal_cfo_os.Base.{
  ℕ, suc, ◌<◌, ◌≤◌, String, ◌≡◌, Bool, true, false, not, ◌&&◌, ◌||◌, Option, none, some, List, [],
  ◌∷◌, map, ltb, leb, if◌then◌else◌, ◌==◌, string_eq, nat_eq, is_empty, str_lt, is_pos, int_suc,
  add_duration, keep, find, take, sort, arith,
}
use personal_cfo_os.Base.Dict.{Dict, lookup, insert, values}
use personal_cfo_os.Errors.{
  Result, ok, err, conflict, not_found, failure, RuntimeError, unless, or_fail, ◌>>=◌,
}
use Types.{
  Time, WorkItem, WorkItemStatus, unset, queued, claimed, completed, failed, is_unset, is_queued,
  is_claimed, is_completed, is_failed, is_abandoned, WorkClaim, FenceValidation, LeaseHeartbeat,
  WorkEnqueueResult, enqueued, duplicate_suppressed, LeaseReclaimResult, IdPart, text, int, time,
}

-- `InMemoryWorkQueueStore.items`
abbrev pub Items : Type 0
Items = Dict WorkItem

-- An item that still holds its dedupe key.
abbrev pub is_active : WorkItemStatus → Bool
is_active s = not (is_completed s) && not (is_failed s) && not (is_abandoned s)

unfoldable pub blocks : WorkItem → WorkItem → Bool
blocks item existing =
    not (is_empty item.dedupe_key)
    && (existing.dedupe_key == item.dedupe_key && is_active existing.status)

suppressed : WorkItem → WorkItem → WorkEnqueueResult
suppressed item existing = record {
  work_item_id = "";
  kind = item.kind;
  disposition = duplicate_suppressed;
  dedupe_key = item.dedupe_key;
  existing_work_item_id = existing.id;
}

accepted : WorkItem → WorkEnqueueResult
accepted item = record {
  work_item_id = item.id;
  kind = item.kind;
  disposition = enqueued;
  dedupe_key = item.dedupe_key;
  existing_work_item_id = "";
}

-- The token survives a second enqueue under the same identifier.
pub kept_token : WorkItem → Option WorkItem → ℕ
kept_token item none = item.fencing_token
kept_token item (some current) = current.fencing_token

-- What `Enqueue` stores for a submitted item.
pub admitted : WorkItem → Items → WorkItem
unfolding kept_token
admitted item items = record item {
  status = if is_unset item.status then queued else item.status;
  last_updated_at = item.available_at;
  fencing_token = kept_token item (lookup item.id items);
}

unfoldable pub enqueue : WorkItem → Items → Result (Items × WorkEnqueueResult)
unfolding admitted suppressed accepted
enqueue item items =
    if is_empty item.id
    then err (failure "work item id is required")
    else elim (find (blocks item) (values items)) [
      | some existing ↦ ok (items, suppressed item existing)
      | none ↦ ok (insert item.id (admitted item items) items, accepted item)
    ]

pub is_ready : Time → WorkItem → Bool
is_ready now item = is_queued item.status && not (ltb now item.available_at)

-- The comparison of `slices.SortFunc`: by availability, then by identifier.
pub before : WorkItem → WorkItem → Bool
before a b =
    if ltb a.available_at b.available_at
    then true
    else if ltb b.available_at a.available_at
    then false
    else str_lt a.id b.id

-- `if limit <= 0 { limit = 1 }`
abbrev pub effective_limit : ℕ → ℕ
effective_limit limit = if is_pos limit then limit else 1

pub selected : ℕ → Time → Items → List WorkItem
unfolding is_ready before
selected limit now items =
    take (effective_limit limit) (sort before (keep (is_ready now) (values items)))

module _ (make_id : List IdPart → String) where
  pub claim_item : String → Time → ℕ → WorkItem → WorkItem
  claim_item worker now ttl item =
      let token = int_suc item.fencing_token in
      record item {
        status = claimed;
        claimed_by_worker_id = worker;
        fencing_token = token;
        lease_id = make_id (text "lease" ∷ text item.id ∷ int token ∷ text worker ∷ time now ∷ []);
        claim_token = make_id (text "claim" ∷ text item.id ∷ int token ∷ time now ∷ []);
        attempt_count = int_suc item.attempt_count;
        claimed_at = some now;
        lease_expires_at = some (add_duration now ttl);
        last_updated_at = now;
      }

  pub claim_of : String → Time → ℕ → WorkItem → WorkClaim
  unfolding claim_item
  claim_of worker now ttl item =
      let item' = claim_item worker now ttl item in
      record {
        work_item = item';
        worker_id = worker;
        lease_id = item'.lease_id;
        claim_token = item'.claim_token;
        fencing_token = item'.fencing_token;
        claimed_at = now;
        lease_expires_at = add_duration now ttl;
      }

  pub claim_all : String → Time → ℕ → List WorkItem → Items → Items
  claim_all worker now ttl [] items = items
  claim_all worker now ttl (item ∷ rest) items =
      claim_all worker now ttl rest (insert item.id (claim_item worker now ttl item) items)

  pub claim_ready : String → ℕ → Time → ℕ → Items → Items × List WorkClaim
  unfolding claim_all claim_of selected
  claim_ready worker limit now ttl items =
      let ready = selected limit now items in
      (claim_all worker now ttl ready items, map (claim_of worker now ttl) ready)

-- `validateFenceAgainstItem`; `none` is a nil error.
pub validate_fence_against_item : WorkItem → FenceValidation → Option RuntimeError
validate_fence_against_item item fence =
    if not (item.id == fence.work_item_id)
    then refuse "work item mismatch"
    else if not (is_claimed item.status)
    then refuse "work item is not actively leased"
    else if not (item.lease_id == fence.lease_id)
    then refuse "lease ownership lost"
    else if not (item.fencing_token == fence.fencing_token)
    then refuse "fencing token mismatch"
    else if not (item.claimed_by_worker_id == fence.worker_id)
    then refuse "worker ownership mismatch"
    else none
  where
    refuse : String → Option RuntimeError
    refuse reason = some (conflict "work_item" fence.work_item_id reason)

-- The item that a fence guards, or the error of the lookup or of the validation.
pub fenced : FenceValidation → Items → Result WorkItem
fenced fence items = do
  item ← or_fail (lookup fence.work_item_id items) (not_found "work_item" fence.work_item_id)
  unless (validate_fence_against_item item fence) (ok item)

pub heartbeat_fence : LeaseHeartbeat → FenceValidation
heartbeat_fence h = record {
  work_item_id = h.work_item_id;
  lease_id = h.lease_id;
  fencing_token = h.fencing_token;
  worker_id = h.worker_id;
}

-- The frame of the four operations behind a fence: check, change the item, store it again.
pub guarded : FenceValidation → (WorkItem → WorkItem) → Items → Result Items
guarded fence change items = do item ← fenced fence items; ok (insert item.id (change item) items)

pub beaten : LeaseHeartbeat → WorkItem → WorkItem
beaten h item = record item {
  last_updated_at = h.recorded_at;
  lease_expires_at = some h.lease_expires_at;
}

pub heartbeat : LeaseHeartbeat → Items → Result Items
heartbeat h items = guarded (heartbeat_fence h) (beaten h) items

-- An item without its lease.
abbrev pub released : WorkItem → WorkItem
released item = record item {
  lease_id = "";
  claim_token = "";
  claimed_by_worker_id = "";
  lease_expires_at = none;
  claimed_at = none;
}

pub requeued : Time → String → Time → WorkItem → WorkItem
requeued next reason now item = record (released item) {
  status = queued;
  reason = reason;
  available_at = next;
  last_updated_at = now;
}

pub requeue : FenceValidation → Time → String → Time → Items → Result Items
requeue fence next reason now items = guarded fence (requeued next reason now) items

pub finished : WorkItemStatus → String → Time → WorkItem → WorkItem
finished status summary now item = record (released item) {
  status = status;
  reason = summary;
  last_updated_at = now;
  completed_at = if is_completed status then some now else item.completed_at;
  failed_at = if is_failed status then some now else item.failed_at;
}

pub finish : FenceValidation → WorkItemStatus → String → Time → Items → Result Items
finish fence status summary now items = guarded fence (finished status summary now) items

pub complete : FenceValidation → Time → Items → Result Items
complete fence now items = finish fence completed "" now items

pub fail : FenceValidation → String → Time → Items → Result Items
fail fence summary now items = finish fence failed summary now items

unfoldable pub lease_over : Time → Option Time → Bool
lease_over now none = false
lease_over now (some at) = not (ltb now at)

-- `Claimed`, with a lease that does not run past `now`.
unfoldable pub is_expired : Time → WorkItem → Bool
unfolding lease_over
is_expired now item = is_claimed item.status && lease_over now item.lease_expires_at

unfoldable pub reclaimed : Time → WorkItem → WorkItem
reclaimed now item = record (released item) {
  status = queued;
  reason = "reclaimed after lease expiry";
  last_updated_at = now;
}

unfoldable pub reclaim_result : Time → WorkItem → LeaseReclaimResult
reclaim_result now item = record {
  work_item_id = item.id;
  lease_id = item.lease_id;
  worker_id = item.claimed_by_worker_id;
  fencing_token = item.fencing_token;
  reason = "lease_expired";
  reclaimed_at = now;
}

-- The loop writes only to the entry that it stands at.
pub reclaim_items : Time → Items → Items
unfolding is_expired reclaimed
reclaim_items now [] = []
reclaim_items now ((id, item) ∷ items) =
    (id, if is_expired now item then reclaimed now item else item) ∷ reclaim_items now items

pub reclaim_expired : Time → Items → Items × List LeaseReclaimResult
unfolding reclaim_items reclaim_result
reclaim_expired now items =
    (reclaim_items now items, map (reclaim_result now) (keep (is_expired now) (values items)))

unfoldable pub load : String → Items → Option WorkItem
load id items = lookup id items

pub list_by_graph : String → Items → List WorkItem
unfolding before
list_by_graph graph_id items = sort before (keep (λ item. item.graph_id == graph_id) (values items))

pub validate_fence : FenceValidation → Items → Option RuntimeError
validate_fence fence items = elim (lookup fence.work_item_id items) [
  | none ↦ some (not_found "work_item" fence.work_item_id)
  | some item ↦ validate_fence_against_item item fence
]
