-- ===== src/WorkQueue/Fence.antt =====
-- The fence check, and the operations behind it: heartbeat, complete, fail and requeue.
use personal_cfo_os.Base.{
  ℕ, String, ◌≡◌, ◌↔◌, refl, sym, ap, subst, ◌∙◌, ◌≢◌, inl, inr, true, none, some, List, arith,
  string_eq, nat_eq, eq_iff, Option-cases, Has,
}
use personal_cfo_os.Base.Dict.{lookup, insert}
use personal_cfo_os.Errors.{Result, ok, not_found, unless, or_fail, unless-ok, or_fail-ok, >>=-ok}
use personal_cfo_os.WorkQueue.Types.{Time, WorkItem, WorkClaim, FenceValidation, IdPart, is_claimed}
use personal_cfo_os.WorkQueue.{
  Items, validate_fence_against_item, validate_fence, fenced, guarded, claim_ready, claim_of,
  claim_item,
}
use personal_cfo_os.WorkQueue.Claims.{IsFiled, claim-lookup}

-- The fence fits the lease of the item that it names.
pub record Guards (fence : FenceValidation) (item : WorkItem) : Type 0 where
  pub same_item : item.id ≡ fence.work_item_id
  pub leased : is_claimed item.status ≡ true
  pub same_lease : item.lease_id ≡ fence.lease_id
  pub same_token : item.fencing_token ≡ fence.fencing_token
  pub same_worker : item.claimed_by_worker_id ≡ fence.worker_id

pub validate-Guards :
    (item : WorkItem) (fence : FenceValidation)
    → (validate_fence_against_item item fence ≡ none) ↔ Guards fence item
unfolding validate_fence_against_item
validate-Guards item fence = (
  λ h. ground (
    arith,
    eq_iff item.id fence.work_item_id,
    eq_iff item.lease_id fence.lease_id,
    eq_iff item.claimed_by_worker_id fence.worker_id,
  ),
  λ g. ground (
    arith,
    eq_iff item.id fence.work_item_id,
    eq_iff item.lease_id fence.lease_id,
    eq_iff item.claimed_by_worker_id fence.worker_id,
  ),
)

abbrev checked_item : FenceValidation → WorkItem → Result WorkItem
checked_item fence item = unless (validate_fence_against_item item fence) (ok item)

-- A guarded operation goes on exactly with a stored item that its fence fits.
pub fenced-Guards :
    (fence : FenceValidation) (items : Items) (item : WorkItem)
    → fenced fence items ≡ ok item
    → (lookup fence.work_item_id items ≡ some item) × Guards fence item
unfolding fenced
fenced-Guards fence items item h =
    let (found, stored, checked) =
      >>=-ok (or_fail (lookup key items) (not_found "work_item" key)) (checked_item fence) item h in
    let (valid, same) =
      unless-ok (validate_fence_against_item found fence) (ok found) item checked in
    let e : found ≡ item = cc in
    (
      or_fail-ok (lookup key items) (not_found "work_item" key) found stored ∙ ap some e,
      subst (Guards fence) e ((validate-Guards found fence).0 valid),
    )
  where
    key : String
    key = fence.work_item_id

pub Guards-fenced :
    (fence : FenceValidation) (items : Items) (item : WorkItem)
    → lookup fence.work_item_id items ≡ some item
    → Guards fence item
    → fenced fence items ≡ ok item
unfolding fenced
Guards-fenced fence items item stored g = rw (stored, (validate-Guards item fence).1 g)

validate_fence_stored :
    (fence : FenceValidation) (items : Items) (item : WorkItem)
    → lookup fence.work_item_id items ≡ some item
    → validate_fence fence items ≡ validate_fence_against_item item fence
unfolding validate_fence
validate_fence_stored fence items item stored = rw (stored, validate_fence)

validate_fence_missing :
    (fence : FenceValidation) (items : Items)
    → lookup fence.work_item_id items ≡ none
    → validate_fence fence items ≢ none
unfolding validate_fence
validate_fence_missing fence items missing = rw (missing, validate_fence) (λ h. cc)

-- `ValidateFence` passes exactly when the guarded operations go on.
pub validate_fence-fenced :
    (fence : FenceValidation) (items : Items)
    → (validate_fence fence items ≡ none) ↔ ((item : WorkItem) × (fenced fence items ≡ ok item))
validate_fence-fenced fence items = (
  λ h. elim (Option-cases (lookup fence.work_item_id items)) [
    | inl missing ↦ absurd (validate_fence_missing fence items missing h)
    | inr (item, stored) ↦ (
      item,
      Guards-fenced fence items item stored (
          (validate-Guards item fence).0 (sym (validate_fence_stored fence items item stored) ∙ h)),
    )
  ],
  λ (item, h).
      let (stored, g) = fenced-Guards fence items item h in
      validate_fence_stored fence items item stored ∙ (validate-Guards item fence).1 g,
)

-- The fence that a worker holds after a claim.
abbrev pub fence_of : WorkClaim → FenceValidation
fence_of c = record {
  work_item_id = c.work_item.id;
  lease_id = c.lease_id;
  fencing_token = c.fencing_token;
  worker_id = c.worker_id;
}

module _ (make_id : List IdPart → String) (worker : String) (now : Time) (ttl : ℕ) where
  claim_of-Guards :
      (r : WorkItem) → let c = claim_of make_id worker now ttl r in Guards (fence_of c) c.work_item
  unfolding claim_of claim_item
  claim_of-Guards r = record {
    same_item = refl;
    leased = refl;
    same_lease = refl;
    same_token = refl;
    same_worker = refl;
  }

  -- Right after a claim its fence holds, and the guarded item is the one that was handed out.
  pub claim-fenced :
      (limit : ℕ) (items : Items)
      → IsFiled items
      → (c : WorkClaim) → Has c (claim_ready make_id worker limit now ttl items).1
      → fenced (fence_of c) (claim_ready make_id worker limit now ttl items).0 ≡ ok c.work_item
  unfolding claim_of claim_item
  claim-fenced limit items u c m =
      let (r, stored, ready, e, after) = claim-lookup make_id worker now ttl limit items u c m in
      subst
        (λ d.
          fenced (fence_of d) (claim_ready make_id worker limit now ttl items).0 ≡ ok d.work_item)
        (sym e)
        (Guards-fenced (fence_of (claim_of make_id worker now ttl r)) _ _ after (claim_of-Guards r))

-- A guarded operation that goes through changes the guarded item and nothing else.
module _ (fence : FenceValidation) (change : WorkItem → WorkItem) (items : Items) where
  pub guarded-ok :
      (after : Items)
      → guarded fence change items ≡ ok after
      → (item : WorkItem) × (lookup fence.work_item_id items ≡ some item)
        × Guards fence item
        × (after ≡ insert fence.work_item_id (change item) items)
  unfolding guarded
  guarded-ok after h =
      let (item, passed, stored) =
        >>=-ok (fenced fence items) (λ (t : WorkItem). ok (insert t.id (change t) items)) after h in
      let (found, g) = fenced-Guards fence items item passed in
      let e : after ≡ insert item.id (change item) items = cc in
      (item, found, g, e ∙ ap (λ k. insert k (change item) items) g.same_item)

  -- It does go through where the fence fits the stored item.
  pub guarded-applies :
      (item : WorkItem)
      → lookup fence.work_item_id items ≡ some item
      → Guards fence item
      → guarded fence change items ≡ ok (insert fence.work_item_id (change item) items)
  unfolding guarded
  guarded-applies item stored g =
      rw (Guards-fenced fence items item stored g)
        (ap (λ k. ok (insert k (change item) items)) g.same_item)
