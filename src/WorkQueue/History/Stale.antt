-- ===== src/WorkQueue/History/Stale.antt =====
-- Fencing: a fence whose lease has ended is refused for good, whoever calls what in between.
use personal_cfo_os.Base.{
  ℕ, ◌+◌, ◌%◌, ◌≤◌, ◌<◌, String, ◌≡◌, refl, ap, subst, ◌∙◌, ◌≢◌, true, false, none, some, List, [],
  ◌∷◌, arith, All, two_64, int_suc,
}
use personal_cfo_os.Base.Dict.{lookup, lookup-insert_self}
use personal_cfo_os.WorkQueue.Types.{
  Time, WorkItem, FenceValidation, IdPart, is_claimed, completed, failed,
}
use personal_cfo_os.WorkQueue.{
  Items, kept_token, admitted, claim_item, beaten, finished, finish, complete, fail, requeued,
  requeue, is_expired, reclaimed, reclaim_expired, validate_fence, guarded,
}
use personal_cfo_os.WorkQueue.Claims.{IsFiled}
use personal_cfo_os.WorkQueue.Fence.{Guards, fenced-Guards, validate_fence-fenced, guarded-applies}
use personal_cfo_os.WorkQueue.Reclaim.{reclaim_one, over, lookup-reclaim_items}
use personal_cfo_os.WorkQueue.History.{
  Call, claims, completes, fails, requeues, reclaims, after, step, run, claim_count, SubmitsFresh,
}
use personal_cfo_os.WorkQueue.History.Changes.{
  Change, same, replaces, takes, beats, completing, failing, requeuing, reclaiming, step-Change,
  step-IsFiled,
}

-- A call moves an item's token by one, by a claim, or leaves it, and then starts no lease.
data Moves (c : Call) (x y : WorkItem) : Type 0 where
  holds :
      y.fencing_token ≡ x.fencing_token
      → (is_claimed y.status ≡ true → is_claimed x.status ≡ true)
      → Moves c x y
  advances : y.fencing_token ≡ int_suc x.fencing_token → claim_count (c ∷ []) ≡ 1 → Moves c x y

module _ (make_id : List IdPart → String) (items : Items) where
  Change-Moves :
      {c : Call} {x y : WorkItem} → SubmitsFresh c → Change make_id items c x y → Moves c x y
  unfolding admitted claim_item beaten finished requeued reclaimed
  Change-Moves fresh (same c x) = holds refl (λ h. h)
  Change-Moves fresh (replaces s x free stored) =
      holds (ap (kept_token s) stored) (λ h. ground (arith, fresh.waits))
  Change-Moves fresh (takes worker limit now ttl x ready) = advances refl refl
  Change-Moves fresh (beats h x g) = holds refl (λ e. e)
  Change-Moves fresh (completing f now x g) = holds refl (λ e. g.leased)
  Change-Moves fresh (failing f summary now x g) = holds refl (λ e. g.leased)
  Change-Moves fresh (requeuing f next reason now x g) = holds refl (λ e. g.leased)
  Change-Moves fresh (reclaiming now x e) = holds refl (λ h. cc)

-- `d` claims after the token `t`, and not under a lease of that token.
record IsPast (t d : ℕ) (x : WorkItem) : Type 0 where
  token : x.fencing_token ≡ (t + d) % two_64
  moved_on : is_claimed x.status ≡ true → 0 < d

Moves-IsPast :
    (t d : ℕ) {c : Call} {x y : WorkItem}
    → Moves c x y
    → IsPast t d x
    → (e : ℕ) × (e ≤ d + claim_count (c ∷ [])) × IsPast t e y
Moves-IsPast t d (holds e h) p =
    (d, omega arith, record { token = e ∙ p.token; moved_on = λ l. p.moved_on (h l) })
Moves-IsPast t d (advances e one) p = (
  d + 1,
  omega arith,
  record { token = e ∙ ap int_suc p.token ∙ omega arith; moved_on = λ l. omega arith },
)

claim_count-cons :
    (c : Call) (cs : List Call) → claim_count (c ∷ cs) ≡ claim_count (c ∷ []) + claim_count cs
claim_count-cons (claims worker limit now ttl) cs = omega arith
claim_count-cons _ cs = omega arith

module _ (make_id : List IdPart → String) where
  run-IsPast :
      (cs : List Call) (items : Items) (i : String) (t d : ℕ) (x : WorkItem)
      → IsFiled items
      → All SubmitsFresh cs
      → lookup i items ≡ some x
      → IsPast t d x
      → (y : WorkItem) × (lookup i (run make_id cs items) ≡ some y)
        × ((e : ℕ) × (e ≤ d + claim_count cs) × IsPast t e y)
  unfolding run
  run-IsPast [] items i t d x u fresh stored p = (x, stored, (d, omega arith, p))
  run-IsPast (c ∷ cs) items i t d x u fresh stored p =
      let (y, found, change) = step-Change make_id c items i x u stored in
      let (e, le, q) = Moves-IsPast t d (Change-Moves make_id items fresh.0 change) p in
      let (z, there, (f, le', r)) =
        run-IsPast cs (step make_id c items) i t e y (step-IsFiled make_id c items u) fresh.1 found
          q in
      (z, there, (f, omega (arith, claim_count-cons c cs), r))

  -- A fence whose item is no longer under its lease is never good again.
  pub stale_fence :
      (cs : List Call) (items : Items) (f : FenceValidation) (x : WorkItem)
      → IsFiled items
      → All SubmitsFresh cs
      → claim_count cs < two_64
      → f.fencing_token < two_64
      → lookup f.work_item_id items ≡ some x
      → x.fencing_token ≡ f.fencing_token
      → is_claimed x.status ≡ false
      → validate_fence f (run make_id cs items) ≢ none
  stale_fence cs items f x u fresh few small stored e idle valid =
      let (y, there, (d, le, p)) =
        run-IsPast cs items f.work_item_id f.fencing_token 0 x u fresh stored
          (record { token = e ∙ omega arith; moved_on = λ l. cc }) in
      let (z, passed) = (validate_fence-fenced f (run make_id cs items)).0 valid in
      let (found, g) = fenced-Guards f (run make_id cs items) z passed in
      let it : z ≡ y = cc in
      let h : Guards f y = subst (Guards f) it g in
      let past : 0 < d = p.moved_on h.leased in absurd (omega (arith, p.token, h.same_token))

-- The calls that end the lease of a fence.
pub data Ends (f : FenceValidation) (x : WorkItem) : Call → Type 0 where
  completed_it : (now : Time) → Guards f x → Ends f x (completes f now)
  failed_it : (summary : String) (now : Time) → Guards f x → Ends f x (fails f summary now)
  requeued_it :
      (next : Time) (reason : String) (now : Time)
      → Guards f x
      → Ends f x (requeues f next reason now)
  reclaimed_it : (now : Time) → Guards f x → is_expired now x ≡ true → Ends f x (reclaims now)

module _ (make_id : List IdPart → String) (items : Items) (f : FenceValidation) (x : WorkItem)
    (stored : lookup f.work_item_id items ≡ some x) where
  guarded_stores :
      (change : WorkItem → WorkItem)
      → Guards f x
      → lookup f.work_item_id (after items (guarded f change items)) ≡ some (change x)
  guarded_stores change g =
      rw (guarded-applies f change items x stored g)
        (lookup-insert_self f.work_item_id (change x) items)

  Ends-idle :
      (c : Call)
      → Ends f x c
      → (y : WorkItem) × (lookup f.work_item_id (step make_id c items) ≡ some y)
        × (y.fencing_token ≡ f.fencing_token)
        × (is_claimed y.status ≡ false)
  unfolding step complete fail finish finished requeue requeued reclaim_expired reclaimed
  Ends-idle c (completed_it now g) = (
    finished completed "" now x,
    guarded_stores (finished completed "" now) g,
    g.same_token,
    refl,
  )
  Ends-idle c (failed_it summary now g) = (
    finished failed summary now x,
    guarded_stores (finished failed summary now) g,
    g.same_token,
    refl,
  )
  Ends-idle c (requeued_it next reason now g) =
      (requeued next reason now x, guarded_stores (requeued next reason now) g, g.same_token, refl)
  Ends-idle c (reclaimed_it now g e) = (
    reclaimed now x,
    lookup-reclaim_items now items f.work_item_id ∙ ap (over (reclaim_one now)) stored ∙ rw e,
    g.same_token,
    refl,
  )

  -- The lease of a fence that fits a stored item ends when the item is completed, failed or requeued
  -- under it, or reclaimed after it has run out. From then on the fence is refused, whatever calls
  -- follow, while they submit only waiting items without a lease and claim fewer than 2 ^ 64 times.
  pub ended_fence_refused :
      (c : Call) (cs : List Call)
      → IsFiled items
      → Ends f x c
      → All SubmitsFresh cs
      → claim_count cs < two_64
      → f.fencing_token < two_64
      → validate_fence f (run make_id (c ∷ cs) items) ≢ none
  unfolding run
  ended_fence_refused c cs u ends fresh few small =
      let (y, there, token, idle) = Ends-idle c ends in
      stale_fence make_id cs (step make_id c items) f y (step-IsFiled make_id c items u) fresh few
        small there token idle
