-- ===== src/WorkQueue/History/Changes.antt =====
-- What one call may do to one stored item.
use personal_cfo_os.Base.{
  ℕ, String, ◌≡◌, refl, sym, ap, subst, ◌∙◌, ◌⊎◌, inl, inr, true, false, none, some, List, ◌==◌,
  string_eq, eq_iff, Bool-cases, Option-cases, find, is_empty,
}
use personal_cfo_os.Base.Dict.{
  lookup, insert, values, lookup-insert, lookup-insert_self, insert-IsKeyed,
}
use personal_cfo_os.Errors.{Result, ok, err}
use personal_cfo_os.WorkQueue.Types.{
  Time, WorkItem, FenceValidation, LeaseHeartbeat, IdPart, completed, failed,
}
use personal_cfo_os.WorkQueue.{
  Items, blocks, admitted, enqueue, is_ready, claim_item, heartbeat_fence, beaten, heartbeat,
  guarded, finished, finish, complete, fail, requeued, requeue, is_expired, reclaimed,
  reclaim_expired,
}
use personal_cfo_os.WorkQueue.Claims.{IsFiled, item_id, claim_ready-lookup, claim_ready-IsFiled}
use personal_cfo_os.WorkQueue.Fence.{Guards, guarded-ok}
use personal_cfo_os.WorkQueue.Reclaim.{
  reclaim_one, over, lookup-reclaim_items, reclaim_items-IsFiled,
}
use personal_cfo_os.WorkQueue.History.{
  Call, enqueues, claims, heartbeats, completes, fails, requeues, reclaims, after, after_enqueue,
  step,
}

module _ (make_id : List IdPart → String) (items : Items) where
  pub data Change : Call → WorkItem → WorkItem → Type 0 where
    same : (c : Call) (x : WorkItem) → Change c x x
    replaces :
        (s x : WorkItem)
        → find (blocks s) (values items) ≡ none
        → lookup s.id items ≡ some x
        → Change (enqueues s) x (admitted s items)
    takes :
        (worker : String) (limit : ℕ) (now : Time) (ttl : ℕ) (x : WorkItem)
        → is_ready now x ≡ true
        → Change (claims worker limit now ttl) x (claim_item make_id worker now ttl x)
    beats :
        (h : LeaseHeartbeat) (x : WorkItem)
        → Guards (heartbeat_fence h) x
        → Change (heartbeats h) x (beaten h x)
    completing :
        (f : FenceValidation) (now : Time) (x : WorkItem)
        → Guards f x
        → Change (completes f now) x (finished completed "" now x)
    failing :
        (f : FenceValidation) (summary : String) (now : Time) (x : WorkItem)
        → Guards f x
        → Change (fails f summary now) x (finished failed summary now x)
    requeuing :
        (f : FenceValidation) (next : Time) (reason : String) (now : Time) (x : WorkItem)
        → Guards f x
        → Change (requeues f next reason now) x (requeued next reason now x)
    reclaiming :
        (now : Time) (x : WorkItem)
        → is_expired now x ≡ true
        → Change (reclaims now) x (reclaimed now x)

-- An entry under a guarded operation: left alone, or guarded and changed.
guarded-lookup :
    (P : WorkItem → Type 0) (f : FenceValidation) (change : WorkItem → WorkItem) (items : Items)
    (i : String) (x : WorkItem)
    → lookup i items ≡ some x
    → P x
    → (Guards f x → P (change x))
    → (r : Result Items) → guarded f change items ≡ r
    → (y : WorkItem) × (lookup i (after items r) ≡ some y) × P y
guarded-lookup P f change items i x stored p q (err e) h = (x, stored, p)
guarded-lookup P f change items i x stored p q (ok items') h =
    let (item, found, g, e) = guarded-ok f change items items' h in
    elim (Bool-cases (f.work_item_id == i)) [
      | inl hit ↦
          let k : f.work_item_id ≡ i = (eq_iff f.work_item_id i).0 hit in
          let it : item ≡ x = cc in
          (
            change x,
            rw (e, ← k)
                (lookup-insert_self f.work_item_id (change item) items
                  ∙ ap (λ t. some (change t)) it),
            q (subst (Guards f) it g),
          )
      | inr miss ↦
          (x, rw e (lookup-insert f.work_item_id i (change item) items ∙ rw miss stored), p)
    ]

-- A submission is refused or suppressed, or stored under its identifier.
pub enqueue-outcome :
    (s : WorkItem) (items : Items)
    → (after_enqueue items (enqueue s items) ≡ items)
      ⊎ ((find (blocks s) (values items) ≡ none)
          × (is_empty s.id ≡ false)
          × (after_enqueue items (enqueue s items) ≡ insert s.id (admitted s items) items))
unfolding enqueue
enqueue-outcome s items = elim (Bool-cases (is_empty s.id)) [
  | inl bad ↦ inl (rw bad)
  | inr good ↦ elim (Option-cases (find (blocks s) (values items))) [
    | inl free ↦ inr (free, good, rw (good, free, enqueue))
    | inr (held, e) ↦ inl (rw (good, e, enqueue))
  ]
]

module _ (make_id : List IdPart → String) where
  -- A stored item stays stored, and changes only as its call allows.
  pub step-Change :
      (c : Call) (items : Items) (i : String) (x : WorkItem)
      → IsFiled items
      → lookup i items ≡ some x
      → (y : WorkItem) × (lookup i (step make_id c items) ≡ some y) × Change make_id items c x y
  unfolding step heartbeat complete fail finish requeue reclaim_expired
  step-Change (enqueues s) items i x u stored = elim (enqueue-outcome s items) [
    | inl e ↦ (x, rw e stored, same (enqueues s) x)
    | inr (free, good, e) ↦ elim (Bool-cases (s.id == i)) [
      | inl hit ↦ (
        admitted s items,
        rw e (lookup-insert s.id i (admitted s items) items ∙ rw hit),
        replaces s x free (ap (λ k. lookup k items) ((eq_iff s.id i).0 hit) ∙ stored),
      )
      | inr miss ↦ (
        x,
        rw e (lookup-insert s.id i (admitted s items) items ∙ rw miss stored),
        same (enqueues s) x,
      )
    ]
  ]
  step-Change (claims worker limit now ttl) items i x u stored =
      elim (claim_ready-lookup make_id worker now ttl limit items u i) [
        | inl e ↦ (x, e ∙ stored, same (claims worker limit now ttl) x)
        | inr (r, was, ready, e, m) ↦
            let it : r ≡ x = cc in
            (
              claim_item make_id worker now ttl x,
              e ∙ ap (λ t. some (claim_item make_id worker now ttl t)) it,
              takes worker limit now ttl x (subst (λ t. is_ready now t ≡ true) it ready),
            )
      ]
  step-Change (heartbeats h) items i x u stored =
      guarded-lookup (Change make_id items (heartbeats h) x) (heartbeat_fence h) (beaten h) items i
        x stored (same (heartbeats h) x) (beats h x) (heartbeat h items) refl
  step-Change (completes f now) items i x u stored =
      guarded-lookup (Change make_id items (completes f now) x) f (finished completed "" now) items
        i x stored (same (completes f now) x) (completing f now x) (complete f now items) refl
  step-Change (fails f summary now) items i x u stored =
      guarded-lookup (Change make_id items (fails f summary now) x) f (finished failed summary now)
        items i x stored (same (fails f summary now) x) (failing f summary now x)
        (fail f summary now items) refl
  step-Change (requeues f next reason now) items i x u stored =
      guarded-lookup (Change make_id items (requeues f next reason now) x) f
        (requeued next reason now) items i x stored (same (requeues f next reason now) x)
        (requeuing f next reason now x) (requeue f next reason now items) refl
  step-Change (reclaims now) items i x u stored = elim (Bool-cases (is_expired now x)) [
    | inl over_now ↦ (
      reclaimed now x,
      lookup-reclaim_items now items i ∙ ap (over (reclaim_one now)) stored ∙ rw over_now,
      reclaiming now x over_now,
    )
    | inr runs ↦ (
      x,
      lookup-reclaim_items now items i ∙ ap (over (reclaim_one now)) stored ∙ rw runs,
      same (reclaims now) x,
    )
  ]

guarded-missing :
    (f : FenceValidation) (change : WorkItem → WorkItem) (items : Items) (i : String)
    → lookup i items ≡ none
    → (r : Result Items) → guarded f change items ≡ r
    → lookup i (after items r) ≡ none
guarded-missing f change items i missing (err e) h = missing
guarded-missing f change items i missing (ok items') h =
    let (item, found, g, e) = guarded-ok f change items items' h in
    elim (Bool-cases (f.work_item_id == i)) [
      | inl hit ↦ cc (found, missing, (eq_iff f.work_item_id i).0 hit)
      | inr miss ↦ rw e (lookup-insert f.work_item_id i (change item) items ∙ rw miss missing)
    ]

guarded-IsFiled :
    (f : FenceValidation) (change : WorkItem → WorkItem) (items : Items)
    → ((x : WorkItem) → (change x).id ≡ x.id)
    → IsFiled items
    → (r : Result Items) → guarded f change items ≡ r
    → IsFiled (after items r)
guarded-IsFiled f change items k u (err e) h = u
guarded-IsFiled f change items k u (ok items') h =
    let (item, found, g, e) = guarded-ok f change items items' h in
    subst IsFiled (sym e)
      (insert-IsKeyed item_id f.work_item_id (change item) items u (k item ∙ g.same_item))

module _ (make_id : List IdPart → String) where
  -- An identifier that is new in the map was submitted by the call.
  pub step-new :
      (c : Call) (items : Items) (i : String)
      → IsFiled items
      → lookup i items ≡ none
      → (lookup i (step make_id c items) ≡ none)
        ⊎ ((s : WorkItem) × (c ≡ enqueues s)
            × (s.id ≡ i)
            × (find (blocks s) (values items) ≡ none)
            × (lookup i (step make_id c items) ≡ some (admitted s items)))
  unfolding step heartbeat complete fail finish requeue reclaim_expired
  step-new (enqueues s) items i u missing = elim (enqueue-outcome s items) [
    | inl e ↦ inl (rw e missing)
    | inr (free, good, e) ↦ elim (Bool-cases (s.id == i)) [
      | inl hit ↦ inr (
        s,
        refl,
        (eq_iff s.id i).0 hit,
        free,
        rw e (lookup-insert s.id i (admitted s items) items ∙ rw hit),
      )
      | inr miss ↦ inl (rw e (lookup-insert s.id i (admitted s items) items ∙ rw miss missing))
    ]
  ]
  step-new (claims worker limit now ttl) items i u missing =
      elim (claim_ready-lookup make_id worker now ttl limit items u i) [
        | inl e ↦ inl (e ∙ missing)
        | inr (r, was, ready, e, m) ↦ cc (was, missing)
      ]
  step-new (heartbeats h) items i u missing =
      inl (guarded-missing (heartbeat_fence h) (beaten h) items i missing (heartbeat h items) refl)
  step-new (completes f now) items i u missing =
      inl
        (guarded-missing f (finished completed "" now) items i missing (complete f now items) refl)
  step-new (fails f summary now) items i u missing = inl (
      guarded-missing f (finished failed summary now) items i missing (fail f summary now items)
        refl)
  step-new (requeues f next reason now) items i u missing = inl (
      guarded-missing f (requeued next reason now) items i missing (requeue f next reason now items)
        refl)
  step-new (reclaims now) items i u missing =
      inl (lookup-reclaim_items now items i ∙ ap (over (reclaim_one now)) missing)

  -- Every call keeps each item under its own identifier, one to an identifier.
  pub step-IsFiled : (c : Call) (items : Items) → IsFiled items → IsFiled (step make_id c items)
  unfolding step heartbeat complete fail finish requeue reclaim_expired beaten finished requeued
      admitted
  step-IsFiled (enqueues s) items u = elim (enqueue-outcome s items) [
    | inl e ↦ subst IsFiled (sym e) u
    | inr (free, good, e) ↦
        subst IsFiled (sym e) (insert-IsKeyed item_id s.id (admitted s items) items u refl)
  ]
  step-IsFiled (claims worker limit now ttl) items u =
      claim_ready-IsFiled make_id worker now ttl limit items u
  step-IsFiled (heartbeats h) items u =
      guarded-IsFiled (heartbeat_fence h) (beaten h) items (λ x. refl) u (heartbeat h items) refl
  step-IsFiled (completes f now) items u =
      guarded-IsFiled f (finished completed "" now) items (λ x. refl) u (complete f now items) refl
  step-IsFiled (fails f summary now) items u =
      guarded-IsFiled f (finished failed summary now) items (λ x. refl) u (fail f summary now items)
        refl
  step-IsFiled (requeues f next reason now) items u =
      guarded-IsFiled f (requeued next reason now) items (λ x. refl) u
        (requeue f next reason now items) refl
  step-IsFiled (reclaims now) items u = reclaim_items-IsFiled now items u
