-- ===== src/WorkQueue/History/Lease.antt =====
-- Leases: an item carries one exactly while it is claimed.
use personal_cfo_os.Base.{
  String, ◌≡◌, refl, subst, inl, inr, true, false, none, some, List, [], ◌∷◌, arith, Option-cases,
  All, add_duration,
}
use personal_cfo_os.Base.Dict.{lookup}
use personal_cfo_os.WorkQueue.Types.{WorkItem, IdPart, Time, is_claimed}
use personal_cfo_os.WorkQueue.{Items, admitted, claim_item, beaten, finished, requeued, reclaimed}
use personal_cfo_os.WorkQueue.Claims.{IsFiled}
use personal_cfo_os.WorkQueue.History.{Call, step, run, IsFresh, SubmitsFresh}
use personal_cfo_os.WorkQueue.History.Changes.{
  Change, same, replaces, takes, beats, completing, failing, requeuing, reclaiming, step-Change,
  step-new, step-IsFiled,
}

pub record IsLeased (x : WorkItem) : Type 0 where
  pub leased_until : is_claimed x.status ≡ true → (t : Time) × (x.lease_expires_at ≡ some t)
  pub leased_since : is_claimed x.status ≡ true → (t : Time) × (x.claimed_at ≡ some t)
  pub no_lease : is_claimed x.status ≡ false → x.lease_id ≡ ""
  pub no_claim : is_claimed x.status ≡ false → x.claim_token ≡ ""
  pub no_worker : is_claimed x.status ≡ false → x.claimed_by_worker_id ≡ ""
  pub no_expiry : is_claimed x.status ≡ false → x.lease_expires_at ≡ none
  pub no_claim_time : is_claimed x.status ≡ false → x.claimed_at ≡ none

abbrev pub AllLeased : Items → Type 0
AllLeased items = (i : String) (x : WorkItem) → lookup i items ≡ some x → IsLeased x

module _ (make_id : List IdPart → String) (items : Items) where
  admitted-IsLeased : (s : WorkItem) → IsFresh s → IsLeased (admitted s items)
  unfolding admitted
  admitted-IsLeased s fresh = ground (arith, fresh.waits)

  Change-IsLeased :
      {c : Call} {x y : WorkItem}
      → SubmitsFresh c
      → Change make_id items c x y
      → IsLeased x
      → IsLeased y
  unfolding claim_item beaten finished requeued reclaimed
  Change-IsLeased fresh (same c x) l = l
  Change-IsLeased fresh (replaces s x free at) l = admitted-IsLeased s fresh
  Change-IsLeased fresh (takes worker limit now ttl x ready) l = record {
    leased_until = λ e. (add_duration now ttl, refl);
    leased_since = λ e. (now, refl);
    no_lease = λ e. cc;
    no_claim = λ e. cc;
    no_worker = λ e. cc;
    no_expiry = λ e. cc;
    no_claim_time = λ e. cc;
  }
  Change-IsLeased fresh (beats h x g) l = record {
    leased_until = λ e. (h.lease_expires_at, refl);
    leased_since = l.leased_since;
    no_lease = l.no_lease;
    no_claim = l.no_claim;
    no_worker = l.no_worker;
    no_expiry = λ e. cc g.leased;
    no_claim_time = l.no_claim_time;
  }
  Change-IsLeased fresh (completing f now x g) l = ground arith
  Change-IsLeased fresh (failing f summary now x g) l = ground arith
  Change-IsLeased fresh (requeuing f next reason now x g) l = ground arith
  Change-IsLeased fresh (reclaiming now x e) l = ground arith

  step-AllLeased :
      (c : Call)
      → IsFiled items
      → SubmitsFresh c
      → AllLeased items
      → AllLeased (step make_id c items)
  step-AllLeased c u fresh all i y found = elim (Option-cases (lookup i items)) [
    | inl missing ↦ elim (step-new make_id c items i u missing) [
      | inl still ↦ cc (still, found)
      | inr (s, e, k, free, at) ↦
          let it : admitted s items ≡ y = cc in
          subst IsLeased it (admitted-IsLeased s (subst SubmitsFresh e fresh))
    ]
    | inr (x, stored) ↦
        let (z, at, change) = step-Change make_id c items i x u stored in
        let it : z ≡ y = cc in subst IsLeased it (Change-IsLeased fresh change (all i x stored))
  ]

module _ (make_id : List IdPart → String) where
  -- After any history that submits only fresh items, an item has an expiry and a claim time while
  -- it is claimed, and no trace of a lease otherwise.
  pub run-AllLeased :
      (cs : List Call) (items : Items)
      → IsFiled items
      → All SubmitsFresh cs
      → AllLeased items
      → AllLeased (run make_id cs items)
  unfolding run
  run-AllLeased [] items u fresh all = all
  run-AllLeased (c ∷ cs) items u fresh all =
      run-AllLeased cs (step make_id c items) (step-IsFiled make_id c items u) fresh.1
        (step-AllLeased make_id items c u fresh.0 all)
