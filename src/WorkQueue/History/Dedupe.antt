-- ===== src/WorkQueue/History/Dedupe.antt =====
-- Deduplication: of the items that are queued or claimed, no two have one dedupe key.
use personal_cfo_os.Base.{
  String, ◌≡◌, refl, sym, ap, subst, ◌∙◌, inl, inr, true, false, none, some, List, [], ◌∷◌, arith,
  string_eq, eq_iff, Option-cases, find, is_empty,
}
use personal_cfo_os.Base.Dict.{lookup, values, find-eq-none, lookup-id}
use personal_cfo_os.WorkQueue.Types.{WorkItem, IdPart}
use personal_cfo_os.WorkQueue.{
  Items, is_active, blocks, admitted, is_ready, claim_item, beaten, finished, requeued, is_expired,
  reclaimed,
}
use personal_cfo_os.WorkQueue.Claims.{IsFiled, item_id}
use personal_cfo_os.WorkQueue.History.{Call, enqueues, step, run}
use personal_cfo_os.WorkQueue.History.Changes.{
  Change, same, replaces, takes, beats, completing, failing, requeuing, reclaiming, step-Change,
  step-new, step-IsFiled,
}

-- Two stored items that are active under one dedupe key are one.
abbrev pub IsDeduped : Items → Type 0
IsDeduped items =
    (i j : String) (x y : WorkItem)
    → lookup i items ≡ some x
    → lookup j items ≡ some y
    → is_active x.status ≡ true
    → is_active y.status ≡ true
    → is_empty x.dedupe_key ≡ false
    → x.dedupe_key ≡ y.dedupe_key
    → i ≡ j

-- Where a stored item comes from: an earlier one with its key, active if it is; or a submission
-- that no active item blocked.
data Origin (make_id : List IdPart → String) (c : Call) (items : Items) (i : String) (y : WorkItem)
    : Type 0 where
  kept :
      (x : WorkItem)
      → lookup i items ≡ some x
      → x.dedupe_key ≡ y.dedupe_key
      → (is_active y.status ≡ true → is_active x.status ≡ true)
      → Origin make_id c items i y
  sent :
      (s : WorkItem)
      → c ≡ enqueues s
      → s.id ≡ i
      → s.dedupe_key ≡ y.dedupe_key
      → find (blocks s) (values items) ≡ none
      → Origin make_id c items i y

module _ (make_id : List IdPart → String) (items : Items) (u : IsFiled items) where
  Change-Origin :
      {c : Call} {x y : WorkItem} (i : String)
      → lookup i items ≡ some x
      → Change make_id items c x y
      → Origin make_id c items i y
  unfolding admitted claim_item beaten finished requeued reclaimed is_ready is_expired
  Change-Origin i stored (same c x) = kept x stored refl (λ a. a)
  Change-Origin i stored (replaces s x free at) =
      sent s refl (sym (lookup-id item_id s.id x items u at) ∙ lookup-id item_id i x items u stored)
        refl free
  Change-Origin i stored (takes worker limit now ttl x ready) =
      kept x stored refl (λ a. ground (arith, ready))
  Change-Origin i stored (beats h x g) = kept x stored refl (λ a. a)
  Change-Origin i stored (completing f now x g) = kept x stored refl (λ a. cc)
  Change-Origin i stored (failing f summary now x g) = kept x stored refl (λ a. cc)
  Change-Origin i stored (requeuing f next reason now x g) =
      kept x stored refl (λ a. ground (arith, g.leased))
  Change-Origin i stored (reclaiming now x e) = kept x stored refl (λ a. ground (arith, e))

  step-Origin :
      (c : Call) (i : String) (y : WorkItem)
      → lookup i (step make_id c items) ≡ some y
      → Origin make_id c items i y
  unfolding admitted
  step-Origin c i y found = elim (Option-cases (lookup i items)) [
    | inl missing ↦ elim (step-new make_id c items i u missing) [
      | inl still ↦ cc (still, found)
      | inr (s, e, k, free, at) ↦
          let it : admitted s items ≡ y = cc in
          sent s e k (ap (λ (t : WorkItem). t.dedupe_key) it) free
    ]
    | inr (x, stored) ↦
        let (z, at, change) = step-Change make_id c items i x u stored in
        let it : z ≡ y = cc in subst (Origin make_id c items i) it (Change-Origin i stored change)
  ]

  sent_blocks :
      (s x : WorkItem) (i : String)
      → find (blocks s) (values items) ≡ none
      → lookup i items ≡ some x
      → is_active x.status ≡ true
      → is_empty x.dedupe_key ≡ false
      → x.dedupe_key ≡ s.dedupe_key
      → ⊥
  unfolding blocks
  sent_blocks s x i free stored active named e = ground (
    arith,
    find-eq-none (blocks s) i x items free stored,
    eq_iff x.dedupe_key s.dedupe_key,
    eq_iff x.dedupe_key "",
    eq_iff s.dedupe_key "",
  )

  origins-same :
      (c : Call) (i j : String) (x y : WorkItem)
      → IsDeduped items
      → Origin make_id c items i x
      → Origin make_id c items j y
      → is_active x.status ≡ true
      → is_active y.status ≡ true
      → is_empty x.dedupe_key ≡ false
      → x.dedupe_key ≡ y.dedupe_key
      → i ≡ j
  origins-same c i j x y d (kept x' p k a) (kept y' q l b) active active' named e =
      d i j x' y' p q (a active) (b active') (rw k named) (k ∙ e ∙ sym l)
  origins-same c i j x y d (sent s p k l free) (sent t q m n free') active active' named e =
      sym k ∙ cc (p, q) ∙ m
  origins-same c i j x y d (kept x' p k a) (sent t q m n free) active active' named e =
      absurd (sent_blocks t x' i free p (a active) (rw k named) (k ∙ e ∙ sym n))
  origins-same c i j x y d (sent s p k l free) (kept y' q m b) active active' named e =
      absurd (sent_blocks s y' j free q (b active') (rw (m, ← e) named) (m ∙ sym e ∙ sym l))

module _ (make_id : List IdPart → String) where
  step-IsDeduped :
      (c : Call) (items : Items)
      → IsFiled items
      → IsDeduped items
      → IsDeduped (step make_id c items)
  step-IsDeduped c items u d i j x y p q =
      origins-same make_id items u c i j x y d (step-Origin make_id items u c i x p)
        (step-Origin make_id items u c j y q)

  -- No history of calls brings two active items under one dedupe key.
  pub run-IsDeduped :
      (cs : List Call) (items : Items)
      → IsFiled items
      → IsDeduped items
      → IsDeduped (run make_id cs items)
  unfolding run
  run-IsDeduped [] items u d = d
  run-IsDeduped (c ∷ cs) items u d =
      run-IsDeduped cs (step make_id c items) (step-IsFiled make_id c items u)
        (step-IsDeduped c items u d)
