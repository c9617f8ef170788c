-- ===== src/WorkQueue/Exclusive.antt =====
-- Two workers that claim one after the other.
use personal_cfo_os.Base.{ℕ, String, ◌≡◌, ◌≢◌, refl, sym, ap, ◌∙◌, List, Has}
use personal_cfo_os.WorkQueue.Types.{Time, WorkItem, WorkClaim, IdPart}
use personal_cfo_os.WorkQueue.{Items, claim_item, claim_of, claim_ready}
use personal_cfo_os.WorkQueue.Claims.{IsFiled, claim-lookup, claim_ready-IsFiled, taken-ready}

abbrev claim_item_id : WorkClaim → String
claim_item_id c = c.work_item.id

module _ (make_id : List IdPart → String) (items : Items) (u : IsFiled items)
    (worker rival : String) (limit limit' : ℕ) (now later : Time) (ttl ttl' : ℕ) where
  abbrev between : Items
  between = (claim_ready make_id worker limit now ttl items).0

  claim_id :
      (w : String) (t : Time) (d : ℕ) (r : WorkItem)
      → (claim_of make_id w t d r).work_item.id ≡ r.id
  unfolding claim_of claim_item
  claim_id w t d r = refl

  -- No two claims of successive rounds are of one item, whatever the limits and times.
  pub claim_exclusive :
      (c d : WorkClaim)
      → Has c (claim_ready make_id worker limit now ttl items).1
      → Has d (claim_ready make_id rival limit' later ttl' between).1
      → c.work_item.id ≢ d.work_item.id
  claim_exclusive c d m n e =
      let (r, stored, ready, is_c, at) = claim-lookup make_id worker now ttl limit items u c m in
      let (s, there, ready', is_d, at') =
        claim-lookup make_id rival later ttl' limit' between
          (claim_ready-IsFiled make_id worker now ttl limit items u) d n in
      let same : r.id ≡ s.id =
        sym (claim_id worker now ttl r)
        ∙ sym (ap claim_item_id is_c)
        ∙ e
        ∙ ap claim_item_id is_d
        ∙ claim_id rival later ttl' s in
      cc (at, there, same, ready', taken-ready make_id worker now ttl later r)
