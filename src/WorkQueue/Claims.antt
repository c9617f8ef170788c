-- ===== src/WorkQueue/Claims.antt =====
-- `ClaimReady`: what it takes, in which order, and what it leaves alone.
use personal_cfo_os.Base.{
  ℕ, ◌≤◌, String, ◌≡◌, refl, sym, ap, subst, ◌∙◌, ◌⊎◌, inl, inr, true, false, some, List, [], ◌∷◌,
  arith, ◌==◌, string_eq, eq_iff, Bool-cases, Has, drop, keep, sort, length, Has-take, Has-keep,
  Has-sort, keep-Has, sort-Has, take-or-drop, length-take_full, Has-map, map-Has, length-map,
  Follows, sort-Ascending, take-le-drop,
}
use personal_cfo_os.Base.Dict.{
  lookup, insert, values, IsKeyed, lookup-insert, lookup-insert_self, lookup-id, lookup-Has-values,
  Has-values-lookup, insert-IsKeyed,
}
use personal_cfo_os.WorkQueue.Types.{Time, WorkItem, WorkClaim, IdPart}
use personal_cfo_os.WorkQueue.{
  Items, is_ready, before, effective_limit, selected, claim_item, claim_of, claim_all, claim_ready,
}

abbrev pub item_id : WorkItem → String
item_id item = item.id

-- Items filed under their own identifiers, one to an identifier.
abbrev pub IsFiled : Items → Type 0
IsFiled = IsKeyed item_id

selected-ready :
    (limit : ℕ) (now : Time) (items : Items) (r : WorkItem)
    → Has r (selected limit now items)
    → Has r (values items) × (is_ready now r ≡ true)
unfolding selected
selected-ready limit now items r m =
    Has-keep (is_ready now) r (values items)
      (Has-sort before r _ (Has-take (effective_limit limit) r _ m))

module _ (make_id : List IdPart → String) (worker : String) (now : Time) (ttl : ℕ) where
  abbrev taken : WorkItem → WorkItem
  taken = claim_item make_id worker now ttl

  taken_id : (r : WorkItem) → (taken r).id ≡ r.id
  unfolding claim_item
  taken_id r = refl

  pub taken-ready : (t : Time) (r : WorkItem) → is_ready t (taken r) ≡ false
  unfolding is_ready claim_item
  taken-ready t r = refl

  -- An entry is left alone, or it is the claimed form of a selected item.
  claim_all-lookup :
      (rs : List WorkItem) (items : Items) (i : String)
      → ((r : WorkItem) × Has r rs
          × (r.id ≡ i)
          × (lookup i (claim_all make_id worker now ttl rs items) ≡ some (taken r)))
        ⊎ (lookup i (claim_all make_id worker now ttl rs items) ≡ lookup i items)
  unfolding claim_all
  claim_all-lookup [] items i = inr refl
  claim_all-lookup (r ∷ rs) items i = elim (claim_all-lookup rs (insert r.id (taken r) items) i) [
    | inl (s, m, e, h) ↦ inl (s, inr m, e, h)
    | inr h ↦ elim (Bool-cases (r.id == i)) [
      | inl same ↦
          inl (
            r,
            inl refl,
            (eq_iff r.id i).0 same,
            h ∙ lookup-insert r.id i (taken r) items ∙ rw same,
          )
      | inr other ↦ inr (h ∙ lookup-insert r.id i (taken r) items ∙ rw other)
    ]
  ]

  -- Every selected item is claimed, whichever of those under its identifier comes last.
  claim_all-claims :
      (rs : List WorkItem) (items : Items) (r : WorkItem)
      → Has r rs
      → (s : WorkItem) × Has s rs
        × (s.id ≡ r.id)
        × (lookup r.id (claim_all make_id worker now ttl rs items) ≡ some (taken s))
  unfolding claim_all
  claim_all-claims [] items r m = absurd m
  claim_all-claims (t ∷ rs) items r (inr m) =
      let (s, n, e, h) = claim_all-claims rs (insert t.id (taken t) items) r m in (s, inr n, e, h)
  claim_all-claims (t ∷ rs) items r (inl q) =
      elim (claim_all-lookup rs (insert t.id (taken t) items) r.id) [
        | inl (s, n, e, h) ↦ (s, inr n, e, h)
        | inr h ↦
            (t, inl refl, ap item_id (sym q), h ∙ rw q (lookup-insert_self t.id (taken t) items))
      ]

  claim_all-IsFiled :
      (rs : List WorkItem) (items : Items)
      → IsFiled items
      → IsFiled (claim_all make_id worker now ttl rs items)
  unfolding claim_all
  claim_all-IsFiled [] items u = u
  claim_all-IsFiled (r ∷ rs) items u =
      claim_all-IsFiled rs (insert r.id (taken r) items)
        (insert-IsKeyed item_id r.id (taken r) items u (taken_id r))

  module _ (limit : ℕ) (items : Items) (u : IsFiled items) where
    abbrev after : Items
    after = (claim_ready make_id worker limit now ttl items).0

    abbrev claims : List WorkClaim
    claims = (claim_ready make_id worker limit now ttl items).1

    pub claim_ready-IsFiled : IsFiled after
    unfolding claim_ready
    claim_ready-IsFiled = claim_all-IsFiled (selected limit now items) items u

    selected-lookup :
        (r : WorkItem)
        → Has r (selected limit now items)
        → (lookup r.id items ≡ some r) × (is_ready now r ≡ true)
    selected-lookup r m =
        let (there, ready) = selected-ready limit now items r m in
        (Has-values-lookup item_id r items u there, ready)

    selected_same :
        (r s : WorkItem)
        → Has r (selected limit now items)
        → Has s (selected limit now items)
        → s.id ≡ r.id
        → s ≡ r
    selected_same r s m n e = cc ((selected-lookup r m).0, (selected-lookup s n).0)

    -- A claim is of an item that was queued and due, and stores that item's claimed form.
    pub claim-lookup :
        (c : WorkClaim)
        → Has c claims
        → (r : WorkItem) × (lookup r.id items ≡ some r)
          × (is_ready now r ≡ true)
          × (c ≡ claim_of make_id worker now ttl r)
          × (lookup r.id after ≡ some (taken r))
    unfolding claim_ready
    claim-lookup c m =
        let (r, mr, e) = Has-map (claim_of make_id worker now ttl) c (selected limit now items) m in
        let (s, ms, same, h) = claim_all-claims (selected limit now items) items r mr in
        (
          r,
          (selected-lookup r mr).0,
          (selected-lookup r mr).1,
          e,
          h ∙ ap (λ t. some (taken t)) (selected_same r s mr ms same),
        )

    -- An entry is left as it was, or it was queued and due and one of the claims is of it.
    pub claim_ready-lookup :
        (i : String)
        → (lookup i after ≡ lookup i items)
          ⊎ ((r : WorkItem) × (lookup i items ≡ some r)
              × (is_ready now r ≡ true)
              × (lookup i after ≡ some (taken r))
              × Has (claim_of make_id worker now ttl r) claims)
    unfolding claim_ready
    claim_ready-lookup i = elim (claim_all-lookup (selected limit now items) items i) [
      | inl (r, m, e, h) ↦ inr (
        r,
        subst (λ k. lookup k items ≡ some r) e (selected-lookup r m).0,
        (selected-lookup r m).1,
        h,
        map-Has (claim_of make_id worker now ttl) r (selected limit now items) m,
      )
      | inr h ↦ inl h
    ]

    before-Follows : Follows (λ (r : WorkItem). r.available_at) before
    unfolding before
    before-Follows = record {
      when_before = λ x y h. ground arith;
      when_not = λ x y h. ground arith;
    }

    length-claims : length claims ≡ length (selected limit now items)
    unfolding claim_ready
    length-claims = length-map (claim_of make_id worker now ttl) (selected limit now items)

    abbrev in_order : List WorkItem
    in_order = sort before (keep (is_ready now) (values items))

    left_behind :
        (i : String) (r : WorkItem)
        → lookup i items ≡ some r
        → is_ready now r ≡ true
        → lookup i after ≡ some r
        → Has r (drop (effective_limit limit) in_order)
    unfolding claim_ready selected
    left_behind i r stored ready kept =
        elim (take-or-drop (effective_limit limit) r in_order (
          sort-Has before r _
            (keep-Has (is_ready now) r _ (lookup-Has-values i r items stored) ready))) [
              | inl m ↦
                  let (s, ms, same, h) = claim_all-claims (selected limit now items) items r m in
                  cc (h, kept, lookup-id item_id i r items u stored, ready, taken-ready now s)
              | inr m ↦ m
            ]

    claim-available :
        (r : WorkItem) → (claim_of make_id worker now ttl r).work_item.available_at ≡ r.available_at
    unfolding claim_of
    claim-available r = refl

    -- A ready item is passed over only for as many items as the limit allows, none due later.
    pub passed_over :
        (i : String) (r : WorkItem)
        → lookup i items ≡ some r
        → is_ready now r ≡ true
        → lookup i after ≡ some r
        → (length claims ≡ effective_limit limit)
          × ((c : WorkClaim) → Has c claims → c.work_item.available_at ≤ r.available_at)
    unfolding claim_ready selected
    passed_over i r stored ready kept =
        let behind = left_behind i r stored ready kept in
        (
          length-claims ∙ length-take_full (effective_limit limit) r in_order behind,
          λ c m.
              let (s, ms, e) =
                Has-map (claim_of make_id worker now ttl) c (selected limit now items) m in
              rw (e, claim-available s)
                (take-le-drop (λ (t : WorkItem). t.available_at) (effective_limit limit) in_order s
                  r (sort-Ascending _ before before-Follows (keep (is_ready now) (values items))) ms
                  behind),
        )
