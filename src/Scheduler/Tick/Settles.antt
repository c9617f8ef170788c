-- ===== src/Scheduler/Tick/Settles.antt =====
-- What the dispatch of due wakeups leaves in the wakeup store.
use personal_cfo_os.Base.{
  ◌≡◌, refl, sym, ap, subst, ◌≢◌, ◌∙◌, String, none, some, List, [], ◌∷◌, string_eq, inl, inr, Has,
  arith, eq_iff, Option-cases,
}
use personal_cfo_os.Base.Dict.{Dict, lookup, delete, lookup-delete}
use personal_cfo_os.Errors.{Result, ok, err, RuntimeError, Result-cases}
use personal_cfo_os.WorkQueue.Types.{IdPart, WorkItem, WorkEnqueueResult}
use personal_cfo_os.WorkQueue.{Items, enqueue}
use personal_cfo_os.Scheduler.{SchedulerWakeup, mark_wakeup_dispatched, to_work_item}
use personal_cfo_os.Scheduler.Scan.{SchedulerStores}
use personal_cfo_os.Scheduler.Tick.{Dispatch, first_of, dispatch}

-- A run that succeeds with one more in front.
first_of-ok :
    {A : Type 0} (a : A) (r : SchedulerStores × Result (List A)) (t : SchedulerStores)
    (found : List A)
    → first_of a r ≡ (t, ok found)
    → (rest : List A) × (r ≡ (t, ok rest)) × (found ≡ a ∷ rest)
first_of-ok a (u, ok rest) t found h = (rest, cc, cc)
first_of-ok a (u, err e) t found h = cc

ok-no_err :
    {A : Type 0} {s t : SchedulerStores} {x : RuntimeError} {a : A}
    → ◌≡◌ {A = SchedulerStores × Result A} (s, err x) (t, ok a)
    → ⊥
ok-no_err h = cc

module _ (make_id : List IdPart → String) (w : SchedulerWakeup) (ws : List SchedulerWakeup) where
  -- The stores after `w` was dispatched.
  abbrev after_dispatch : SchedulerStores → Items → SchedulerStores
  after_dispatch s items = record s {
    items = items;
    wakeups = mark_wakeup_dispatched w.id s.wakeups;
  }

  dispatch-skip :
      (s : SchedulerStores)
      → to_work_item make_id w ≡ none
      → dispatch make_id (w ∷ ws) s ≡ dispatch make_id ws s
  unfolding dispatch
  dispatch-skip s e = rw (e, dispatch)

  dispatch-err :
      (s : SchedulerStores) (item : WorkItem) (x : RuntimeError)
      → to_work_item make_id w ≡ some item
      → enqueue item s.items ≡ err x
      → dispatch make_id (w ∷ ws) s ≡ (s, err x)
  unfolding dispatch
  dispatch-err s item x e q = rw (e, dispatch, q)

  dispatch-first :
      (s : SchedulerStores) (item : WorkItem) (items : Items) (answer : WorkEnqueueResult)
      → to_work_item make_id w ≡ some item
      → enqueue item s.items ≡ ok (items, answer)
      → dispatch make_id (w ∷ ws) s
        ≡ first_of
            (record { wakeup = w; item = item; answer = answer })
            (dispatch make_id ws (after_dispatch s items))
  unfolding dispatch
  dispatch-first s item items answer e q = grind arith

  -- What the first wakeup of a dispatch that succeeds comes to.
  data FirstStep (s t : SchedulerStores) (done : List Dispatch) : Type 0 where
    skipped :
        to_work_item make_id w ≡ none → dispatch make_id ws s ≡ (t, ok done) → FirstStep s t done
    sent :
        (d : Dispatch) (items : Items) (rest : List Dispatch)
        → d.wakeup ≡ w
        → to_work_item make_id w ≡ some d.item
        → dispatch make_id ws (after_dispatch s items) ≡ (t, ok rest)
        → done ≡ d ∷ rest
        → FirstStep s t done

  dispatch-FirstStep :
      (s t : SchedulerStores) (done : List Dispatch)
      → dispatch make_id (w ∷ ws) s ≡ (t, ok done)
      → FirstStep s t done
  dispatch-FirstStep s t done h = elim (Option-cases (to_work_item make_id w)) [
    | inl e ↦ skipped e (sym (dispatch-skip s e) ∙ h)
    | inr (item, e) ↦ elim (Result-cases (enqueue item s.items)) [
      | inl ((items, answer), q) ↦
          let d : Dispatch = record { wakeup = w; item = item; answer = answer } in
          let (rest, r, l) =
            first_of-ok d (dispatch make_id ws (after_dispatch s items)) t done
              (sym (dispatch-first s item items answer e q) ∙ h) in
          sent d items rest refl e r l
      | inr (x, q) ↦ absurd (ok-no_err (sym (dispatch-err s item x e q) ∙ h))
    ]
  ]

none-no_some : {A : Type 0} {a : A} → none ≡ some a → ⊥
none-no_some h = cc

undeleted :
    {V : Type 0} (j k : String) (m : Dict V) (v : V)
    → lookup k (delete j m) ≡ some v
    → (j ≢ k) × (lookup k m ≡ some v)
undeleted j k m v h = ground (arith, eq_iff j k, lookup-delete j k m)

module _ (make_id : List IdPart → String) where
  dispatch-nil :
      (s t : SchedulerStores) (done : List Dispatch)
      → dispatch make_id [] s ≡ (t, ok done)
      → done ≡ []
  unfolding dispatch
  dispatch-nil s t done h = cc

  -- A wakeup that is stored after a dispatch was stored before, and none under its name makes an item.
  pub dispatch-left :
      (ws : List SchedulerWakeup) (s t : SchedulerStores) (done : List Dispatch)
      → dispatch make_id ws s ≡ (t, ok done)
      → (k : String) (v : SchedulerWakeup) → lookup k t.wakeups ≡ some v
      → (lookup k s.wakeups ≡ some v)
        × ((w : SchedulerWakeup) → Has w ws → w.id ≡ k → to_work_item make_id w ≡ none)
  unfolding dispatch mark_wakeup_dispatched
  dispatch-left [] s t done h k v l = (cc, λ w m e. absurd m)
  dispatch-left (x ∷ ws) s t done h k v l = elim (dispatch-FirstStep make_id x ws s t done h) [
    | skipped e r ↦
        let (before, others) = dispatch-left ws s t done r k v l in
        (before, λ w m i. elim m [ inl q ↦ ap (to_work_item make_id) q ∙ e | inr m ↦ others w m i ])
    | sent d items rest i e r q ↦
        let (before, others) =
          dispatch-left ws (after_dispatch make_id x ws s items) t rest r k v l in
        let (ne, still) = undeleted x.id k s.wakeups v before in
        (
          still,
          λ w m j. elim m [
            | inl p ↦ absurd (ne (sym (ap (λ y. y.id) p) ∙ j))
            | inr m ↦ others w m j
          ],
        )
  ]

  -- What was dispatched is among the given wakeups, with the item made of it.
  pub dispatch-done :
      (ws : List SchedulerWakeup) (s t : SchedulerStores) (done : List Dispatch)
      → dispatch make_id ws s ≡ (t, ok done)
      → (d : Dispatch) → Has d done
      → Has d.wakeup ws × (to_work_item make_id d.wakeup ≡ some d.item)
  unfolding dispatch
  dispatch-done [] s t done h d m = absurd (subst (Has d) (dispatch-nil s t done h) m)
  dispatch-done (x ∷ ws) s t done h d m = elim (dispatch-FirstStep make_id x ws s t done h) [
    | skipped e r ↦ let (there, made) = dispatch-done ws s t done r d m in (inr there, made)
    | sent c items rest i e r q ↦ elim (subst (Has d) q m) [
      | inl p ↦ (
        inl (ap (λ y. y.wakeup) p ∙ i),
        ap (λ y. to_work_item make_id y.wakeup) p
            ∙ ap (to_work_item make_id) i
            ∙ e
            ∙ ap (λ y. some y.item) (sym p),
      )
      | inr m ↦
          let (there, made) = dispatch-done ws (after_dispatch make_id x ws s items) t rest r d m in
          (inr there, made)
    ]
  ]

  -- None that was dispatched is stored any longer.
  pub dispatch-gone :
      (ws : List SchedulerWakeup) (s t : SchedulerStores) (done : List Dispatch)
      → dispatch make_id ws s ≡ (t, ok done)
      → (d : Dispatch) → Has d done
      → lookup d.wakeup.id t.wakeups ≡ none
  dispatch-gone ws s t done h d m = elim (Option-cases (lookup d.wakeup.id t.wakeups)) [
    | inl n ↦ n
    | inr (v, l) ↦
        let (there, made) = dispatch-done ws s t done h d m in
        let (before, others) = dispatch-left ws s t done h d.wakeup.id v l in
        absurd (none-no_some (sym (others d.wakeup there refl) ∙ made))
  ]
