-- ===== src/Scheduler/Tick/Due.antt =====
-- What a tick does to the wakeups that are due.
use personal_cfo_os.Base.{
  ◌⊎◌, inl, inr, ℕ, ◌≡◌, refl, sym, ap, subst, ◌∙◌, String, Bool, false, not, none, some, List, ltb,
  Has, Has-keep, keep-Has, Has-map, length, Has-sort, sort-Has, arith,
}
use personal_cfo_os.Base.Dict.{lookup, values, lookup-id, lookup-Has-values}
use personal_cfo_os.Errors.{Result, ok}
use personal_cfo_os.WorkQueue.Types.{
  IdPart, no_wakeup, other_wakeup, due_window, dependency, capability, approval, retry, operator,
  SchedulerWakeupKind,
}
use personal_cfo_os.TaskSpec.{TaskSpec}
use personal_cfo_os.TaskGraph.{TaskGraphSnapshot}
use personal_cfo_os.Scheduler.{
  SchedulerWakeup, Wakeups, due_before, list_due_wakeups, to_work_item, item_of_kind,
  RetryBackoffPolicy,
}
use personal_cfo_os.Scheduler.Scan.{SchedulerStores}
use personal_cfo_os.Scheduler.Tick.{
  Dispatch, SchedulerTickResult, tick_result, and_then, and_then-ok, dispatch, schedule_graphs,
  tick,
}
use personal_cfo_os.Scheduler.Tick.Keyed.{WakeupsKeyed, schedule_graphs-Keyed}
use personal_cfo_os.Scheduler.Tick.Settles.{dispatch-left, dispatch-done, dispatch-gone}

-- A wakeup is due at a time that is not before its own.
abbrev pub IsDue : ℕ → SchedulerWakeup → Type 0
IsDue now w = ltb now w.available_at ≡ false

IsDue-Has :
    (now : ℕ) (w : SchedulerWakeup) (m : Wakeups)
    → IsDue now w
    → Has w (values m)
    → Has w (list_due_wakeups now m)
unfolding list_due_wakeups
IsDue-Has now w m d h =
    sort-Has due_before w _ (keep-Has (λ v. not (ltb now v.available_at)) w (values m) h (ap not d))

Has-IsDue :
    (now : ℕ) (w : SchedulerWakeup) (m : Wakeups) → Has w (list_due_wakeups now m) → IsDue now w
unfolding list_due_wakeups
Has-IsDue now w m h =
    let kept =
      Has-keep (λ v. not (ltb now v.available_at)) w (values m) (Has-sort due_before w _ h) in
    ground (arith, kept.1)

-- The kind is none of the constants.
abbrev pub IsUnknown : SchedulerWakeupKind → Type 0
IsUnknown k = (k ≡ no_wakeup) ⊎ ((text : String) × (k ≡ other_wakeup text))

no_item-kind :
    (make_id : List IdPart → String) (k : SchedulerWakeupKind) (w : SchedulerWakeup)
    → item_of_kind make_id k w ≡ none
    → IsUnknown k
no_item-kind make_id no_wakeup w h = inl refl
no_item-kind make_id (other_wakeup t) w h = inr (t, refl)
no_item-kind make_id due_window w h = cc
no_item-kind make_id dependency w h = cc
no_item-kind make_id capability w h = cc
no_item-kind make_id approval w h = cc
no_item-kind make_id retry w h = cc
no_item-kind make_id operator w h = cc

no_work-kind :
    (make_id : List IdPart → String) (w : SchedulerWakeup)
    → to_work_item make_id w ≡ none
    → IsUnknown w.kind
unfolding to_work_item
no_work-kind make_id w h = no_item-kind make_id w.kind w h

-- A dispatch over what is due in the store that it works on.
dispatch-settles :
    (make_id : List IdPart → String) (now : ℕ) (s t : SchedulerStores) (done : List Dispatch)
    → dispatch make_id (list_due_wakeups now s.wakeups) s ≡ (t, ok done)
    → WakeupsKeyed s
    → ((k : String) (w : SchedulerWakeup)
        → lookup k t.wakeups ≡ some w
        → IsDue now w
        → IsUnknown w.kind)
      × ((d : Dispatch) → Has d done → IsDue now d.wakeup × (lookup d.wakeup.id t.wakeups ≡ none))
dispatch-settles make_id now s t done h u = (
  λ k w l due.
      let (before, others) = dispatch-left make_id _ s t done h k w l in
      no_work-kind make_id w (
        others w (IsDue-Has now w s.wakeups due (lookup-Has-values k w s.wakeups before))
          (lookup-id (λ v. v.id) k w s.wakeups u before)),
  λ d m. (
    Has-IsDue now d.wakeup s.wakeups (dispatch-done make_id _ s t done h d m).0,
    dispatch-gone make_id _ s t done h d m,
  ),
)

ok-parts :
    {A : Type 0} (s t : SchedulerStores) (a b : A)
    → ◌≡◌ {A = SchedulerStores × Result A} (s, ok a) (t, ok b)
    → (s ≡ t) × (a ≡ b)
ok-parts s t a b h = (cc, cc)

-- Where each wakeup is filed under its own identifier, a tick that succeeds leaves no wakeup stored that
-- is due, but such of a kind that is none of the constants; and each wakeup that it reports as dispatched was due and is stored no
-- longer.
pub tick_settles :
    {S : Type 0} (make_id : List IdPart → String) (policy : RetryBackoffPolicy)
    (resolve : TaskSpec → String × Bool × String) (rfc3339 : ℕ → String)
    (graphs : List (TaskGraphSnapshot S)) (now : ℕ) (s t : SchedulerStores)
    (result : SchedulerTickResult)
    → tick make_id policy resolve rfc3339 graphs now s ≡ (t, ok result)
    → WakeupsKeyed s
    → ((k : String) (w : SchedulerWakeup)
        → lookup k t.wakeups ≡ some w
        → IsDue now w
        → IsUnknown w.kind)
      × ((w : SchedulerWakeup)
          → Has w result.dispatched_wakeups
          → IsDue now w × (lookup w.id t.wakeups ≡ none))
unfolding tick tick_result
tick_settles make_id policy resolve rfc3339 graphs now s t result h u =
    let deliver : SchedulerStores
        → List SchedulerWakeup
        → SchedulerStores × Result SchedulerTickResult =
      λ v saved.
        and_then (dispatch make_id (list_due_wakeups now v.wakeups) v)
          (λ x done. (x, ok (tick_result (length graphs) now saved done))) in
    let scan = schedule_graphs make_id policy resolve rfc3339 graphs now s in
    let (v, saved, scanned, rest) = and_then-ok scan deliver t result h in
    let (x, done, sent, last) =
      and_then-ok (dispatch make_id (list_due_wakeups now v.wakeups) v)
        (λ x done. (x, ok (tick_result (length graphs) now saved done))) t result rest in
    let (same, answer) = ok-parts x t (tick_result (length graphs) now saved done) result last in
    let (none_due, gone) =
      dispatch-settles make_id now v t done (sent ∙ ap (λ y. (y, ok done)) same) (
        subst (λ y. WakeupsKeyed y.0) scanned
          (schedule_graphs-Keyed make_id policy resolve rfc3339 graphs now s u)) in
    (
      none_due,
      λ w m.
          let (d, there, e) =
            Has-map (λ d. d.wakeup) w done
              (subst (λ r. Has w r.dispatched_wakeups) (sym answer) m) in
          subst (λ y. IsDue now y × (lookup y.id t.wakeups ≡ none)) (sym e) (gone d there),
    )
