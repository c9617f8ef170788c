-- ===== src/Scheduler/Tick.antt =====
-- `Tick` of internal/runtime/scheduler.go over the in-memory stores, without the replay log: the scan of
-- the graphs, and the dispatch of the wakeups that are due.
pub mod Settles
pub mod Keyed
pub mod Due
use personal_cfo_os.Base.{
  ℕ, ◌≡◌, refl, String, Bool, true, false, not, Option, none, some, List, [], ◌∷◌, ◌++◌, map,
  length, ltb, ◌==◌, string_eq, if◌then◌else◌, is_empty, keep, Has, arith, eq_iff,
}
use personal_cfo_os.Base.Dict.{lookup, values, IsKeyed, insert-IsKeyed, lookup-delete}
use personal_cfo_os.Errors.{Result, ok, err, RuntimeError, Result-cases}
use personal_cfo_os.WorkQueue.Types.{
  IdPart, WorkItem, WorkItemKind, WorkEnqueueResult, WorkEnqueueDisposition, enqueued,
}
use personal_cfo_os.WorkQueue.{Items, enqueue}
use personal_cfo_os.TaskSpec.{TaskSpec}
use personal_cfo_os.TaskGraph.{TaskGraphSnapshot}
use personal_cfo_os.Scheduler.{
  SchedulerWakeup, Wakeups, list_due_wakeups, mark_wakeup_dispatched, to_work_item,
  RetryBackoffPolicy,
}
use personal_cfo_os.Scheduler.Scan.{SchedulerStores, schedule_graph}

-- A wakeup that was dispatched, the item made of it, and what the queue answered.
pub record Dispatch : Type 0 where
  pub wakeup : SchedulerWakeup
  pub item : WorkItem
  pub answer : WorkEnqueueResult

pub record SchedulerTickResult : Type 0 where
  pub scanned_graphs : ℕ
  pub saved_wakeups : List SchedulerWakeup
  pub dispatched_wakeups : List SchedulerWakeup
  pub enqueue_results : List WorkEnqueueResult
  pub enqueued_work_item_ids : List String
  pub enqueued_work_kinds : List WorkItemKind
  pub ticked_at : ℕ

abbrev pub is_enqueued : WorkEnqueueDisposition → Bool
is_enqueued enqueued = true
is_enqueued _ = false

-- Goes in front of those that come after it, unless they end in an error.
abbrev pub first_of :
    {A : Type 0} → A → SchedulerStores × Result (List A) → SchedulerStores × Result (List A)
first_of a (s, ok found) = (s, ok (a ∷ found))
first_of a (s, err e) = (s, err e)

-- `if err != nil { return err }` between two steps on the stores.
abbrev pub and_then :
    {A B : Type 0}
    → SchedulerStores × Result A
    → (SchedulerStores → A → SchedulerStores × Result B)
    → SchedulerStores × Result B
and_then (s, ok a) f = f s a
and_then (s, err e) f = (s, err e)

pub and_then-ok :
    {A B : Type 0} (r : SchedulerStores × Result A)
    (f : SchedulerStores → A → SchedulerStores × Result B) (u : SchedulerStores) (b : B)
    → and_then r f ≡ (u, ok b)
    → (t : SchedulerStores) × (a : A) × (r ≡ (t, ok a)) × (f t a ≡ (u, ok b))
and_then-ok (t, ok a) f u b h = (t, a, refl, h)
and_then-ok (t, err e) f u b h = cc

-- What both steps keep of the stores.
pub and_then-keeps :
    {A B : Type 0} (P : SchedulerStores → Type 0) (r : SchedulerStores × Result A)
    (f : SchedulerStores → A → SchedulerStores × Result B)
    → P r.0
    → ((t : SchedulerStores) (a : A) → P t → P (f t a).0)
    → P (and_then r f).0
and_then-keeps P (s, ok a) f h k = k s a h
and_then-keeps P (s, err e) f h k = h

-- `firstNonEmpty(enqueued.WorkItemID, item.ID)`
abbrev pub enqueued_id : Dispatch → String
enqueued_id d = if is_empty d.answer.work_item_id then d.item.id else d.answer.work_item_id

unfoldable pub tick_result : ℕ → ℕ → List SchedulerWakeup → List Dispatch → SchedulerTickResult
tick_result graphs now saved done =
    let new = keep (λ d. is_enqueued d.answer.disposition) done in
    record {
      scanned_graphs = graphs;
      saved_wakeups = saved;
      dispatched_wakeups = map (λ d. d.wakeup) done;
      enqueue_results = map (λ d. d.answer) done;
      enqueued_work_item_ids = map enqueued_id new;
      enqueued_work_kinds = map (λ d. d.item.kind) new;
      ticked_at = now;
    }

module _ (make_id : List IdPart → String) where
  -- The loop over the wakeups that are due.
  unfoldable pub dispatch :
      List SchedulerWakeup → SchedulerStores → SchedulerStores × Result (List Dispatch)
  dispatch [] s = (s, ok [])
  dispatch (w ∷ ws) s = elim (to_work_item make_id w) [
    | none ↦ dispatch ws s
    | some item ↦ elim (enqueue item s.items) [
      | err e ↦ (s, err e)
      | ok (items, answer) ↦
          first_of (record { wakeup = w; item = item; answer = answer })
            (dispatch ws
              (record s { items = items; wakeups = mark_wakeup_dispatched w.id s.wakeups }))
    ]
  ]

  module _ (policy : RetryBackoffPolicy) (resolve : TaskSpec → String × Bool × String)
      (rfc3339 : ℕ → String) where
    -- The loop over the graphs.
    unfoldable pub schedule_graphs :
        {S : Type 0}
        → List (TaskGraphSnapshot S)
        → ℕ
        → SchedulerStores
        → SchedulerStores × Result (List SchedulerWakeup)
    schedule_graphs [] now s = (s, ok [])
    schedule_graphs (g ∷ gs) now s =
        and_then (schedule_graph make_id policy resolve rfc3339 g now s)
          (λ t saved. and_then (schedule_graphs gs now t) (λ u rest. (u, ok (saved ++ rest))))

    unfoldable pub tick :
        {S : Type 0}
        → List (TaskGraphSnapshot S)
        → ℕ
        → SchedulerStores
        → SchedulerStores × Result SchedulerTickResult
    tick graphs now s = and_then (schedule_graphs graphs now s) (λ t saved.
        and_then (dispatch (list_due_wakeups now t.wakeups) t)
          (λ u done. (u, ok (tick_result (length graphs) now saved done))))
