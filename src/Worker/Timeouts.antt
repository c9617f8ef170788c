-- ===== src/Worker/Timeouts.antt =====
-- What handleLeaseReclaim of internal/runtime/async_service.go leaves behind.
use personal_cfo_os.Base.{
  ℕ, ◌≡◌, ◌≢◌, refl, String, true, false, some, List, nat_eq, is_empty, int_suc, arith, inl, inr,
  ◌⊎◌, Has, sym, ap, ◌∙◌,
}
use personal_cfo_os.Base.Dict.{lookup, insert, lookup-insert_self, lookup-id}
use personal_cfo_os.Errors.{ok}
use personal_cfo_os.WorkQueue.Types.{
  Time, IdPart, WorkItem, LeaseReclaimResult, retry_failed_execution, queued,
}
use personal_cfo_os.WorkQueue.{Items, load, is_expired, reclaimed, reclaim_result, reclaim_expired}
use personal_cfo_os.WorkQueue.Claims.{IsFiled, item_id}
use personal_cfo_os.WorkQueue.Reclaim.{reclaim_expired-lookup, reclaim_expired-Has}
use personal_cfo_os.Workflow.Types.{timeout}
use personal_cfo_os.Stores.Types.{
  TaskExecutionRecord, TaskQueueStatus, ready, dependency_blocked, deferred, waiting_approval,
  queued_pending_capability, executing, completed, failed, other_queue_status,
}
use personal_cfo_os.Stores.Versioned.{is_stale, update, update_checked}
use personal_cfo_os.Stores.Executions.{Executions, execution_record, update_execution}
use personal_cfo_os.Scheduler.{
  SchedulerWakeup, Wakeups, save_wakeup, same_status, to_work_item, retrial,
}
use personal_cfo_os.Worker.Reclaim.{
  is_execution_kind, timed_out, fail_executing, reclaim_wakeup, handle_lease_reclaim,
}

own_version :
    (r current : TaskExecutionRecord) → is_stale execution_record current.version current ≡ false
own_version r current = ground arith

-- An update over the version of the stored record writes the next one.
update-own :
    (r current : TaskExecutionRecord) (executions : Executions)
    → lookup r.execution_id executions ≡ some current
    → update_execution r current.version executions
      ≡ ok (insert r.execution_id (record r { version = int_suc current.version }) executions)
unfolding update update_checked
update-own r current executions h = rw (h, update, own_version r current) refl

executing-cases :
    (s : TaskQueueStatus)
    → ((same_status s executing ≡ true) × (s ≡ executing))
      ⊎ ((same_status s executing ≡ false) × (s ≢ executing))
executing-cases executing = inl (refl, refl)
executing-cases ready = inr (refl, λ h. cc)
executing-cases dependency_blocked = inr (refl, λ h. cc)
executing-cases deferred = inr (refl, λ h. cc)
executing-cases waiting_approval = inr (refl, λ h. cc)
executing-cases queued_pending_capability = inr (refl, λ h. cc)
executing-cases completed = inr (refl, λ h. cc)
executing-cases failed = inr (refl, λ h. cc)
executing-cases (other_queue_status x) = inr (refl, λ h. cc)

module _ (make_id : List IdPart → String) (clock : ℕ → ℕ) where
  -- The stored execution once its lease is taken back: it is failed where it was executing.
  abbrev pub HasTimedOut : TaskExecutionRecord → TaskExecutionRecord → Type 0
  HasTimedOut e after =
      (after.status ≢ executing)
      × (((e.status ≡ executing)
            × (after.status ≡ failed)
            × (after.failure_category ≡ some timeout)
            × (after.execution_id ≡ e.execution_id)
            × (after.version ≡ int_suc e.version)
            × (after ≡ record (timed_out make_id clock e) { version = int_suc e.version }))
          ⊎ ((e.status ≢ executing) × (after ≡ e)))

  fail_executing_lem :
      (id : String) (executions : Executions) (e : TaskExecutionRecord)
      → is_empty id ≡ false
      → lookup id executions ≡ some e
      → e.execution_id ≡ id
      → (next : Executions) × (after : TaskExecutionRecord) × (fail_executing make_id clock id
            executions
          ≡ ok next)
        × (lookup id next ≡ some after)
        × HasTimedOut e after
  unfolding fail_executing
  fail_executing_lem id executions e named found filed = elim (executing-cases e.status) [
    | inl (t, h) ↦
        let after : TaskExecutionRecord = record (timed_out make_id clock e) {
          version = int_suc e.version;
        } in
        let stored : lookup e.execution_id executions ≡ some e =
          ap (λ k. lookup k executions) filed ∙ found in
        (
          insert e.execution_id after executions,
          after,
          rw (named, found, t) (update-own (timed_out make_id clock e) e executions stored),
          ap (λ k. lookup k (insert e.execution_id after executions)) (sym filed)
              ∙ lookup-insert_self e.execution_id after executions,
          ((λ x. cc), inl (h, refl, refl, refl, refl, refl)),
        )
    | inr (t, h) ↦ (executions, e, rw (named, found, t) refl, found, (h, inr (h, refl)))
  ]

  -- The follow-up succeeds: the item's execution has timed out, and a stored wakeup turns into a work item
  -- that retries it.
  abbrev pub IsFollowedUp :
      LeaseReclaimResult → Items → Executions → Wakeups → WorkItem → TaskExecutionRecord → Type 0
  IsFollowedUp reclaim items executions wakeups item e =
      (next : Executions) × (scheduled : Wakeups) × (after : TaskExecutionRecord)
      × (w : SchedulerWakeup) × (i : WorkItem) × (handle_lease_reclaim make_id clock reclaim items
            executions wakeups
          ≡ ok (next, scheduled))
      × (lookup item.execution_id next ≡ some after)
      × HasTimedOut e after
      × (lookup w.id scheduled ≡ some w)
      × (to_work_item make_id w ≡ some i)
      × (i.kind ≡ retry_failed_execution)
      × (i.execution_id ≡ item.execution_id)
      × (i.graph_id ≡ item.graph_id)

  handle_lease_reclaim_lem :
      (reclaim : LeaseReclaimResult) (items : Items) (executions : Executions) (wakeups : Wakeups)
      (item : WorkItem) (e : TaskExecutionRecord)
      → lookup reclaim.work_item_id items ≡ some item
      → is_execution_kind item.kind ≡ true
      → is_empty item.graph_id ≡ false
      → is_empty item.execution_id ≡ false
      → lookup item.execution_id executions ≡ some e
      → e.execution_id ≡ item.execution_id
      → IsFollowedUp reclaim items executions wakeups item e
  unfolding handle_lease_reclaim load save_wakeup to_work_item
  handle_lease_reclaim_lem reclaim items executions wakeups item e held runs in_graph named found
        filed =
      let (next, after, is_done, stored, timed) =
        fail_executing_lem item.execution_id executions e named found filed in
      let w = reclaim_wakeup make_id clock reclaim item in
      (
        next,
        insert w.id w wakeups,
        after,
        w,
        retrial make_id w,
        rw (held, runs, is_done, in_graph, handle_lease_reclaim) refl,
        stored,
        timed,
        lookup-insert_self w.id w wakeups,
        refl,
        refl,
        refl,
        refl,
      )

  -- A pass of reclaiming reports each item whose lease has run out, and puts it back in the queue. Where the
  -- item executes or retries an execution of a graph that is stored, the follow-up of the report succeeds:
  -- the execution is not executing any more, has failed by a timeout at the next version if it was, and is as
  -- before if it was not; and a stored wakeup turns into a work item that retries this execution.
  pub expired_lease_followed :
      (now : Time) (items : Items) (executions : Executions) (wakeups : Wakeups) (k : String)
      (item : WorkItem) (e : TaskExecutionRecord)
      → IsFiled items
      → lookup k items ≡ some item
      → is_expired now item ≡ true
      → is_execution_kind item.kind ≡ true
      → is_empty item.graph_id ≡ false
      → is_empty item.execution_id ≡ false
      → lookup item.execution_id executions ≡ some e
      → e.execution_id ≡ item.execution_id
      → Has (reclaim_result now item) (reclaim_expired now items).1
        × (lookup k (reclaim_expired now items).0 ≡ some (reclaimed now item))
        × ((reclaimed now item).status ≡ queued)
        × IsFollowedUp
            (reclaim_result now item)
            (reclaim_expired now items).0
            executions
            wakeups
            (reclaimed now item)
            e
  unfolding reclaimed reclaim_result
  expired_lease_followed now items executions wakeups k item e filed held over_now runs in_graph
        named found same =
      let back = reclaim_expired-lookup now items k item held over_now in
      (
        reclaim_expired-Has now items k item held over_now,
        back,
        refl,
        handle_lease_reclaim_lem (reclaim_result now item) (reclaim_expired now items).0 executions
            wakeups (reclaimed now item) e
            (ap (λ x. lookup x (reclaim_expired now items).0)
                (lookup-id item_id k item items filed held)
              ∙ back)
            runs in_graph named found same,
      )
