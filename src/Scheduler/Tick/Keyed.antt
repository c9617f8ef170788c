-- ===== src/Scheduler/Tick/Keyed.antt =====
-- The names under which the scans of the graphs file wakeups.
use personal_cfo_os.Base.{
  ℕ, ◌≡◌, refl, sym, String, Bool, Option, Bool-cases, inl, inr, subst, none, some, List, [], ◌∷◌,
  ◌++◌,
}
use personal_cfo_os.Base.Dict.{IsKeyed, insert-IsKeyed}
use personal_cfo_os.Errors.{RuntimeError, Result-cases}
use personal_cfo_os.WorkQueue.Types.{IdPart, WorkItem}
use personal_cfo_os.WorkQueue.{enqueue}
use personal_cfo_os.Stores.Executions.{list_executions_by_graph}
use personal_cfo_os.TaskSpec.{TaskSpec}
use personal_cfo_os.TaskGraph.{
  FollowUpTaskRecord, TaskGraphSnapshot, is_ready, reevaluate_follow_up_task_graph,
}
use personal_cfo_os.Scheduler.{SchedulerWakeup, save_wakeup, RetryBackoffPolicy}
use personal_cfo_os.Scheduler.Scan.{
  SchedulerStores, save_all_wakeups, task_wakeups, enqueue_ready, ready_item, finish_scan,
  scan_tasks, schedule_graph, dependency_wakeups, retry_wakeups,
}
use personal_cfo_os.Scheduler.Tick.{and_then-keeps, schedule_graphs}

-- Each wakeup is filed under its own identifier.
abbrev pub WakeupsKeyed : SchedulerStores → Type 0
WakeupsKeyed s = IsKeyed (λ w. w.id) s.wakeups

save_all-Keyed :
    (ws : List SchedulerWakeup) (s : SchedulerStores)
    → WakeupsKeyed s
    → WakeupsKeyed (save_all_wakeups ws s)
unfolding save_wakeup
save_all-Keyed [] s u = u
save_all-Keyed (w ∷ ws) s u =
    save_all-Keyed ws (record s { wakeups = save_wakeup w s.wakeups })
      (insert-IsKeyed (λ w. w.id) w.id w s.wakeups u refl)

module _ (make_id : List IdPart → String) (policy : RetryBackoffPolicy) where
  enqueue_ready-wakeups :
      (item : WorkItem) (rs : List FollowUpTaskRecord) (s : SchedulerStores)
      → (enqueue_ready make_id item rs s).0.wakeups ≡ s.wakeups
  unfolding enqueue_ready
  enqueue_ready-wakeups item [] s = refl
  enqueue_ready-wakeups item (r ∷ rs) s = elim (Bool-cases (is_ready r.status)) [
    | inr e ↦ rw (e, enqueue_ready-wakeups item rs s)
    | inl e ↦ elim (Result-cases (enqueue item s.items)) [
      | inl ((items, answer), q) ↦
          rw (e, q, enqueue_ready-wakeups item rs (record s { items = items }))
      | inr (x, q) ↦ rw (e, q)
    ]
  ]

  finish-Keyed :
      (graph_id : String) (now : ℕ) (needed : Bool) (saved : List SchedulerWakeup)
      (r : SchedulerStores × Option RuntimeError)
      → WakeupsKeyed r.0
      → WakeupsKeyed (finish_scan make_id policy graph_id now needed saved r).0
  unfolding finish_scan
  finish-Keyed graph_id now needed saved (s, some e) u = u
  finish-Keyed graph_id now needed saved (s, none) u =
      save_all-Keyed
        (dependency_wakeups make_id graph_id now needed
          ++ retry_wakeups make_id graph_id policy now
              (list_executions_by_graph graph_id s.executions))
        s u

  scan-Keyed :
      (graph_id workflow_id : String) (now : ℕ) (before records : List FollowUpTaskRecord)
      (ready : List String) (s : SchedulerStores)
      → WakeupsKeyed s
      → WakeupsKeyed (scan_tasks make_id policy graph_id workflow_id now before records ready s).0
  unfolding scan_tasks
  scan-Keyed graph_id workflow_id now before records ready s u =
      let saved = task_wakeups make_id graph_id now s.approvals before in
      let start = save_all_wakeups saved s in
      finish-Keyed graph_id now _ saved _ (
        subst (IsKeyed (λ w. w.id))
          (sym (enqueue_ready-wakeups (ready_item make_id graph_id workflow_id now) records start))
          (save_all-Keyed saved s u))

  module _ (resolve : TaskSpec → String × Bool × String) (rfc3339 : ℕ → String) {S : Type 0} where
    schedule_graph-Keyed :
        (g : TaskGraphSnapshot S) (now : ℕ) (s : SchedulerStores)
        → WakeupsKeyed s
        → WakeupsKeyed (schedule_graph make_id policy resolve rfc3339 g now s).0
    unfolding schedule_graph
    schedule_graph-Keyed g now s u =
        elim (Result-cases (reevaluate_follow_up_task_graph resolve rfc3339 now g)) [
          | inl ((updated, activation), q) ↦
              rw (q, schedule_graph)
                (scan-Keyed g.graph.graph_id g.graph.parent_workflow_id now updated.registered_tasks
                  updated.registered_tasks activation.ready_task_ids s u)
          | inr (x, q) ↦ rw (q, schedule_graph) u
        ]

    -- The scans leave each wakeup filed under its own identifier.
    pub schedule_graphs-Keyed :
        (gs : List (TaskGraphSnapshot S)) (now : ℕ) (s : SchedulerStores)
        → WakeupsKeyed s
        → WakeupsKeyed (schedule_graphs make_id policy resolve rfc3339 gs now s).0
    unfolding schedule_graphs
    schedule_graphs-Keyed [] now s u = u
    schedule_graphs-Keyed (g ∷ gs) now s u =
        and_then-keeps WakeupsKeyed (schedule_graph make_id policy resolve rfc3339 g now s) _
          (schedule_graph-Keyed g now s u)
          (λ t saved k.
            and_then-keeps WakeupsKeyed _ _ (schedule_graphs-Keyed gs now t k) (λ v rest l. l))
