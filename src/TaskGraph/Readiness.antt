-- ===== src/TaskGraph/Readiness.antt =====
-- When a follow-up task is ready.
use personal_cfo_os.Base.{
  ℕ, ◌≡◌, String, Bool, true, false, ◌||◌, not, Option, none, some, List, [], ◌∷◌, ◌==◌, string_eq,
  eq_iff, if◌then◌else◌, ◌⊎◌, inl, inr, All, keep, arith, Option-cases,
}
use personal_cfo_os.Governance.Rules.{no_items}
use personal_cfo_os.Stores.Types.{TaskExecutionRecord}
use personal_cfo_os.TaskSpec.{TaskSpec, TaskDependency}
use personal_cfo_os.TaskGraph.{
  FollowUpTaskRecord, is_ready, is_completed, not_open, last_status, last_execution, done_status,
  dependency_blocking_reasons, downstream_dependencies, with_reason, settled,
  evaluate_pre_execution_status, unblock, after_dependencies,
}

abbrev pub done_execution : Option TaskExecutionRecord → Bool
done_execution none = false
done_execution (some x) = is_completed x.status

abbrev pub was_executed : Option TaskExecutionRecord → Bool
was_executed none = false
was_executed (some x) = true

pub with_reason-status : (r : FollowUpTaskRecord) → (with_reason r).status ≡ r.status
unfolding with_reason
with_reason-status r = ground arith

module _ (executions : List TaskExecutionRecord) where
  -- A record of a completed task has a completed execution.
  abbrev pub is_backed : FollowUpTaskRecord → Bool
  is_backed r = not (is_completed r.status) || done_execution (last_execution r.task.id executions)

  abbrev pub AllBacked : List FollowUpTaskRecord → Type 0
  AllBacked = All (λ r. is_backed r ≡ true)

  abbrev pub AllDone : List TaskDependency → Type 0
  AllDone = All (λ dep. done_execution (last_execution dep.upstream_task_id executions) ≡ true)

  -- Where the records are backed, a task that is registered as completed was.
  last_status-done :
      (records : List FollowUpTaskRecord) (task_id : String)
      → AllBacked records
      → done_status (last_status task_id records) ≡ true
      → done_execution (last_execution task_id executions) ≡ true
  unfolding last_status
  last_status-done [] task_id all h = cc
  last_status-done (r ∷ rs) task_id (b, all) h = elim (Option-cases (last_status task_id rs)) [
    | inl none_later ↦
        let at : done_status (if r.task.id == task_id then some r.status else none) ≡ true =
          rw (none_later, last_status) at h in
        ground (arith, eq_iff r.task.id task_id)
    | inr (status, later) ↦
        let at : is_completed status ≡ true = rw (later, last_status) at h in
        last_status-done rs task_id all (rw later at)
  ]

  pub unblocked-AllDone :
      (deps : List TaskDependency) (records : List FollowUpTaskRecord) (task_id : String)
      → AllBacked records
      → dependency_blocking_reasons deps records task_id ≡ []
      → AllDone (downstream_dependencies deps task_id)
  unfolding dependency_blocking_reasons downstream_dependencies keep
  unblocked-AllDone [] records task_id all h = tt
  unblocked-AllDone (dep ∷ deps) records task_id all h = ground (
    arith,
    unblocked-AllDone deps records task_id all,
    last_status-done records dep.upstream_task_id all,
  )

module _ (resolve : TaskSpec → String × Bool × String) (rfc3339 : ℕ → String) (now : ℕ) where
  -- What lets a task without an execution be ready, given what its dependencies say.
  pub record IsOpen (r : FollowUpTaskRecord) (available : Bool) : Type 0 where
    pub needs_no_approval : r.metadata.requires_approval ≡ false
    pub window_open : not_open r.metadata.due_window.not_before now ≡ false
    pub has_capability : available ≡ true

  pub after_dependencies-ready :
      (r : FollowUpTaskRecord) (available : Bool) (reasons : List String)
      → is_ready
          (after_dependencies resolve rfc3339 now
            (settled r (evaluate_pre_execution_status resolve rfc3339 now r available))
            available
            reasons).status
        ≡ true
      → IsOpen r available × ((no_items r.dependencies ≡ true) ⊎ (reasons ≡ []))
  unfolding after_dependencies evaluate_pre_execution_status unblock
  after_dependencies-ready r available [] h = ground arith
  after_dependencies-ready r available (reason ∷ reasons) h = ground arith

  pub after_dependencies-completed :
      (r : FollowUpTaskRecord) (available : Bool) (reasons : List String)
      → is_completed
          (after_dependencies resolve rfc3339 now
            (settled r (evaluate_pre_execution_status resolve rfc3339 now r available))
            available
            reasons).status
        ≡ false
  unfolding after_dependencies evaluate_pre_execution_status unblock
  after_dependencies-completed r available [] = ground arith
  after_dependencies-completed r available (reason ∷ reasons) = ground arith
