-- ===== src/TaskGraph/Reevaluation.antt =====
-- The loop of `ReevaluateFollowUpTaskGraph`, which writes into the slice that it reads.
use personal_cfo_os.Base.{
  ℕ, ◌≡◌, refl, sym, ap, subst, ◌∙◌, String, Bool, true, false, none, some, List, [], ◌∷◌, ◌++◌,
  string_eq, ◌⊎◌, inl, inr, All, Bool-cases, Option-cases,
}
use personal_cfo_os.Errors.{Result, ok, unless-ok}
use personal_cfo_os.Governance.Rules.{no_items}
use personal_cfo_os.Stores.Types.{TaskExecutionRecord}
use personal_cfo_os.TaskSpec.{TaskSpec, TaskDependency, validate_graph}
use personal_cfo_os.TaskGraph.{
  FollowUpTaskRecord, TaskGraphSnapshot, TaskActivationResult, is_ready, is_completed, not_open,
  last_execution, dependency_blocking_reasons, downstream_dependencies, with_reason, settled,
  follow_status, evaluate_pre_execution_status, after_dependencies, reevaluate_waiting,
  reevaluate_task, reevaluate_from, reevaluate_follow_up_task_graph,
}
use personal_cfo_os.TaskGraph.Readiness.{
  done_execution, was_executed, is_backed, AllBacked, AllDone, unblocked-AllDone,
  with_reason-status, IsOpen, after_dependencies-ready, after_dependencies-completed,
}
use personal_cfo_os.TaskGraph.Keeps.{
  Keeps, Keeps-trans, with_reason-Keeps, follow_status-Keeps, follow_status-completed,
  after_dependencies-Keeps,
}

All-append : {A : Type 0} (P : A → Type 0) (xs ys : List A) → All P xs → All P ys → All P (xs ++ ys)
All-append P [] ys all more = more
All-append P (x ∷ xs) ys (a, all) more = (a, All-append P xs ys all more)

ok_first : {A B : Type 0} (p q : A × B) → ◌≡◌ {A = Result (A × B)} (ok p) (ok q) → p.0 ≡ q.0
ok_first p q h = cc

ap2 : {A B : Type 0} {a b : A} {c d : B} → a ≡ b → c ≡ d → ◌≡◌ {A = A × B} (a, c) (b, d)
ap2 e f = cc

module _ (resolve : TaskSpec → String × Bool × String) (rfc3339 : ℕ → String) (now : ℕ) where
  module _ (deps : List TaskDependency) (executions : List TaskExecutionRecord) where
    -- A task that is ready was executed before, or waits for nothing: no approval, no due window, no
    -- capability, and no upstream task without a completed execution.
    pub record MayRun (r : FollowUpTaskRecord) : Type 0 where
      pub is_open : IsOpen resolve rfc3339 now r (resolve r.task).1
      pub upstream_done :
          (no_items r.dependencies ≡ true)
          ⊎ AllDone executions (downstream_dependencies deps r.task.id)

    abbrev pub IsJustified : FollowUpTaskRecord → Type 0
    IsJustified r =
        (is_ready r.status ≡ false)
        ⊎ (was_executed (last_execution r.task.id executions) ≡ true)
        ⊎ MayRun r

    MayRun-Keeps : (r q : FollowUpTaskRecord) → Keeps r q → MayRun r → MayRun q
    MayRun-Keeps r q k may = record {
      is_open = record {
        needs_no_approval =
            ap (λ m. m.requires_approval) k.same_metadata ∙ may.is_open.needs_no_approval;
        window_open =
            ap (λ m. not_open m.due_window.not_before now) k.same_metadata
            ∙ may.is_open.window_open;
        has_capability = ap (λ t. (resolve t).1) k.same_task ∙ may.is_open.has_capability;
      };
      upstream_done =
          subst
            (λ p. (no_items p.1 ≡ true) ⊎ AllDone executions (downstream_dependencies deps p.0.id))
            (sym (ap2 k.same_task k.same_dependencies)) may.upstream_done;
    }

    -- What the dependencies leave of a task, which its status follows.
    left_by-Justified :
        (r : FollowUpTaskRecord) (records : List FollowUpTaskRecord)
        → AllBacked executions records
        → IsJustified (
            with_reason (
              after_dependencies resolve rfc3339 now
                (settled r (evaluate_pre_execution_status resolve rfc3339 now r (resolve r.task).1))
                (resolve r.task).1
                (dependency_blocking_reasons deps records r.task.id)))
    left_by-Justified r records all =
        let open_now : Bool = (resolve r.task).1 in
        let reasons : List String = dependency_blocking_reasons deps records r.task.id in
        let base : FollowUpTaskRecord =
          settled r (evaluate_pre_execution_status resolve rfc3339 now r open_now) in
        let left : FollowUpTaskRecord =
          after_dependencies resolve rfc3339 now base open_now reasons in
        elim (Bool-cases (is_ready left.status)) [
          | inr e ↦ inl (ap is_ready (with_reason-status left) ∙ e)
          | inl e ↦
              let (may, up) = after_dependencies-ready resolve rfc3339 now r open_now reasons e in
              inr (
                inr (
                  MayRun-Keeps base (with_reason left)
                    (Keeps-trans base left (with_reason left)
                      (after_dependencies-Keeps resolve rfc3339 now base open_now reasons)
                      (with_reason-Keeps left))
                    (record {
                      is_open = record {
                        needs_no_approval = may.needs_no_approval;
                        window_open = may.window_open;
                        has_capability = may.has_capability;
                      };
                      upstream_done = elim up [
                        | inl n ↦ inl n
                        | inr n ↦ inr (unblocked-AllDone executions deps records r.task.id all n)
                      ];
                    })))
        ]

    reevaluate_waiting-Justified :
        (records : List FollowUpTaskRecord) (r : FollowUpTaskRecord)
        → AllBacked executions records
        → IsJustified (reevaluate_waiting resolve rfc3339 now deps records r)
          × (is_completed (reevaluate_waiting resolve rfc3339 now deps records r).status ≡ false)
          × Keeps r (reevaluate_waiting resolve rfc3339 now deps records r)
    unfolding reevaluate_waiting
    reevaluate_waiting-Justified records r all =
        let (capability, open_now, reason) = resolve r.task in
        let resolved : FollowUpTaskRecord = record r {
          required_capability = capability;
          missing_capability_reason = reason;
        } in
        let reasons : List String = dependency_blocking_reasons deps records r.task.id in
        let base : FollowUpTaskRecord =
          settled resolved (evaluate_pre_execution_status resolve rfc3339 now resolved open_now) in
        let left : FollowUpTaskRecord =
          after_dependencies resolve rfc3339 now base open_now reasons in
        let kept : Keeps base (with_reason left) =
          Keeps-trans base left (with_reason left)
            (after_dependencies-Keeps resolve rfc3339 now base open_now reasons)
            (with_reason-Keeps left) in
        (
          left_by-Justified resolved records all,
          ap is_completed (with_reason-status left)
              ∙ after_dependencies-completed resolve rfc3339 now resolved open_now reasons,
          record {
            same_task = kept.same_task;
            same_metadata = kept.same_metadata;
            same_dependencies = kept.same_dependencies;
          },
        )

    backed_done :
        (r : FollowUpTaskRecord)
        → is_completed r.status ≡ true
        → is_backed executions r ≡ true
        → done_execution (last_execution r.task.id executions) ≡ true
    backed_done r c b = rw c at b

    task_some :
        (records : List FollowUpTaskRecord) (r : FollowUpTaskRecord) (x : TaskExecutionRecord)
        → last_execution r.task.id executions ≡ some x
        → reevaluate_task resolve rfc3339 now deps executions records r
          ≡ follow_status x.status x (record r { blocking_reasons = []; last_updated_at = now })
    unfolding reevaluate_task
    task_some records r x e = rw (e, reevaluate_task)

    task_none :
        (records : List FollowUpTaskRecord) (r : FollowUpTaskRecord)
        → last_execution r.task.id executions ≡ none
        → reevaluate_task resolve rfc3339 now deps executions records r
          ≡ reevaluate_waiting resolve rfc3339 now deps records
              (record r { blocking_reasons = []; last_updated_at = now })
    unfolding reevaluate_task
    task_none records r e = rw (e, reevaluate_task)

    followed-Justified :
        (r : FollowUpTaskRecord) (x : TaskExecutionRecord)
        → last_execution r.task.id executions ≡ some x
        → is_backed executions r ≡ true
        → IsJustified (follow_status x.status x r)
          × (is_backed executions (follow_status x.status x r) ≡ true)
    followed-Justified r x e b =
        let kept : (follow_status x.status x r).task ≡ r.task =
          (follow_status-Keeps x.status x r).same_task in
        let same : last_execution (follow_status x.status x r).task.id executions ≡ some x =
          ap (λ t. last_execution t.id executions) kept ∙ e in
        (
          inr (inl (ap was_executed same)),
          elim (Bool-cases (is_completed (follow_status x.status x r).status)) [
            | inr n ↦ rw n refl
            | inl c ↦ elim (follow_status-completed x.status x r c) [
              | inl d ↦ rw c (ap done_execution same ∙ d)
              | inr d ↦ rw c (ap done_execution (same ∙ sym e) ∙ backed_done r d b)
            ]
          ],
        )

    reevaluate_task-Justified :
        (records : List FollowUpTaskRecord) (r : FollowUpTaskRecord)
        → AllBacked executions records
        → is_backed executions r ≡ true
        → IsJustified (reevaluate_task resolve rfc3339 now deps executions records r)
          × (is_backed executions (reevaluate_task resolve rfc3339 now deps executions records r)
              ≡ true)
    unfolding reevaluate_task
    reevaluate_task-Justified records r all b =
        let fresh : FollowUpTaskRecord = record r {
          blocking_reasons = [];
          last_updated_at = now;
        } in
        let of : FollowUpTaskRecord → Type 0 =
          λ q. IsJustified q × (is_backed executions q ≡ true) in
        elim (Option-cases (last_execution r.task.id executions)) [
          | inr (x, e) ↦ subst of (sym (task_some records r x e)) (followed-Justified fresh x e b)
          | inl e ↦
              let (just, undone, kept) = reevaluate_waiting-Justified records fresh all in
              subst of (sym (task_none records r e)) (just, rw undone refl)
        ]

    reevaluate_from-Justified :
        (written rest : List FollowUpTaskRecord)
        → AllBacked executions written
        → All IsJustified written
        → AllBacked executions rest
        → All IsJustified (reevaluate_from resolve rfc3339 now deps executions written rest)
          × AllBacked executions (reevaluate_from resolve rfc3339 now deps executions written rest)
    unfolding reevaluate_from
    reevaluate_from-Justified written [] backed justified all = (justified, backed)
    reevaluate_from-Justified written (r ∷ rest) backed justified (b, all) =
        let next : FollowUpTaskRecord =
          reevaluate_task resolve rfc3339 now deps executions (written ++ (r ∷ rest)) r in
        let (just, still) =
          reevaluate_task-Justified (written ++ (r ∷ rest)) r
            (All-append (λ q. is_backed executions q ≡ true) written (r ∷ rest) backed (b, all))
            b in
        reevaluate_from-Justified (written ++ (next ∷ [])) rest
          (All-append (λ q. is_backed executions q ≡ true) written (next ∷ []) backed (still, tt))
          (All-append IsJustified written (next ∷ []) justified (just, tt)) all

-- Where every task that is registered as completed has a completed execution, the same holds after
-- the graph is reevaluated, and a task that is then ready and was never executed needs no approval, its
-- due window is open, its capability is there, and its upstream tasks have completed executions.
pub reevaluate-Justified :
    {S : Type 0} (resolve : TaskSpec → String × Bool × String) (rfc3339 : ℕ → String) (now : ℕ)
    (snapshot updated : TaskGraphSnapshot S) (activation : TaskActivationResult)
    → AllBacked snapshot.executed_tasks snapshot.registered_tasks
    → reevaluate_follow_up_task_graph resolve rfc3339 now snapshot ≡ ok (updated, activation)
    → All
        (IsJustified resolve rfc3339 now snapshot.graph.dependencies snapshot.executed_tasks)
        updated.registered_tasks
      × AllBacked updated.executed_tasks updated.registered_tasks
unfolding reevaluate_follow_up_task_graph
reevaluate-Justified resolve rfc3339 now snapshot updated activation all h =
    let (valid, last) = unless-ok (validate_graph snapshot.graph) _ (updated, activation) h in
    subst
      (λ u.
        All (IsJustified resolve rfc3339 now snapshot.graph.dependencies snapshot.executed_tasks)
          u.registered_tasks
        × AllBacked u.executed_tasks u.registered_tasks)
      (ok_first _ (updated, activation) last)
      (reevaluate_from-Justified resolve rfc3339 now snapshot.graph.dependencies
        snapshot.executed_tasks [] snapshot.registered_tasks tt tt all)
