-- ===== src/Worker/Record.antt =====
-- What processClaim of internal/runtime/worker.go leaves on record, however the work and the renewal end.
use personal_cfo_os.Base.{
  [], ◌∷◌, ◌++◌, ℕ, ◌≡◌, ◌≢◌, ◌⊎◌, refl, sym, ap, ◌∙◌, String, Bool, true, false, Option, none,
  some, List, if◌then◌else◌, Bool-cases, inl, inr,
}
use personal_cfo_os.Base.Dict.{lookup, insert, lookup-insert_self}
use personal_cfo_os.Errors.{Result, ok, err, RuntimeError, is_conflict}
use personal_cfo_os.WorkQueue.Types.{IdPart, WorkClaim, FenceValidation}
use personal_cfo_os.WorkQueue.{Items, complete, fail}
use personal_cfo_os.Worker.Registry.{
  ExecutionAttempt, ExecutionAttemptStatus, started, succeeded, attempt_failed, abandoned,
  reclaimed, Attempts, save_attempt, update_attempt,
}
use personal_cfo_os.Worker.Work.{WorkerPassResult, Handlers, do_work}
use personal_cfo_os.Worker.Claims.{
  Node, fence_for, new_attempt, is_lost, ended_attempt, skipped, unless_lost, with_items,
  report_failure, report_success, settle_item, after_update, process_claim,
}

-- The attempt's end, as the store has it.
record HasFinished (finished : ℕ) (a b : ExecutionAttempt) : Type 0 where
  pub same_id : b.attempt_id ≡ a.attempt_id
  pub finished_then : b.finished_at ≡ some finished
  pub ended : (status : ExecutionAttemptStatus) → status ≡ b.status → status ≢ started

status_choice :
    (c : Bool) (other : ExecutionAttemptStatus)
    → other ≢ started
    → (if c then reclaimed else other) ≢ started
status_choice true other h e = cc
status_choice false other h e = h e

ended_attempt-HasFinished :
    (words : RuntimeError → String) (renewal work : Option RuntimeError) (finished : ℕ)
    (a : ExecutionAttempt)
    → HasFinished finished a (ended_attempt words renewal work finished a)
unfolding ended_attempt
ended_attempt-HasFinished words (some e) work finished a = record {
  same_id = refl;
  finished_then = refl;
  ended = λ s h g. status_choice (is_lost e) abandoned (λ x. cc) (sym h ∙ g);
}
ended_attempt-HasFinished words none (some e) finished a = record {
  same_id = refl;
  finished_then = refl;
  ended = λ s h g. status_choice (is_conflict e) attempt_failed (λ x. cc) (sym h ∙ g);
}
ended_attempt-HasFinished words none none finished a = record {
  same_id = refl;
  finished_then = refl;
  ended = λ s h g. cc;
}

reclaimed-cases : (s : ExecutionAttemptStatus) → (s ≢ reclaimed) ⊎ (s ≡ reclaimed)
reclaimed-cases started = inl (λ h. cc)
reclaimed-cases succeeded = inl (λ h. cc)
reclaimed-cases attempt_failed = inl (λ h. cc)
reclaimed-cases abandoned = inl (λ h. cc)
reclaimed-cases reclaimed = inr refl

not_reclaimed :
    (c : Bool) (other : ExecutionAttemptStatus)
    → other ≢ reclaimed
    → (if c then reclaimed else other) ≡ reclaimed
    → c ≡ true
not_reclaimed true other h e = refl
not_reclaimed false other h e = absurd (h e)

update_attempt-saved :
    (old b : ExecutionAttempt) (attempts : Attempts)
    → lookup b.attempt_id attempts ≡ some old
    → update_attempt b attempts ≡ ok (insert b.attempt_id b attempts)
unfolding update_attempt
update_attempt-saved old b attempts h = rw (h, update_attempt) refl

-- The attempts once the saved attempt has ended.
abbrev finished_attempts :
    (RuntimeError → String)
    → Option RuntimeError
    → Option RuntimeError
    → ℕ
    → ExecutionAttempt
    → Attempts
    → Attempts
finished_attempts words renewal work finished a attempts =
    let b = ended_attempt words renewal work finished a in
    insert b.attempt_id b (save_attempt a attempts)

after_saved :
    (words : RuntimeError → String) (renewal work : Option RuntimeError) (finished : ℕ)
    (a : ExecutionAttempt) (attempts : Attempts)
    → update_attempt (ended_attempt words renewal work finished a) (save_attempt a attempts)
      ≡ ok (finished_attempts words renewal work finished a attempts)
unfolding save_attempt
after_saved words renewal work finished a attempts =
    let b = ended_attempt words renewal work finished a in
    update_attempt-saved a b (save_attempt a attempts) (
      ap (λ k. lookup k (save_attempt a attempts))
        (ended_attempt-HasFinished words renewal work finished a).same_id
      ∙ lookup-insert_self a.attempt_id a attempts)

finished_attempts-lookup :
    (words : RuntimeError → String) (renewal work : Option RuntimeError) (finished : ℕ)
    (a : ExecutionAttempt) (attempts : Attempts)
    → lookup a.attempt_id (finished_attempts words renewal work finished a attempts)
      ≡ some (ended_attempt words renewal work finished a)
finished_attempts-lookup words renewal work finished a attempts =
    let b = ended_attempt words renewal work finished a in
    ap (λ k. lookup k (finished_attempts words renewal work finished a attempts))
      (sym (ended_attempt-HasFinished words renewal work finished a).same_id)
    ∙ lookup-insert_self b.attempt_id b (save_attempt a attempts)

module _ {B P : Type 0} where
  -- The calls of the queue leave the attempts as they are.
  unless_lost-attempts :
      (n : Node B P) (r : Result Items) → (unless_lost (with_items n) n r).0.attempts ≡ n.attempts
  unless_lost-attempts n (ok items) = refl
  unless_lost-attempts n (err e) = refl

  report_failure-attempts :
      (id : String) (pass : WorkerPassResult) (e : RuntimeError)
      (r : Node B P × Option RuntimeError)
      → (report_failure id pass e r).0.attempts ≡ r.0.attempts
  report_failure-attempts id pass e (n, some x) = refl
  report_failure-attempts id pass e (n, none) = refl

  report_success-attempts :
      (id : String) (pass : WorkerPassResult) (r : Node B P × Option RuntimeError)
      → (report_success id pass r).0.attempts ≡ r.0.attempts
  report_success-attempts id pass (n, some x) = refl
  report_success-attempts id pass (n, none) = refl

  settle_item-attempts :
      (words : RuntimeError → String) (fence : FenceValidation) (finished : ℕ)
      (renewal work : Option RuntimeError) (n : Node B P) (pass : WorkerPassResult)
      → (settle_item words fence finished renewal work n pass).0.attempts ≡ n.attempts
  unfolding settle_item
  settle_item-attempts words fence finished (some e) work n pass = elim (Bool-cases (is_lost e)) [
    | inl h ↦ rw h refl
    | inr h ↦ rw h refl
  ]
  settle_item-attempts words fence finished none (some e) n pass =
      elim (Bool-cases (is_conflict e)) [
        | inl h ↦ rw h refl
        | inr h ↦ rw h (
            report_failure-attempts fence.work_item_id pass e _
            ∙ unless_lost-attempts n (fail fence (words e) finished n.backend.items))
      ]
  settle_item-attempts words fence finished none none n pass =
      report_success-attempts fence.work_item_id pass _
      ∙ unless_lost-attempts n (complete fence finished n.backend.items)

  -- A claim whose lease was lost is skipped, without another call of the queue.
  settle_item-reclaimed :
      (words : RuntimeError → String) (fence : FenceValidation) (finished : ℕ)
      (renewal work : Option RuntimeError) (n : Node B P) (pass : WorkerPassResult)
      (a : ExecutionAttempt)
      → (ended_attempt words renewal work finished a).status ≡ reclaimed
      → settle_item words fence finished renewal work n pass
        ≡ (n, skipped fence.work_item_id pass, none)
  unfolding settle_item ended_attempt
  settle_item-reclaimed words fence finished (some e) work n pass a h =
      rw (not_reclaimed (is_lost e) abandoned (λ x. cc) h) refl
  settle_item-reclaimed words fence finished none (some e) n pass a h =
      rw (not_reclaimed (is_conflict e) attempt_failed (λ x. cc) h) refl
  settle_item-reclaimed words fence finished none none n pass a h = cc

  process_claim-settle_item :
      (make_id : List IdPart → String) (words : RuntimeError → String) (handlers : Handlers B P)
      (worker_id : String) (clock : ℕ → ℕ) (renewal : Option RuntimeError) (c : WorkClaim)
      (n : Node B P) (pass : WorkerPassResult)
      → let a = new_attempt make_id worker_id c (clock 0) (clock 1) in
        let fence = fence_for worker_id c in
        let worked = do_work handlers c.work_item fence n.backend pass in
        process_claim make_id words handlers worker_id clock renewal c n pass
        ≡ settle_item words fence
            (clock 2)
            renewal
            worked.2
            (record {
              backend = worked.0;
              attempts = finished_attempts words renewal worked.2 (clock 2) a n.attempts;
            })
            worked.1
  unfolding process_claim after_update
  process_claim-settle_item make_id words handlers worker_id clock renewal c n pass =
      let a = new_attempt make_id worker_id c (clock 0) (clock 1) in
      let fence = fence_for worker_id c in
      let worked = do_work handlers c.work_item fence n.backend pass in
      ap
        (λ r.
          after_update (record { backend = worked.0; attempts = save_attempt a n.attempts })
            worked.1 r (settle_item words fence (clock 2) renewal worked.2))
        (after_saved words renewal worked.2 (clock 2) a n.attempts)

-- However the work of a claim and the renewal of its lease end, the attempt that processClaim saved is
-- then on record as finished, with a status other than started. If it is recorded as reclaimed, since the
-- lease was lost, the claim is skipped without an error, and the service's stores and the queue are as the
-- work left them.
pub process_claim_lem :
    {B P : Type 0} (make_id : List IdPart → String) (words : RuntimeError → String)
    (handlers : Handlers B P) (worker_id : String) (clock : ℕ → ℕ) (renewal : Option RuntimeError)
    (c : WorkClaim) (n : Node B P) (pass : WorkerPassResult)
    → (b : ExecutionAttempt) × (lookup
          (new_attempt make_id worker_id c (clock 0) (clock 1)).attempt_id
          (process_claim make_id words handlers worker_id clock renewal c n pass).0.attempts
        ≡ some b)
      × (b.finished_at ≡ some (clock 2))
      × (b.status ≢ started)
      × ((b.status ≢ reclaimed)
          ⊎ ((b.status ≡ reclaimed)
              × ((process_claim make_id words handlers worker_id clock renewal c n pass).0.backend
                  ≡ (do_work handlers c.work_item (fence_for worker_id c) n.backend pass).0)
              × ((process_claim make_id words handlers worker_id clock renewal c n pass).1
                  ≡ skipped c.work_item.id
                      (do_work handlers c.work_item (fence_for worker_id c) n.backend pass).1)
              × ((process_claim make_id words handlers worker_id clock renewal c n
                    pass).1.skipped_tasks
                  ≡ (do_work handlers c.work_item
                      (fence_for worker_id c)
                      n.backend
                      pass).1.skipped_tasks
                    ++ (c.work_item.id ∷ []))
              × ((process_claim make_id words handlers worker_id clock renewal c n pass).2 ≡ none)))
process_claim_lem {B} {P} make_id words handlers worker_id clock renewal c n pass =
    let a = new_attempt make_id worker_id c (clock 0) (clock 1) in
    let fence = fence_for worker_id c in
    let worked = do_work handlers c.work_item fence n.backend pass in
    let b = ended_attempt words renewal worked.2 (clock 2) a in
    let done = finished_attempts words renewal worked.2 (clock 2) a n.attempts in
    let n1 : Node B P = record { backend = worked.0; attempts = done } in
    let is_settled =
      process_claim-settle_item make_id words handlers worker_id clock renewal c n pass in
    let h = ended_attempt-HasFinished words renewal worked.2 (clock 2) a in
    (
      b,
      ap (λ r. lookup a.attempt_id r.0.attempts) is_settled
          ∙ ap (lookup a.attempt_id)
              (settle_item-attempts words fence (clock 2) renewal worked.2 n1 worked.1)
          ∙ finished_attempts-lookup words renewal worked.2 (clock 2) a n.attempts,
      h.finished_then,
      h.ended b.status refl,
      elim (reclaimed-cases b.status) [
        | inl e ↦ inl e
        | inr e ↦
            let is_skipped =
              is_settled
              ∙ settle_item-reclaimed words fence (clock 2) renewal worked.2 n1 worked.1 a e in
            inr (
              e,
              ap (λ r. r.0.backend) is_skipped,
              ap (λ r. r.1) is_skipped,
              ap (λ r. r.1.skipped_tasks) is_skipped,
              ap (λ r. r.2) is_skipped,
            )
      ],
    )
