-- ===== src/Service/Operator/Repeats.antt =====
-- A repeated request: ApproveTask and DenyTask of internal/runtime/operator_service.go after a command
-- with the same request identifier has succeeded.
use personal_cfo_os.Base.{
  ℕ, ◌≡◌, ◌≢◌, refl, sym, ap, subst, ◌∙◌, String, Bool, true, false, some, if◌then◌else◌,
  Bool-cases, Option-cases, inl, inr,
}
use personal_cfo_os.Errors.{ok, err, RuntimeError, Result-cases}
use personal_cfo_os.Governance.Rules.{is_blank}
use personal_cfo_os.WorkQueue.Types.{WorkItem}
use personal_cfo_os.WorkQueue.{enqueue}
use personal_cfo_os.Stores.Types.{
  ApprovalStateRecord, OperatorActionRecord, OperatorActionType, is_pending,
}
use personal_cfo_os.Stores.Versioned.Updates.{update-lookup}
use personal_cfo_os.Stores.Approvals.{Approvals, approval_record, update_approval, load_approval}
use personal_cfo_os.Stores.Actions.{ActionStore, load_by_request_id}
use personal_cfo_os.Stores.Actions.Requests.{IsRecorded, save_action-IsRecorded}
use personal_cfo_os.Service.Types.{Backend, TaskCommandResult, ReplayEventRecord}
use personal_cfo_os.Service.Effects.{
  Step, and_then-ok, Keeps, >>=-Keeps, pure-Keeps, if-Keeps, unless_error-Keeps, written-ok,
}
use personal_cfo_os.Service.Persist.{append_replay}
use personal_cfo_os.Service.Actions.{begin_action, recorded_result, enqueue_work_item, fail_action}
use personal_cfo_os.Service.Operator.{
  ApproveTaskCommand, Deps, reads, unless_repeated, write_resolution, write_action, on_approval,
  approve_pending, dispatch_resume, as_applied, refuse,
}
use personal_cfo_os.Service.Operator.Resolved.{same_or_not}
use personal_cfo_os.Service.Operator.Commands.{approve_task}

-- An update leaves an approval under each identifier that had one.
update_approval-stored :
    (r a : ApprovalStateRecord) (key : String) (expected : ℕ) (x next : Approvals)
    → update_approval r expected x ≡ ok next
    → load_approval key x ≡ some a
    → (b : ApprovalStateRecord) × (load_approval key next ≡ some b)
update_approval-stored r a key expected x next h there =
    let (current, found, unstale, stored, others) =
      update-lookup approval_record r expected x next h in
    elim (same_or_not r.approval_id key) [
      | inl same ↦ (_, ap (λ y. load_approval y next) (sym same) ∙ stored)
      | inr apart ↦ (a, others key apart ∙ there)
    ]

recorded_answers :
    (a : OperatorActionRecord) (s : ActionStore)
    → IsRecorded a s
    → load_by_request_id a.request_id s ≡ some a
unfolding load_by_request_id
recorded_answers a s held = rw (held.request_known, load_by_request_id) held.action_stored

chosen :
    {S A : Type 0} {b : Bool} (m n : Step S A) → b ≡ true → (s : S) → (if b then m else n) s ≡ m s
chosen m n h s = rw h refl

module _ {B P : Type 0} where
  -- The request is on record, and so is the approval.
  pub record Answered (request_id approval_id : String) (s : Backend B P) : Type 0 where
    pub action : OperatorActionRecord
    pub recorded : load_by_request_id request_id s.actions ≡ some action
    pub approval : ApprovalStateRecord
    pub stored : load_approval approval_id s.approvals ≡ some approval

  enqueue-Keeps :
      (actions : ActionStore) (approvals : Approvals) (item : WorkItem)
      → Keeps
          (λ s. (s.actions ≡ actions) × (s.approvals ≡ approvals))
          (enqueue_work_item {B = B} {P = P} item)
  unfolding enqueue_work_item
  enqueue-Keeps actions approvals item = record {
    keeps = λ s k. elim (Result-cases (enqueue item s.items)) [
      | inl ((items, answer), e) ↦ rw (e, enqueue_work_item) k
      | inr (x, e) ↦ rw (e, enqueue_work_item) k
    ];
  }

  append-Keeps :
      (actions : ActionStore) (approvals : Approvals) (event : ReplayEventRecord)
      → Keeps
          (λ s. (s.actions ≡ actions) × (s.approvals ≡ approvals))
          (append_replay {B = B} {P = P} event)
  unfolding append_replay
  append-Keeps actions approvals event = record { keeps = λ s k. k }

  module _ (env : Deps B P) where
    -- A request on record gets the recorded answer, and changes nothing.
    on_approval-repeated :
        (type : OperatorActionType) (to : String) (cmd : ApproveTaskCommand) (clock : ℕ → ℕ)
        (rest : ApprovalStateRecord → OperatorActionRecord → Step (Backend B P) TaskCommandResult)
        (s : Backend B P) (k : Answered cmd.request_id cmd.approval_id s)
        → is_blank cmd.request_id ≡ false
        → on_approval env type to cmd clock rest s ≡ (s, ok (recorded_result k.action))
    unfolding on_approval reads begin_action unless_repeated
    on_approval-repeated type to cmd clock rest s k named =
        rw (k.stored, on_approval, reads)
          (rw (named, k.recorded, begin_action, unless_repeated) refl)

    dispatch_resume-Keeps :
        (actions : ActionStore) (approvals : Approvals) (a : ApprovalStateRecord)
        (action : OperatorActionRecord) (now : ℕ)
        → Keeps
            (λ s. (s.actions ≡ actions) × (s.approvals ≡ approvals))
            (dispatch_resume env a action now)
    unfolding dispatch_resume
    dispatch_resume-Keeps actions approvals a action now =
        >>=-Keeps (enqueue-Keeps actions approvals _) (λ answer.
          >>=-Keeps (append-Keeps actions approvals _) (λ u.
            >>=-Keeps
              (if-Keeps (is_blank a.graph_id) pure-Keeps
                (unless_error-Keeps (env.rebuild a.graph_id)))
              (λ u. pure-Keeps)))

    approve_pending-Answered :
        (cmd : ApproveTaskCommand) (a : ApprovalStateRecord) (action : OperatorActionRecord)
        (now : ℕ) (s t : Backend B P) (u : Unit {0})
        → load_approval cmd.approval_id s.approvals ≡ some a
        → action.request_id ≡ cmd.request_id
        → approve_pending env cmd a action now s ≡ (t, ok u)
        → Answered cmd.request_id cmd.approval_id t
    unfolding approve_pending write_resolution write_action append_replay
    approve_pending-Answered cmd a action now s t u there same h =
        let (s1, u1, resolves, h1) = and_then-ok _ _ t u h in
        let (s2, u2, records, h2) = and_then-ok _ _ t u h1 in
        let (x, updated, e1) = written-ok _ s _ s1 u1 resolves in
        let (y, saved, e2) = written-ok _ s1 _ s2 u2 records in
        let (b, stored) =
          update_approval-stored _ a cmd.approval_id _ s.approvals x updated there in
        let held : IsRecorded (as_applied now action) y =
          save_action-IsRecorded _ s1.actions y saved in
        let at_actions : y ≡ t.actions = ap (λ z. z.actions) e2 ∙ ap (λ z. z.0.actions) h2 in
        let at_approvals : x ≡ t.approvals =
          ap (λ z. z.approvals) e1 ∙ ap (λ z. z.approvals) e2 ∙ ap (λ z. z.0.approvals) h2 in
        let recorded : load_by_request_id action.request_id y ≡ some (as_applied now action) =
          recorded_answers (as_applied now action) y held in
        record {
          action = as_applied now action;
          recorded =
              ap (λ z. load_by_request_id z t.actions) (sym same)
              ∙ ap (λ z. load_by_request_id action.request_id z) (sym at_actions)
              ∙ recorded;
          approval = b;
          stored = ap (load_approval cmd.approval_id) (sym at_approvals) ∙ stored;
        }

    refused-err :
        (action : OperatorActionRecord) (e : RuntimeError) (now : ℕ) (s t : Backend B P)
        (r : TaskCommandResult)
        → refuse env action e now s ≢ (t, ok r)
    unfolding fail_action append_replay
    refused-err action e now s t r h = let no : err e ≡ ok r = ap (λ z. z.1) h in cc

    -- A command that succeeded has left its request on record, if what it does to a pending approval does.
    on_approval-Answered :
        (type : OperatorActionType) (to : String) (cmd : ApproveTaskCommand) (clock : ℕ → ℕ)
        (rest : ApprovalStateRecord → OperatorActionRecord → Step (Backend B P) TaskCommandResult)
        (s t : Backend B P) (r : TaskCommandResult)
        → ((a : ApprovalStateRecord) (action : OperatorActionRecord)
            → load_approval cmd.approval_id s.approvals ≡ some a
            → action.request_id ≡ cmd.request_id
            → rest a action s ≡ (t, ok r)
            → Answered cmd.request_id cmd.approval_id t)
        → on_approval env type to cmd clock rest s ≡ (t, ok r)
        → (is_blank cmd.request_id ≡ false) × Answered cmd.request_id cmd.approval_id t
    unfolding on_approval reads begin_action unless_repeated
    on_approval-Answered type to cmd clock rest s t r after h =
        elim (Option-cases (load_approval cmd.approval_id s.approvals)) [
          | inl e ↦ let at = rw (e, on_approval, reads) at h in let no = ap (λ z. z.1) at in cc
          | inr (a, e) ↦ elim (Bool-cases (is_blank cmd.request_id)) [
            | inl blank ↦
                let at = rw (e, blank, on_approval, reads, begin_action) at h in
                let no = ap (λ z. z.1) at in cc
            | inr named ↦ elim (Option-cases (load_by_request_id cmd.request_id s.actions)) [
              | inr (existing, known) ↦
                  let at =
                    rw (e, named, known, on_approval, reads, begin_action, unless_repeated) at h in
                  let same : s ≡ t = ap (λ z. z.0) at in
                  (
                    named,
                    subst (Answered cmd.request_id cmd.approval_id) same
                        (record { action = existing; recorded = known; approval = a; stored = e }),
                  )
              | inl new ↦
                  let at =
                    rw (e, named, new, on_approval, reads, begin_action, unless_repeated) at h in
                  elim (Bool-cases (is_pending a.status)) [
                    | inl waits ↦ (named, after a _ e refl (rw waits at at))
                    | inr over ↦ absurd (refused-err _ _ _ s t r (rw over at at))
                  ]
            ]
          ]
        ]

-- With asynchronous dispatch, an approval that succeeded is carried out once: its request is on record,
-- and sending the command again, at any time, changes no store and gives the answer on record.
pub approve_task_again :
    {B P : Type 0} (env : Deps B P) (cmd : ApproveTaskCommand) (clock later : ℕ → ℕ)
    (s t : Backend B P) (r : TaskCommandResult)
    → env.async ≡ true
    → approve_task env cmd clock s ≡ (t, ok r)
    → (action : OperatorActionRecord) × (load_by_request_id cmd.request_id t.actions ≡ some action)
      × (approve_task env cmd later t ≡ (t, ok (recorded_result action)))
unfolding approve_task
approve_task_again env cmd clock later s t r async h =
    let (named, k) =
      on_approval-Answered env _ _ cmd clock _ s t r
        (λ a action there same ran.
          let (s1, u, approved, dispatched) = and_then-ok _ _ t r ran in
          let k = approve_pending-Answered env cmd a action (clock 1) s s1 u there same approved in
          let at : dispatch_resume env a action (clock 1) s1 ≡ (t, ok r) =
            sym (chosen (dispatch_resume env a action (clock 1)) _ async s1) ∙ dispatched in
          let (same_actions, same_approvals) =
            (dispatch_resume-Keeps env s1.actions s1.approvals a action (clock 1)).keeps s1
              (refl, refl) in
          record {
            action = k.action;
            recorded =
                ap (load_by_request_id cmd.request_id)
                  (sym (ap (λ z. z.0.actions) at) ∙ same_actions)
                ∙ k.recorded;
            approval = k.approval;
            stored =
                ap (load_approval cmd.approval_id)
                  (sym (ap (λ z. z.0.approvals) at) ∙ same_approvals)
                ∙ k.stored;
          })
        h in
    (k.action, k.recorded, on_approval-repeated env _ _ cmd later _ t k named)
