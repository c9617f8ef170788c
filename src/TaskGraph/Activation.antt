-- ===== src/TaskGraph/Activation.antt =====
-- The writes to registered tasks in internal/runtime/task_activation.go, and the policy of
-- task_dispatch.go that lets a task run by itself. A Go slice that is nil is `none`.
use personal_cfo_os.Base.{
  ℕ, String, ◌≡◌, sym, ap, ◌∙◌, Bool, true, false, ◌||◌, not, Option, none, some, List, [], ◌∷◌,
  ◌++◌, ◌==◌, string_eq, eq_iff, if◌then◌else◌, is_pos, signed_lt, int_suc, arith, Option-cases,
  inl, inr,
}
use personal_cfo_os.Governance.Rules.{among, is_blank, no_items}
use personal_cfo_os.Stores.Types.{TaskQueueStatus}
use personal_cfo_os.TaskSpec.{
  UserIntentType, unknown_intent, monthly_review, debt_vs_invest, behavior_intervention,
  life_event_trigger, tax_optimization, rebalance_portfolio, other_intent,
}
use personal_cfo_os.TaskGraph.{
  FollowUpTaskRecord, TaskGraphSnapshot, derive_spawned, derive_deferred, last_status,
}

-- The loop of `uniqueStrings`, which skips what is blank and what it has seen.
unfoldable pub unique_texts_from : List String → List String → List String
unique_texts_from seen [] = []
unique_texts_from seen (item ∷ items) =
    if is_blank item
    then unique_texts_from seen items
    else if among item seen
    then unique_texts_from seen items
    else item ∷ unique_texts_from (item ∷ seen) items

unfoldable pub unique_texts : List String → List String
unique_texts items = unique_texts_from [] items

abbrev pub list_or : Option (List String) → List String → List String
list_or none old = old
list_or (some new) old = new

-- The loop over the registered tasks, which writes to those with the identifier.
unfoldable pub write_task :
    String
    → (FollowUpTaskRecord → FollowUpTaskRecord)
    → List FollowUpTaskRecord
    → List FollowUpTaskRecord
write_task task_id change [] = []
write_task task_id change (r ∷ rs) =
    let rest = write_task task_id change rs in (if r.task.id == task_id then change r else r) ∷ rest

abbrev pub with_status :
    TaskQueueStatus
    → Option (List String)
    → Option (List String)
    → ℕ
    → FollowUpTaskRecord
    → FollowUpTaskRecord
with_status status blocking suppressed at r = record r {
  status = status;
  version = int_suc r.version;
  blocking_reasons = list_or blocking r.blocking_reasons;
  suppressed_reasons = list_or suppressed r.suppressed_reasons;
  last_updated_at = at;
}

module _ {S : Type 0} where
  unfoldable pub update_task_status :
      TaskGraphSnapshot S
      → String
      → TaskQueueStatus
      → Option (List String)
      → Option (List String)
      → ℕ
      → TaskGraphSnapshot S
  update_task_status snapshot task_id status blocking suppressed at =
      let records =
        write_task task_id (with_status status blocking suppressed at) snapshot.registered_tasks in
      record snapshot {
        registered_tasks = records;
        spawned = derive_spawned records;
        deferred_tasks = derive_deferred records at;
      }

  unfoldable pub update_task_suppression :
      TaskGraphSnapshot S → String → String → ℕ → TaskGraphSnapshot S
  update_task_suppression snapshot task_id reason at = record snapshot {
    registered_tasks =
        write_task task_id
          (λ r. record r {
            version = int_suc r.version;
            suppressed_reasons = unique_texts (r.suppressed_reasons ++ (reason ∷ []));
            last_updated_at = at;
          })
          snapshot.registered_tasks;
  }

  unfoldable pub clear_task_suppression : TaskGraphSnapshot S → String → ℕ → TaskGraphSnapshot S
  clear_task_suppression snapshot task_id at = record snapshot {
    registered_tasks =
        write_task task_id
          (λ r. record r {
            version = int_suc r.version;
            suppressed_reasons = [];
            last_updated_at = at;
          })
          snapshot.registered_tasks;
  }

abbrev pub same_intent : UserIntentType → UserIntentType → Bool
same_intent unknown_intent unknown_intent = true
same_intent monthly_review monthly_review = true
same_intent debt_vs_invest debt_vs_invest = true
same_intent behavior_intervention behavior_intervention = true
same_intent life_event_trigger life_event_trigger = true
same_intent tax_optimization tax_optimization = true
same_intent rebalance_portfolio rebalance_portfolio = true
same_intent (other_intent a) (other_intent b) = a == b
same_intent _ _ = false

unfoldable pub intent_among : UserIntentType → List UserIntentType → Bool
intent_among intent [] = false
intent_among intent (i ∷ is) = same_intent i intent || intent_among intent is

-- `max_execution_depth` and `max_attempts` are ints, by their bit patterns.
pub record AutoExecutionPolicy : Type 0 where
  pub allowed_intents : List UserIntentType
  pub max_execution_depth : ℕ
  pub max_attempts : ℕ
  pub continue_independent_on_failure : Bool
  pub continue_independent_on_approval : Bool

abbrev pub default_auto_execution_policy : AutoExecutionPolicy
default_auto_execution_policy = record {
  allowed_intents = tax_optimization ∷ rebalance_portfolio ∷ [];
  max_execution_depth = 1;
  max_attempts = 2;
  continue_independent_on_failure = true;
  continue_independent_on_approval = true;
}

abbrev pub depth_limit : AutoExecutionPolicy → ℕ
depth_limit p = if is_pos p.max_execution_depth then p.max_execution_depth else 1

unfoldable pub allows : AutoExecutionPolicy → FollowUpTaskRecord → Bool × String
allows p r =
    if signed_lt (depth_limit p) r.metadata.execution_depth
    then (false, "suppressed because execution_depth > %d")
    else if no_items p.allowed_intents
    then (false, "not auto-run: no intents are allowlisted")
    else if not (intent_among r.task.user_intent_type p.allowed_intents)
    then (false, "not auto-run: intent not in allowlist")
    else (true, "")

abbrev pub map_status : TaskQueueStatus → Option TaskQueueStatus → Option TaskQueueStatus
map_status status none = none
map_status status (some old) = some status

-- The status that the map of statuses holds after a write, by whether the task is the one written.
abbrev written_status : Bool → Option TaskQueueStatus → TaskQueueStatus → Option TaskQueueStatus
written_status hit old status = if hit then map_status status old else old

-- What the map holds for a task once a record comes in front of a list.
abbrev or_head : Option TaskQueueStatus → String → TaskQueueStatus → String → Option TaskQueueStatus
or_head (some later) id status other = some later
or_head none id status other = if id == other then some status else none

last_status-front :
    (other : String) (r : FollowUpTaskRecord) (rs : List FollowUpTaskRecord)
    → last_status other (r ∷ rs) ≡ or_head (last_status other rs) r.task.id r.status other
unfolding last_status
last_status-front other r rs = elim (Option-cases (last_status other rs)) [
  | inl e ↦ rw (e, last_status)
  | inr (later, e) ↦ rw (e, last_status)
]

written-or_head :
    (later : Option TaskQueueStatus) (id task_id other : String) (old new : TaskQueueStatus)
    → or_head
        (written_status (task_id == other) later new)
        id
        (if id == task_id then new else old)
        other
      ≡ written_status (task_id == other) (or_head later id old other) new
written-or_head none id task_id other old new =
    ground (arith, eq_iff id task_id, eq_iff id other, eq_iff task_id other)
written-or_head (some later) id task_id other old new =
    ground (arith, eq_iff id task_id, eq_iff id other, eq_iff task_id other)

module _ (status : TaskQueueStatus) (blocking suppressed : Option (List String)) (at : ℕ) where
  abbrev changed : String → FollowUpTaskRecord → FollowUpTaskRecord
  changed task_id r =
      if r.task.id == task_id then with_status status blocking suppressed at r else r

  changed_id : (task_id : String) (r : FollowUpTaskRecord) → (changed task_id r).task.id ≡ r.task.id
  changed_id task_id r = ground arith

  changed_status :
      (task_id : String) (r : FollowUpTaskRecord)
      → (changed task_id r).status ≡ (if r.task.id == task_id then status else r.status)
  changed_status task_id r = ground arith

  last_status-write_task :
      (task_id other : String) (rs : List FollowUpTaskRecord)
      → last_status other (write_task task_id (with_status status blocking suppressed at) rs)
        ≡ written_status (task_id == other) (last_status other rs) status
  unfolding write_task last_status
  last_status-write_task task_id other [] = ground arith
  last_status-write_task task_id other (r ∷ rs) =
      let later = write_task task_id (with_status status blocking suppressed at) rs in
      last_status-front other (changed task_id r) later
      ∙ (rw
          (last_status-write_task task_id other rs, changed_id task_id r, changed_status task_id r)
          (written-or_head (last_status other rs) r.task.id task_id other r.status status
            ∙ ap (λ x. written_status (task_id == other) x status)
                (sym (last_status-front other r rs))))

-- After a status is written, the task has it if it is registered, and every other task has the status
-- that it had.
pub update_task_status_lem :
    {S : Type 0} (snapshot : TaskGraphSnapshot S) (task_id other : String)
    (status : TaskQueueStatus) (blocking suppressed : Option (List String)) (at : ℕ)
    → last_status other
        (update_task_status snapshot task_id status blocking suppressed at).registered_tasks
      ≡ (if task_id == other
          then map_status status (last_status other snapshot.registered_tasks)
          else last_status other snapshot.registered_tasks)
unfolding update_task_status
update_task_status_lem snapshot task_id other status blocking suppressed at =
    last_status-write_task status blocking suppressed at task_id other snapshot.registered_tasks
