-- ===== src/TaskGraph/Keeps.antt =====
-- What the reevaluation of a task keeps of it.
use personal_cfo_os.Base.{
  ℕ, ◌≡◌, refl, ◌∙◌, String, Bool, true, List, [], ◌∷◌, string_eq, ◌⊎◌, inl, inr, arith,
}
use personal_cfo_os.Stores.Types.{
  TaskQueueStatus, waiting_approval, executing, completed, failed, TaskExecutionRecord,
}
use personal_cfo_os.TaskSpec.{TaskSpec}
use personal_cfo_os.TaskGraph.{
  FollowUpTaskRecord, is_completed, with_reason, follow_status, unblock, after_dependencies,
}

-- The task itself, its schedule and its dependencies are kept.
pub record Keeps (r q : FollowUpTaskRecord) : Type 0 where
  pub same_task : q.task ≡ r.task
  pub same_metadata : q.metadata ≡ r.metadata
  pub same_dependencies : q.dependencies ≡ r.dependencies

Keeps-refl : (r : FollowUpTaskRecord) → Keeps r r
Keeps-refl r = record { same_task = refl; same_metadata = refl; same_dependencies = refl }

pub Keeps-trans : (a b c : FollowUpTaskRecord) → Keeps a b → Keeps b c → Keeps a c
Keeps-trans a b c k l = record {
  same_task = l.same_task ∙ k.same_task;
  same_metadata = l.same_metadata ∙ k.same_metadata;
  same_dependencies = l.same_dependencies ∙ k.same_dependencies;
}

pub with_reason-Keeps : (r : FollowUpTaskRecord) → Keeps r (with_reason r)
unfolding with_reason
with_reason-Keeps r = ground arith

pub follow_status-Keeps :
    (status : TaskQueueStatus) (x : TaskExecutionRecord) (r : FollowUpTaskRecord)
    → Keeps r (follow_status status x r)
unfolding follow_status
follow_status-Keeps completed x r = record {
  same_task = refl;
  same_metadata = refl;
  same_dependencies = refl;
}
follow_status-Keeps failed x r = record {
  same_task = refl;
  same_metadata = refl;
  same_dependencies = refl;
}
follow_status-Keeps executing x r = record {
  same_task = refl;
  same_metadata = refl;
  same_dependencies = refl;
}
follow_status-Keeps waiting_approval x r = record {
  same_task = refl;
  same_metadata = refl;
  same_dependencies = refl;
}
follow_status-Keeps _ x r = Keeps-refl r

pub follow_status-completed :
    (status : TaskQueueStatus) (x : TaskExecutionRecord) (r : FollowUpTaskRecord)
    → is_completed (follow_status status x r).status ≡ true
    → (is_completed status ≡ true) ⊎ (is_completed r.status ≡ true)
unfolding follow_status
follow_status-completed completed x r h = inl refl
follow_status-completed failed x r h = cc
follow_status-completed executing x r h = cc
follow_status-completed waiting_approval x r h = cc
follow_status-completed _ x r h = inr h

module _ (resolve : TaskSpec → String × Bool × String) (rfc3339 : ℕ → String) (now : ℕ) where
  pub after_dependencies-Keeps :
      (r : FollowUpTaskRecord) (available : Bool) (reasons : List String)
      → Keeps r (after_dependencies resolve rfc3339 now r available reasons)
  unfolding after_dependencies unblock
  after_dependencies-Keeps r available [] = ground arith
  after_dependencies-Keeps r available (reason ∷ reasons) = ground arith
