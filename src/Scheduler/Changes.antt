-- ===== src/Scheduler/Changes.antt =====
-- The comparison of the tasks of two graphs, and of a graph's with themselves.
use personal_cfo_os.Base.{
  String, ◌≡◌, refl, Bool, true, false, ◌||◌, none, some, List, [], ◌∷◌, ◌==◌, string_eq, nat_eq,
  eq_iff, arith, ◌↔◌, Option, length,
}
use personal_cfo_os.Stores.Types.{
  TaskQueueStatus, ready, dependency_blocked, deferred, waiting_approval, queued_pending_capability,
  executing, completed, failed, other_queue_status,
}
use personal_cfo_os.TaskGraph.{FollowUpTaskRecord, last_status}
use personal_cfo_os.Scheduler.{
  same_status, changed_from, some_changed, status_changes_require_reevaluation,
}

same_status_refl : (status : TaskQueueStatus) → same_status status status ≡ true
same_status_refl (other_queue_status text) = (eq_iff text text).1 refl
same_status_refl _ = refl

-- Some record has the identifier.
abbrev pub has_id : String → List FollowUpTaskRecord → Bool
has_id id [] = false
has_id id (r ∷ rs) = (r.task.id == id) || has_id id rs

-- No two records are of one task.
abbrev pub DistinctIds : List FollowUpTaskRecord → Type 0
DistinctIds [] = Unit
DistinctIds (r ∷ rs) = (has_id r.task.id rs ≡ false) × DistinctIds rs

last_status-none :
    (id : String) (rs : List FollowUpTaskRecord) → has_id id rs ≡ false → last_status id rs ≡ none
unfolding last_status
last_status-none id [] h = refl
last_status-none id (r ∷ rs) h =
    rw (last_status-none id rs (ground arith), last_status) (ground arith)

-- Each record of the second list has the status that the map of the first holds for its task.
abbrev pub Found : List FollowUpTaskRecord → List FollowUpTaskRecord → Type 0
Found all [] = Unit
Found all (r ∷ rs) = (last_status r.task.id all ≡ some r.status) × Found all rs

some_changed-Found : (all rs : List FollowUpTaskRecord) → Found all rs → some_changed all rs ≡ false
unfolding some_changed
some_changed-Found all [] f = refl
some_changed-Found all (r ∷ rs) (e, f) =
    rw e (rw (same_status_refl r.status) (some_changed-Found all rs f))

last_status-later :
    (r : FollowUpTaskRecord) (id : String) (rest : List FollowUpTaskRecord)
    (status : TaskQueueStatus)
    → last_status id rest ≡ some status
    → last_status id (r ∷ rest) ≡ some status
unfolding last_status
last_status-later r id rest status h = rw (h, last_status)

last_status-head :
    (r : FollowUpTaskRecord) (rest : List FollowUpTaskRecord)
    → has_id r.task.id rest ≡ false
    → last_status r.task.id (r ∷ rest) ≡ some r.status
unfolding last_status
last_status-head r rest h =
    rw (last_status-none r.task.id rest h, last_status) (ground (arith, eq_iff r.task.id r.task.id))

Found-later :
    (r : FollowUpTaskRecord) (all rs : List FollowUpTaskRecord) → Found all rs → Found (r ∷ all) rs
Found-later r all [] f = tt
Found-later r all (x ∷ rs) (e, f) =
    (last_status-later r x.task.id all x.status e, Found-later r all rs f)

Found-self : (rs : List FollowUpTaskRecord) → DistinctIds rs → Found rs rs
Found-self [] d = tt
Found-self (r ∷ rs) (new, d) = (last_status-head r rs new, Found-later r rs rs (Found-self rs d))

-- The test for a change of status answers no on a list of distinct tasks and itself, which is what a
-- scan gives it: the snapshots before and after a reevaluation share their list.
pub status_changes_same :
    (rs : List FollowUpTaskRecord)
    → DistinctIds rs
    → status_changes_require_reevaluation rs rs ≡ false
unfolding status_changes_require_reevaluation
status_changes_same rs d = ground (arith, some_changed-Found rs rs (Found-self rs d))

same_status_iff : (a b : TaskQueueStatus) → (same_status a b ≡ true) ↔ (a ≡ b)
same_status_iff (other_queue_status s) (other_queue_status t) = ground (arith, eq_iff s t)
same_status_iff ready b = ground arith
same_status_iff dependency_blocked b = ground arith
same_status_iff deferred b = ground arith
same_status_iff waiting_approval b = ground arith
same_status_iff queued_pending_capability b = ground arith
same_status_iff executing b = ground arith
same_status_iff completed b = ground arith
same_status_iff failed b = ground arith
same_status_iff (other_queue_status s) b = ground arith

changed_from_iff :
    (old : Option TaskQueueStatus) (status : TaskQueueStatus)
    → (changed_from old status ≡ false) ↔ (old ≡ some status)
changed_from_iff none status = ground arith
changed_from_iff (some previous) status = ground (arith, same_status_iff previous status)

some_changed_iff :
    (before rs : List FollowUpTaskRecord) → (some_changed before rs ≡ false) ↔ Found before rs
unfolding some_changed
some_changed_iff before [] = ground arith
some_changed_iff before (r ∷ rs) =
    ground
      (arith, changed_from_iff (last_status r.task.id before) r.status, some_changed_iff before rs)

-- The test sees no change exactly if as many tasks are there, and each has the status that it had.
pub status_changes_iff :
    (before after : List FollowUpTaskRecord)
    → (status_changes_require_reevaluation before after ≡ false)
      ↔ ((length before ≡ length after) × Found before after)
unfolding status_changes_require_reevaluation
status_changes_iff before after = ground (arith, some_changed_iff before after)
