-- ===== src/TaskGraph/Order.antt =====
-- topologicalTaskOrder and ReadyTasksInExecutionOrder of internal/runtime/task_graph.go. The loop takes
-- a bound on its rounds, and answers nothing where it is too small.
pub mod Counts
pub mod Visit
pub mod Rounds
pub mod Complete
use personal_cfo_os.Base.{
  ℕ, zero, suc, ◌≡◌, String, Bool, true, false, ◌&&◌, Option, none, some, List, [], ◌∷◌, ◌++◌, map,
  keep, length, sort, ◌==◌, nat_eq, string_eq, if◌then◌else◌, int_suc, int_pred, signed_lt,
}
use personal_cfo_os.Base.Dict.{Dict, lookup, insert}
use personal_cfo_os.Stores.Types.{TaskQueueStatus}
use personal_cfo_os.TaskSpec.{TaskDependency}
use personal_cfo_os.TaskGraph.{FollowUpTaskRecord, TaskGraphSnapshot, is_ready}

-- `m[key]` of a map of ints.
abbrev pub int_or_zero : Option ℕ → ℕ
int_or_zero none = 0
int_or_zero (some n) = n

unfoldable pub int_at : String → Dict ℕ → ℕ
int_at key m = int_or_zero (lookup key m)

unfoldable pub order_by_registration : List FollowUpTaskRecord → Dict ℕ → Dict ℕ
order_by_registration [] m = m
order_by_registration (r ∷ rs) m =
    order_by_registration rs (insert r.task.id r.registration_order m)

unfoldable pub no_indegree : List FollowUpTaskRecord → Dict ℕ → Dict ℕ
no_indegree [] m = m
no_indegree (r ∷ rs) m = no_indegree rs (insert r.task.id 0 m)

unfoldable pub count_dependencies : List TaskDependency → Dict ℕ → Dict ℕ
count_dependencies [] m = m
count_dependencies (dep ∷ deps) m =
    count_dependencies deps
      (insert dep.downstream_task_id (int_suc (int_at dep.downstream_task_id m)) m)

-- `downstream[taskID]`, which the loop over the dependencies has appended to.
unfoldable pub downstream : List TaskDependency → String → List String
downstream deps task_id =
    map (λ dep. dep.downstream_task_id) (keep (λ dep. dep.upstream_task_id == task_id) deps)

unfoldable pub without_upstream : Dict ℕ → List String
without_upstream [] = []
without_upstream ((task_id, value) ∷ m) =
    let rest = without_upstream m in if value == 0 then task_id ∷ rest else rest

module _ (order : Dict ℕ) where
  abbrev pub registered_before : String → String → Bool
  registered_before a b = signed_lt (int_at a order) (int_at b order)

  -- The loop over the children of a task, on the map of indegrees and the tasks that wait.
  unfoldable pub visit : List String → Dict ℕ → List String → Dict ℕ × List String
  visit [] indegree waiting = (indegree, waiting)
  visit (child ∷ children) indegree waiting =
      let left = int_pred (int_at child indegree) in
      visit children (insert child left indegree)
        (if left == 0 then sort registered_before (waiting ++ (child ∷ [])) else waiting)

  abbrev pub in_front : String → Option (List String) → Option (List String)
  in_front task_id none = none
  in_front task_id (some rest) = some (task_id ∷ rest)

  -- At most `rounds` rounds of the outer loop.
  unfoldable pub order_from : List TaskDependency → ℕ → Dict ℕ → List String → Option (List String)
  order_from deps rounds indegree [] = some []
  order_from deps zero indegree (task_id ∷ waiting) = none
  order_from deps (suc rounds) indegree (task_id ∷ waiting) =
      let (indegree', waiting') =
        visit (sort registered_before (downstream deps task_id)) indegree waiting in
      in_front task_id (order_from deps rounds indegree' waiting')

unfoldable pub indegrees : List TaskDependency → List FollowUpTaskRecord → Dict ℕ
indegrees deps records = count_dependencies deps (no_indegree records [])

unfoldable pub topological_task_order :
    ℕ → List TaskDependency → List FollowUpTaskRecord → Option (List String)
topological_task_order rounds deps records =
    let order = order_by_registration records [] in
    let indegree = indegrees deps records in
    order_from order deps rounds indegree
      (sort (registered_before order) (without_upstream indegree))

unfoldable pub task_record_map :
    List FollowUpTaskRecord → Dict FollowUpTaskRecord → Dict FollowUpTaskRecord
task_record_map [] m = m
task_record_map (r ∷ rs) m = task_record_map rs (insert r.task.id r m)

abbrev ready_record : Option FollowUpTaskRecord → List FollowUpTaskRecord → List FollowUpTaskRecord
ready_record none rest = rest
ready_record (some r) rest = if is_ready r.status then r ∷ rest else rest

unfoldable pub ready_of : Dict FollowUpTaskRecord → List String → List FollowUpTaskRecord
ready_of by_id [] = []
ready_of by_id (task_id ∷ order) = ready_record (lookup task_id by_id) (ready_of by_id order)

abbrev pub ready_or_none :
    Dict FollowUpTaskRecord → Option (List String) → Option (List FollowUpTaskRecord)
ready_or_none by_id none = none
ready_or_none by_id (some order) = some (ready_of by_id order)

unfoldable pub ready_tasks_in_execution_order :
    {S : Type 0} → ℕ → TaskGraphSnapshot S → Option (List FollowUpTaskRecord)
ready_tasks_in_execution_order rounds snapshot =
    ready_or_none (task_record_map snapshot.registered_tasks [])
      (topological_task_order rounds snapshot.graph.dependencies snapshot.registered_tasks)
