-- ===== src/TaskSpec/Valid.antt =====
-- What the validation of a task graph checks.
use personal_cfo_os.Base.{
  String, ◌≡◌, refl, ◌∙◌, Bool, true, false, ◌||◌, not, none, List, [], ◌∷◌, ◌++◌, ◌==◌, string_eq,
  eq_iff, if◌then◌else◌, arith, All, Option-cases, inl, inr,
}
use personal_cfo_os.Governance.Rules.{is_blank, among}
use personal_cfo_os.Governance.Engine.{complaint, join}
use personal_cfo_os.TaskSpec.{
  GeneratedTaskSpec, TaskDependency, TaskGraph, validate_generated, known_ids, task_complaints,
  dependency_complaints, graph_complaints, validate_graph,
}

-- Some generated task has the identifier.
abbrev pub has_task : String → List GeneratedTaskSpec → Bool
has_task id [] = false
has_task id (g ∷ rest) = (id == g.task.id) || has_task id rest

-- No two generated tasks share an identifier.
abbrev pub DistinctTasks : List GeneratedTaskSpec → Type 0
DistinctTasks [] = Unit
DistinctTasks (g ∷ rest) = (has_task g.task.id rest ≡ false) × DistinctTasks rest

-- A dependency joins two different tasks of the graph.
pub record Joins (tasks : List GeneratedTaskSpec) (dep : TaskDependency) : Type 0 where
  pub two_tasks : (dep.upstream_task_id == dep.downstream_task_id) ≡ false
  pub known_upstream : has_task dep.upstream_task_id tasks ≡ true
  pub known_downstream : has_task dep.downstream_task_id tasks ≡ true

join-nil : (xs : List String) → join xs ≡ none → xs ≡ []
join-nil [] h = refl
join-nil (x ∷ xs) h = cc

append-nil : (xs ys : List String) → xs ++ ys ≡ [] → (xs ≡ []) × (ys ≡ [])
append-nil [] ys h = (refl, h)
append-nil (x ∷ xs) ys h = cc

-- The tasks seen so far are none of the later ones, and each is seen once.
abbrev Fresh : List GeneratedTaskSpec → List String → Type 0
Fresh [] ids = Unit
Fresh (g ∷ rest) ids =
    (validate_generated g ≡ none) × (among g.task.id ids ≡ false) × Fresh rest (g.task.id ∷ ids)

if_nil :
    (known : Bool) (m : String) (c d : List String)
    → (if known then m ∷ c else d) ≡ []
    → (known ≡ false) × (d ≡ [])
if_nil true m c d h = cc
if_nil false m c d h = (refl, h)

complaint-nil : (b : Bool) (m : String) → complaint b m ≡ [] → b ≡ false
complaint-nil true m h = cc
complaint-nil false m h = refl

three_nil :
    (a b known : Bool) (k l m : String) (c d : List String)
    → complaint a k ++ complaint b l ++ (if known then m ∷ c else d) ≡ []
    → (known ≡ false) × (d ≡ [])
three_nil true b known k l m c d h = cc
three_nil false true known k l m c d h = cc
three_nil false false true k l m c d h = cc
three_nil false false false k l m c d h = (refl, h)

-- The complaints about one dependency.
dependency_nil :
    (blank self up down bare : Bool) (k l m n o : String)
    → (if blank
        then k ∷ []
        else complaint self l ++ complaint (not up) m ++ complaint (not down) n ++ complaint bare o)
      ≡ []
    → (self ≡ false) × (up ≡ true) × (down ≡ true)
dependency_nil true self up down bare k l m n o h = cc
dependency_nil false true up down bare k l m n o h = cc
dependency_nil false false false down bare k l m n o h = cc
dependency_nil false false true false bare k l m n o h = cc
dependency_nil false false true true bare k l m n o h = (refl, refl, refl)

task_complaints-Fresh :
    (graph : TaskGraph) (tasks : List GeneratedTaskSpec) (ids : List String)
    → task_complaints graph tasks ids ≡ []
    → Fresh tasks ids
unfolding task_complaints
task_complaints-Fresh graph [] ids h = tt
task_complaints-Fresh graph (g ∷ rest) ids h = elim (Option-cases (validate_generated g)) [
  | inr (e, bad) ↦
      let at : "generated task %d invalid: %w" ∷ task_complaints graph rest ids ≡ [] =
        rw (bad, task_complaints) at h in
      cc
  | inl good ↦
      let at = rw (good, task_complaints) at h in
      let (new, later) =
        three_nil (not (g.metadata.parent_workflow_id == graph.parent_workflow_id))
          (not (g.metadata.parent_task_id == graph.parent_task_id)) (among g.task.id ids)
          "generated task %d parent_workflow_id mismatch"
          "generated task %d parent_task_id mismatch" "duplicate generated task id %q in task graph"
          (task_complaints graph rest ids) (task_complaints graph rest (g.task.id ∷ ids)) at in
      (good, new, task_complaints-Fresh graph rest (g.task.id ∷ ids) later)
]

has_task-Fresh :
    (id : String) (tasks : List GeneratedTaskSpec) (ids : List String)
    → among id ids ≡ true
    → Fresh tasks ids
    → has_task id tasks ≡ false
unfolding among
has_task-Fresh id [] ids m f = refl
has_task-Fresh id (g ∷ rest) ids m (good, new, f) =
    ground (arith, eq_iff id g.task.id, has_task-Fresh id rest (g.task.id ∷ ids))

Fresh-Distinct :
    (tasks : List GeneratedTaskSpec) (ids : List String) → Fresh tasks ids → DistinctTasks tasks
unfolding among
Fresh-Distinct [] ids f = tt
Fresh-Distinct (g ∷ rest) ids (good, new, f) = (
  has_task-Fresh g.task.id rest (g.task.id ∷ ids) (ground (arith, eq_iff g.task.id g.task.id)) f,
  Fresh-Distinct rest (g.task.id ∷ ids) f,
)

-- The set that the loop leaves holds the tasks' identifiers and those it began with.
known_ids-among :
    (id : String) (tasks : List GeneratedTaskSpec) (ids : List String)
    → Fresh tasks ids
    → among id (known_ids tasks ids) ≡ (has_task id tasks || among id ids)
unfolding known_ids among
known_ids-among id [] ids f = refl
known_ids-among id (g ∷ rest) ids (good, new, f) =
    rw (good, known_ids) (rw new (known_ids-among id rest (g.task.id ∷ ids) f ∙ ground arith))

known_task :
    (id : String) (tasks : List GeneratedTaskSpec)
    → Fresh tasks []
    → among id (known_ids tasks []) ≡ true
    → has_task id tasks ≡ true
unfolding among
known_task id tasks f h = ground (arith, known_ids-among id tasks [] f)

dependency_complaints-Joins :
    (tasks : List GeneratedTaskSpec) (deps : List TaskDependency)
    → Fresh tasks []
    → dependency_complaints (known_ids tasks []) deps ≡ []
    → All (Joins tasks) deps
unfolding dependency_complaints
dependency_complaints-Joins tasks [] f h = tt
dependency_complaints-Joins tasks (dep ∷ deps) f h =
    let (first, rest) = append-nil _ (dependency_complaints (known_ids tasks []) deps) h in
    let (self, up, down) =
      dependency_nil (is_blank dep.upstream_task_id || is_blank dep.downstream_task_id)
        (dep.upstream_task_id == dep.downstream_task_id)
        (among dep.upstream_task_id (known_ids tasks []))
        (among dep.downstream_task_id (known_ids tasks [])) (is_blank dep.reason)
        "task dependency %d requires upstream and downstream ids"
        "task dependency %d cannot self-reference %q"
        "task dependency %d references unknown upstream task %q"
        "task dependency %d references unknown downstream task %q"
        "task dependency %d requires a reason" first in
    (
      record {
        two_tasks = self;
        known_upstream = known_task dep.upstream_task_id tasks f up;
        known_downstream = known_task dep.downstream_task_id tasks f down;
      },
      dependency_complaints-Joins tasks deps f rest,
    )

-- The generated tasks of a graph that is valid have different identifiers, and each dependency joins two
-- different ones of them.
pub validate_graph-Joins :
    (g : TaskGraph)
    → validate_graph g ≡ none
    → DistinctTasks g.generated_tasks × All (Joins g.generated_tasks) g.dependencies
unfolding validate_graph
validate_graph-Joins g h =
    let tasks : List String = task_complaints g g.generated_tasks [] in
    let deps : List String =
      dependency_complaints (known_ids g.generated_tasks []) g.dependencies in
    let (no_others, no_deps) =
      append-nil (graph_complaints g ++ tasks) deps
        (join-nil (graph_complaints g ++ tasks ++ deps) h) in
    let (quiet, no_tasks) = append-nil (graph_complaints g) tasks no_others in
    let fresh = task_complaints-Fresh g g.generated_tasks [] no_tasks in
    (
      Fresh-Distinct g.generated_tasks [] fresh,
      dependency_complaints-Joins g.generated_tasks g.dependencies fresh no_deps,
    )
