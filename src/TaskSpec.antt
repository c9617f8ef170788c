-- ===== src/TaskSpec.antt =====
-- internal/taskspec: types.go, generated.go, task_graph.go and the validation of validation.go. The
-- message of an error that formats a value is its format, and a wrapped error is its own message.
pub mod Valid
use personal_cfo_os.Base.{
  ℕ, String, Bool, true, false, ◌||◌, not, Option, none, some, List, [], ◌∷◌, ◌++◌, ltb, ◌==◌,
  nat_eq, string_eq, if◌then◌else◌, is_empty, signed_lt,
}
use personal_cfo_os.Errors.{RuntimeError, failure}
use personal_cfo_os.Governance.Types.{RiskLevel, other_level}
use personal_cfo_os.Governance.Rules.{is_blank, no_items, among}
use personal_cfo_os.Governance.Engine.{complaint, join}

pub data ApprovalRequirement : Type 0 where
  no_requirement notify recommended mandatory_approval : ApprovalRequirement
  other_requirement : String → ApprovalRequirement

pub data UserIntentType : Type 0 where
  unknown_intent monthly_review debt_vs_invest behavior_intervention : UserIntentType
  life_event_trigger tax_optimization rebalance_portfolio : UserIntentType
  other_intent : String → UserIntentType

pub record TaskScope : Type 0 where
  pub areas : List String
  pub start : Option ℕ
  pub end : Option ℕ
  pub notes : List String

pub record ConstraintSet : Type 0 where
  pub hard : List String
  pub soft : List String

pub record SuccessCriteria : Type 0 where
  pub id : String
  pub description : String

pub record RequiredEvidenceRef : Type 0 where
  pub kind : String
  pub reason : String
  pub mandatory : Bool

pub record TaskSpec : Type 0 where
  pub id : String
  pub goal : String
  pub scope : TaskScope
  pub constraints : ConstraintSet
  pub risk_level : RiskLevel
  pub success_criteria : List SuccessCriteria
  pub required_evidence : List RequiredEvidenceRef
  pub approval_requirement : ApprovalRequirement
  pub deadline : Option ℕ
  pub user_intent_type : UserIntentType
  pub created_at : ℕ

pub data TaskTriggerSource : Type 0 where
  life_event state_diff memory_source calendar_deadline policy_hint : TaskTriggerSource
  other_source : String → TaskTriggerSource

pub data TaskPriority : Type 0 where
  priority_low priority_medium priority_high priority_critical : TaskPriority
  other_priority : String → TaskPriority

pub record TaskDueWindow : Type 0 where
  pub not_before : Option ℕ
  pub not_after : Option ℕ

pub record TaskGenerationReason : Type 0 where
  pub code : String
  pub description : String
  pub life_event_id : String
  pub life_event_kind : String
  pub evidence_ids : List String
  pub memory_ids : List String
  pub state_diff_fields : List String
  pub deadline_evidence : List String

-- `execution_depth` is an int, by its bit pattern.
pub record GeneratedTaskMetadata : Type 0 where
  pub generated_at : ℕ
  pub parent_workflow_id : String
  pub parent_task_id : String
  pub root_correlation_id : String
  pub trigger_source : TaskTriggerSource
  pub priority : TaskPriority
  pub due_window : TaskDueWindow
  pub requires_approval : Bool
  pub execution_depth : ℕ
  pub generation_reasons : List TaskGenerationReason

pub record GeneratedTaskSpec : Type 0 where
  pub task : TaskSpec
  pub metadata : GeneratedTaskMetadata

pub record TaskDependency : Type 0 where
  pub upstream_task_id : String
  pub downstream_task_id : String
  pub reason : String
  pub mandatory : Bool

pub record TaskGraph : Type 0 where
  pub graph_id : String
  pub parent_workflow_id : String
  pub parent_task_id : String
  pub trigger_source : TaskTriggerSource
  pub generated_at : ℕ
  pub generated_tasks : List GeneratedTaskSpec
  pub dependencies : List TaskDependency
  pub suppression_notes : List String
  pub generation_summary : String

abbrev pub valid_risk_level : RiskLevel → Bool
valid_risk_level (other_level text) = false
valid_risk_level _ = true

abbrev pub valid_approval_requirement : ApprovalRequirement → Bool
valid_approval_requirement (other_requirement text) = false
valid_approval_requirement _ = true

abbrev pub valid_user_intent_type : UserIntentType → Bool
valid_user_intent_type (other_intent text) = false
valid_user_intent_type _ = true

abbrev pub valid_task_priority : TaskPriority → Bool
valid_task_priority (other_priority text) = false
valid_task_priority _ = true

abbrev pub valid_task_trigger_source : TaskTriggerSource → Bool
valid_task_trigger_source (other_source text) = false
valid_task_trigger_source _ = true

-- `a != nil && b != nil && a.After(*b)`
abbrev pub after_both : Option ℕ → Option ℕ → Bool
after_both (some a) (some b) = ltb b a
after_both _ _ = false

abbrev pub criteria_complaints : List SuccessCriteria → List String
criteria_complaints [] = []
criteria_complaints (criteria ∷ rest) =
    complaint (is_blank criteria.id) "success criteria %d must have an id"
    ++ complaint (is_blank criteria.description) "success criteria %d must have a description"
    ++ criteria_complaints rest

abbrev pub evidence_complaints : List RequiredEvidenceRef → List String
evidence_complaints [] = []
evidence_complaints (requirement ∷ rest) =
    complaint (is_blank requirement.kind) "required evidence %d must have a type"
    ++ complaint (is_blank requirement.reason) "required evidence %d must have a reason"
    ++ evidence_complaints rest

unfoldable pub validate_task : TaskSpec → Option RuntimeError
validate_task t = join (
    complaint (is_blank t.id) "task spec id is required"
    ++ complaint (is_blank t.goal) "task spec goal is required"
    ++ complaint (no_items t.success_criteria) "at least one success criteria is required"
    ++ complaint (not (valid_risk_level t.risk_level)) "invalid risk level %q"
    ++ complaint (not (valid_approval_requirement t.approval_requirement))
        "invalid approval requirement %q"
    ++ complaint (not (valid_user_intent_type t.user_intent_type)) "invalid user intent type %q"
    ++ complaint (after_both t.scope.start t.scope.end) "task scope start must be before end"
    ++ criteria_complaints t.success_criteria
    ++ evidence_complaints t.required_evidence)

unfoldable pub validate_metadata : GeneratedTaskMetadata → Option RuntimeError
validate_metadata m =
    if m.generated_at == 0
    then some (failure "generated task metadata generated_at is required")
    else if is_empty m.parent_workflow_id
    then some (failure "generated task metadata parent_workflow_id is required")
    else if is_empty m.parent_task_id
    then some (failure "generated task metadata parent_task_id is required")
    else if not (valid_task_trigger_source m.trigger_source)
    then some (failure "generated task metadata trigger_source is required")
    else if not (valid_task_priority m.priority)
    then some (failure "generated task metadata priority is invalid")
    else if signed_lt m.execution_depth 0
    then some (failure "generated task metadata execution_depth cannot be negative")
    else if after_both m.due_window.not_before m.due_window.not_after
    then some (failure "generated task metadata due_window not_before must be before not_after")
    else none

unfoldable pub validate_generated : GeneratedTaskSpec → Option RuntimeError
validate_generated g = elim (validate_task g.task) [
  | some e ↦ some e
  | none ↦ validate_metadata g.metadata
]

-- The identifiers that the loop over the generated tasks has put in its set, in reverse.
unfoldable pub known_ids : List GeneratedTaskSpec → List String → List String
known_ids [] ids = ids
known_ids (g ∷ rest) ids = elim (validate_generated g) [
  | some e ↦ known_ids rest ids
  | none ↦ known_ids rest (if among g.task.id ids then ids else g.task.id ∷ ids)
]

unfoldable pub task_complaints : TaskGraph → List GeneratedTaskSpec → List String → List String
task_complaints graph [] ids = []
task_complaints graph (g ∷ rest) ids = elim (validate_generated g) [
  | some e ↦ "generated task %d invalid: %w" ∷ task_complaints graph rest ids
  | none ↦
      complaint (not (g.metadata.parent_workflow_id == graph.parent_workflow_id))
        "generated task %d parent_workflow_id mismatch"
      ++ complaint (not (g.metadata.parent_task_id == graph.parent_task_id))
          "generated task %d parent_task_id mismatch"
      ++ (if among g.task.id ids
          then "duplicate generated task id %q in task graph" ∷ task_complaints graph rest ids
          else task_complaints graph rest (g.task.id ∷ ids))
]

unfoldable pub dependency_complaints : List String → List TaskDependency → List String
dependency_complaints ids [] = []
dependency_complaints ids (dep ∷ rest) =
    (if is_blank dep.upstream_task_id || is_blank dep.downstream_task_id
      then "task dependency %d requires upstream and downstream ids" ∷ []
      else complaint (dep.upstream_task_id == dep.downstream_task_id)
          "task dependency %d cannot self-reference %q"
        ++ complaint (not (among dep.upstream_task_id ids))
            "task dependency %d references unknown upstream task %q"
        ++ complaint (not (among dep.downstream_task_id ids))
            "task dependency %d references unknown downstream task %q"
        ++ complaint (is_blank dep.reason) "task dependency %d requires a reason")
    ++ dependency_complaints ids rest

-- The complaints about the graph itself.
unfoldable pub graph_complaints : TaskGraph → List String
graph_complaints g =
    complaint (is_blank g.graph_id) "task graph graph_id is required"
    ++ complaint (is_blank g.parent_workflow_id) "task graph parent_workflow_id is required"
    ++ complaint (is_blank g.parent_task_id) "task graph parent_task_id is required"
    ++ complaint (not (valid_task_trigger_source g.trigger_source))
        "task graph trigger_source is required"
    ++ complaint (g.generated_at == 0) "task graph generated_at is required"
    ++ complaint (no_items g.generated_tasks) "task graph requires at least one generated task"

-- `TaskGraph.Validate`
unfoldable pub validate_graph : TaskGraph → Option RuntimeError
validate_graph g = join (
    graph_complaints g
    ++ task_complaints g g.generated_tasks []
    ++ dependency_complaints (known_ids g.generated_tasks []) g.dependencies)
