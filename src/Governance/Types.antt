-- ===== src/Governance/Types.antt =====
-- internal/governance/types.go, risk_taxonomy.go and phase2.go (its assessment), with the types of
-- internal/analysis, internal/memory and internal/state that governance reads. The financial state
-- has the fields that the risk classifier reads; a memory record leaves out its relations.
use personal_cfo_os.Base.{ℕ, String, Bool, List}
use personal_cfo_os.Base.Floats.{Float64}

pub data ActionRiskLevel : Type 0 where
  low medium high critical : ActionRiskLevel
  other_risk : String → ActionRiskLevel

pub record ApprovalPolicy : Type 0 where
  pub name : String
  pub min_risk_level : ActionRiskLevel
  pub required_roles : List String
  pub auto_approve : Bool

pub record ToolExecutionPolicy : Type 0 where
  pub tool_name : String
  pub allowed_roles : List String
  pub egress_allowlist : List String
  pub max_calls_per_task : ℕ
  pub requires_approval_above : ActionRiskLevel

pub data MemoryKind : Type 0 where
  episodic semantic procedural policy_memory : MemoryKind
  other_kind : String → MemoryKind

pub record MemoryWritePolicy : Type 0 where
  pub min_confidence : Float64
  pub require_evidence : Bool
  pub allow_kinds : List MemoryKind

pub record ReportDisclosurePolicy : Type 0 where
  pub audience : String
  pub allow_pii : Bool
  pub redacted_fields : List String

pub data PolicyDecisionOutcome : Type 0 where
  allow deny require_approval redact escalate : PolicyDecisionOutcome

pub record PolicyDecision : Type 0 where
  pub outcome : PolicyDecisionOutcome
  pub reason : String
  pub applied_policy : String
  pub policy_rule_refs : List String
  pub evaluated_at : ℕ
  pub audit_ref : String

pub record AuditEvent : Type 0 where
  pub id : String
  pub actor : String
  pub action : String
  pub resource : String
  pub outcome : PolicyDecisionOutcome
  pub reason : String
  pub policy_rule_refs : List String
  pub occurred_at : ℕ
  pub correlation_id : String

pub data RecommendationType : Type 0 where
  cashflow_adjustment expense_reduction debt_paydown debt_restructure : RecommendationType
  invest_more portfolio_rebalance tax_action behavior_subscription_cleanup : RecommendationType
  behavior_spend_nudge behavior_guardrail : RecommendationType
  other_recommendation : String → RecommendationType

-- `taskspec.RiskLevel`
pub data RiskLevel : Type 0 where
  risk_unknown risk_low risk_medium risk_high risk_critical : RiskLevel
  other_level : String → RiskLevel

pub record Recommendation : Type 0 where
  pub id : String
  pub kind : RecommendationType
  pub title : String
  pub detail : String
  pub risk_level : RiskLevel
  pub grounding_refs : List String
  pub metric_refs : List String
  pub evidence_refs : List String
  pub memory_refs : List String
  pub caveats : List String
  pub approval_required : Bool
  pub approval_reason : String
  pub policy_rule_refs : List String
  pub metadata : List (String × String)

pub record RiskFlag : Type 0 where
  pub code : String
  pub severity : String
  pub detail : String
  pub evidence_ids : List String
  pub metric_refs : List String
  pub memory_refs : List String
  pub caveats : List String
  pub policy_rule_refs : List String

pub record ActionRequest : Type 0 where
  pub actor : String
  pub actor_roles : List String
  pub action : String
  pub resource : String
  pub risk_level : ActionRiskLevel
  pub recommendations : List Recommendation
  pub risk_flags : List RiskFlag
  pub approval_required : Bool
  pub approval_reason : String
  pub policy_rule_refs : List String
  pub disclosure_ready : Bool
  pub correlation_id : String

pub record ReportRequest : Type 0 where
  pub actor : String
  pub audience : String
  pub contains_pii : Bool
  pub correlation_id : String

pub record RiskAssessment : Type 0 where
  pub level : ActionRiskLevel
  pub reasons : List String

-- The fields of `state.FinancialWorldState` that `Classify` reads.
pub record FinancialWorldState : Type 0 where
  pub debt_burden_ratio : Float64
  pub minimum_payment_pressure : Float64
  pub overall_risk : String
  pub late_night_spending_frequency : Float64

pub record MemoryFact : Type 0 where
  pub key : String
  pub value : String
  pub evidence_id : String

pub record MemorySource : Type 0 where
  pub evidence_ids : List String
  pub task_id : String
  pub workflow_id : String
  pub trace_id : String
  pub actor : String

pub record MemoryConfidence : Type 0 where
  pub score : Float64
  pub rationale : String

-- `SupersedesRef` and `ConflictRef`
pub record MemoryRef : Type 0 where
  pub memory_id : String
  pub reason : String

pub record MemoryRecord : Type 0 where
  pub id : String
  pub kind : MemoryKind
  pub summary : String
  pub facts : List MemoryFact
  pub source : MemorySource
  pub confidence : MemoryConfidence
  pub created_at : ℕ
  pub updated_at : ℕ
  pub supersedes : List MemoryRef
  pub conflicts : List MemoryRef
