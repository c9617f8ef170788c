-- ===== src/Governance/Service.antt =====
-- internal/governance/phase2.go and approval_service.go: the risk classifier, the approval service and
-- the gate on memory writes, with the default engine, decider and classifier in place.
pub mod Risk
pub mod Verdict
pub mod Gates
use personal_cfo_os.Base.{
  ℕ, String, Bool, true, false, ◌&&◌, ◌||◌, not, Option, none, some, List, [], ◌∷◌, ◌++◌, ◌==◌,
  string_eq, if◌then◌else◌, is_empty,
}
use personal_cfo_os.Base.Floats.{
  Float64, less, at_least, float_equal, float_zero, fifth, three_tenths, thirty_five_hundredths,
  seven_tenths,
}
use personal_cfo_os.Errors.{Result, ok, err, RuntimeError, failure, ◌>>=◌}
use personal_cfo_os.Governance.Types.{
  ActionRiskLevel, low, medium, high, critical, other_risk, ApprovalPolicy, ToolExecutionPolicy,
  MemoryKind, episodic, semantic, procedural, policy_memory, MemoryWritePolicy,
  ReportDisclosurePolicy, PolicyDecision, AuditEvent, require_approval, Recommendation, RiskFlag,
  ActionRequest, ReportRequest, RiskAssessment, FinancialWorldState, MemoryRecord,
}
use personal_cfo_os.Governance.Rules.{
  is_allow, no_items, exceeds, recommendation_risk_level, unique_strings, contains_lower,
}
use personal_cfo_os.Governance.Engine.{evaluate_action, evaluate_memory_write, evaluate_report}

abbrev pub is_low : ActionRiskLevel → Bool
is_low low = true
is_low _ = false

-- `reasons = append(reasons, reason)` and `level = next`
abbrev pub raised : ActionRiskLevel → String → RiskAssessment → RiskAssessment
raised next reason r = record { level = next; reasons = r.reasons ++ (reason ∷ []) }

unfoldable pub by_debt : FinancialWorldState → RiskAssessment
by_debt current =
    if at_least current.debt_burden_ratio thirty_five_hundredths
      || at_least current.minimum_payment_pressure fifth
    then record { level = high; reasons = "debt pressure is high" ∷ [] }
    else if at_least current.debt_burden_ratio fifth
    then record { level = medium; reasons = "debt burden is elevated" ∷ [] }
    else record { level = low; reasons = [] }

unfoldable pub by_risk : FinancialWorldState → RiskAssessment → RiskAssessment
by_risk current r =
    if current.overall_risk == "high"
    then raised high "overall financial risk is high" r
    else if (current.overall_risk == "medium") && is_low r.level
    then raised medium "overall financial risk is medium" r
    else r

abbrev pub one_up : ActionRiskLevel → ActionRiskLevel
one_up medium = high
one_up low = medium
one_up level = level

unfoldable pub invests : String → Bool
invests action = contains_lower action "invest" || contains_lower action "stock"

unfoldable pub by_action : String → RiskAssessment → RiskAssessment
unfolding invests
by_action action r =
    if invests action
    then raised (one_up r.level) "investment actions carry higher execution risk" r
    else r

unfoldable pub by_behavior : FinancialWorldState → RiskAssessment → RiskAssessment
by_behavior current r =
    if at_least current.late_night_spending_frequency three_tenths && is_low r.level
    then raised medium "behavior signal indicates spending volatility" r
    else r

unfoldable pub with_baseline : RiskAssessment → RiskAssessment
with_baseline r =
    if no_items r.reasons then record r { reasons = "risk baseline is low" ∷ [] } else r

unfoldable pub classify : FinancialWorldState → String → RiskAssessment
classify current action =
    with_baseline (by_behavior current (by_action action (by_risk current (by_debt current))))

unfoldable pub merge_level : ActionRiskLevel → List Recommendation → ActionRiskLevel
merge_level level [] = level
merge_level level (x ∷ xs) =
    let mapped = recommendation_risk_level x.risk_level in
    merge_level (if exceeds mapped level then mapped else level) xs

unfoldable pub merge_recommendation_risk : RiskAssessment → List Recommendation → RiskAssessment
merge_recommendation_risk base recommendations = record {
  level = merge_level base.level recommendations;
  reasons = unique_strings (
      if no_items recommendations
      then base.reasons
      else base.reasons ++ ("recommendation contract supplied explicit risk semantics" ∷ []));
}

pub record ApprovalEvaluationInput : Type 0 where
  pub current_state : FinancialWorldState
  pub workflow_id : String
  pub action : String
  pub resource : String
  pub actor : String
  pub actor_roles : List String
  pub force_approval : Bool
  pub recommendations : List Recommendation
  pub risk_flags : List RiskFlag
  pub approval_required : Bool
  pub approval_reason : String
  pub policy_rule_refs : List String
  pub disclosure_ready : Bool

pub record ApprovalEvaluation : Type 0 where
  pub risk_assessment : RiskAssessment
  pub decision : PolicyDecision
  pub audit : AuditEvent

pub record ApprovalService : Type 0 where
  pub approval_policy : ApprovalPolicy
  pub tool_policy : Option ToolExecutionPolicy
  pub report_policy : ReportDisclosurePolicy

unfoldable pub approval_policy_of : ApprovalService → ApprovalPolicy
approval_policy_of s = if not (is_empty s.approval_policy.name) then s.approval_policy else record {
  name = "default-approval-policy";
  min_risk_level = high;
  required_roles = "operator" ∷ [];
  auto_approve = false;
}

unfoldable pub report_policy_of : ApprovalService → ReportDisclosurePolicy
report_policy_of s =
    if not (is_empty s.report_policy.audience)
    then s.report_policy
    else record { audience = "user"; allow_pii = false; redacted_fields = [] }

unfoldable pub assessed : ApprovalEvaluationInput → RiskAssessment
assessed input =
    merge_recommendation_risk (classify input.current_state input.action) input.recommendations

unfoldable pub action_request : ApprovalEvaluationInput → ActionRequest
action_request input = record {
  actor = input.actor;
  actor_roles = input.actor_roles;
  action = input.action;
  resource = input.resource;
  risk_level = (assessed input).level;
  recommendations = input.recommendations;
  risk_flags = input.risk_flags;
  approval_required = input.approval_required;
  approval_reason = input.approval_reason;
  policy_rule_refs = input.policy_rule_refs;
  disclosure_ready = input.disclosure_ready;
  correlation_id = input.workflow_id;
}

abbrev pub forced_reason : String
forced_reason = "workflow risk assessment explicitly flagged approval"

unfoldable pub forced : ApprovalEvaluationInput → PolicyDecision → AuditEvent → ApprovalEvaluation
forced input decision audit =
    if input.force_approval && is_allow decision.outcome
    then record {
      risk_assessment = assessed input;
      decision = record decision { outcome = require_approval; reason = forced_reason };
      audit = record audit { outcome = require_approval; reason = forced_reason };
    }
    else record { risk_assessment = assessed input; decision = decision; audit = audit }

-- `ApprovalService.EvaluateAction`
unfoldable pub evaluate : ℕ → ApprovalService → ApprovalEvaluationInput → Result ApprovalEvaluation
evaluate now s input = do
  (decision, audit) ←
      evaluate_action now (action_request input) (approval_policy_of s) s.tool_policy
  ok (forced input decision audit)

-- `ApprovalService.EvaluateReport`
unfoldable pub evaluate_disclosure :
    ℕ → ApprovalService → String → String → String → Bool → Result (PolicyDecision × AuditEvent)
evaluate_disclosure now s workflow_id actor audience contains_pii =
    evaluate_report now
      (record {
        actor = actor;
        audience = audience;
        contains_pii = contains_pii;
        correlation_id = workflow_id;
      })
      (report_policy_of s)

unfoldable pub write_policy_of : MemoryWritePolicy → MemoryWritePolicy
write_policy_of p =
    if float_equal p.min_confidence float_zero && (not p.require_evidence && no_items p.allow_kinds)
    then record {
      min_confidence = seven_tenths;
      require_evidence = false;
      allow_kinds = episodic ∷ semantic ∷ procedural ∷ policy_memory ∷ [];
    }
    else p

-- `MemoryWriteGateService.AllowWrite`; `made` is the identifier made of the clock.
unfoldable pub allow_write :
    ℕ → MemoryWritePolicy → String → String → MemoryRecord → Option RuntimeError
allow_write now p correlation_id made r =
    elim (evaluate_memory_write now r (write_policy_of p)
      (if is_empty correlation_id then made else correlation_id)) [
        | ok (decision, audit) ↦
            if is_allow decision.outcome then none else some (failure decision.reason)
        | err e ↦ some e
      ]
