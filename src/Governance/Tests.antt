-- ===== src/Governance/Tests.antt =====
-- The theorems on governance at a risky investment, a memory record and a report.
use personal_cfo_os.Base.{
  ◌≡◌, ◌≢◌, ◌↔◌, ◌⊎◌, inl, refl, true, false, ◌||◌, ◌&&◌, none, [], ◌∷◌, ◌≤◌, Has, if◌then◌else◌,
}
use personal_cfo_os.Base.Floats.{
  plus, less, at_least, float_equal, fifth, three_tenths, thirty_five_hundredths, seven_tenths,
}
use personal_cfo_os.Errors.{ok}
use personal_cfo_os.Governance.Types.{
  low, medium, high, ApprovalPolicy, PolicyDecision, AuditEvent, ActionRequest, invest_more,
  risk_high, Recommendation, FinancialWorldState, MemoryRecord, MemoryWritePolicy, episodic,
  semantic, procedural, policy_memory, redact, allow,
}
use personal_cfo_os.Governance.Rules.{
  rank, contains_lower, approval_rules_for_action, recommendation_risk_level, no_items,
}
use personal_cfo_os.Governance.Rules.Denials.{outcome_of, some_rule_asks}
use personal_cfo_os.Governance.Engine.{
  validate_request, validate_approval, validate_tool, policy_ruling, action_decision,
  evaluate_action, validate_record, validate_write_policy, evaluate_report,
}
use personal_cfo_os.Governance.Engine.Actions.{
  policy_asks, is_denied, Audits, evaluate_action-outcome,
}
use personal_cfo_os.Governance.Engine.Memory.{IsWritable}
use personal_cfo_os.Governance.Service.{
  ApprovalService, ApprovalEvaluationInput, ApprovalEvaluation, classify, merge_level, invests,
  merge_recommendation_risk, approval_policy_of, report_policy_of, assessed, action_request, forced,
  evaluate, evaluate_disclosure, allow_write, by_debt, by_risk, by_action, by_behavior,
  with_baseline,
}
use personal_cfo_os.Governance.Service.Risk.{
  is_pressing, is_elevated, is_volatile, merge_level_lem, classify_level,
}
use personal_cfo_os.Governance.Service.Verdict.{verdict, evaluate-verdict, evaluate-high}
use personal_cfo_os.Governance.Service.Gates.{
  asks_nothing, allow_write_iff, evaluate_disclosure-redact,
}

abbrev invest : Recommendation
invest = record {
  id = "recommendation-1";
  kind = invest_more;
  title = "Invest";
  detail = "";
  risk_level = risk_high;
  grounding_refs = [];
  metric_refs = [];
  evidence_refs = [];
  memory_refs = [];
  caveats = "markets fall" ∷ [];
  approval_required = false;
  approval_reason = "";
  policy_rule_refs = [];
  metadata = [];
}

abbrev calm : FinancialWorldState
calm = record {
  debt_burden_ratio = plus 0;
  minimum_payment_pressure = plus 0;
  overall_risk = "low";
  late_night_spending_frequency = plus 0;
}

merge_level_lem_example :
    (rank medium ≤ rank (merge_level medium (invest ∷ [])))
    × ((x : Recommendation)
        → Has x (invest ∷ [])
        → rank (recommendation_risk_level x.risk_level) ≤ rank (merge_level medium (invest ∷ [])))
    × ((merge_level medium (invest ∷ []) ≡ medium)
        ⊎ ((x : Recommendation) × Has x (invest ∷ [])
            × (merge_level medium (invest ∷ []) ≡ recommendation_risk_level x.risk_level)))
merge_level_lem_example = merge_level_lem medium (invest ∷ [])

classify_level_example :
    ((classify calm "invest_more").level ≡ (
      if is_pressing calm
        || (is_elevated calm
            && (contains_lower "invest_more" "invest" || contains_lower "invest_more" "stock"))
      then high
      else if is_elevated calm
          || (contains_lower "invest_more" "invest" || contains_lower "invest_more" "stock")
          || is_volatile calm
      then medium
      else low))
    × (no_items (classify calm "invest_more").reasons ≡ false)
classify_level_example = classify_level calm "invest_more"

abbrev request : ActionRequest
request = record {
  actor = "planner";
  actor_roles = [];
  action = "invest";
  resource = "portfolio";
  risk_level = high;
  recommendations = invest ∷ [];
  risk_flags = [];
  approval_required = false;
  approval_reason = "";
  policy_rule_refs = [];
  disclosure_ready = true;
  correlation_id = "workflow-1";
}

abbrev lenient : ApprovalPolicy
lenient = record {
  name = "lenient";
  min_risk_level = high;
  required_roles = [];
  auto_approve = true;
}

evaluate_action-outcome_example :
    ((action_decision 10 request lenient
        (policy_ruling request lenient (approval_rules_for_action request none))).0.outcome
      ≡ outcome_of
          (is_denied request none)
          (some_rule_asks request none || policy_asks request lenient))
    × Audits request
        (action_decision 10 request lenient
          (policy_ruling request lenient (approval_rules_for_action request none))).0
        (action_decision 10 request lenient
          (policy_ruling request lenient (approval_rules_for_action request none))).1
unfolding evaluate_action validate_request validate_approval validate_tool
evaluate_action-outcome_example =
    evaluate_action-outcome 10 request lenient none
      (action_decision 10 request lenient
        (policy_ruling request lenient (approval_rules_for_action request none))).0
      (action_decision 10 request lenient
        (policy_ruling request lenient (approval_rules_for_action request none))).1
      refl

abbrev service : ApprovalService
service = record {
  approval_policy = record {
    name = "";
    min_risk_level = low;
    required_roles = [];
    auto_approve = true;
  };
  tool_policy = none;
  report_policy = record { audience = ""; allow_pii = true; redacted_fields = [] };
}

abbrev input : ApprovalEvaluationInput
input = record {
  current_state = calm;
  workflow_id = "workflow-1";
  action = "rebalance";
  resource = "portfolio";
  actor = "planner";
  actor_roles = [];
  force_approval = false;
  recommendations = invest ∷ [];
  risk_flags = [];
  approval_required = false;
  approval_reason = "";
  policy_rule_refs = [];
  disclosure_ready = true;
}

-- The service's answer on that input.
abbrev answer : PolicyDecision × AuditEvent
answer = action_decision 10 (action_request input) (approval_policy_of service) (
    policy_ruling (action_request input) (approval_policy_of service)
      (approval_rules_for_action (action_request input) none))

abbrev evaluated : ApprovalEvaluation
evaluated = forced input answer.0 answer.1

evaluate_answer : evaluate 10 service input ≡ ok evaluated
unfolding evaluate evaluate_action validate_request validate_approval validate_tool action_request
    approval_policy_of assessed merge_recommendation_risk merge_level classify by_debt by_risk
    by_action by_behavior with_baseline invests contains_lower at_least less float_equal fifth
    three_tenths thirty_five_hundredths
evaluate_answer = refl

evaluate-verdict_example :
    (evaluated.decision.outcome ≡ verdict service input)
    × Audits (action_request input) evaluated.decision evaluated.audit
evaluate-verdict_example = evaluate-verdict 10 service input evaluated evaluate_answer

evaluate-high_example : evaluated.decision.outcome ≢ allow
evaluate-high_example =
    evaluate-high 10 service input evaluated invest refl (inl refl) refl evaluate_answer

abbrev no_policy : MemoryWritePolicy
no_policy = record { min_confidence = plus 0; require_evidence = false; allow_kinds = [] }

abbrev memory : MemoryRecord
memory = record {
  id = "memory-1";
  kind = episodic;
  summary = "rent rose";
  facts = record { key = "rent"; value = "1200"; evidence_id = "" } ∷ [];
  source = record {
    evidence_ids = [];
    task_id = "task-1";
    workflow_id = "";
    trace_id = "";
    actor = "memory-agent";
  };
  confidence = record { score = seven_tenths; rationale = "read from the contract" };
  created_at = 1;
  updated_at = 2;
  supersedes = [];
  conflicts = [];
}

allow_write_iff_example : (allow_write 10 no_policy "" "memory-gate-10" memory ≡ none) ↔ (
    (validate_record memory ≡ none)
    × (((asks_nothing no_policy ≡ true)
          × (less memory.confidence.score seven_tenths ≡ false)
          × Has memory.kind (episodic ∷ semantic ∷ procedural ∷ policy_memory ∷ []))
        ⊎ ((asks_nothing no_policy ≡ false)
            × (validate_write_policy no_policy ≡ none)
            × IsWritable memory no_policy)))
allow_write_iff_example = allow_write_iff 10 no_policy "" "memory-gate-10" memory

evaluate_disclosure-redact_example : (redact ≡ redact) × (redact ≡ redact)
unfolding evaluate_disclosure evaluate_report report_policy_of
evaluate_disclosure-redact_example =
    evaluate_disclosure-redact 10 service "workflow-1" "planner" "user" true
      (record {
        outcome = redact;
        reason = "report disclosure requires redaction";
        applied_policy = "report_disclosure_policy";
        policy_rule_refs = [];
        evaluated_at = 10;
        audit_ref = "workflow-1";
      })
      (record {
        id = "workflow-1-report";
        actor = "planner";
        action = "report_disclosure";
        resource = "user";
        outcome = redact;
        reason = "report disclosure requires redaction";
        policy_rule_refs = [];
        occurred_at = 10;
        correlation_id = "workflow-1";
      })
      refl
