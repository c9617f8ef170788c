-- ===== src/Governance/Engine/Actions.antt =====
-- The decision on an action, and the audit event that goes with it.
use personal_cfo_os.Base.{
  ℕ, ◌≡◌, refl, subst, Bool, true, false, not, ◌&&◌, ◌||◌, Option, ◌++◌, arith,
}
use personal_cfo_os.Errors.{ok, unless-ok}
use personal_cfo_os.Governance.Types.{
  ApprovalPolicy, ToolExecutionPolicy, PolicyDecision, AuditEvent, ActionRequest,
}
use personal_cfo_os.Governance.Rules.{Ruling, reaches, approval_rules_for_action}
use personal_cfo_os.Governance.Rules.Unique.{Distinct, unique_strings_lem}
use personal_cfo_os.Governance.Rules.Denials.{
  lacks_role, any_lacks_disclosure, some_rule_asks, outcome_of, approval_rules_outcome,
}
use personal_cfo_os.Governance.Engine.{
  validate_request, validate_approval, validate_tool, policy_ruling, action_decision,
  evaluate_action,
}

-- The action's risk reaches the least level of the approval policy, which does not approve by itself.
abbrev pub policy_asks : ActionRequest → ApprovalPolicy → Bool
policy_asks request approval =
    reaches request.risk_level approval.min_risk_level && not approval.auto_approve

abbrev pub is_denied : ActionRequest → Option ToolExecutionPolicy → Bool
is_denied request tool =
    lacks_role request tool || any_lacks_disclosure request request.recommendations

policy_ruling-outcome :
    (request : ActionRequest) (approval : ApprovalPolicy) (r : Ruling) (denied asked : Bool)
    → r.outcome ≡ outcome_of denied asked
    → (policy_ruling request approval r).outcome
      ≡ outcome_of denied (asked || policy_asks request approval)
unfolding policy_ruling
policy_ruling-outcome request approval r true asked e = ground arith
policy_ruling-outcome request approval r false true e = ground arith
policy_ruling-outcome request approval r false false e = ground arith

-- The audit event records the decision.
pub record Audits (request : ActionRequest) (d : PolicyDecision) (a : AuditEvent) : Type 0 where
  pub same_outcome : a.outcome ≡ d.outcome
  pub same_reason : a.reason ≡ d.reason
  pub same_refs : a.policy_rule_refs ≡ d.policy_rule_refs
  pub same_correlation : a.correlation_id ≡ request.correlation_id
  pub same_actor : a.actor ≡ request.actor
  pub distinct_refs : Distinct d.policy_rule_refs

decision-Audits :
    (now : ℕ) (request : ActionRequest) (approval : ApprovalPolicy) (r : Ruling)
    → Audits request
        (action_decision now request approval r).0
        (action_decision now request approval r).1
unfolding action_decision
decision-Audits now request approval r = record {
  same_outcome = refl;
  same_reason = refl;
  same_refs = refl;
  same_correlation = refl;
  same_actor = refl;
  distinct_refs = (unique_strings_lem (request.policy_rule_refs ++ r.rule_refs)).0;
}

decision_outcome :
    (now : ℕ) (request : ActionRequest) (approval : ApprovalPolicy)
    (tool : Option ToolExecutionPolicy)
    → (action_decision now request approval
        (policy_ruling request approval (approval_rules_for_action request tool))).0.outcome
      ≡ outcome_of
          (is_denied request tool)
          (some_rule_asks request tool || policy_asks request approval)
unfolding action_decision
decision_outcome now request approval tool =
    policy_ruling-outcome request approval (approval_rules_for_action request tool)
      (is_denied request tool) (some_rule_asks request tool) (approval_rules_outcome request tool)

same_pair : (p q : PolicyDecision × AuditEvent) → ok p ≡ ok q → p ≡ q
same_pair p q h = cc

-- An action is evaluated if the request and the policies are valid. It is denied if the roles or the
-- caveats are missing, sent for approval if some rule or the approval policy asks, and allowed
-- otherwise; the audit event agrees.
pub evaluate_action-outcome :
    (now : ℕ) (request : ActionRequest) (approval : ApprovalPolicy)
    (tool : Option ToolExecutionPolicy) (d : PolicyDecision) (a : AuditEvent)
    → evaluate_action now request approval tool ≡ ok (d, a)
    → (d.outcome
        ≡ outcome_of
            (is_denied request tool)
            (some_rule_asks request tool || policy_asks request approval))
      × Audits request d a
unfolding evaluate_action
evaluate_action-outcome now request approval tool d a h =
    let (v, h') = unless-ok (validate_request request) _ (d, a) h in
    let (w, h'') = unless-ok (validate_approval approval) _ (d, a) h' in
    let (x, last) = unless-ok (validate_tool tool) _ (d, a) h'' in
    let made : Ruling = policy_ruling request approval (approval_rules_for_action request tool) in
    subst
      (λ q.
        (q.0.outcome
          ≡ outcome_of (is_denied request tool)
              (some_rule_asks request tool || policy_asks request approval))
        × Audits request q.0 q.1)
      (same_pair (action_decision now request approval made) (d, a) last)
      (decision_outcome now request approval tool, decision-Audits now request approval made)
