-- ===== src/Governance/Service/Verdict.antt =====
-- The service's verdict on an action, forced approvals included.
use personal_cfo_os.Base.{
  ℕ, ◌≡◌, ◌≢◌, refl, sym, subst, ◌∙◌, Bool, true, ◌&&◌, ◌||◌, arith, Has, Bool-cases, inl, inr,
  is_empty,
}
use personal_cfo_os.Errors.{ok, >>=-ok}
use personal_cfo_os.Governance.Types.{
  high, PolicyDecision, AuditEvent, PolicyDecisionOutcome, allow, Recommendation, ActionRequest,
}
use personal_cfo_os.Governance.Rules.{reaches, is_allow, recommendation_risk_level}
use personal_cfo_os.Governance.Rules.Denials.{outcome_of, some_rule_asks}
use personal_cfo_os.Governance.Engine.{evaluate_action}
use personal_cfo_os.Governance.Engine.Actions.{
  policy_asks, is_denied, Audits, evaluate_action-outcome,
}
use personal_cfo_os.Governance.Service.{
  ApprovalService, ApprovalEvaluationInput, ApprovalEvaluation, approval_policy_of, assessed,
  action_request, forced, evaluate, classify, merge_recommendation_risk,
}
use personal_cfo_os.Governance.Service.Risk.{merge_level_lem}

-- The verdict that the tests on the input give.
abbrev pub verdict : ApprovalService → ApprovalEvaluationInput → PolicyDecisionOutcome
verdict s input =
    let request = action_request input in
    outcome_of (is_denied request s.tool_policy) (
      (some_rule_asks request s.tool_policy || policy_asks request (approval_policy_of s))
      || input.force_approval)

forced-outcome :
    (input : ApprovalEvaluationInput) (d : PolicyDecision) (a : AuditEvent)
    (request : ActionRequest) (denied asked : Bool)
    → d.outcome ≡ outcome_of denied asked
    → Audits request d a
    → ((forced input d a).decision.outcome ≡ outcome_of denied (asked || input.force_approval))
      × Audits request (forced input d a).decision (forced input d a).audit
unfolding forced
forced-outcome input d a request denied asked e au =
    elim (Bool-cases (input.force_approval && is_allow d.outcome)) [
      | inl f ↦ rw f (
        ground arith,
        record {
          same_outcome = refl;
          same_reason = refl;
          same_refs = au.same_refs;
          same_correlation = au.same_correlation;
          same_actor = au.same_actor;
          distinct_refs = au.distinct_refs;
        },
      )
      | inr f ↦ rw f (ground arith, au)
    ]

-- The service denies an action if the actor's roles or the recommendations' caveats are missing, asks
-- for approval if a rule, the approval policy or the caller asks, and allows it otherwise; the audit
-- event agrees with the decision, forced or not.
pub evaluate-verdict :
    (now : ℕ) (s : ApprovalService) (input : ApprovalEvaluationInput) (v : ApprovalEvaluation)
    → evaluate now s input ≡ ok v
    → (v.decision.outcome ≡ verdict s input) × Audits (action_request input) v.decision v.audit
unfolding evaluate
evaluate-verdict now s input v h =
    let ((d, a), evaluated, last) =
      >>=-ok (evaluate_action now (action_request input) (approval_policy_of s) s.tool_policy) _ v
        h in
    let (outcome, audits) =
      evaluate_action-outcome now (action_request input) (approval_policy_of s) s.tool_policy d a
        evaluated in
    let same : forced input d a ≡ v = cc in
    subst
      (λ w.
        (w.decision.outcome ≡ verdict s input) × Audits (action_request input) w.decision w.audit)
      same
      (forced-outcome input d a (action_request input)
        (is_denied (action_request input) s.tool_policy)
        (some_rule_asks (action_request input) s.tool_policy
          || policy_asks (action_request input) (approval_policy_of s))
        outcome audits)

request_level :
    (input : ApprovalEvaluationInput) (x : Recommendation)
    → Has x input.recommendations
    → reaches (recommendation_risk_level x.risk_level) high ≡ true
    → reaches (action_request input).risk_level high ≡ true
unfolding action_request assessed merge_recommendation_risk
request_level input x m e =
    let (lo, all, from) =
      merge_level_lem (classify input.current_state input.action).level input.recommendations in
    ground (arith, all x m)

default_asks :
    (s : ApprovalService) (request : ActionRequest)
    → is_empty s.approval_policy.name ≡ true
    → reaches request.risk_level high ≡ true
    → policy_asks request (approval_policy_of s) ≡ true
unfolding approval_policy_of
default_asks s request unnamed e = rw unnamed (ground arith)

outcome_of_asked : (denied a b c : Bool) → b ≡ true → outcome_of denied ((a || b) || c) ≢ allow
outcome_of_asked denied a b c e = ground arith

-- Where no approval policy is configured, an action with a recommendation of high or critical risk is
-- never allowed without approval.
pub evaluate-high :
    (now : ℕ) (s : ApprovalService) (input : ApprovalEvaluationInput) (v : ApprovalEvaluation)
    (x : Recommendation)
    → is_empty s.approval_policy.name ≡ true
    → Has x input.recommendations
    → reaches (recommendation_risk_level x.risk_level) high ≡ true
    → evaluate now s input ≡ ok v
    → v.decision.outcome ≢ allow
evaluate-high now s input v x unnamed there e h allowed =
    let request = action_request input in
    outcome_of_asked (is_denied request s.tool_policy) (some_rule_asks request s.tool_policy)
      (policy_asks request (approval_policy_of s)) input.force_approval
      (default_asks s request unnamed (request_level input x there e))
      (sym (evaluate-verdict now s input v h).0 ∙ allowed)
