-- ===== src/Governance/Rules/Denials.antt =====
-- When the rules deny an action, and when they let it pass.
use personal_cfo_os.Base.{
  ◌≡◌, inl, inr, refl, Bool, true, false, not, ◌&&◌, ◌||◌, Option, none, some, List, [], ◌∷◌, arith,
  if◌then◌else◌, Bool-cases,
}
use personal_cfo_os.Governance.Types.{
  ToolExecutionPolicy, allow, deny, require_approval, RecommendationType, debt_restructure,
  PolicyDecisionOutcome, invest_more, portfolio_rebalance, tax_action, behavior_guardrail,
  Recommendation, ActionRequest, high,
}
use personal_cfo_os.Governance.Rules.{
  Ruling, switch_type, lacks_disclosure, review, tool_ruling, flagged, single_stock, reviewed,
  ruled, approval_rules_for_action, has_intersection, no_items, reaches, recommendation_risk_level,
  contains_lower, asks, by_default,
}

-- The actor has none of the roles that the tool asks for.
abbrev pub lacks_role : ActionRequest → Option ToolExecutionPolicy → Bool
lacks_role request none = false
lacks_role request (some tool) =
    not (no_items tool.allowed_roles)
    && not (has_intersection tool.allowed_roles request.actor_roles)

abbrev pub any_lacks_disclosure : ActionRequest → List Recommendation → Bool
any_lacks_disclosure request [] = false
any_lacks_disclosure request (x ∷ xs) =
    lacks_disclosure request x || any_lacks_disclosure request xs

-- The recommendation is of a kind that asks for approval, and does.
abbrev pub asks_kind : RecommendationType → Recommendation → Bool
asks_kind invest_more x = x.approval_required
asks_kind behavior_guardrail x = x.approval_required
asks_kind portfolio_rebalance x = reaches (recommendation_risk_level x.risk_level) high
asks_kind debt_restructure x = reaches (recommendation_risk_level x.risk_level) high
asks_kind tax_action x = reaches (recommendation_risk_level x.risk_level) high
asks_kind _ x = false

abbrev pub any_asks : List Recommendation → Bool
any_asks [] = false
any_asks (x ∷ xs) = asks_kind x.kind x || any_asks xs

abbrev pub tool_asks : ActionRequest → Option ToolExecutionPolicy → Bool
tool_asks request none = false
tool_asks request (some tool) = reaches request.risk_level tool.requires_approval_above

abbrev stock_asks : ActionRequest → Bool
stock_asks request = contains_lower request.action "single_stock" && reaches request.risk_level high

-- Some rule asks for approval.
abbrev pub some_rule_asks : ActionRequest → Option ToolExecutionPolicy → Bool
some_rule_asks request tool =
    tool_asks request tool
    || any_asks request.recommendations
    || request.approval_required
    || stock_asks request

-- The outcome of a request whose tests come out so.
abbrev pub outcome_of : Bool → Bool → PolicyDecisionOutcome
outcome_of denied asked = if denied then deny else if asked then require_approval else allow

switch_type-outcome :
    (k : RecommendationType) (x : Recommendation) (r : Ruling)
    → x.kind ≡ k
    → (switch_type k x r).outcome ≡ (if asks_kind k x then require_approval else r.outcome)
unfolding switch_type
switch_type-outcome invest_more x r e = ground arith
switch_type-outcome behavior_guardrail x r e = ground arith
switch_type-outcome portfolio_rebalance x r e = rw e (ground arith)
switch_type-outcome debt_restructure x r e = rw e (ground arith)
switch_type-outcome tax_action x r e = rw e (ground arith)
switch_type-outcome _ x r e = refl

-- What the loop answers, by the tests on the recommendations.
abbrev Reviewed : Bool → Bool → Ruling → Option Ruling → Type 0
Reviewed lacks asked r none = lacks ≡ true
Reviewed lacks asked r (some s) =
    (lacks ≡ false) × (s.outcome ≡ (if asked then require_approval else r.outcome))

Reviewed-cons :
    (l a lacks asked : Bool) (r s : Ruling) (o : Option Ruling)
    → s.outcome ≡ (if a then require_approval else r.outcome)
    → Reviewed lacks asked s o
    → Reviewed (l || lacks) (a || asked) r (if l then none else o)
Reviewed-cons l a lacks asked r s none e h = ground arith
Reviewed-cons l a lacks asked r s (some t) e h = ground arith

review-Reviewed :
    (request : ActionRequest) (xs : List Recommendation) (r : Ruling)
    → Reviewed (any_lacks_disclosure request xs) (any_asks xs) r (review request xs r)
unfolding review
review-Reviewed request [] r = (refl, refl)
review-Reviewed request (x ∷ xs) r =
    Reviewed-cons (lacks_disclosure request x) (asks_kind x.kind x)
      (any_lacks_disclosure request xs) (any_asks xs) r (switch_type x.kind x r)
      (review request xs (switch_type x.kind x r)) (switch_type-outcome x.kind x r refl)
      (review-Reviewed request xs (switch_type x.kind x r))

final_outcome :
    (request : ActionRequest) (r : Ruling) (asked : Bool)
    → r.outcome ≡ (if asked then require_approval else allow)
    → (single_stock request (flagged request r)).outcome
      ≡ outcome_of false (asked || request.approval_required || stock_asks request)
unfolding single_stock flagged
final_outcome request r true e = ground arith
final_outcome request r false e = ground arith

reviewed-outcome :
    (request : ActionRequest) (lacks first asked : Bool) (r : Ruling) (o : Option Ruling)
    → r.outcome ≡ (if first then require_approval else allow)
    → Reviewed lacks asked r o
    → (reviewed request o).outcome
      ≡ outcome_of lacks ((first || asked) || request.approval_required || stock_asks request)
unfolding reviewed
reviewed-outcome request lacks first asked r none e h = ground arith
reviewed-outcome request lacks first asked r (some s) e (found, eq) =
    rw found (final_outcome request s (first || asked) (ground arith))

-- A first ruling that no role stopped.
ruled-some :
    (request : ActionRequest) (first : Bool) (r : Ruling)
    → r.outcome ≡ (if first then require_approval else allow)
    → (ruled request (some r)).outcome
      ≡ outcome_of (any_lacks_disclosure request request.recommendations) (
          first
          || any_asks request.recommendations
          || request.approval_required
          || stock_asks request)
unfolding ruled
ruled-some request true r e =
    reviewed-outcome request (any_lacks_disclosure request request.recommendations) true
      (any_asks request.recommendations) r (review request request.recommendations r) e
      (review-Reviewed request request.recommendations r)
ruled-some request false r e =
    reviewed-outcome request (any_lacks_disclosure request request.recommendations) false
      (any_asks request.recommendations) r (review request request.recommendations r) e
      (review-Reviewed request request.recommendations r)

tool_ruling-none :
    (request : ActionRequest) (tool : Option ToolExecutionPolicy)
    → lacks_role request tool ≡ true
    → tool_ruling request tool ≡ none
unfolding tool_ruling
tool_ruling-none request none e = cc
tool_ruling-none request (some tool) e = ground arith

tool_ruling-some :
    (request : ActionRequest) (tool : Option ToolExecutionPolicy)
    → lacks_role request tool ≡ false
    → (r : Ruling) × (tool_ruling request tool ≡ some r)
      × (r.outcome ≡ (if tool_asks request tool then require_approval else allow))
unfolding tool_ruling
tool_ruling-some request none e = (by_default, refl, refl)
tool_ruling-some request (some tool) e = elim (Bool-cases (tool_asks request (some tool))) [
  | inl t ↦ (
    asks "tool execution policy requires approval" "approval.high_risk" by_default,
    ground arith,
    ground arith,
  )
  | inr t ↦ (by_default, ground arith, ground arith)
]

-- The outcome is a denial if the roles or the caveats are missing, else a request for approval if
-- some rule asks, else permission.
pub approval_rules_outcome :
    (request : ActionRequest) (tool : Option ToolExecutionPolicy)
    → (approval_rules_for_action request tool).outcome
      ≡ outcome_of
          (lacks_role request tool || any_lacks_disclosure request request.recommendations)
          (some_rule_asks request tool)
unfolding approval_rules_for_action ruled
approval_rules_outcome request tool = elim (Bool-cases (lacks_role request tool)) [
  | inl e ↦ rw e (rw (tool_ruling-none request tool e))
  | inr e ↦
      let (r, made, first) = tool_ruling-some request tool e in
      rw e (rw made (ruled-some request (tool_asks request tool) r first))
]
