-- ===== src/Governance/Rules.antt =====
-- internal/governance/approval_rules.go and disclosure.go, with `compareRisk` and `hasIntersection` of
-- validation.go and `uniqueStrings` of approval_service.go.
pub mod Unique
pub mod Denials
use personal_cfo_os.Base.{
  ℕ, ◌+◌, String, Bool, true, false, ◌&&◌, ◌||◌, not, Option, none, some, List, [], ◌∷◌, ◌++◌, leb,
  ltb, ◌==◌, string_eq, nat_eq, if◌then◌else◌, is_empty, codes,
}
use personal_cfo_os.Governance.Types.{
  ActionRiskLevel, low, medium, high, critical, other_risk, ToolExecutionPolicy,
  PolicyDecisionOutcome, allow, deny, require_approval, RecommendationType, debt_restructure,
  invest_more, portfolio_rebalance, tax_action, behavior_guardrail, RiskLevel, risk_medium,
  risk_high, risk_critical, Recommendation, ActionRequest,
}

-- The rank that `compareRisk` looks up, 0 for a level that is none of the four.
abbrev pub rank : ActionRiskLevel → ℕ
rank low = 1
rank medium = 2
rank high = 3
rank critical = 4
rank (other_risk text) = 0

-- `compareRisk(left, right) >= 0`
abbrev pub reaches : ActionRiskLevel → ActionRiskLevel → Bool
reaches left right = leb (rank right) (rank left)

-- `compareRisk(left, right) > 0`
abbrev pub exceeds : ActionRiskLevel → ActionRiskLevel → Bool
exceeds left right = ltb (rank right) (rank left)

abbrev pub recommendation_risk_level : RiskLevel → ActionRiskLevel
recommendation_risk_level risk_critical = critical
recommendation_risk_level risk_high = high
recommendation_risk_level risk_medium = medium
recommendation_risk_level _ = low

abbrev pub recommendation_type_sensitive : RecommendationType → Bool
recommendation_type_sensitive invest_more = true
recommendation_type_sensitive portfolio_rebalance = true
recommendation_type_sensitive debt_restructure = true
recommendation_type_sensitive tax_action = true
recommendation_type_sensitive behavior_guardrail = true
recommendation_type_sensitive _ = false

abbrev pub no_items {ℓ} : {A : Type ℓ} → List A → Bool
no_items [] = true
no_items (x ∷ xs) = false

-- A membership test, as on the set `seen`.
unfoldable pub among : String → List String → Bool
among s [] = false
among s (t ∷ ts) = (s == t) || among s ts

unfoldable pub has_intersection : List String → List String → Bool
has_intersection a [] = false
has_intersection a (item ∷ b) = among item a || has_intersection a b

-- The loop of `uniqueStrings`, with the set of the texts that it has seen.
unfoldable pub unique_from : List String → List String → List String
unique_from seen [] = []
unique_from seen (item ∷ items) =
    if is_empty item
    then unique_from seen items
    else if among item seen
    then unique_from seen items
    else item ∷ unique_from (item ∷ seen) items

unfoldable pub unique_strings : List String → List String
unique_strings items = unique_from [] items

-- A code point of Unicode's white space.
is_space : ℕ → Bool
is_space c =
    (leb 9 c && leb c 13)
    || (c == 32)
    || (c == 133)
    || (c == 160)
    || (c == 5760)
    || (leb 8192 c && leb c 8202)
    || (c == 8232)
    || (c == 8233)
    || (c == 8239)
    || (c == 8287)
    || (c == 12288)

all_spaces : List ℕ → Bool
all_spaces [] = true
all_spaces (c ∷ cs) = is_space c && all_spaces cs

-- `strings.TrimSpace(value) == ""`
unfoldable pub is_blank : String → Bool
unfolding all_spaces is_space
is_blank value = all_spaces (codes value)

unfoldable pub first_non_empty : List String → String
first_non_empty [] = ""
first_non_empty (value ∷ values) = if is_blank value then first_non_empty values else value

-- The code point of `unicode.ToLower`, for those that have a lower case among the ASCII letters.
lower : ℕ → ℕ
lower c =
    if leb 65 c && leb c 90 then c + 32 else if c == 304 then 105 else if c == 8490 then 107 else c

begins : List ℕ → List ℕ → Bool
begins [] text = true
begins (c ∷ cs) [] = false
begins (c ∷ cs) (d ∷ ds) = (c == lower d) && begins cs ds

occurs : List ℕ → List ℕ → Bool
occurs word [] = begins word []
occurs word (d ∷ ds) = begins word (d ∷ ds) || occurs word ds

-- `strings.Contains(strings.ToLower(text), word)` for a word in ASCII.
unfoldable pub contains_lower : String → String → Bool
unfolding occurs begins lower
contains_lower text word = occurs (codes word) (codes text)

-- The three values that `approvalRulesForAction` builds up.
pub record Ruling : Type 0 where
  pub outcome : PolicyDecisionOutcome
  pub reason : String
  pub rule_refs : List String

-- `outcome = require_approval; reason = ...; ruleRefs = append(ruleRefs, ref)`
abbrev pub asks : String → String → Ruling → Ruling
asks reason ref r = record {
  outcome = require_approval;
  reason = reason;
  rule_refs = r.rule_refs ++ (ref ∷ []);
}

abbrev pub by_default : Ruling
by_default = record { outcome = allow; reason = "action allowed by default"; rule_refs = [] }

abbrev pub role_denied : Ruling
role_denied = record {
  outcome = deny;
  reason = "actor roles do not satisfy tool execution policy";
  rule_refs = "deny.insufficient_actor_role" ∷ [];
}

abbrev pub disclosure_denied : Ruling
disclosure_denied = record {
  outcome = deny;
  reason = "sensitive recommendation is missing disclosure-ready caveats";
  rule_refs = "deny.missing_disclosure" ∷ [];
}

abbrev pub sensitive_case : Recommendation → Ruling → Ruling
sensitive_case x r =
    if recommendation_type_sensitive x.kind && reaches (recommendation_risk_level x.risk_level) high
    then asks
        (first_non_empty (x.approval_reason ∷ "sensitive recommendation requires approval" ∷ []))
        "approval.sensitive_recommendation" r
    else r

-- The case of the loop's `switch`.
unfoldable pub switch_type : RecommendationType → Recommendation → Ruling → Ruling
switch_type invest_more x r =
    if x.approval_required
    then asks
        (first_non_empty
          (x.approval_reason ∷ "aggressive investment recommendation requires approval" ∷ []))
        "approval.low_liquidity_aggressive_invest" r
    else r
switch_type behavior_guardrail x r =
    if x.approval_required
    then asks
        (first_non_empty
          (x.approval_reason ∷ "high-intensity behavior guardrail requires approval" ∷ []))
        "behavior.guardrail.hard_cap.approval_required" r
    else r
switch_type portfolio_rebalance x r = sensitive_case x r
switch_type debt_restructure x r = sensitive_case x r
switch_type tax_action x r = sensitive_case x r
switch_type _ x r = r

-- A sensitive recommendation without caveats, in a request that is not ready for disclosure.
abbrev pub lacks_disclosure : ActionRequest → Recommendation → Bool
lacks_disclosure request x =
    recommendation_type_sensitive x.kind && no_items x.caveats && not request.disclosure_ready

-- The loop over the recommendations; `none` is its return of a denial.
unfoldable pub review : ActionRequest → List Recommendation → Ruling → Option Ruling
review request [] r = some r
review request (x ∷ xs) r =
    let rest = review request xs (switch_type x.kind x r) in
    if lacks_disclosure request x then none else rest

-- What the tool's policy rules first; `none` is the denial of the actor's roles.
unfoldable pub tool_ruling : ActionRequest → Option ToolExecutionPolicy → Option Ruling
tool_ruling request none = some by_default
tool_ruling request (some tool) =
    if not (no_items tool.allowed_roles)
      && not (has_intersection tool.allowed_roles request.actor_roles)
    then none
    else if reaches request.risk_level tool.requires_approval_above
    then some (asks "tool execution policy requires approval" "approval.high_risk" by_default)
    else some by_default

abbrev pub is_allow : PolicyDecisionOutcome → Bool
is_allow allow = true
is_allow _ = false

unfoldable pub flagged : ActionRequest → Ruling → Ruling
flagged request r =
    if request.approval_required && is_allow r.outcome
    then asks
        (first_non_empty
          (request.approval_reason ∷ "report marked recommendation as approval required" ∷ []))
        "approval.sensitive_recommendation" r
    else r

unfoldable pub single_stock : ActionRequest → Ruling → Ruling
single_stock request r =
    if contains_lower request.action "single_stock"
      && reaches request.risk_level high
      && is_allow r.outcome
    then asks "single-stock high-risk actions cannot auto-execute"
        "approval.sensitive_recommendation" r
    else r

abbrev pub unique_refs : Ruling → Ruling
unique_refs r = record r { rule_refs = unique_strings r.rule_refs }

unfoldable pub reviewed : ActionRequest → Option Ruling → Ruling
reviewed request none = disclosure_denied
reviewed request (some r) = unique_refs (single_stock request (flagged request r))

unfoldable pub ruled : ActionRequest → Option Ruling → Ruling
ruled request none = role_denied
ruled request (some r) = reviewed request (review request request.recommendations r)

unfoldable pub approval_rules_for_action : ActionRequest → Option ToolExecutionPolicy → Ruling
unfolding ruled reviewed
approval_rules_for_action request tool = ruled request (tool_ruling request tool)

unfoldable pub disclosure_ready : List Recommendation → Bool
disclosure_ready [] = true
disclosure_ready (x ∷ xs) =
    if recommendation_type_sensitive x.kind && no_items x.caveats
    then false
    else disclosure_ready xs
