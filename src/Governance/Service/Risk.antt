-- ===== src/Governance/Service/Risk.antt =====
-- The level of the risk that an action is evaluated at.
use personal_cfo_os.Base.{
  String, ◌≡◌, ◌⊎◌, inl, inr, refl, ap, ◌∙◌, eq_iff, Bool, false, ◌&&◌, ◌||◌, List, [], ◌∷◌, arith,
  ◌≤◌, Has, if◌then◌else◌, Bool-cases, string_eq, ◌==◌,
}
use personal_cfo_os.Base.Floats.{at_least, fifth, three_tenths, thirty_five_hundredths}
use personal_cfo_os.Governance.Types.{
  ActionRiskLevel, low, medium, high, Recommendation, RiskAssessment, FinancialWorldState,
}
use personal_cfo_os.Governance.Rules.{
  rank, exceeds, recommendation_risk_level, no_items, contains_lower,
}
use personal_cfo_os.Governance.Service.{
  merge_level, classify, one_up, invests, is_low, by_debt, by_risk, by_action, by_behavior,
  with_baseline,
}

-- The merged level is at least the classifier's and that of each recommendation, and is one of them.
pub merge_level_lem :
    (level : ActionRiskLevel) (xs : List Recommendation)
    → (rank level ≤ rank (merge_level level xs))
      × ((x : Recommendation)
          → Has x xs
          → rank (recommendation_risk_level x.risk_level) ≤ rank (merge_level level xs))
      × ((merge_level level xs ≡ level)
          ⊎ ((x : Recommendation) × Has x xs
              × (merge_level level xs ≡ recommendation_risk_level x.risk_level)))
unfolding merge_level
merge_level_lem level [] = (omega arith, λ x m. absurd m, inl refl)
merge_level_lem level (x ∷ xs) =
    elim (Bool-cases (exceeds (recommendation_risk_level x.risk_level) level)) [
      | inl e ↦
          let (lo, all, from) = merge_level_lem (recommendation_risk_level x.risk_level) xs in
          rw e (
            ground (arith, lo),
            λ y m. elim m [ inl t ↦ rw t lo | inr t ↦ all y t ],
            elim from [ inl q ↦ inr (x, inl refl, q) | inr (y, t, q) ↦ inr (y, inr t, q) ],
          )
      | inr e ↦
          let (lo, all, from) = merge_level_lem level xs in
          rw e (
            lo,
            λ y m. elim m [ inl t ↦ rw t (ground (arith, lo)) | inr t ↦ all y t ],
            elim from [ inl q ↦ inl q | inr (y, t, q) ↦ inr (y, inr t, q) ],
          )
    ]

-- Debt or the overall risk is high.
abbrev pub is_pressing : FinancialWorldState → Bool
is_pressing current =
    at_least current.debt_burden_ratio thirty_five_hundredths
    || at_least current.minimum_payment_pressure fifth
    || (current.overall_risk == "high")

-- The debt burden or the overall risk is medium.
abbrev pub is_elevated : FinancialWorldState → Bool
is_elevated current = at_least current.debt_burden_ratio fifth || (current.overall_risk == "medium")

-- Late-night spending is frequent.
abbrev pub is_volatile : FinancialWorldState → Bool
is_volatile current = at_least current.late_night_spending_frequency three_tenths

by_risk-level :
    (current : FinancialWorldState)
    → (by_risk current (by_debt current)).level
      ≡ (if is_pressing current then high else if is_elevated current then medium else low)
unfolding by_risk by_debt
by_risk-level current =
    ground (arith, eq_iff current.overall_risk "high", eq_iff current.overall_risk "medium")

by_action-level :
    (action : String) (r : RiskAssessment)
    → (by_action action r).level ≡ (if invests action then one_up r.level else r.level)
unfolding by_action
by_action-level action r = ground arith

by_behavior-level :
    (current : FinancialWorldState) (r : RiskAssessment)
    → (by_behavior current r).level
      ≡ (if is_volatile current && is_low r.level then medium else r.level)
unfolding by_behavior
by_behavior-level current r = ground arith

baseline_lem :
    (r : RiskAssessment)
    → ((with_baseline r).level ≡ r.level) × (no_items (with_baseline r).reasons ≡ false)
unfolding with_baseline
baseline_lem r = ground arith

-- The two looks as tests on what is known of the state.
raised_lem :
    (pressing elevated invest volatile : Bool)
    → (let base = if pressing then high else if elevated then medium else low in
        let after_action = if invest then one_up base else base in
        if volatile && is_low after_action then medium else after_action)
      ≡ (if pressing || (elevated && invest)
          then high
          else if elevated || invest || volatile
          then medium
          else low)
raised_lem pressing elevated invest volatile = ground arith

invests_lem :
    (action : String)
    → invests action ≡ (contains_lower action "invest" || contains_lower action "stock")
unfolding invests
invests_lem action = refl

-- The class of an action is high if debt or overall risk is high, or if one is medium and the action
-- mentions investing or stocks; else it is medium if one is medium, or the action mentions these, or
-- late-night spending is frequent; else it is low. There is always a reason.
pub classify_level :
    (current : FinancialWorldState) (action : String)
    → ((classify current action).level ≡ (
        if is_pressing current
          || (is_elevated current
              && (contains_lower action "invest" || contains_lower action "stock"))
        then high
        else if is_elevated current
            || (contains_lower action "invest" || contains_lower action "stock")
            || is_volatile current
        then medium
        else low))
      × (no_items (classify current action).reasons ≡ false)
unfolding classify
classify_level current action =
    let after_risk = by_risk current (by_debt current) in
    let after_action = by_action action after_risk in
    let (same, some_reason) = baseline_lem (by_behavior current after_action) in
    let finish =
      λ (level : ActionRiskLevel). if is_volatile current && is_low level then medium else level in
    (
      same
          ∙ by_behavior-level current after_action
          ∙ ap finish (
              by_action-level action after_risk
              ∙ ap (λ invest. if invest then one_up after_risk.level else after_risk.level)
                  (invests_lem action)
              ∙ ap
                  (λ level.
                    if contains_lower action "invest" || contains_lower action "stock"
                    then one_up level
                    else level)
                  (by_risk-level current))
          ∙ raised_lem (is_pressing current) (is_elevated current)
              (contains_lower action "invest" || contains_lower action "stock")
              (is_volatile current),
      some_reason,
    )
