-- ===== src/Governance/Engine.antt =====
-- internal/governance/validation.go: the static policy engine. The clock is an argument, `now`. Also
-- the validation of memory records in internal/memory/validation.go. The message of an error that
-- formats a value is its format.
pub mod Actions
pub mod Memory
use personal_cfo_os.Base.{
  ℕ, String, Bool, true, false, ◌&&◌, ◌||◌, not, Option, none, some, List, [], ◌∷◌, ◌++◌, leb, ltb,
  ◌==◌, string_eq, nat_eq, if◌then◌else◌, is_empty, push, signed_lt,
}
use personal_cfo_os.Base.Floats.{Float64, less, float_zero, float_one}
use personal_cfo_os.Errors.{Result, ok, err, RuntimeError, failure, unless, ◌>>=◌}
use personal_cfo_os.Governance.Types.{
  ActionRiskLevel, other_risk, ApprovalPolicy, ToolExecutionPolicy, MemoryKind, episodic, semantic,
  procedural, policy_memory, other_kind, MemoryWritePolicy, ReportDisclosurePolicy,
  PolicyDecisionOutcome, allow, deny, require_approval, redact, PolicyDecision, AuditEvent,
  ActionRequest, ReportRequest, MemoryFact, MemorySource, MemoryConfidence, MemoryRef, MemoryRecord,
}
use personal_cfo_os.Governance.Rules.{
  Ruling, asks, reaches, is_allow, no_items, is_blank, unique_strings, approval_rules_for_action,
}

-- `if condition { errs = append(errs, errors.New(message)) }`
abbrev pub complaint : Bool → String → List String
complaint true message = message ∷ []
complaint false message = []

abbrev lines : String → List String → String
lines first [] = first
lines first (second ∷ rest) = push first (push "\n" (lines second rest))

-- `errors.Join(errs...)`
abbrev pub join : List String → Option RuntimeError
join [] = none
join (message ∷ rest) = some (failure (lines message rest))

abbrev pub valid_action_risk : ActionRiskLevel → Bool
valid_action_risk (other_risk text) = false
valid_action_risk _ = true

unfoldable pub validate_request : ActionRequest → Option RuntimeError
validate_request r = join (
    complaint (is_empty r.actor) "action actor is required"
    ++ complaint (is_empty r.action) "action name is required"
    ++ complaint (is_empty r.resource) "action resource is required"
    ++ complaint (not (valid_action_risk r.risk_level)) "invalid action risk %q"
    ++ complaint (is_empty r.correlation_id) "correlation id is required")

unfoldable pub validate_approval : ApprovalPolicy → Option RuntimeError
validate_approval p =
    if is_empty p.name
    then some (failure "approval policy name is required")
    else if not (valid_action_risk p.min_risk_level)
    then some (failure "invalid approval policy min risk %q")
    else none

unfoldable pub validate_tool : Option ToolExecutionPolicy → Option RuntimeError
validate_tool none = none
validate_tool (some p) =
    if is_empty p.tool_name
    then some (failure "tool execution policy tool name is required")
    else if not (valid_action_risk p.requires_approval_above)
    then some (failure "invalid tool execution approval risk %q")
    else if signed_lt p.max_calls_per_task 0
    then some (failure "max calls per task must be non-negative")
    else none

-- What the approval policy adds to the ruling.
unfoldable pub policy_ruling : ActionRequest → ApprovalPolicy → Ruling → Ruling
policy_ruling request approval r =
    if reaches request.risk_level approval.min_risk_level
      && not approval.auto_approve
      && is_allow r.outcome
    then asks "approval policy requires human review" "approval.high_risk" r
    else r

unfoldable pub action_decision :
    ℕ → ActionRequest → ApprovalPolicy → Ruling → PolicyDecision × AuditEvent
action_decision now request approval r =
    let refs = unique_strings (request.policy_rule_refs ++ r.rule_refs) in
    (
      record {
        outcome = r.outcome;
        reason = r.reason;
        applied_policy = approval.name;
        policy_rule_refs = refs;
        evaluated_at = now;
        audit_ref = request.correlation_id;
      },
      record {
        id = push request.correlation_id "-action";
        actor = request.actor;
        action = request.action;
        resource = request.resource;
        outcome = r.outcome;
        reason = r.reason;
        policy_rule_refs = refs;
        occurred_at = now;
        correlation_id = request.correlation_id;
      },
    )

unfoldable pub evaluate_action :
    ℕ
    → ActionRequest
    → ApprovalPolicy
    → Option ToolExecutionPolicy
    → Result (PolicyDecision × AuditEvent)
unfolding validate_request validate_approval validate_tool
evaluate_action now request approval tool = unless (validate_request request) (
    unless (validate_approval approval) (
      unless (validate_tool tool) (
        ok (
          action_decision now request approval
            (policy_ruling request approval (approval_rules_for_action request tool))))))

abbrev pub valid_memory_kind : MemoryKind → Bool
valid_memory_kind (other_kind text) = false
valid_memory_kind _ = true

fact_complaints : List MemoryFact → List String
fact_complaints [] = []
fact_complaints (fact ∷ facts) =
    complaint (is_blank fact.key) "memory fact %d key is required"
    ++ complaint (is_blank fact.value) "memory fact %d value is required"
    ++ fact_complaints facts

self_complaints : String → String → List MemoryRef → List String
self_complaints id message [] = []
self_complaints id message (reference ∷ references) =
    complaint (reference.memory_id == id) message ++ self_complaints id message references

source_complaint : MemorySource → List String
source_complaint s =
    complaint (no_items s.evidence_ids && (is_empty s.task_id && is_empty s.workflow_id))
      "memory source requires at least one provenance reference"

confidence_complaint : MemoryConfidence → List String
confidence_complaint c =
    if less c.score float_zero || less float_one c.score
    then "memory confidence must be within [0,1]" ∷ []
    else complaint (is_blank c.rationale) "memory confidence rationale is required"

pub validate_record : MemoryRecord → Option RuntimeError
unfolding fact_complaints self_complaints source_complaint confidence_complaint
validate_record r = join (
    complaint (is_blank r.id) "memory record id is required"
    ++ complaint (not (valid_memory_kind r.kind)) "invalid memory kind %q"
    ++ complaint (is_blank r.summary) "memory summary is required"
    ++ complaint (no_items r.facts) "memory must contain at least one fact"
    ++ fact_complaints r.facts
    ++ source_complaint r.source
    ++ confidence_complaint r.confidence
    ++ complaint
        (not (r.updated_at == 0) && (not (r.created_at == 0) && ltb r.updated_at r.created_at))
        "memory updated_at cannot be before created_at"
    ++ self_complaints r.id "memory record cannot supersede itself" r.supersedes
    ++ self_complaints r.id "memory record cannot conflict with itself" r.conflicts)

unfoldable pub all_valid_kinds : List MemoryKind → Bool
all_valid_kinds [] = true
all_valid_kinds (kind ∷ kinds) = valid_memory_kind kind && all_valid_kinds kinds

unfoldable pub validate_write_policy : MemoryWritePolicy → Option RuntimeError
validate_write_policy p =
    if less p.min_confidence float_zero || less float_one p.min_confidence
    then some (failure "memory write min confidence must be within [0,1]")
    else if not (all_valid_kinds p.allow_kinds)
    then some (failure "invalid allowed memory kind %q")
    else none

abbrev pub same_kind : MemoryKind → MemoryKind → Bool
same_kind episodic episodic = true
same_kind semantic semantic = true
same_kind procedural procedural = true
same_kind policy_memory policy_memory = true
same_kind (other_kind a) (other_kind b) = a == b
same_kind _ _ = false

unfoldable pub contains_memory_kind : List MemoryKind → MemoryKind → Bool
contains_memory_kind [] target = false
contains_memory_kind (item ∷ items) target =
    same_kind item target || contains_memory_kind items target

-- The outcome and the reason after the three tests, each of which overrides what stood before.
unfoldable pub memory_ruling : MemoryRecord → MemoryWritePolicy → PolicyDecisionOutcome × String
memory_ruling r p =
    if not (no_items p.allow_kinds) && not (contains_memory_kind p.allow_kinds r.kind)
    then (deny, "memory kind is not allowed by policy")
    else if p.require_evidence && no_items r.source.evidence_ids
    then (deny, "memory write requires evidence provenance")
    else if less r.confidence.score p.min_confidence
    then (deny, "memory confidence below policy threshold")
    else (allow, "memory write allowed")

unfoldable pub evaluate_memory_write :
    ℕ → MemoryRecord → MemoryWritePolicy → String → Result (PolicyDecision × AuditEvent)
unfolding validate_record validate_write_policy
evaluate_memory_write now r p correlation_id = unless (validate_record r) (
    unless (validate_write_policy p) (
      let (outcome, reason) = memory_ruling r p in
      ok (
        record {
          outcome = outcome;
          reason = reason;
          applied_policy = "memory_write_policy";
          policy_rule_refs = [];
          evaluated_at = now;
          audit_ref = correlation_id;
        },
        record {
          id = push correlation_id "-memory";
          actor = r.source.actor;
          action = "memory_write";
          resource = r.id;
          outcome = outcome;
          reason = reason;
          policy_rule_refs = [];
          occurred_at = now;
          correlation_id = correlation_id;
        },
      )))

abbrev pub report_ruling : ReportRequest → ReportDisclosurePolicy → PolicyDecisionOutcome × String
report_ruling request p =
    if request.contains_pii && not p.allow_pii
    then (redact, "report disclosure requires redaction")
    else (allow, "report can be disclosed")

unfoldable pub evaluate_report :
    ℕ → ReportRequest → ReportDisclosurePolicy → Result (PolicyDecision × AuditEvent)
evaluate_report now request p =
    if is_empty request.actor
    then err (failure "report actor is required")
    else if is_empty request.audience
    then err (failure "report audience is required")
    else let (outcome, reason) = report_ruling request p in
      ok (
        record {
          outcome = outcome;
          reason = reason;
          applied_policy = "report_disclosure_policy";
          policy_rule_refs = [];
          evaluated_at = now;
          audit_ref = request.correlation_id;
        },
        record {
          id = push request.correlation_id "-report";
          actor = request.actor;
          action = "report_disclosure";
          resource = request.audience;
          outcome = outcome;
          reason = reason;
          policy_rule_refs = [];
          occurred_at = now;
          correlation_id = request.correlation_id;
        },
      )
