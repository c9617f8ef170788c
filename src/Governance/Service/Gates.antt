-- ===== src/Governance/Service/Gates.antt =====
-- The gate on memory writes and the disclosure of reports.
use personal_cfo_os.Base.{
  ℕ, String, ◌≡◌, ◌↔◌, ◌⊎◌, inl, inr, sym, ◌∙◌, Bool, not, ◌&&◌, ◌||◌, Option, none, some, arith,
  if◌then◌else◌, Option-cases, is_empty, [], ◌∷◌, Has, Bool-cases, subst, ap, refl, true, false,
}
use personal_cfo_os.Errors.{ok, RuntimeError, failure}
use personal_cfo_os.Governance.Types.{
  MemoryRecord, MemoryWritePolicy, PolicyDecision, AuditEvent, PolicyDecisionOutcome, allow, redact,
  episodic, semantic, procedural, policy_memory,
}
use personal_cfo_os.Governance.Rules.{is_allow, no_items}
use personal_cfo_os.Base.Floats.{float_one, less, float_equal, float_zero, seven_tenths}
use personal_cfo_os.Governance.Engine.{
  all_valid_kinds, validate_record, validate_write_policy, memory_ruling, evaluate_memory_write,
  evaluate_report,
}
use personal_cfo_os.Governance.Engine.Memory.{IsWritable, memory_ruling_iff}
use personal_cfo_os.Governance.Service.{
  allow_write, write_policy_of, ApprovalService, evaluate_disclosure, report_policy_of,
}

is_allow_iff : (o : PolicyDecisionOutcome) → (is_allow o ≡ true) ↔ (o ≡ allow)
is_allow_iff allow = ground arith
is_allow_iff _ = ground arith

-- The error that the gate makes of an outcome.
abbrev gate_error : PolicyDecisionOutcome × String → Option RuntimeError
gate_error ruling = if is_allow ruling.0 then none else some (failure ruling.1)

gate_error_iff :
    (ruling : PolicyDecisionOutcome × String) → (gate_error ruling ≡ none) ↔ (ruling.0 ≡ allow)
gate_error_iff ruling = ground (arith, is_allow_iff ruling.0)

-- No confidence, no evidence and no kind is asked for.
abbrev pub asks_nothing : MemoryWritePolicy → Bool
asks_nothing p =
    float_equal p.min_confidence float_zero && (not p.require_evidence && no_items p.allow_kinds)

abbrev default_write_policy : MemoryWritePolicy
default_write_policy = record {
  min_confidence = seven_tenths;
  require_evidence = false;
  allow_kinds = episodic ∷ semantic ∷ procedural ∷ policy_memory ∷ [];
}

default_policy :
    (p : MemoryWritePolicy) → asks_nothing p ≡ true → write_policy_of p ≡ default_write_policy
unfolding write_policy_of
default_policy p e = rw (e, write_policy_of) refl

own_policy : (p : MemoryWritePolicy) → asks_nothing p ≡ false → write_policy_of p ≡ p
unfolding write_policy_of
own_policy p e = rw (e, write_policy_of) refl

default_valid : validate_write_policy default_write_policy ≡ none
unfolding validate_write_policy less seven_tenths float_zero float_one all_valid_kinds
default_valid = refl

default-IsWritable :
    (r : MemoryRecord)
    → IsWritable r default_write_policy ↔ (
        (less r.confidence.score seven_tenths ≡ false)
        × Has r.kind (episodic ∷ semantic ∷ procedural ∷ policy_memory ∷ []))
default-IsWritable r = (
  λ w. (w.is_confident, elim w.kind_allowed [ inl none_allowed ↦ cc | inr k ↦ k ]),
  λ h. record { is_confident = h.0; has_evidence = inl refl; kind_allowed = inr h.1 },
)

module _ (now : ℕ) (p : MemoryWritePolicy) (correlation_id made : String) (r : MemoryRecord) where
  write_error :
      (e : RuntimeError)
      → (validate_record r ≡ some e)
        ⊎ ((validate_record r ≡ none) × (validate_write_policy (write_policy_of p) ≡ some e))
      → allow_write now p correlation_id made r ≡ some e
  unfolding allow_write evaluate_memory_write
  write_error e (inl v) = rw (v, allow_write, evaluate_memory_write)
  write_error e (inr (v, w)) =
      rw (v, allow_write, evaluate_memory_write) (rw (w, allow_write, evaluate_memory_write))

  write_ruled :
      validate_record r ≡ none
      → validate_write_policy (write_policy_of p) ≡ none
      → allow_write now p correlation_id made r ≡ gate_error (memory_ruling r (write_policy_of p))
  unfolding allow_write evaluate_memory_write
  write_ruled v w =
      rw (v, allow_write, evaluate_memory_write) (rw (w, allow_write, evaluate_memory_write))

  -- The same for the policy that the gate uses.
  allow_write_policy : (allow_write now p correlation_id made r ≡ none) ↔ (
      (validate_record r ≡ none)
      × (validate_write_policy (write_policy_of p) ≡ none)
      × IsWritable r (write_policy_of p))
  allow_write_policy = elim (Option-cases (validate_record r)) [
    | inr (e, v) ↦ (λ h. cc (h, write_error e (inl v)), λ h. cc (h.0, v))
    | inl v ↦ elim (Option-cases (validate_write_policy (write_policy_of p))) [
      | inr (e, w) ↦ (λ h. cc (h, write_error e (inr (v, w))), λ h. cc (h.1, w))
      | inl w ↦ (
        λ h. (
          v,
          w,
          (memory_ruling_iff r (write_policy_of p)).0 (
              (gate_error_iff (memory_ruling r (write_policy_of p))).0 (sym (write_ruled v w) ∙ h)),
        ),
        λ h.
            write_ruled v w
            ∙ (gate_error_iff (memory_ruling r (write_policy_of p))).1
                ((memory_ruling_iff r (write_policy_of p)).1 h.2),
      )
    ]
  ]

-- A record may be written exactly if it and the policy are valid, its confidence is not below the policy's,
-- it has the evidence asked for, and its kind is among those allowed. Where the policy asks for nothing,
-- that is a confidence of 0.7, any evidence, and one of the four kinds.
pub allow_write_iff :
    (now : ℕ) (p : MemoryWritePolicy) (correlation_id made : String) (r : MemoryRecord)
    → (allow_write now p correlation_id made r ≡ none) ↔ (
        (validate_record r ≡ none)
        × (((asks_nothing p ≡ true)
              × (less r.confidence.score seven_tenths ≡ false)
              × Has r.kind (episodic ∷ semantic ∷ procedural ∷ policy_memory ∷ []))
            ⊎ ((asks_nothing p ≡ false) × (validate_write_policy p ≡ none) × IsWritable r p)))
allow_write_iff now p correlation_id made r =
    let by_policy = allow_write_policy now p correlation_id made r in
    elim (Bool-cases (asks_nothing p)) [
      | inl e ↦ (
        λ h.
            let (v, w, a) = by_policy.0 h in
            let (c, k) = (default-IsWritable r).0 (subst (IsWritable r) (default_policy p e) a) in
            (v, inl (e, c, k)),
        λ h. elim h.1 [
          | inl (t, c, k) ↦ by_policy.1 (
            h.0,
            ap validate_write_policy (default_policy p e) ∙ default_valid,
            subst (IsWritable r) (sym (default_policy p e)) ((default-IsWritable r).1 (c, k)),
          )
          | inr (f, w, a) ↦ cc
        ],
      )
      | inr e ↦ (
        λ h.
            let (v, w, a) = by_policy.0 h in
            (
              v,
              inr (
                e,
                ap validate_write_policy (sym (own_policy p e)) ∙ w,
                subst (IsWritable r) (own_policy p e) a,
              ),
            ),
        λ h. elim h.1 [
          | inl (t, c, k) ↦ cc
          | inr (f, w, a) ↦ by_policy.1 (
            h.0,
            ap validate_write_policy (own_policy p e) ∙ w,
            subst (IsWritable r) (sym (own_policy p e)) a,
          )
        ],
      )
    ]

-- A report with personal data is redacted unless the policy of its service allows such data; where
-- none is configured, it does not. Any other report is disclosed.
pub evaluate_disclosure-redact :
    (now : ℕ) (s : ApprovalService) (workflow_id actor audience : String) (pii : Bool)
    (d : PolicyDecision) (a : AuditEvent)
    → evaluate_disclosure now s workflow_id actor audience pii ≡ ok (d, a)
    → (d.outcome ≡ (
        if pii && (is_empty s.report_policy.audience || not s.report_policy.allow_pii)
        then redact
        else allow))
      × (a.outcome ≡ d.outcome)
unfolding evaluate_disclosure evaluate_report report_policy_of
evaluate_disclosure-redact now s workflow_id actor audience pii d a h = ground arith
