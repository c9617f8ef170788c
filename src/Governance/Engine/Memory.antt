-- ===== src/Governance/Engine/Memory.antt =====
-- Which memory writes the gate lets through.
use personal_cfo_os.Base.{◌≡◌, ◌↔◌, ◌⊎◌, true, false, List, [], ◌∷◌, arith, Has, eq_iff, string_eq}
use personal_cfo_os.Base.Floats.{less}
use personal_cfo_os.Governance.Types.{
  MemoryKind, episodic, semantic, procedural, policy_memory, other_kind, MemoryRecord,
  MemoryWritePolicy, allow,
}
use personal_cfo_os.Governance.Rules.{no_items}
use personal_cfo_os.Governance.Engine.{memory_ruling, contains_memory_kind, same_kind}

pub same_kind_iff : (a b : MemoryKind) → (same_kind a b ≡ true) ↔ (a ≡ b)
same_kind_iff (other_kind s) (other_kind t) = ground (arith, eq_iff s t)
same_kind_iff episodic b = ground arith
same_kind_iff semantic b = ground arith
same_kind_iff procedural b = ground arith
same_kind_iff policy_memory b = ground arith
same_kind_iff (other_kind s) b = ground arith

contains-Has :
    (kinds : List MemoryKind) (k : MemoryKind) → (contains_memory_kind kinds k ≡ true) ↔ Has k kinds
unfolding contains_memory_kind
contains-Has [] k = ground arith
contains-Has (item ∷ items) k = ground (arith, same_kind_iff item k, contains-Has items k)

-- What the policy asks of a record.
pub record IsWritable (r : MemoryRecord) (p : MemoryWritePolicy) : Type 0 where
  pub is_confident : less r.confidence.score p.min_confidence ≡ false
  pub has_evidence : (p.require_evidence ≡ false) ⊎ (no_items r.source.evidence_ids ≡ false)
  pub kind_allowed : (no_items p.allow_kinds ≡ true) ⊎ Has r.kind p.allow_kinds

pub memory_ruling_iff :
    (r : MemoryRecord) (p : MemoryWritePolicy) → ((memory_ruling r p).0 ≡ allow) ↔ IsWritable r p
unfolding memory_ruling
memory_ruling_iff r p = (
  λ h. ground (arith, contains-Has p.allow_kinds r.kind),
  λ w.
      ground
        (arith, contains-Has p.allow_kinds r.kind, w.is_confident, w.has_evidence, w.kind_allowed),
)
