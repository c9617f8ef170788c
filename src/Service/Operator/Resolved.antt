-- ===== src/Service/Operator/Resolved.antt =====
-- An approval is resolved once: what approve, deny and resume of internal/runtime/operator_service.go do
-- to an approval that is no longer pending.
use personal_cfo_os.Base.{
  ℕ, ◌≡◌, ◌≢◌, ◌⊎◌, refl, sym, ap, subst, ◌∙◌, String, true, none, some, string_eq, ◌==◌, int_suc,
  arith, eq_iff, Bool-cases, inl, inr,
}
use personal_cfo_os.Errors.{ok}
use personal_cfo_os.Stores.Types.{
  ApprovalStateRecord, ApprovalStatus, is_pending, pending, approved, denied,
}
use personal_cfo_os.Stores.Versioned.Updates.{update-lookup, save_new-lookup}
use personal_cfo_os.Stores.Approvals.{
  Approvals, approval_record, save_approval, update_approval, load_approval,
}

-- Each approval is stored under its identifier.
abbrev pub IsFiled : Approvals → Type 0
IsFiled approvals =
    (key : String) (r : ApprovalStateRecord)
    → load_approval key approvals ≡ some r
    → r.approval_id ≡ key

-- What an approval may become, as operators see it: a decision is taken once, and stands.
pub data Reaches : ApprovalStatus → ApprovalStatus → Type 0 where
  unchanged : {status : ApprovalStatus} → Reaches status status
  approves : Reaches pending approved
  denies : Reaches pending denied

-- The approval is stored, with a status that it may have reached, in a store that is filed.
abbrev pub HasReached : String → ApprovalStatus → Approvals → Type 0
HasReached id status approvals =
    IsFiled approvals
    × ((r : ApprovalStateRecord) × (load_approval id approvals ≡ some r) × Reaches status r.status)

pending_only : (a : ApprovalStatus) → is_pending a ≡ true → a ≡ pending
pending_only a waits = ground arith

-- Only a pending approval is still pending.
Reaches-pending : (a b : ApprovalStatus) → Reaches a b → is_pending b ≡ true → a ≡ pending
Reaches-pending a _ unchanged waits = pending_only a waits
Reaches-pending _ _ approves waits = refl
Reaches-pending _ _ denies waits = refl

pub same_or_not : (a b : String) → (a ≡ b) ⊎ (a ≢ b)
same_or_not a b = elim (Bool-cases (a == b)) [
  | inl e ↦ inl ((eq_iff a b).0 e)
  | inr e ↦ inr (λ h. let yes : (a == b) ≡ true = (eq_iff a b).1 h in cc)
]

-- A write of a record under its identifier.
IsFiled-write :
    (key : String) (stored : ApprovalStateRecord) (x next : Approvals)
    → stored.approval_id ≡ key
    → load_approval key next ≡ some stored
    → ((other : String) → key ≢ other → load_approval other next ≡ load_approval other x)
    → IsFiled x
    → IsFiled next
IsFiled-write key stored x next named there others filed k s found = elim (same_or_not key k) [
  | inl same ↦
      let at : load_approval key next ≡ some s = ap (λ y. load_approval y next) same ∙ found in
      let one : stored ≡ s = cc in sym (ap (λ y. y.approval_id) one) ∙ named ∙ same
  | inr ne ↦ filed k s (sym (others k ne) ∙ found)
]

module _ (id : String) (status : ApprovalStatus) where
  -- A write of another approval.
  HasReached-write :
      (key : String) (stored : ApprovalStateRecord) (x next : Approvals)
      → stored.approval_id ≡ key
      → load_approval key next ≡ some stored
      → ((other : String) → key ≢ other → load_approval other next ≡ load_approval other x)
      → key ≢ id
      → HasReached id status x
      → HasReached id status next
  HasReached-write key stored x next named there others apart (filed, (r, held, e)) =
      (IsFiled-write key stored x next named there others filed, (r, others id apart ∙ held, e))

  pub HasReached-save :
      (a : ApprovalStateRecord) (x next : Approvals)
      → save_approval a x ≡ ok next
      → HasReached id status x
      → HasReached id status next
  HasReached-save a x next h (filed, (r, held, e)) =
      let (free, (stored, named, there), others) = save_new-lookup approval_record a x next h in
      HasReached-write a.approval_id stored x next named there others
        (λ same.
          let at : load_approval id x ≡ none = ap (λ y. load_approval y x) (sym same) ∙ free in
          let no : some r ≡ none = sym held ∙ at in cc)
        (filed, (r, held, e))

  -- The approval may be another one, or its status was pending.
  abbrev pub MayWrite : ApprovalStateRecord → Type 0
  MayWrite a = (a.approval_id ≢ id) ⊎ (status ≡ pending)

  pub HasReached-update :
      (a : ApprovalStateRecord) (expected : ℕ) (x next : Approvals)
      → update_approval a expected x ≡ ok next
      → MayWrite a
      → Reaches pending a.status
      → HasReached id status x
      → HasReached id status next
  HasReached-update a expected x next h may reaches k =
      let (current, found, fresh, there, others) =
        update-lookup approval_record a expected x next h in
      let stored = approval_record.at_version (int_suc current.version) a in
      elim (same_or_not a.approval_id id) [
        | inr apart ↦ HasReached-write a.approval_id stored x next refl there others apart k
        | inl same ↦ elim may [
          | inl apart ↦ absurd (apart same)
          | inr waited ↦ (
            IsFiled-write a.approval_id stored x next refl there others k.0,
            (
              stored,
              ap (λ y. load_approval y next) (sym same) ∙ there,
              subst (λ y. Reaches y a.status) (sym waited) reaches,
            ),
          )
        ]
      ]

  -- A pending approval is another one, or has been pending all the time.
  pub pending-MayWrite :
      (key : String) (a : ApprovalStateRecord) (x : Approvals)
      → load_approval key x ≡ some a
      → is_pending a.status ≡ true
      → HasReached id status x
      → MayWrite a
  pending-MayWrite key a x found waits (filed, (r, held, reached)) =
      elim (same_or_not a.approval_id id) [
        | inr apart ↦ inl apart
        | inl same ↦
            let keyed : key ≡ id = sym (filed key a found) ∙ same in
            let at : some a ≡ some r = sym found ∙ ap (λ y. load_approval y x) keyed ∙ held in
            let one : a ≡ r = cc in
            inr (
              Reaches-pending status r.status reached
                (ap (λ y. is_pending y.status) (sym one) ∙ waits))
      ]
