-- ===== src/Stores/Approvals.antt =====
-- internal/runtime/approval_store.go.
use personal_cfo_os.Base.{
  ℕ, String, ◌≡◌, ◌↔◌, refl, Bool, true, ◌&&◌, Option, List, ◌==◌, string_eq, ltb, arith, keep,
  find, sort, Has, Has-sort, sort-Has, Has-keep, keep-Has, Ascending, Follows, sort-Ascending,
}
use personal_cfo_os.Base.Dict.{Dict, lookup, values}
use personal_cfo_os.Errors.{Result}
use personal_cfo_os.Stores.Types.{ApprovalStateRecord, is_pending}
use personal_cfo_os.Stores.Versioned.{Versioned, save_new, update}

instance abbrev pub approval_record : Versioned ApprovalStateRecord
approval_record = record {
  id = λ r. r.approval_id;
  version = λ r. r.version;
  at_version = λ n r. record r { version = n };
  resource = "approval";
  id_required = "approval id is required";
  already_exists = "approval already exists";
  id_kept = λ n r. refl;
  version_set = λ n r. refl;
}

abbrev pub Approvals : Type 0
Approvals = Dict ApprovalStateRecord

abbrev pub save_approval : ApprovalStateRecord → Approvals → Result Approvals
save_approval = save_new approval_record

abbrev pub update_approval : ApprovalStateRecord → ℕ → Approvals → Result Approvals
update_approval = update approval_record

abbrev pub load_approval : String → Approvals → Option ApprovalStateRecord
load_approval = lookup

abbrev pub requested_before : ApprovalStateRecord → ApprovalStateRecord → Bool
requested_before a b = ltb a.requested_at b.requested_at

unfoldable pub list_pending : Approvals → List ApprovalStateRecord
list_pending records = sort requested_before (keep (λ r. is_pending r.status) (values records))

-- The first record that `range` meets.
unfoldable pub load_by_task : String → String → Approvals → Option ApprovalStateRecord
load_by_task graph_id task_id records =
    find (λ r. (r.graph_id == graph_id) && (r.task_id == task_id)) (values records)

requested_before-Follows : Follows (λ r. r.requested_at) requested_before
requested_before-Follows = record {
  when_before = λ x y h. ground arith;
  when_not = λ x y h. ground arith;
}

-- The list holds exactly the pending approvals that are stored, the earliest request first.
pub list_pending_lem :
    (records : Approvals)
    → Ascending (λ r. r.requested_at) (list_pending records)
      × ((r : ApprovalStateRecord)
          → Has r (list_pending records) ↔ (Has r (values records) × (is_pending r.status ≡ true)))
unfolding list_pending
list_pending_lem records = (
  sort-Ascending (λ r. r.requested_at) requested_before requested_before-Follows
      (keep (λ r. is_pending r.status) (values records)),
  λ r. (
    λ m.
        Has-keep (λ q. is_pending q.status) r (values records)
          (Has-sort requested_before r (keep (λ q. is_pending q.status) (values records)) m),
    λ m.
        sort-Has requested_before r (keep (λ q. is_pending q.status) (values records))
          (keep-Has (λ q. is_pending q.status) r (values records) m.0 m.1),
  ),
)
