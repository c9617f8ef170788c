-- ===== src/Stores/Actions.antt =====
-- internal/runtime/operator_action_store.go.
pub mod Requests
use personal_cfo_os.Base.{
  ℕ, String, ◌≡◌, Bool, ◌&&◌, Option, none, some, List, [], ◌∷◌, ◌==◌, string_eq, ltb,
  if◌then◌else◌, is_empty, keep, sort,
}
use personal_cfo_os.Base.Dict.{Dict, lookup, insert, values}
use personal_cfo_os.Errors.{Result, ok, err, RuntimeError, conflict}
use personal_cfo_os.Stores.Types.{OperatorActionRecord}

pub record ActionStore : Type 0 where
  pub by_id : Dict OperatorActionRecord
  pub by_request : Dict String

-- The write, unless the request is known.
unfoldable pub save_fresh : OperatorActionRecord → ActionStore → Option String → Result ActionStore
save_fresh r s (some existing) =
    err (conflict "operator_action_request" existing "duplicate operator request")
save_fresh r s none = ok (record {
  by_id = insert r.action_id r s.by_id;
  by_request = insert r.request_id r.action_id s.by_request;
})

unfoldable pub save_action : OperatorActionRecord → ActionStore → Result ActionStore
unfolding save_fresh
save_action r s =
    if is_empty r.action_id
    then err (conflict "operator_action" "" "action id is required")
    else if is_empty r.request_id
    then err (conflict "operator_action" r.action_id "request id is required")
    else save_fresh r s (lookup r.request_id s.by_request)

abbrev or_none :
    (String → Option OperatorActionRecord) → Option String → Option OperatorActionRecord
or_none f none = none
or_none f (some a) = f a

unfoldable pub load_by_request_id : String → ActionStore → Option OperatorActionRecord
load_by_request_id request_id s =
    or_none (λ action_id. lookup action_id s.by_id) (lookup request_id s.by_request)

unfoldable pub list_actions_by_task : String → String → ActionStore → List OperatorActionRecord
list_actions_by_task graph_id task_id s =
    sort (λ a b. ltb a.requested_at b.requested_at)
      (keep (λ r. (r.graph_id == graph_id) && (r.task_id == task_id)) (values s.by_id))

-- The store after a call, which leaves it as it was where it fails.
abbrev pub after_save : ActionStore → Result ActionStore → ActionStore
after_save s (ok next) = next
after_save s (err e) = s

unfoldable pub save_all : List OperatorActionRecord → ActionStore → ActionStore
save_all [] s = s
save_all (r ∷ rs) s = save_all rs (after_save s (save_action r s))
