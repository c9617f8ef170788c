-- ===== src/Stores/Actions/Requests.antt =====
-- A request is carried out once, and stays on record.
use personal_cfo_os.Base.{
  String, ◌≡◌, ◌≢◌, sym, ap, ◌∙◌, false, none, some, List, [], ◌∷◌, string_eq, is_empty, arith, All,
  inl, inr,
}
use personal_cfo_os.Base.Dict.{lookup, insert, lookup-insert_self, lookup-insert_ne}
use personal_cfo_os.Errors.{ok, err, conflict, Result-cases}
use personal_cfo_os.Stores.Types.{OperatorActionRecord}
use personal_cfo_os.Stores.Actions.{
  ActionStore, save_fresh, save_action, load_by_request_id, after_save, save_all,
}

-- The action is on record under its request.
pub record IsRecorded (a : OperatorActionRecord) (s : ActionStore) : Type 0 where
  pub request_known : lookup a.request_id s.by_request ≡ some a.action_id
  pub action_stored : lookup a.action_id s.by_id ≡ some a

-- A save either fails and is left out, or writes both maps for a new request.
save_action-ok :
    (b : OperatorActionRecord) (s next : ActionStore)
    → save_action b s ≡ ok next
    → (lookup b.request_id s.by_request ≡ none)
      × (is_empty b.action_id ≡ false)
      × (is_empty b.request_id ≡ false)
      × (next ≡ record {
        by_id = insert b.action_id b s.by_id;
        by_request = insert b.request_id b.action_id s.by_request;
      })
unfolding save_action save_fresh
save_action-ok b s next h = ground arith

pub save_action-IsRecorded :
    (a : OperatorActionRecord) (s next : ActionStore)
    → save_action a s ≡ ok next
    → IsRecorded a next
save_action-IsRecorded a s next h =
    let (new, named, asked, e) = save_action-ok a s next h in
    rw e (record {
      request_known = lookup-insert_self a.request_id a.action_id s.by_request;
      action_stored = lookup-insert_self a.action_id a s.by_id;
    })

some-ne-none : (k : String) → some k ≢ none
some-ne-none k h = cc

-- A request that is known is refused.
save_action-known :
    (b : OperatorActionRecord) (s : ActionStore) (known : String)
    → lookup b.request_id s.by_request ≡ some known
    → is_empty b.action_id ≡ false
    → is_empty b.request_id ≡ false
    → save_action b s ≡ err (conflict "operator_action_request" known "duplicate operator request")
unfolding save_action save_fresh
save_action-known b s known found e f = rw (e, f) (rw (found))

step-IsRecorded :
    (a b : OperatorActionRecord) (s : ActionStore)
    → b.action_id ≢ a.action_id
    → IsRecorded a s
    → IsRecorded a (after_save s (save_action b s))
step-IsRecorded a b s other held = elim (Result-cases (save_action b s)) [
  | inr (e, failed) ↦ rw failed held
  | inl (next, done) ↦
      let (new, has_id, asked, e) = save_action-ok b s next done in
      let apart : b.request_id ≢ a.request_id = λ same. absurd (
        some-ne-none a.action_id
          (sym held.request_known ∙ ap (λ x. lookup x s.by_request) (sym same) ∙ new)) in
      rw (done, e)
        (record {
          request_known =
              lookup-insert_ne b.request_id a.request_id b.action_id s.by_request apart
              ∙ held.request_known;
          action_stored =
              lookup-insert_ne b.action_id a.action_id b s.by_id other ∙ held.action_stored;
        })
]

save_all-IsRecorded :
    (a : OperatorActionRecord) (later : List OperatorActionRecord) (s : ActionStore)
    → All (λ b. b.action_id ≢ a.action_id) later
    → IsRecorded a s
    → IsRecorded a (save_all later s)
unfolding save_all
save_all-IsRecorded a [] s others held = held
save_all-IsRecorded a (b ∷ later) s (other, others) held =
    save_all-IsRecorded a later (after_save s (save_action b s)) others
      (step-IsRecorded a b s other held)

-- A saved action answers to its request after any later saves of actions with other identifiers, and
-- no action of that request can be saved again.
pub save_action_once :
    (a b : OperatorActionRecord) (s next : ActionStore) (later : List OperatorActionRecord)
    → save_action a s ≡ ok next
    → All (λ c. c.action_id ≢ a.action_id) later
    → b.request_id ≡ a.request_id
    → is_empty b.action_id ≡ false
    → (load_by_request_id a.request_id (save_all later next) ≡ some a)
      × (save_action b (save_all later next)
          ≡ err (conflict "operator_action_request" a.action_id "duplicate operator request"))
unfolding save_action save_fresh load_by_request_id
save_action_once a b s next later h others same named =
    let held = save_all-IsRecorded a later next others (save_action-IsRecorded a s next h) in
    let (new, has_id, asked, e) = save_action-ok a s next h in
    (
      rw (held.request_known, load_by_request_id) held.action_stored,
      save_action-known b (save_all later next) a.action_id
          (ap (λ x. lookup x (save_all later next).by_request) same ∙ held.request_known) named
          (ap is_empty same ∙ asked),
    )
