-- ===== src/Service/Persist/Stale.antt =====
-- The commit guard over the work queue: a worker whose lease has ended.
use personal_cfo_os.Base.{
  ℕ, ◌<◌, ◌≡◌, ◌≢◌, refl, sym, ◌∙◌, String, Option, none, some, List, ◌∷◌, All, two_64,
}
use personal_cfo_os.Base.Dict.{lookup}
use personal_cfo_os.Errors.{Result, err, RuntimeError}
use personal_cfo_os.WorkQueue.Types.{IdPart, WorkItem, FenceValidation}
use personal_cfo_os.WorkQueue.{Items, validate_fence}
use personal_cfo_os.WorkQueue.Claims.{IsFiled}
use personal_cfo_os.WorkQueue.History.{Call, run, claim_count, SubmitsFresh}
use personal_cfo_os.WorkQueue.History.Stale.{Ends, ended_fence_refused}
use personal_cfo_os.Stores.Types.{TaskExecutionRecord}
use personal_cfo_os.TaskGraph.{TaskGraphSnapshot}
use personal_cfo_os.Service.Types.{StateSnapshot, FollowUpWorkflowRunResult, Backend}
use personal_cfo_os.Service.Persist.{
  FenceSite, entry_site, graph_site, FollowUpExecutionReplayDetails,
  persist_execution_outcome_guarded, save_updated_graph_guarded,
}

module _ {B P : Type 0} (make_id : List IdPart → String)
    (marshal : FollowUpExecutionReplayDetails → Result String)
    (validate_payload : P → Option RuntimeError) (now : ℕ)
    (check : FenceSite → Option RuntimeError) where
  refused_entry :
      (e : RuntimeError) (snapshot : TaskGraphSnapshot (StateSnapshot B)) (r : TaskExecutionRecord)
      (result : FollowUpWorkflowRunResult B P) (s : Backend B P)
      → check entry_site ≡ some e
      → persist_execution_outcome_guarded make_id marshal validate_payload now check snapshot r
          result s
        ≡ (s, err e)
  unfolding persist_execution_outcome_guarded
  refused_entry e snapshot r result s h = rw h

refused_graph :
    {B P : Type 0} (check : FenceSite → Option RuntimeError) (e : RuntimeError)
    (snapshot : TaskGraphSnapshot (StateSnapshot B)) (expected : ℕ) (s : Backend B P)
    → check graph_site ≡ some e
    → save_updated_graph_guarded check snapshot expected s ≡ (s, err e)
unfolding save_updated_graph_guarded
refused_graph check e snapshot expected s h = rw h

not_none : {A : Type 0} (o : Option A) → o ≢ none → (a : A) × (o ≡ some a)
not_none none h = absurd (h refl)
not_none (some a) h = (a, refl)

-- Once the lease of a worker's fence has ended, the worker commits nothing: its guarded commit of an
-- execution and its guarded save of a task graph fail and leave every store as it was, whatever the
-- queue's later calls before each check, while these submit only waiting items without a lease and
-- claim fewer than 2 ^ 64 times.
pub stale_worker_refused :
    {B P : Type 0} (make_id : List IdPart → String)
    (marshal : FollowUpExecutionReplayDetails → Result String)
    (validate_payload : P → Option RuntimeError) (now : ℕ) (items : Items) (f : FenceValidation)
    (x : WorkItem) (there : lookup f.work_item_id items ≡ some x) (c : Call)
    (calls : FenceSite → List Call) (check : FenceSite → Option RuntimeError)
    (snapshot : TaskGraphSnapshot (StateSnapshot B)) (r : TaskExecutionRecord)
    (result : FollowUpWorkflowRunResult B P) (expected : ℕ) (s : Backend B P)
    → IsFiled items
    → Ends f x c
    → f.fencing_token < two_64
    → ((site : FenceSite) → All SubmitsFresh (calls site))
    → ((site : FenceSite) → claim_count (calls site) < two_64)
    → ((site : FenceSite) → check site ≡ validate_fence f (run make_id (c ∷ calls site) items))
    → ((e : RuntimeError) × (persist_execution_outcome_guarded make_id marshal validate_payload now
            check snapshot r result s
          ≡ (s, err e)))
      × ((e : RuntimeError) × (save_updated_graph_guarded check snapshot expected s ≡ (s, err e)))
stale_worker_refused make_id marshal validate_payload now items f x there c calls check snapshot r
      result expected s filed ends small fresh few answers =
    let refused : (site : FenceSite) → (e : RuntimeError) × (check site ≡ some e) = λ site.
      not_none (check site) (λ n.
        ended_fence_refused make_id items f x there c (calls site) filed ends (fresh site)
          (few site) small (sym (answers site) ∙ n)) in
    let (e, at_entry) = refused entry_site in
    let (g, at_graph) = refused graph_site in
    (
      (e, refused_entry make_id marshal validate_payload now check e snapshot r result s at_entry),
      (g, refused_graph check g snapshot expected s at_graph),
    )
