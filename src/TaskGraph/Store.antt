-- ===== src/TaskGraph/Store.antt =====
-- InMemoryTaskGraphStore of internal/runtime/task_graph.go, with saveUpdatedTaskGraphSnapshot of
-- service_helpers.go. `ref_for` gives the identifier in a state's snapshot. The maps are made when the
-- store is, so that the code's tests for nil maps never hold.
use personal_cfo_os.Base.{
  ℕ, ◌<◌, String, ◌≡◌, sym, ap, ◌∙◌, false, not, Option, none, some, List, ◌==◌, nat_eq, string_eq,
  if◌then◌else◌, is_empty, int_suc, int_suc-ne, two_64, arith,
}
use personal_cfo_os.Base.Dict.{Dict, lookup, insert, values, lookup-insert_self}
use personal_cfo_os.Errors.{
  Result, ok, err, conflict, not_found, failure, or_fail, ◌>>=◌, >>=-ok, or_fail-ok,
}
use personal_cfo_os.TaskGraph.{TaskGraphSnapshot}

pub record GraphStore (S : Type 0) : Type 0 where
  pub snapshots : Dict (TaskGraphSnapshot S)
  pub states : Dict S

outdated : (expected : ℕ) → expected < two_64 → (int_suc expected == expected) ≡ false
outdated expected small = ground (arith, int_suc-ne expected small)

module _ {S : Type 0} where
  -- The three writes of `Save` and `Update`.
  unfoldable pub write : TaskGraphSnapshot S → GraphStore S → GraphStore S
  write snapshot s = record {
    snapshots = insert snapshot.graph.graph_id snapshot s.snapshots;
    states =
        insert snapshot.latest_committed_state_ref snapshot.latest_committed_state_snapshot
          (insert snapshot.base_state_snapshot_ref snapshot.base_state_snapshot s.states);
  }

  abbrev pub save_graph : TaskGraphSnapshot S → GraphStore S → GraphStore S
  save_graph snapshot s = write snapshot s

  -- The test on the version, for the snapshot that is stored.
  unfoldable pub replace :
      TaskGraphSnapshot S → ℕ → TaskGraphSnapshot S → GraphStore S → Result (GraphStore S)
  replace snapshot expected current s =
      if not (current.version == expected)
      then err (conflict "task_graph" snapshot.graph.graph_id "expected version %d, got %d")
      else ok (write snapshot s)

  unfoldable pub update_graph : TaskGraphSnapshot S → ℕ → GraphStore S → Result (GraphStore S)
  unfolding replace
  update_graph snapshot expected s = do
    current ←
        or_fail (lookup snapshot.graph.graph_id s.snapshots)
          (not_found "task_graph" snapshot.graph.graph_id)
    replace snapshot expected current s

  abbrev pub load_graph : String → GraphStore S → Option (TaskGraphSnapshot S)
  load_graph graph_id s = lookup graph_id s.snapshots

  abbrev pub list_graphs : GraphStore S → List (TaskGraphSnapshot S)
  list_graphs s = values s.snapshots

  unfoldable pub save_state_snapshot :
      (S → String) → S → GraphStore S → Result (String × GraphStore S)
  save_state_snapshot ref_for snapshot s =
      if is_empty (ref_for snapshot)
      then err (failure "state snapshot requires snapshot id")
      else ok (ref_for snapshot, record s { states = insert (ref_for snapshot) snapshot s.states })

  abbrev pub load_state_snapshot : String → GraphStore S → Option S
  load_state_snapshot ref s = lookup ref s.states

  -- A write to the registered tasks of a snapshot that was loaded, which shares their array with the one that
  -- is stored: the store has the write at once, whatever becomes of the snapshot.
  unfoldable pub share_written : TaskGraphSnapshot S → GraphStore S → GraphStore S
  share_written snapshot s = elim (lookup snapshot.graph.graph_id s.snapshots) [
    | none ↦ s
    | some stored ↦ record s {
      snapshots =
          insert snapshot.graph.graph_id
            (record stored { registered_tasks = snapshot.registered_tasks }) s.snapshots;
    }
  ]

  abbrev pub next_version : TaskGraphSnapshot S → ℕ → TaskGraphSnapshot S
  next_version snapshot expected = record snapshot { version = int_suc expected }

  -- `saveUpdatedTaskGraphSnapshot`
  unfoldable pub save_updated :
      TaskGraphSnapshot S → ℕ → GraphStore S → Result (TaskGraphSnapshot S × GraphStore S)
  save_updated snapshot expected s =
      update_graph (next_version snapshot expected) expected s >>= λ next.
      ok (next_version snapshot expected, next)

  replace-ok :
      (snapshot current : TaskGraphSnapshot S) (expected : ℕ) (s next : GraphStore S)
      → replace snapshot expected current s ≡ ok next
      → (current.version ≡ expected) × (next ≡ write snapshot s)
  unfolding replace
  replace-ok snapshot current expected s next h = ground arith

  update_graph-ok :
      (snapshot : TaskGraphSnapshot S) (expected : ℕ) (s next : GraphStore S)
      → update_graph snapshot expected s ≡ ok next
      → (current : TaskGraphSnapshot S) × (load_graph snapshot.graph.graph_id s ≡ some current)
        × (current.version ≡ expected)
        × (next ≡ write snapshot s)
  unfolding update_graph
  update_graph-ok snapshot expected s next h =
      let (current, found, checked) =
        >>=-ok (or_fail (lookup snapshot.graph.graph_id s.snapshots) _) _ next h in
      let (same, e) = replace-ok snapshot current expected s next checked in
      (current, or_fail-ok (lookup snapshot.graph.graph_id s.snapshots) _ current found, same, e)

  load-write :
      (snapshot : TaskGraphSnapshot S) (s : GraphStore S)
      → load_graph snapshot.graph.graph_id (write snapshot s) ≡ some snapshot
  unfolding write
  load-write snapshot s = lookup-insert_self snapshot.graph.graph_id snapshot s.snapshots

  update_graph-stale :
      (snapshot current : TaskGraphSnapshot S) (expected : ℕ) (s : GraphStore S)
      → load_graph snapshot.graph.graph_id s ≡ some current
      → (current.version == expected) ≡ false
      → update_graph snapshot expected s
        ≡ err (conflict "task_graph" snapshot.graph.graph_id "expected version %d, got %d")
  unfolding update_graph replace
  update_graph-stale snapshot current expected s found stale = rw (found, update_graph) (rw stale)

  -- A graph that is saved over an expected version was stored under that version, is then loaded under
  -- the next, and every further save of the graph over the same expected version fails as a conflict.
  pub save_updated_once :
      (a b : TaskGraphSnapshot S) (expected : ℕ) (s next : GraphStore S)
      (saved : TaskGraphSnapshot S)
      → expected < two_64
      → save_updated a expected s ≡ ok (saved, next)
      → b.graph.graph_id ≡ a.graph.graph_id
      → ((current : TaskGraphSnapshot S) × (load_graph a.graph.graph_id s ≡ some current)
          × (current.version ≡ expected))
        × (load_graph a.graph.graph_id next ≡ some saved)
        × (saved ≡ next_version a expected)
        × (save_updated b expected next
            ≡ err (conflict "task_graph" a.graph.graph_id "expected version %d, got %d"))
  unfolding save_updated
  save_updated_once a b expected s next saved small h same =
      let (stored, updated, last) =
        >>=-ok (update_graph (next_version a expected) expected s) _ (saved, next) h in
      let (current, found, same_version, e) =
        update_graph-ok (next_version a expected) expected s stored updated in
      let is_saved : saved ≡ next_version a expected = cc in
      let is_next : stored ≡ next = cc in
      let there : load_graph a.graph.graph_id next ≡ some (next_version a expected) =
        ap (λ x. load_graph a.graph.graph_id x) (sym is_next ∙ e)
        ∙ load-write (next_version a expected) s in
      let refused =
        update_graph-stale (next_version b expected) (next_version a expected) expected next
          (ap (λ x. load_graph x next) same ∙ there) (outdated expected small) in
      (
        (current, found, same_version),
        there ∙ ap some (sym is_saved),
        is_saved,
        rw refused (ap (λ x. err (conflict "task_graph" x "expected version %d, got %d")) same),
      )
