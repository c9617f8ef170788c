-- ===== src/Stores/Executions.antt =====
-- internal/runtime/execution_store.go.
use personal_cfo_os.Base.{
  ℕ, String, ◌≡◌, refl, Bool, true, ◌&&◌, Option, none, some, List, [], ◌∷◌, ◌==◌, string_eq, ltb,
  arith, keep, sort, insert_sorted, Bool-cases, Has, Has-sort, sort-Has, Has-keep, keep-Has, All,
  Has-All, ◌≤◌, inl, inr,
}
use personal_cfo_os.Base.Dict.{Dict, lookup, values}
use personal_cfo_os.Errors.{Result}
use personal_cfo_os.Stores.Types.{TaskExecutionRecord}
use personal_cfo_os.Stores.Versioned.{Versioned, save_new, update}

instance abbrev pub execution_record : Versioned TaskExecutionRecord
execution_record = record {
  id = λ r. r.execution_id;
  version = λ r. r.version;
  at_version = λ n r. record r { version = n };
  resource = "task_execution";
  id_required = "execution id is required";
  already_exists = "execution already exists";
  id_kept = λ n r. refl;
  version_set = λ n r. refl;
}

abbrev pub Executions : Type 0
Executions = Dict TaskExecutionRecord

abbrev pub save_execution : TaskExecutionRecord → Executions → Result Executions
save_execution = save_new execution_record

abbrev pub update_execution : TaskExecutionRecord → ℕ → Executions → Result Executions
update_execution = update execution_record

abbrev pub load_execution : String → Executions → Option TaskExecutionRecord
load_execution = lookup

-- The latest start comes first.
abbrev pub started_later : TaskExecutionRecord → TaskExecutionRecord → Bool
started_later a b = ltb b.started_at a.started_at

abbrev pub is_of_task : String → String → TaskExecutionRecord → Bool
is_of_task graph_id task_id r = (r.parent_graph_id == graph_id) && (r.task_id == task_id)

abbrev pub head_of : List TaskExecutionRecord → Option TaskExecutionRecord
head_of [] = none
head_of (r ∷ rs) = some r

unfoldable pub load_latest_by_task : String → String → Executions → Option TaskExecutionRecord
load_latest_by_task graph_id task_id records =
    head_of (sort started_later (keep (is_of_task graph_id task_id) (values records)))

unfoldable pub list_executions_by_graph : String → Executions → List TaskExecutionRecord
list_executions_by_graph graph_id records =
    sort (λ a b. ltb a.started_at b.started_at)
      (keep (λ r. r.parent_graph_id == graph_id) (values records))

-- No execution in the list started later.
abbrev Latest : TaskExecutionRecord → List TaskExecutionRecord → Type 0
Latest r = All (λ x. x.started_at ≤ r.started_at)

abbrev Descending : List TaskExecutionRecord → Type 0
Descending [] = Unit
Descending (r ∷ rs) = Latest r rs × Descending rs

Latest-mono :
    (r s : TaskExecutionRecord) (xs : List TaskExecutionRecord)
    → s.started_at ≤ r.started_at
    → Latest s xs
    → Latest r xs
Latest-mono r s [] h all = tt
Latest-mono r s (x ∷ xs) h (a, all) = (omega arith, Latest-mono r s xs h all)

Latest-insert_sorted :
    (r x : TaskExecutionRecord) (ys : List TaskExecutionRecord)
    → x.started_at ≤ r.started_at
    → Latest r ys
    → Latest r (insert_sorted started_later x ys)
unfolding insert_sorted
Latest-insert_sorted r x [] h all = (h, tt)
Latest-insert_sorted r x (y ∷ ys) h all = ground (arith, Latest-insert_sorted r x ys)

insert_sorted-Descending :
    (x : TaskExecutionRecord) (ys : List TaskExecutionRecord)
    → Descending ys
    → Descending (insert_sorted started_later x ys)
unfolding insert_sorted
insert_sorted-Descending x [] d = (tt, tt)
insert_sorted-Descending x (y ∷ ys) (all, d) = elim (Bool-cases (started_later y x)) [
  | inl e ↦ rw e (Latest-insert_sorted y x ys (ground arith) all, insert_sorted-Descending x ys d)
  | inr e ↦ rw e ((ground arith, Latest-mono x y ys (ground arith) all), (all, d))
]

sort-Descending : (xs : List TaskExecutionRecord) → Descending (sort started_later xs)
unfolding sort
sort-Descending [] = tt
sort-Descending (x ∷ xs) = insert_sorted-Descending x (sort started_later xs) (sort-Descending xs)

head_of-Latest :
    (xs : List TaskExecutionRecord) (r x : TaskExecutionRecord)
    → Descending xs
    → head_of xs ≡ some r
    → Has x xs
    → Has r xs × (x.started_at ≤ r.started_at)
head_of-Latest [] r x d h m = absurd m
head_of-Latest (y ∷ ys) r x (all, d) h (inl e) = ground arith
head_of-Latest (y ∷ ys) r x (all, d) h (inr m) =
    ground (arith, Has-All (λ z. z.started_at ≤ y.started_at) x ys all m)

head_of-some :
    (xs : List TaskExecutionRecord) (x : TaskExecutionRecord)
    → Has x xs
    → (r : TaskExecutionRecord) × (head_of xs ≡ some r)
head_of-some [] x m = absurd m
head_of-some (y ∷ ys) x m = (y, refl)

-- If some stored execution is of the task, the answer is a stored execution of the task, and started
-- no earlier than that one.
pub load_latest_by_task_lem :
    (graph_id task_id : String) (records : Executions) (x : TaskExecutionRecord)
    → Has x (values records)
    → is_of_task graph_id task_id x ≡ true
    → (r : TaskExecutionRecord) × (load_latest_by_task graph_id task_id records ≡ some r)
      × Has r (values records)
      × (is_of_task graph_id task_id r ≡ true)
      × (x.started_at ≤ r.started_at)
unfolding load_latest_by_task
load_latest_by_task_lem graph_id task_id records x m e =
    let kept : List TaskExecutionRecord = keep (is_of_task graph_id task_id) (values records) in
    let there : Has x (sort started_later kept) =
      sort-Has started_later x kept
        (keep-Has (is_of_task graph_id task_id) x (values records) m e) in
    let (r, first) = head_of-some (sort started_later kept) x there in
    let (found, later) =
      head_of-Latest (sort started_later kept) r x (sort-Descending kept) first there in
    let (stored, matches) =
      Has-keep (is_of_task graph_id task_id) r (values records)
        (Has-sort started_later r kept found) in
    (r, first, stored, matches, later)
