-- ===== src/TaskGraph/Order/Complete.antt =====
-- What topologicalTaskOrder lists, from the maps that it sets up.
use personal_cfo_os.Base.{
  ℕ, suc, ◌+◌, ◌≤◌, ◌<◌, ◌≡◌, refl, subst, ◌∙◌, String, true, some, List, [], ◌∷◌, length,
  length-sort, sort, Has, ◌==◌, nat_eq, string_eq, eq_iff, if◌then◌else◌, arith, two_64, int_suc,
  inl, inr,
}
use personal_cfo_os.Base.Dict.{Dict, lookup, insert, lookup-insert}
use personal_cfo_os.TaskSpec.{TaskDependency}
use personal_cfo_os.TaskGraph.{FollowUpTaskRecord}
use personal_cfo_os.TaskGraph.Order.{
  int_or_zero, int_at, no_indegree, count_dependencies, without_upstream, indegrees,
  registered_before, order_by_registration, topological_task_order,
}
use personal_cfo_os.TaskGraph.Order.Counts.{
  count, count-sort, pending, HasOneEntryEach, insert-HasOneEntryEach, count-without_upstream,
  blocked, length-without_upstream,
}
use personal_cfo_os.TaskGraph.Order.Visit.{is_key, Tallies}
use personal_cfo_os.TaskGraph.Order.Rounds.{
  BehindUpstream, WaitsOutside, order_from_lem, placed_after, count-placed_after, pending_ext,
  pending-WaitsOutside,
}

length-insert-le : (k : String) (n : ℕ) (m : Dict ℕ) → length (insert k n m) ≤ suc (length m)
unfolding insert
length-insert-le k n [] = omega arith
length-insert-le k n ((j, i) ∷ m) = ground (arith, length-insert-le k n m)

length-no_indegree :
    (rs : List FollowUpTaskRecord) (m : Dict ℕ) → length (no_indegree rs m) ≤ length rs + length m
unfolding no_indegree
length-no_indegree [] m = omega arith
length-no_indegree (r ∷ rs) m =
    omega (arith, length-no_indegree rs (insert r.task.id 0 m), length-insert-le r.task.id 0 m)

no_indegree-HasOneEntryEach :
    (rs : List FollowUpTaskRecord) (m : Dict ℕ)
    → HasOneEntryEach m
    → HasOneEntryEach (no_indegree rs m)
unfolding no_indegree
no_indegree-HasOneEntryEach [] m u = u
no_indegree-HasOneEntryEach (r ∷ rs) m u =
    no_indegree-HasOneEntryEach rs (insert r.task.id 0 m) (insert-HasOneEntryEach r.task.id 0 m u)

no_indegree-zero :
    (rs : List FollowUpTaskRecord) (m : Dict ℕ) (x : String)
    → int_or_zero (lookup x m) ≡ 0
    → int_or_zero (lookup x (no_indegree rs m)) ≡ 0
unfolding no_indegree
no_indegree-zero [] m x h = h
no_indegree-zero (r ∷ rs) m x h =
    no_indegree-zero rs (insert r.task.id 0 m) x (ground (arith, lookup-insert r.task.id x 0 m))

is_key-no_indegree_old :
    (rs : List FollowUpTaskRecord) (m : Dict ℕ) (x : String)
    → is_key (lookup x m) ≡ true
    → is_key (lookup x (no_indegree rs m)) ≡ true
unfolding no_indegree
is_key-no_indegree_old [] m x h = h
is_key-no_indegree_old (r ∷ rs) m x h =
    is_key-no_indegree_old rs (insert r.task.id 0 m) x
      (ground (arith, lookup-insert r.task.id x 0 m))

is_key-no_indegree :
    (r : FollowUpTaskRecord) (rs : List FollowUpTaskRecord) (m : Dict ℕ)
    → Has r rs
    → is_key (lookup r.task.id (no_indegree rs m)) ≡ true
unfolding no_indegree
is_key-no_indegree r [] m h = absurd h
is_key-no_indegree r (q ∷ rs) m (inl e) = rw e (
    is_key-no_indegree_old rs (insert q.task.id 0 m) q.task.id
      (ground (arith, lookup-insert q.task.id q.task.id 0 m, eq_iff q.task.id q.task.id)))
is_key-no_indegree r (q ∷ rs) m (inr h) = is_key-no_indegree r rs (insert q.task.id 0 m) h

length-count_dependencies :
    (deps : List TaskDependency) (m : Dict ℕ)
    → length (count_dependencies deps m) ≤ length deps + length m
unfolding count_dependencies
length-count_dependencies [] m = omega arith
length-count_dependencies (d ∷ deps) m =
    let n = int_suc (int_at d.downstream_task_id m) in
    omega (
      arith,
      length-count_dependencies deps (insert d.downstream_task_id n m),
      length-insert-le d.downstream_task_id n m,
    )

count_dependencies-HasOneEntryEach :
    (deps : List TaskDependency) (m : Dict ℕ)
    → HasOneEntryEach m
    → HasOneEntryEach (count_dependencies deps m)
unfolding count_dependencies
count_dependencies-HasOneEntryEach [] m u = u
count_dependencies-HasOneEntryEach (d ∷ deps) m u =
    let n = int_suc (int_at d.downstream_task_id m) in
    count_dependencies-HasOneEntryEach deps (insert d.downstream_task_id n m)
      (insert-HasOneEntryEach d.downstream_task_id n m u)

is_key-count_dependencies :
    (deps : List TaskDependency) (m : Dict ℕ) (x : String)
    → is_key (lookup x m) ≡ true
    → is_key (lookup x (count_dependencies deps m)) ≡ true
unfolding count_dependencies
is_key-count_dependencies [] m x h = h
is_key-count_dependencies (d ∷ deps) m x h =
    let n = int_suc (int_at d.downstream_task_id m) in
    is_key-count_dependencies deps (insert d.downstream_task_id n m) x
      (ground (arith, lookup-insert d.downstream_task_id x n m))

-- Each dependency is counted once, and the counts do not wrap.
count_dependencies_lem :
    (deps : List TaskDependency) (m : Dict ℕ) (x : String)
    → ((y : String) → int_or_zero (lookup y m) + length deps < two_64)
    → int_or_zero (lookup x (count_dependencies deps m))
      ≡ int_or_zero (lookup x m) + pending deps [] x
unfolding count_dependencies pending int_at count
count_dependencies_lem [] m x h = omega arith
count_dependencies_lem (d ∷ deps) m x h =
    let n = int_suc (int_or_zero (lookup d.downstream_task_id m)) in
    let step : (y : String)
        → int_or_zero (lookup y (insert d.downstream_task_id n m))
          ≡ int_or_zero (lookup y m) + (if d.downstream_task_id == y then 1 else 0) =
      λ y. ground (
        arith,
        h d.downstream_task_id,
        lookup-insert d.downstream_task_id y n m,
        eq_iff d.downstream_task_id y,
      ) in
    ground (
      arith,
      step x,
      count_dependencies_lem deps (insert d.downstream_task_id n m) x
          (λ y. ground (arith, step y, h y)),
    )

start-Tallies :
    (deps : List TaskDependency) (records : List FollowUpTaskRecord) (order : Dict ℕ)
    → length deps < two_64
    → Tallies
        (pending deps [])
        []
        []
        (indegrees deps records)
        (sort (registered_before order) (without_upstream (indegrees deps records)))
unfolding indegrees count lookup
start-Tallies deps records order small =
    let m = no_indegree records [] in
    let zero_at = λ (y : String). no_indegree-zero records [] y refl in
    record {
      counted = λ c.
          omega (arith, zero_at c, count_dependencies_lem deps m c (λ y. omega (arith, zero_at y)));
      listed = λ x. omega (
        arith,
        count-sort (registered_before order) x (without_upstream (count_dependencies deps m)),
        count-without_upstream x (count_dependencies deps m)
            (count_dependencies-HasOneEntryEach deps m (no_indegree-HasOneEntryEach records [] tt)),
      );
    }

enough_rounds :
    (deps : List TaskDependency) (records : List FollowUpTaskRecord) (order : Dict ℕ)
    → blocked (indegrees deps records)
        + length (sort (registered_before order) (without_upstream (indegrees deps records)))
      ≤ length records + length deps
unfolding indegrees
enough_rounds deps records order =
    let m = no_indegree records [] in
    omega (
      arith,
      length-sort (registered_before order) (without_upstream (count_dependencies deps m)),
      length-without_upstream (count_dependencies deps m),
      length-count_dependencies deps m,
      length-no_indegree records [],
    )

is_key-indegrees :
    (deps : List TaskDependency) (records : List FollowUpTaskRecord) (r : FollowUpTaskRecord)
    → Has r records
    → is_key (lookup r.task.id (indegrees deps records)) ≡ true
unfolding indegrees
is_key-indegrees deps records r h =
    is_key-count_dependencies deps (no_indegree records []) r.task.id
      (is_key-no_indegree r records [] h)

-- For fewer than 2 ^ 64 dependencies, as many rounds as there are registered tasks and dependencies
-- are enough for the topological order. It lists no task twice and each one behind all that it depends
-- on, and a registered task that it leaves out depends on a task that it leaves out as well.
pub topological_task_order_lem :
    (rounds : ℕ) (deps : List TaskDependency) (records : List FollowUpTaskRecord)
    → length deps < two_64
    → length records + length deps ≤ rounds
    → (order : List String) × (topological_task_order rounds deps records ≡ some order)
      × ((x : String) → count x order ≤ 1)
      × BehindUpstream deps [] order
      × ((r : FollowUpTaskRecord)
          → Has r records
          → count r.task.id order ≡ 0
          → WaitsOutside deps order r.task.id)
unfolding topological_task_order
topological_task_order_lem rounds deps records small enough =
    let order = order_by_registration records [] in
    let indegree = indegrees deps records in
    let (xs, e, o) =
      order_from_lem order deps rounds indegree
        (sort (registered_before order) (without_upstream indegree)) [] small
        (start-Tallies deps records order small)
        (omega (arith, enough_rounds deps records order)) in
    let same : (u : String) → count u (placed_after [] xs) ≡ count u xs =
      λ u. unfold count in omega (arith, count-placed_after u [] xs) in
    (
      xs,
      e,
      λ x. unfold count in omega (arith, o.once x),
      o.behind,
      λ r m n. pending-WaitsOutside deps xs r.task.id (
          subst (λ k. 0 < k) (pending_ext deps (placed_after [] xs) xs r.task.id same)
            (o.rest r.task.id (is_key-indegrees deps records r m) (same r.task.id ∙ n))),
    )
