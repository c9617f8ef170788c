-- ===== src/TaskGraph/Order/Counts.antt =====
-- How often the lists of the topological order hold a task.
use personal_cfo_os.Base.{
  ℕ, ◌+◌, ◌≤◌, ◌≡◌, refl, String, Bool, true, false, not, Option, none, some, List, [], ◌∷◌, ◌++◌,
  keep, length, sort, insert_sorted, ◌==◌, nat_eq, string_eq, eq_iff, if◌then◌else◌, arith,
}
use personal_cfo_os.Base.Dict.{Dict, lookup, insert, lookup-insert}
use personal_cfo_os.TaskSpec.{TaskDependency}
use personal_cfo_os.TaskGraph.Order.{downstream, without_upstream}

abbrev pub bit : Bool → ℕ
bit true = 1
bit false = 0

unfoldable pub count : String → List String → ℕ
count x [] = 0
count x (y ∷ ys) = bit (y == x) + count x ys

pub count-append : (x : String) (xs ys : List String) → count x (xs ++ ys) ≡ count x xs + count x ys
unfolding count
count-append x [] ys = omega arith
count-append x (y ∷ xs) ys = omega (arith, count-append x xs ys)

module _ (before : String → String → Bool) where
  count-insert_sorted :
      (x y : String) (ys : List String) → count x (insert_sorted before y ys) ≡ count x (y ∷ ys)
  unfolding count insert_sorted
  count-insert_sorted x y [] = refl
  count-insert_sorted x y (z ∷ ys) = ground (arith, count-insert_sorted x y ys)

  pub count-sort : (x : String) (xs : List String) → count x (sort before xs) ≡ count x xs
  unfolding count sort
  count-sort x [] = refl
  count-sort x (y ∷ ys) = ground (arith, count-insert_sorted x y (sort before ys), count-sort x ys)

-- The dependencies of a task on tasks that were not yet placed.
unfoldable pub pending : List TaskDependency → List String → String → ℕ
pending [] placed task_id = 0
pending (dep ∷ deps) placed task_id =
    (if dep.downstream_task_id == task_id then bit (count dep.upstream_task_id placed == 0) else 0)
    + pending deps placed task_id

pub pending-le-length :
    (deps : List TaskDependency) (placed : List String) (x : String)
    → pending deps placed x ≤ length deps
unfolding pending
pending-le-length [] placed x = omega arith
pending-le-length (dep ∷ deps) placed x = ground (arith, pending-le-length deps placed x)

-- Placing a task takes its own dependencies off those that are pending.
pub pending-place :
    (deps : List TaskDependency) (placed : List String) (u x : String)
    → count u placed ≡ 0
    → pending deps placed x ≡ pending deps (u ∷ placed) x + count x (downstream deps u)
unfolding pending count downstream keep
pending-place [] placed u x h = omega arith
pending-place (dep ∷ deps) placed u x h = ground (
  arith,
  pending-place deps placed u x,
  eq_iff u dep.upstream_task_id,
  eq_iff dep.upstream_task_id u,
  eq_iff dep.downstream_task_id x,
)

-- 1 for a task whose indegree is in the map and has come down to 0.
abbrev pub settled : Option ℕ → ℕ
settled none = 0
settled (some n) = bit (n == 0)

abbrev pub unsettled : Option ℕ → ℕ
unsettled none = 0
unsettled (some n) = bit (not (n == 0))

abbrev pub HasOneEntryEach : Dict ℕ → Type 0
HasOneEntryEach [] = Unit
HasOneEntryEach ((k, n) ∷ m) = (lookup k m ≡ none) × HasOneEntryEach m

pub insert-HasOneEntryEach :
    (k : String) (n : ℕ) (m : Dict ℕ) → HasOneEntryEach m → HasOneEntryEach (insert k n m)
unfolding lookup insert
insert-HasOneEntryEach k n [] u = (refl, tt)
insert-HasOneEntryEach k n ((j, i) ∷ m) u =
    ground (arith, eq_iff j k, eq_iff k j, lookup-insert k j n m, insert-HasOneEntryEach k n m)

pub count-without_upstream :
    (x : String) (m : Dict ℕ)
    → HasOneEntryEach m
    → count x (without_upstream m) ≡ settled (lookup x m)
unfolding count without_upstream lookup
count-without_upstream x [] u = refl
count-without_upstream x ((k, n) ∷ m) u = ground (arith, eq_iff k x, count-without_upstream x m)

-- How many tasks of the map still wait for one that comes before them.
unfoldable pub blocked : Dict ℕ → ℕ
blocked [] = 0
blocked ((k, n) ∷ m) = bit (not (n == 0)) + blocked m

pub blocked-insert :
    (k : String) (n : ℕ) (m : Dict ℕ)
    → blocked (insert k n m) + unsettled (lookup k m) ≡ blocked m + bit (not (n == 0))
unfolding blocked insert lookup
blocked-insert k n [] = omega arith
blocked-insert k n ((j, i) ∷ m) = ground (arith, eq_iff j k, blocked-insert k n m)

pub length-without_upstream : (m : Dict ℕ) → length (without_upstream m) + blocked m ≡ length m
unfolding blocked without_upstream
length-without_upstream [] = refl
length-without_upstream ((k, n) ∷ m) = ground (arith, length-without_upstream m)
