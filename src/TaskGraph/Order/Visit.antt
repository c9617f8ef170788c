-- ===== src/TaskGraph/Order/Visit.antt =====
-- What the loop over the children of a placed task keeps of the indegrees and the waiting tasks.
use personal_cfo_os.Base.{
  ℕ, suc, ◌+◌, ◌≤◌, ◌<◌, ◌≡◌, refl, sym, ap, ◌∙◌, String, Bool, true, false, Option, none, some,
  List, [], ◌∷◌, ◌++◌, length, sort, length-sort, ◌==◌, nat_eq, string_eq, eq_iff, if◌then◌else◌,
  arith, two_64, int_pred,
}
use personal_cfo_os.Base.Dict.{Dict, lookup, insert, lookup-insert}
use personal_cfo_os.TaskGraph.Order.{int_or_zero, int_at, registered_before, visit}
use personal_cfo_os.TaskGraph.Order.Counts.{
  bit, count, count-append, count-sort, settled, blocked, blocked-insert,
}

abbrev pub is_key : Option ℕ → Bool
is_key none = false
is_key (some n) = true

-- `wanted` is what the indegree of a task is to come down to, once the children that are left have
-- been visited.
pub record Tallies (wanted : String → ℕ) (placed children : List String) (indegree : Dict ℕ)
    (waiting : List String) : Type 0 where
  pub counted : (c : String) → int_or_zero (lookup c indegree) ≡ wanted c + count c children
  pub listed : (x : String) → count x waiting + count x placed ≡ settled (lookup x indegree)

int_pred_lem : (n : ℕ) → n < two_64 → 0 < n → int_pred n + 1 ≡ n
int_pred_lem n h p = omega arith

one_less :
    (o : Option ℕ) (k : ℕ)
    → int_or_zero o ≡ suc k
    → suc k < two_64
    → (o ≡ some (suc (int_pred (int_or_zero o)))) × (int_pred (int_or_zero o) ≡ k)
one_less none k h small = absurd (omega arith)
one_less (some n) k h small =
    let e : int_pred n ≡ k = omega arith in (ap some (h ∙ ap suc (sym e)), e)

count_self : (c : String) (cs : List String) → count c (c ∷ cs) ≡ suc (count c cs)
unfolding count
count_self c cs = ground (arith, eq_iff c c)

length-snoc : (c : String) (z : List String) → length (z ++ (c ∷ [])) ≡ suc (length z)
length-snoc c [] = refl
length-snoc c (x ∷ z) = ap suc (length-snoc c z)

count-tail : (x c : String) (cs : List String) → count x cs ≤ count x (c ∷ cs)
unfolding count
count-tail x c cs = omega arith

module _ (order : Dict ℕ) (wanted : String → ℕ) (placed : List String) where
  abbrev next_waiting : ℕ → String → List String → List String
  next_waiting left child z =
      if left == 0 then sort (registered_before order) (z ++ (child ∷ [])) else z

  length-next_waiting :
      (left : ℕ) (c : String) (z : List String)
      → length (next_waiting left c z) ≡ length z + bit (left == 0)
  length-next_waiting left c z =
      ground (arith, length-sort (registered_before order) (z ++ (c ∷ [])), length-snoc c z)

  count-next_waiting :
      (left : ℕ) (c x : String) (z : List String)
      → count x (next_waiting left c z) ≡ count x z + (if left == 0 then bit (c == x) else 0)
  unfolding count
  count-next_waiting left c x z =
      ground
        (arith, count-sort (registered_before order) x (z ++ (c ∷ [])), count-append x z (c ∷ []))

  module _ (c : String) (cs : List String) (indegree : Dict ℕ) (z : List String) where
    abbrev left_over : ℕ
    left_over = int_pred (int_at c indegree)

    -- The child is in the map, and its indegree falls by one.
    child_is_key :
        Tallies wanted placed (c ∷ cs) indegree z
        → wanted c + count c (c ∷ cs) < two_64
        → (lookup c indegree ≡ some (suc left_over)) × (left_over ≡ wanted c + count c cs)
    unfolding int_at
    child_is_key t small =
        one_less (lookup c indegree) (wanted c + count c cs)
          (omega (arith, t.counted c, count_self c cs)) (omega (arith, count_self c cs))

    visited-Tallies :
        Tallies wanted placed (c ∷ cs) indegree z
        → wanted c + count c (c ∷ cs) < two_64
        → Tallies wanted placed cs (insert c left_over indegree) (next_waiting left_over c z)
    unfolding count
    visited-Tallies t small =
        let (there, left) = child_is_key t small in
        record {
          counted = λ x.
              ground
                (arith, there, left, t.counted x, lookup-insert c x left_over indegree, eq_iff c x);
          listed = λ x. ground (
            arith,
            there,
            t.listed x,
            count-next_waiting left_over c x z,
            lookup-insert c x left_over indegree,
            eq_iff c x,
          );
        }

    visited-blocked :
        Tallies wanted placed (c ∷ cs) indegree z
        → wanted c + count c (c ∷ cs) < two_64
        → blocked (insert c left_over indegree) + length (next_waiting left_over c z)
          ≡ blocked indegree + length z
    visited-blocked t small =
        let (there, left) = child_is_key t small in
        ground
          (arith, there, blocked-insert c left_over indegree, length-next_waiting left_over c z)

    key_stays :
        (x : String)
        → Tallies wanted placed (c ∷ cs) indegree z
        → wanted c + count c (c ∷ cs) < two_64
        → is_key (lookup x (insert c left_over indegree)) ≡ is_key (lookup x indegree)
    key_stays x t small =
        let (there, left) = child_is_key t small in
        ground (arith, there, lookup-insert c x left_over indegree, eq_iff c x)

  -- The loop brings the indegrees down to what is wanted, and moves what is no longer blocked to the
  -- tasks that wait.
  pub visit_lem :
      (cs : List String) (indegree : Dict ℕ) (z : List String)
      → Tallies wanted placed cs indegree z
      → ((c : String) → wanted c + count c cs < two_64)
      → Tallies wanted placed [] (visit order cs indegree z).0 (visit order cs indegree z).1
        × (blocked (visit order cs indegree z).0 + length (visit order cs indegree z).1
            ≡ blocked indegree + length z)
        × ((x : String)
            → is_key (lookup x (visit order cs indegree z).0) ≡ is_key (lookup x indegree))
  unfolding visit
  visit_lem [] indegree z t small = (t, refl, λ x. refl)
  visit_lem (c ∷ cs) indegree z t small =
      let left = left_over c cs indegree z in
      let (tallies, same, keys) =
        visit_lem cs (insert c left indegree) (next_waiting left c z)
          (visited-Tallies c cs indegree z t (small c))
          (λ x. omega (arith, small x, count-tail x c cs)) in
      (
        tallies,
        same ∙ visited-blocked c cs indegree z t (small c),
        λ x. keys x ∙ key_stays c cs indegree z x t (small c),
      )
