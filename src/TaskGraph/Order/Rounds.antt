-- ===== src/TaskGraph/Order/Rounds.antt =====
-- The outer loop of the topological order: it ends, and what it lists.
use personal_cfo_os.Base.{
  ℕ, zero, suc, ◌+◌, ◌≤◌, ◌<◌, ◌≡◌, refl, sym, ap, ◌∙◌, String, true, Option, none, some, List, [],
  ◌∷◌, length, sort, Has, ◌==◌, nat_eq, string_eq, eq_iff, arith, two_64, inl, inr, Bool-cases,
}
use personal_cfo_os.Base.Dict.{Dict, lookup}
use personal_cfo_os.TaskSpec.{TaskDependency}
use personal_cfo_os.TaskGraph.Order.{downstream, registered_before, visit, in_front, order_from}
use personal_cfo_os.TaskGraph.Order.Counts.{
  count, count-sort, pending, pending-le-length, pending-place, settled, blocked,
}
use personal_cfo_os.TaskGraph.Order.Visit.{is_key, Tallies, visit_lem}

-- Each task of the list stands behind the tasks that it depends on.
abbrev pub BehindUpstream : List TaskDependency → List String → List String → Type 0
BehindUpstream deps placed [] = Unit
BehindUpstream deps placed (x ∷ xs) =
    ((dep : TaskDependency)
      → Has dep deps
      → dep.downstream_task_id ≡ x
      → 0 < count dep.upstream_task_id placed)
    × BehindUpstream deps (x ∷ placed) xs

-- A task that depends on one that is not in the list.
abbrev pub WaitsOutside : List TaskDependency → List String → String → Type 0
WaitsOutside deps order x =
    (dep : TaskDependency) × Has dep deps
    × (dep.downstream_task_id ≡ x)
    × (count dep.upstream_task_id order ≡ 0)

pending-head :
    (d : TaskDependency) (deps : List TaskDependency) (placed : List String) (x : String)
    → pending (d ∷ deps) placed x ≡ 0
    → d.downstream_task_id ≡ x
    → 0 < count d.upstream_task_id placed
unfolding pending
pending-head d deps placed x h e = ground (arith, eq_iff d.downstream_task_id x)

pending-none :
    (deps : List TaskDependency) (placed : List String) (x : String)
    → pending deps placed x ≡ 0
    → (dep : TaskDependency) → Has dep deps
    → dep.downstream_task_id ≡ x
    → 0 < count dep.upstream_task_id placed
unfolding pending
pending-none [] placed x h dep m e = absurd m
pending-none (d ∷ deps) placed x h dep (inl q) e =
    rw q (pending-head d deps placed x h (sym (ap (λ y. y.downstream_task_id) q) ∙ e))
pending-none (d ∷ deps) placed x h dep (inr m) e = pending-none deps placed x (omega arith) dep m e

pub pending-WaitsOutside :
    (deps : List TaskDependency) (placed : List String) (x : String)
    → 0 < pending deps placed x
    → WaitsOutside deps placed x
unfolding pending
pending-WaitsOutside [] placed x h = absurd (omega arith)
pending-WaitsOutside (d ∷ deps) placed x h = elim (Bool-cases (d.downstream_task_id == x)) [
  | inr e ↦
      let (dep, m, q, n) = pending-WaitsOutside deps placed x (ground arith) in (dep, inr m, q, n)
  | inl e ↦ elim (Bool-cases (count d.upstream_task_id placed == 0)) [
    | inl n ↦ (d, inl refl, (eq_iff d.downstream_task_id x).0 e, ground arith)
    | inr n ↦
        let (dep, m, q, k) = pending-WaitsOutside deps placed x (ground arith) in (dep, inr m, q, k)
  ]
]

pub pending_ext :
    (deps : List TaskDependency) (p q : List String) (x : String)
    → ((u : String) → count u p ≡ count u q)
    → pending deps p x ≡ pending deps q x
unfolding pending
pending_ext [] p q x h = refl
pending_ext (d ∷ deps) p q x h = rw (h d.upstream_task_id, pending_ext deps p q x h)

-- The tasks that are placed once those of a list have been placed in turn.
abbrev pub placed_after : List String → List String → List String
placed_after placed [] = placed
placed_after placed (x ∷ xs) = placed_after (x ∷ placed) xs

pub count-placed_after :
    (u : String) (placed xs : List String)
    → count u (placed_after placed xs) ≡ count u placed + count u xs
unfolding count
count-placed_after u placed [] = omega arith
count-placed_after u placed (x ∷ xs) = omega (arith, count-placed_after u (x ∷ placed) xs)

count-place :
    (x u : String) (placed xs : List String)
    → count x placed + count x (u ∷ xs) ≡ count x (u ∷ placed) + count x xs
unfolding count
count-place x u placed xs = omega arith

module _ (order : Dict ℕ) (deps : List TaskDependency) where
  pub record Ordered (indegree : Dict ℕ) (placed xs : List String) : Type 0 where
    pub behind : BehindUpstream deps placed xs
    pub once : (x : String) → count x placed + count x xs ≤ 1
    pub rest :
        (x : String)
        → is_key (lookup x indegree) ≡ true
        → count x (placed_after placed xs) ≡ 0
        → 0 < pending deps (placed_after placed xs) x

  settled-le : (o : Option ℕ) → settled o ≤ 1
  settled-le none = omega arith
  settled-le (some n) = ground arith

  at_end :
      (indegree : Dict ℕ) (placed : List String)
      → Tallies (pending deps placed) placed [] indegree []
      → Ordered indegree placed []
  unfolding count
  at_end indegree placed t = record {
    behind = tt;
    once = λ x. omega (arith, t.listed x, settled-le (lookup x indegree));
    rest = λ x k n. ground (arith, t.listed x, t.counted x);
  }

  -- What the head of the waiting tasks brings to a round.
  head_ready :
      (u : String) (z placed : List String) (indegree : Dict ℕ)
      → Tallies (pending deps placed) placed [] indegree (u ∷ z)
      → (count u placed ≡ 0) × (pending deps placed u ≡ 0) × (count u z ≡ 0)
  unfolding count
  head_ready u z placed indegree t =
      ground (arith, t.listed u, t.counted u, eq_iff u u, settled-le (lookup u indegree))

  place-Tallies :
      (u : String) (z placed : List String) (indegree : Dict ℕ)
      → Tallies (pending deps placed) placed [] indegree (u ∷ z)
      → Tallies
          (pending deps (u ∷ placed))
          (u ∷ placed)
          (sort (registered_before order) (downstream deps u))
          indegree
          z
  unfolding count
  place-Tallies u z placed indegree t =
      let (new, free, away) = head_ready u z placed indegree t in
      record {
        counted = λ c. omega (
          arith,
          t.counted c,
          pending-place deps placed u c new,
          count-sort (registered_before order) c (downstream deps u),
        );
        listed = λ x. omega (arith, t.listed x);
      }

  -- With a round for each task that waits or is blocked, the loop ends.
  pub order_from_lem :
      (rounds : ℕ) (indegree : Dict ℕ) (waiting placed : List String)
      → length deps < two_64
      → Tallies (pending deps placed) placed [] indegree waiting
      → blocked indegree + length waiting ≤ rounds
      → (xs : List String) × (order_from order deps rounds indegree waiting ≡ some xs)
        × Ordered indegree placed xs
  unfolding order_from
  order_from_lem rounds indegree [] placed small t enough = ([], refl, at_end indegree placed t)
  order_from_lem zero indegree (u ∷ waiting) placed small t enough = absurd (omega arith)
  order_from_lem (suc rounds) indegree (u ∷ waiting) placed small t enough =
      let children = sort (registered_before order) (downstream deps u) in
      let (new, free, away) = head_ready u waiting placed indegree t in
      let (tallies, same, keys) =
        visit_lem order (pending deps (u ∷ placed)) (u ∷ placed) children indegree waiting
          (place-Tallies u waiting placed indegree t)
          (λ c. omega (
            arith,
            pending-place deps placed u c new,
            count-sort (registered_before order) c (downstream deps u),
            pending-le-length deps placed c,
          )) in
      let (next, left) = visit order children indegree waiting in
      let (xs, e, o) = order_from_lem rounds next left (u ∷ placed) small tallies (omega arith) in
      (
        u ∷ xs,
        ap (in_front order u) e,
        record {
          behind = (pending-none deps placed u free, o.behind);
          once = λ x. omega (arith, count-place x u placed xs, o.once x);
          rest = λ x k n. o.rest x (keys x ∙ k) n;
        },
      )
