-- ===== src/WorkQueue/Reclaim.antt =====
-- `ReclaimExpired`: which leases it takes back.
use personal_cfo_os.Base.{
  String, ◌≡◌, refl, ap, ◌∙◌, inl, inr, Option, none, some, [], ◌∷◌, arith, ◌==◌, string_eq,
  Bool-cases, if◌then◌else◌, keep, Has, keep-Has, map-Has, true,
}
use personal_cfo_os.Base.Dict.{lookup, values, lookup-Has-values}
use personal_cfo_os.WorkQueue.Types.{Time, WorkItem}
use personal_cfo_os.WorkQueue.{
  Items, is_expired, reclaimed, reclaim_items, reclaim_result, reclaim_expired,
}
use personal_cfo_os.WorkQueue.Claims.{IsFiled}

abbrev pub reclaim_one : Time → WorkItem → WorkItem
reclaim_one now item = if is_expired now item then reclaimed now item else item

abbrev pub over : {A B : Type 0} → (A → B) → Option A → Option B
over f none = none
over f (some a) = some (f a)

-- Each entry is treated by itself.
pub lookup-reclaim_items :
    (now : Time) (items : Items) (i : String)
    → lookup i (reclaim_items now items) ≡ over (reclaim_one now) (lookup i items)
unfolding lookup reclaim_items
lookup-reclaim_items now [] i = refl
lookup-reclaim_items now ((k, item) ∷ items) i = elim (Bool-cases (k == i)) [
  | inl e ↦ rw e
  | inr e ↦ rw e (lookup-reclaim_items now items i)
]

reclaimed_id : (now : Time) (item : WorkItem) → (reclaim_one now item).id ≡ item.id
unfolding reclaimed
reclaimed_id now item = ground arith

pub reclaim_items-IsFiled :
    (now : Time) (items : Items) → IsFiled items → IsFiled (reclaim_items now items)
unfolding reclaim_items
reclaim_items-IsFiled now [] u = tt
reclaim_items-IsFiled now ((k, item) ∷ items) u = (
  reclaimed_id now item ∙ u.0,
  lookup-reclaim_items now items k ∙ ap (over (reclaim_one now)) u.1,
  reclaim_items-IsFiled now items u.2,
)

module _ (now : Time) (items : Items) (k : String) (item : WorkItem) where
  -- An item whose lease has run out is reported, and stored as the reclaimed item.
  pub reclaim_expired-Has :
      lookup k items ≡ some item
      → is_expired now item ≡ true
      → Has (reclaim_result now item) (reclaim_expired now items).1
  unfolding reclaim_expired
  reclaim_expired-Has found e =
      map-Has (reclaim_result now) item (keep (is_expired now) (values items))
        (keep-Has (is_expired now) item (values items) (lookup-Has-values k item items found) e)

  pub reclaim_expired-lookup :
      lookup k items ≡ some item
      → is_expired now item ≡ true
      → lookup k (reclaim_expired now items).0 ≡ some (reclaimed now item)
  unfolding reclaim_expired
  reclaim_expired-lookup found e =
      lookup-reclaim_items now items k
      ∙ ap (over (reclaim_one now)) found
      ∙ ap (λ b. some (if b then reclaimed now item else item)) e
