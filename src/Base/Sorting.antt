-- ===== src/Base/Sorting.antt =====
-- `slices.SortFunc` by insertion: any order that the comparison allows between equal elements
-- would do, and this is one.
use Prim.Native.Nat.{ℕ, zero, suc, ◌≤◌}
use mathlib.Core.Path.{◌≡◌, refl}
use mathlib.Core.Logic.{◌⊎◌, inl, inr}
use mathlib.Core.Bool.{Bool, true, false}
use mathlib.Core.List.{List, [], ◌∷◌}
use native.Mathlib.Omega.{arith}
use personal_cfo_os.Base.Tests.{if◌then◌else◌, Bool-cases}
use personal_cfo_os.Base.Lists.{length, take, drop, Has, All, Has-All}

module _ {A : Type 0} (before : A → A → Bool) where
  -- `x` goes in front of the first element that does not come before it.
  unfoldable pub insert_sorted : A → List A → List A
  insert_sorted x [] = x ∷ []
  insert_sorted x (y ∷ ys) = if before y x then y ∷ insert_sorted x ys else x ∷ y ∷ ys

  unfoldable pub sort : List A → List A
  unfolding insert_sorted
  sort [] = []
  sort (x ∷ xs) = insert_sorted x (sort xs)

  Has-insert_sorted : (a x : A) (ys : List A) → Has a (insert_sorted x ys) → (a ≡ x) ⊎ Has a ys
  unfolding insert_sorted
  Has-insert_sorted a x [] m = m
  Has-insert_sorted a x (y ∷ ys) m = ground (arith, Has-insert_sorted a x ys)

  insert_sorted-Has : (a x : A) (ys : List A) → (a ≡ x) ⊎ Has a ys → Has a (insert_sorted x ys)
  unfolding insert_sorted
  insert_sorted-Has a x [] m = m
  insert_sorted-Has a x (y ∷ ys) m = ground (arith, insert_sorted-Has a x ys)

  -- Sorting keeps the elements.
  pub Has-sort : (a : A) (xs : List A) → Has a (sort xs) → Has a xs
  unfolding sort
  Has-sort a [] m = m
  Has-sort a (x ∷ xs) m = ground (arith, Has-insert_sorted a x (sort xs) m, Has-sort a xs)

  pub sort-Has : (a : A) (xs : List A) → Has a xs → Has a (sort xs)
  unfolding sort
  sort-Has a [] m = absurd m
  sort-Has a (x ∷ xs) (inl e) = insert_sorted-Has a x (sort xs) (inl e)
  sort-Has a (x ∷ xs) (inr m) = insert_sorted-Has a x (sort xs) (inr (sort-Has a xs m))

  length-insert_sorted : (x : A) (ys : List A) → length (insert_sorted x ys) ≡ suc (length ys)
  unfolding insert_sorted
  length-insert_sorted x [] = refl
  length-insert_sorted x (y ∷ ys) = ground (arith, length-insert_sorted x ys)

  pub length-sort : (xs : List A) → length (sort xs) ≡ length xs
  unfolding sort
  length-sort [] = refl
  length-sort (x ∷ xs) = omega (arith, length-insert_sorted x (sort xs), length-sort xs)

-- Ascending by a key.
module _ {A : Type 0} (key : A → ℕ) where
  abbrev pub AtLeast : ℕ → List A → Type 0
  AtLeast k = All (λ y. k ≤ key y)

  abbrev pub Ascending : List A → Type 0
  Ascending [] = Unit
  Ascending (x ∷ xs) = AtLeast (key x) xs × Ascending xs

  AtLeast-mono : (j k : ℕ) (xs : List A) → j ≤ k → AtLeast k xs → AtLeast j xs
  AtLeast-mono j k [] h all = tt
  AtLeast-mono j k (x ∷ xs) h all = (omega arith, AtLeast-mono j k xs h all.1)

  AtLeast-drop : (k n : ℕ) (xs : List A) → AtLeast k xs → AtLeast k (drop n xs)
  AtLeast-drop k zero xs all = all
  AtLeast-drop k (suc n) [] all = tt
  AtLeast-drop k (suc n) (x ∷ xs) all = AtLeast-drop k n xs all.1

  -- Of an ascending list, what `take` leaves behind comes no earlier than what it takes.
  pub take-le-drop :
      (n : ℕ) (xs : List A) (a b : A)
      → Ascending xs
      → Has a (take n xs)
      → Has b (drop n xs)
      → key a ≤ key b
  take-le-drop zero xs a b asc m k = absurd m
  take-le-drop (suc n) [] a b asc m k = absurd m
  take-le-drop (suc n) (x ∷ xs) a b asc (inl e) k =
      rw e (Has-All (λ y. key x ≤ key y) b (drop n xs) (AtLeast-drop (key x) n xs asc.0) k)
  take-le-drop (suc n) (x ∷ xs) a b asc (inr m) k = take-le-drop n xs a b asc.1 m k

-- The comparison follows the key.
pub record Follows {A : Type 0} (key : A → ℕ) (before : A → A → Bool) : Type 0 where
  pub when_before : (x y : A) → before x y ≡ true → key x ≤ key y
  pub when_not : (x y : A) → before x y ≡ false → key y ≤ key x

module _ {A : Type 0} (key : A → ℕ) (before : A → A → Bool) (f : Follows key before) where
  AtLeast-insert_sorted :
      (k : ℕ) (x : A) (ys : List A)
      → k ≤ key x
      → AtLeast key k ys
      → AtLeast key k (insert_sorted before x ys)
  unfolding insert_sorted
  AtLeast-insert_sorted k x [] h all = (h, tt)
  AtLeast-insert_sorted k x (y ∷ ys) h all = ground (arith, AtLeast-insert_sorted k x ys)

  insert_sorted-Ascending :
      (x : A) (ys : List A) → Ascending key ys → Ascending key (insert_sorted before x ys)
  unfolding insert_sorted
  insert_sorted-Ascending x [] asc = (tt, tt)
  insert_sorted-Ascending x (y ∷ ys) asc = elim (Bool-cases (before y x)) [
    | inl h ↦ rw h (
      AtLeast-insert_sorted (key y) x ys (f.when_before y x h) asc.0,
      insert_sorted-Ascending x ys asc.1,
    )
    | inr h ↦
        rw h ((f.when_not y x h, AtLeast-mono key (key x) (key y) ys (f.when_not y x h) asc.0), asc)
  ]

  pub sort-Ascending : (xs : List A) → Ascending key (sort before xs)
  unfolding sort
  sort-Ascending [] = tt
  sort-Ascending (x ∷ xs) = insert_sorted-Ascending x (sort before xs) (sort-Ascending xs)
