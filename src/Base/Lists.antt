-- ===== src/Base/Lists.antt =====
-- Lists measured by native numbers, membership and universal predicates by recursion.
use Prim.Native.Nat.{ℕ, zero, suc, ◌≤◌}
use mathlib.Core.Path.{◌≡◌, refl, sym, ap, subst}
use mathlib.Core.Logic.{◌⊎◌, inl, inr}
use mathlib.Core.Bool.{Bool, true}
use mathlib.Core.List.{List, [], ◌∷◌, map}
use mathlib.Core.Option.{Option, none, some}
use native.Mathlib.Omega.{arith}
use personal_cfo_os.Base.Tests.{if◌then◌else◌}

module _ {ℓ} {A : Type ℓ} where
  abbrev pub length : List A → ℕ
  length [] = 0
  length (x ∷ xs) = suc (length xs)

  abbrev pub take : ℕ → List A → List A
  take zero xs = []
  take (suc n) [] = []
  take (suc n) (x ∷ xs) = x ∷ take n xs

  abbrev pub drop : ℕ → List A → List A
  drop zero xs = xs
  drop (suc n) [] = []
  drop (suc n) (x ∷ xs) = drop n xs

  -- The elements that pass a test, in order.
  unfoldable pub keep : (A → Bool) → List A → List A
  keep p [] = []
  keep p (x ∷ xs) = if p x then x ∷ keep p xs else keep p xs

  -- The first element that passes a test.
  unfoldable pub find : (A → Bool) → List A → Option A
  find p [] = none
  find p (x ∷ xs) = if p x then some x else find p xs

-- Membership and universal predicates by recursion, which the tactics take apart.
module _ {A : Type 0} where
  abbrev pub Has : A → List A → Type 0
  Has a [] = ⊥
  Has a (x ∷ xs) = (a ≡ x) ⊎ Has a xs

  abbrev pub All : (A → Type 0) → List A → Type 0
  All P [] = Unit
  All P (x ∷ xs) = P x × All P xs

  pub Has-All : (P : A → Type 0) (a : A) (xs : List A) → All P xs → Has a xs → P a
  Has-All P a [] h m = absurd m
  Has-All P a (x ∷ xs) h (inl e) = subst P (sym e) h.0
  Has-All P a (x ∷ xs) h (inr m) = Has-All P a xs h.1 m

  -- What a filter keeps is what passes the test.
  pub Has-keep : (p : A → Bool) (a : A) (xs : List A) → Has a (keep p xs) → Has a xs × (p a ≡ true)
  unfolding keep
  Has-keep p a [] m = absurd m
  Has-keep p a (x ∷ xs) m = ground (arith, Has-keep p a xs)

  pub keep-Has : (p : A → Bool) (a : A) (xs : List A) → Has a xs → p a ≡ true → Has a (keep p xs)
  unfolding keep
  keep-Has p a [] m h = m
  keep-Has p a (x ∷ xs) m h = ground (arith, keep-Has p a xs)

  pub Has-take : (n : ℕ) (a : A) (xs : List A) → Has a (take n xs) → Has a xs
  Has-take zero a xs m = absurd m
  Has-take (suc n) a [] m = absurd m
  Has-take (suc n) a (x ∷ xs) (inl e) = inl e
  Has-take (suc n) a (x ∷ xs) (inr m) = inr (Has-take n a xs m)

  pub length-take-le : (n : ℕ) (xs : List A) → length (take n xs) ≤ n
  length-take-le zero xs = omega arith
  length-take-le (suc n) [] = omega arith
  length-take-le (suc n) (x ∷ xs) = omega (arith, length-take-le n xs)

  pub take-or-drop :
      (n : ℕ) (a : A) (xs : List A) → Has a xs → Has a (take n xs) ⊎ Has a (drop n xs)
  take-or-drop zero a xs m = inr m
  take-or-drop (suc n) a [] m = absurd m
  take-or-drop (suc n) a (x ∷ xs) (inl e) = inl (inl e)
  take-or-drop (suc n) a (x ∷ xs) (inr m) = ground (arith, take-or-drop n a xs)

  -- Where `take` leaves something behind it has taken all that it may.
  pub length-take_full : (n : ℕ) (a : A) (xs : List A) → Has a (drop n xs) → length (take n xs) ≡ n
  length-take_full zero a xs m = refl
  length-take_full (suc n) a [] m = absurd m
  length-take_full (suc n) a (x ∷ xs) m = ap suc (length-take_full n a xs m)

module _ {A B : Type 0} where
  pub Has-map :
      (f : A → B) (b : B) (xs : List A) → Has b (map f xs) → (a : A) × Has a xs × (b ≡ f a)
  Has-map f b [] m = absurd m
  Has-map f b (x ∷ xs) (inl e) = (x, inl refl, e)
  Has-map f b (x ∷ xs) (inr m) = let (a, there, e) = Has-map f b xs m in (a, inr there, e)

  pub map-Has : (f : A → B) (a : A) (xs : List A) → Has a xs → Has (f a) (map f xs)
  map-Has f a [] m = absurd m
  map-Has f a (x ∷ xs) (inl e) = inl (ap f e)
  map-Has f a (x ∷ xs) (inr m) = inr (map-Has f a xs m)

  pub length-map : (f : A → B) (xs : List A) → length (map f xs) ≡ length xs
  length-map f [] = refl
  length-map f (x ∷ xs) = ap suc (length-map f xs)
