-- ===== src/Base/Dict.antt =====
-- Go's `map[string]V` as an association list with one entry to a key. The order of the list stands
-- for the order in which `range` visits the map.
use Prim.Native.String.{String}
use mathlib.Core.Path.{◌≡◌, refl}
use mathlib.Core.Logic.{◌≢◌}
use mathlib.Core.Bool.{Bool, false}
use mathlib.Core.List.{List, [], ◌∷◌}
use mathlib.Core.Option.{Option, none, some}
use native.Mathlib.Omega.{arith}
use text.Mathlib.TextEquality.{eq_iff}
use personal_cfo_os.Base.Tests.{if◌then◌else◌, ◌==◌, string_eq}
use personal_cfo_os.Base.Lists.{find, Has}

abbrev pub Dict : Type 0 → Type 0
Dict V = List (String × V)

module _ {V : Type 0} where
  unfoldable pub lookup : String → Dict V → Option V
  lookup key [] = none
  lookup key ((name, value) ∷ rest) = if name == key then some value else lookup key rest

  -- `m[key] = value`: in place for a key that is there, a new entry otherwise.
  unfoldable pub insert : String → V → Dict V → Dict V
  insert key new [] = (key, new) ∷ []
  insert key new ((name, value) ∷ rest) =
      if name == key then (key, new) ∷ rest else (name, value) ∷ insert key new rest

  -- `delete(m, k)`
  unfoldable pub delete : String → Dict V → Dict V
  delete k [] = []
  delete k ((j, v) ∷ m) = if j == k then delete k m else (j, v) ∷ delete k m

  -- `for _, v := range m`
  unfoldable pub values : Dict V → List V
  values [] = []
  values ((j, v) ∷ m) = v ∷ values m

  pub lookup-insert :
      (key other : String) (new : V) (m : Dict V)
      → lookup other (insert key new m) ≡ (if key == other then some new else lookup other m)
  unfolding lookup insert
  lookup-insert key other new [] = refl
  lookup-insert key other new ((name, value) ∷ rest) = ground (
    arith,
    lookup-insert key other new rest,
    eq_iff name key,
    eq_iff name other,
    eq_iff key other,
  )

  pub lookup-insert_self : (k : String) (v : V) (m : Dict V) → lookup k (insert k v m) ≡ some v
  lookup-insert_self k v m = rw (lookup-insert k k v m, (eq_iff k k).1 refl)

  pub lookup-insert_ne :
      (k j : String) (v : V) (m : Dict V) → k ≢ j → lookup j (insert k v m) ≡ lookup j m
  lookup-insert_ne k j v m h = ground (arith, eq_iff k j, lookup-insert k j v m)

  pub lookup-delete :
      (k j : String) (m : Dict V) → lookup j (delete k m) ≡ (if k == j then none else lookup j m)
  unfolding lookup delete
  lookup-delete k j [] = ground arith
  lookup-delete k j ((i, w) ∷ m) =
      ground (arith, eq_iff k j, eq_iff i k, eq_iff i j, lookup-delete k j m)

  pub lookup-Has-values : (k : String) (v : V) (m : Dict V) → lookup k m ≡ some v → Has v (values m)
  unfolding lookup values
  lookup-Has-values k v [] h = cc
  lookup-Has-values k v ((j, w) ∷ m) h = ground (arith, lookup-Has-values k v m)

  -- A scan that finds nothing has looked at every entry.
  pub find-eq-none :
      (p : V → Bool) (k : String) (v : V) (m : Dict V)
      → find p (values m) ≡ none
      → lookup k m ≡ some v
      → p v ≡ false
  unfolding lookup values find
  find-eq-none p k v [] n h = cc
  find-eq-none p k v ((j, w) ∷ m) n h = ground (arith, find-eq-none p k v m)

-- One entry to a key, filed under the value's own identifier.
module _ {V : Type 0} (id : V → String) where
  abbrev pub IsKeyed : Dict V → Type 0
  IsKeyed [] = Unit
  IsKeyed ((k, v) ∷ m) = (id v ≡ k) × (lookup k m ≡ none) × IsKeyed m

  -- An item is stored under its own identifier.
  pub lookup-id : (k : String) (v : V) (m : Dict V) → IsKeyed m → lookup k m ≡ some v → id v ≡ k
  unfolding lookup
  lookup-id k v [] u h = cc
  lookup-id k v ((j, w) ∷ m) u h = ground (arith, eq_iff j k, lookup-id k v m)

  -- What a scan meets is what a lookup finds.
  pub Has-values-lookup :
      (v : V) (m : Dict V) → IsKeyed m → Has v (values m) → lookup (id v) m ≡ some v
  unfolding lookup values
  Has-values-lookup v [] u h = absurd h
  Has-values-lookup v ((j, w) ∷ m) u h =
      ground (arith, eq_iff j (id v), eq_iff j (id w), Has-values-lookup v m)

  pub insert-IsKeyed :
      (k : String) (v : V) (m : Dict V) → IsKeyed m → id v ≡ k → IsKeyed (insert k v m)
  unfolding lookup insert
  insert-IsKeyed k v [] u e = (e, refl, tt)
  insert-IsKeyed k v ((j, w) ∷ m) u e =
      ground (arith, eq_iff j k, eq_iff k j, lookup-insert k j v m, insert-IsKeyed k v m)

  pub delete-IsKeyed : (k : String) (m : Dict V) → IsKeyed m → IsKeyed (delete k m)
  unfolding lookup delete
  delete-IsKeyed k [] u = tt
  delete-IsKeyed k ((j, w) ∷ m) u = ground (arith, lookup-delete k j m, delete-IsKeyed k m)
