-- ===== src/Stores/Versioned/Sequence.antt =====
-- Series of updates of one record, each over the version that its caller expects.
use personal_cfo_os.Base.{ℕ, suc, ◌≡◌, List, [], ◌∷◌, nat_eq}
use personal_cfo_os.Base.Dict.{Dict}
use personal_cfo_os.Errors.{ok, err}
use personal_cfo_os.Stores.Versioned.{Versioned, update}

-- The numbers from the first on, one after the other.
abbrev pub Consecutive : ℕ → List ℕ → Type 0
Consecutive n [] = Unit
Consecutive n (x ∷ xs) = (x ≡ n) × Consecutive (suc n) xs

module _ {R : Type 0} (v : Versioned R) where
  -- The records that a series of calls leaves, and the versions that the successful ones expected.
  unfoldable pub run_updates : List (R × ℕ) → Dict R → Dict R × List ℕ
  run_updates [] records = (records, [])
  run_updates ((r, expected) ∷ us) records = elim (update v r expected records) [
    | ok next ↦ let (last, versions) = run_updates us next in (last, expected ∷ versions)
    | err e ↦ run_updates us records
  ]
