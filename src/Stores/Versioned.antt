-- ===== src/Stores/Versioned.antt =====
-- The `Save` and `Update` that internal/runtime/approval_store.go and execution_store.go share, over
-- the interface of a record with an identifier and a version.
pub mod Updates
pub mod Sequence
use personal_cfo_os.Base.{
  ℕ, suc, String, ◌≡◌, Bool, ◌&&◌, not, Option, none, some, List, [], ◌∷◌, ◌==◌, nat_eq, string_eq,
  if◌then◌else◌, is_empty, is_pos, int_suc,
}
use personal_cfo_os.Base.Dict.{Dict, lookup, insert}
use personal_cfo_os.Errors.{Result, ok, err, RuntimeError, conflict, not_found, or_fail, ◌>>=◌}

-- A record as the stores see it, the words of its errors, and the laws that they rely on.
pub record Versioned (R : Type 0) : Type 0 where
  pub id : R → String
  pub version : R → ℕ
  pub at_version : ℕ → R → R
  pub resource : String
  pub id_required : String
  pub already_exists : String
  pub id_kept : (n : ℕ) (r : R) → id (at_version n r) ≡ id r
  pub version_set : (n : ℕ) (r : R) → version (at_version n r) ≡ n

module _ {R : Type 0} (v : Versioned R) where
  unfoldable pub save_new : R → Dict R → Result (Dict R)
  save_new r records =
      if is_empty (v.id r)
      then err (conflict v.resource "" v.id_required)
      else elim (lookup (v.id r) records) [
        | some old ↦ err (conflict v.resource (v.id r) v.already_exists)
        | none ↦ ok (insert (v.id r) (if v.version r == 0 then v.at_version 1 r else r) records)
      ]

  abbrev pub is_stale : ℕ → R → Bool
  is_stale expected current = is_pos expected && not (v.version current == expected)

  -- The test on the version and the write, for the record that is stored.
  unfoldable pub update_checked : R → ℕ → R → Dict R → Result (Dict R)
  update_checked r expected current records =
      if is_stale expected current
      then err (conflict v.resource (v.id r) "version mismatch")
      else ok (insert (v.id r) (v.at_version (int_suc (v.version current)) r) records)

  unfoldable pub update : R → ℕ → Dict R → Result (Dict R)
  unfolding update_checked
  update r expected records = do
    current ← or_fail (lookup (v.id r) records) (not_found v.resource (v.id r))
    update_checked r expected current records

  -- The updates that succeed in a series of calls that all expect the same version.
  unfoldable pub successes : ℕ → List R → Dict R → ℕ
  successes expected [] records = 0
  successes expected (r ∷ rs) records = elim (update r expected records) [
    | ok next ↦ suc (successes expected rs next)
    | err e ↦ successes expected rs records
  ]
