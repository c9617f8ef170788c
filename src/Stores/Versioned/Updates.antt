-- ===== src/Stores/Versioned/Updates.antt =====
-- No update is lost: of the updates that expect one version, one succeeds.
use personal_cfo_os.Base.{
  ℕ, ◌≤◌, String, ◌≡◌, ◌≢◌, refl, sym, subst, true, false, none, some, List, [], ◌∷◌, nat_eq,
  string_eq, is_pos, is_empty, int_suc, int_suc-ne, arith, All, Bool, ◌==◌, if◌then◌else◌,
  Bool-cases, Option-cases, inl, inr,
}
use personal_cfo_os.Base.Dict.{Dict, lookup, insert, lookup-insert_self, lookup-insert_ne}
use personal_cfo_os.Errors.{ok, err, conflict, or_fail, >>=-ok, or_fail-ok, Result-cases}
use personal_cfo_os.Stores.Versioned.{
  Versioned, save_new, is_stale, update_checked, update, successes,
}

module _ {R : Type 0} (v : Versioned R) where
  update_checked-ok :
      (r current : R) (expected : ℕ) (records next : Dict R)
      → update_checked v r expected current records ≡ ok next
      → (is_stale v expected current ≡ false)
        × (next ≡ insert (v.id r) (v.at_version (int_suc (v.version current)) r) records)
  unfolding update_checked
  update_checked-ok r current expected records next h =
      elim (Bool-cases (is_stale v expected current)) [
        | inl e ↦
            let at : err (conflict v.resource (v.id r) "version mismatch") ≡ ok next =
              rw (e, update_checked) at h in
            cc
        | inr e ↦
            let at : ok (insert (v.id r) (v.at_version (int_suc (v.version current)) r) records)
                ≡ ok next =
              rw (e, update_checked) at h in
            (e, cc)
      ]

  -- An update that succeeds found a record that did not contradict the expected version, and stores
  -- the new one in its place with the next version; the other records stay.
  pub update-lookup :
      (r : R) (expected : ℕ) (records next : Dict R)
      → update v r expected records ≡ ok next
      → (current : R) × (lookup (v.id r) records ≡ some current)
        × (is_stale v expected current ≡ false)
        × (lookup (v.id r) next ≡ some (v.at_version (int_suc (v.version current)) r))
        × ((other : String) → v.id r ≢ other → lookup other next ≡ lookup other records)
  unfolding update
  update-lookup r expected records next h =
      let (current, found, checked) = >>=-ok (or_fail (lookup (v.id r) records) _) _ next h in
      let (fresh, stored) = update_checked-ok r current expected records next checked in
      (
        current,
        or_fail-ok (lookup (v.id r) records) _ current found,
        fresh,
        rw (
          stored,
          lookup-insert_self (v.id r) (v.at_version (int_suc (v.version current)) r) records,
        ),
        λ other ne. rw (
          stored,
          lookup-insert_ne (v.id r) other (v.at_version (int_suc (v.version current)) r) records ne,
        ),
      )

  update-stale :
      (r current : R) (expected : ℕ) (records : Dict R)
      → lookup (v.id r) records ≡ some current
      → is_stale v expected current ≡ true
      → update v r expected records ≡ err (conflict v.resource (v.id r) "version mismatch")
  unfolding update update_checked
  update-stale r current expected records found e = rw (found, update) (rw (e))

  -- Nothing succeeds against a record of another version.
  successes-stale :
      (k : String) (expected : ℕ) (rs : List R) (current : R) (records : Dict R)
      → All (λ r. v.id r ≡ k) rs
      → lookup k records ≡ some current
      → is_stale v expected current ≡ true
      → successes v expected rs records ≡ 0
  unfolding successes
  successes-stale k expected [] current records all found e = refl
  successes-stale k expected (r ∷ rs) current records (same, all) found e =
      let there : lookup (v.id r) records ≡ some current =
        subst (λ x. lookup x records ≡ some current) (sym same) found in
      rw (update-stale r current expected records there e, successes)
        (successes-stale k expected rs current records all found e)

  -- A record that was written over the expected version has left it.
  outdated :
      (r current : R) (expected : ℕ)
      → is_pos expected ≡ true
      → is_stale v expected current ≡ false
      → is_stale v expected (v.at_version (int_suc (v.version current)) r) ≡ true
  outdated r current expected p fresh =
      rw (v.version_set (int_suc (v.version current)) r) (ground (arith, int_suc-ne expected))

  -- Of the updates of one record that expect the same version, at most one succeeds.
  pub successes_bound :
      (k : String) (expected : ℕ) (rs : List R) (records : Dict R)
      → All (λ r. v.id r ≡ k) rs
      → is_pos expected ≡ true
      → successes v expected rs records ≤ 1
  unfolding successes
  successes_bound k expected [] records all p = omega arith
  successes_bound k expected (r ∷ rs) records (same, all) p =
      elim (Result-cases (update v r expected records)) [
        | inr (e, failed) ↦ rw (failed, successes) (successes_bound k expected rs records all p)
        | inl (next, done) ↦
            let (current, found, fresh, stored, others) =
              update-lookup r expected records next done in
            let there : lookup k next ≡ some (v.at_version (int_suc (v.version current)) r) =
              subst (λ x. lookup x next ≡ some (v.at_version (int_suc (v.version current)) r)) same
                stored in
            let none_after : successes v expected rs next ≡ 0 =
              successes-stale k expected rs (v.at_version (int_suc (v.version current)) r) next all
                there (outdated r current expected p fresh) in
            rw (done, successes) (rw none_after (omega arith))
      ]

  if-id : (b : Bool) (r : R) → v.id (if b then v.at_version 1 r else r) ≡ v.id r
  if-id true r = v.id_kept 1 r
  if-id false r = refl

  save_new-ok :
      (r : R) (records next : Dict R)
      → save_new v r records ≡ ok next
      → (lookup (v.id r) records ≡ none)
        × (next ≡ insert (v.id r) (if v.version r == 0 then v.at_version 1 r else r) records)
  unfolding save_new
  save_new-ok r records next h = elim (Bool-cases (is_empty (v.id r))) [
    | inl e ↦
        let at : err (conflict v.resource "" v.id_required) ≡ ok next = rw (e, save_new) at h in cc
    | inr e ↦ elim (Option-cases (lookup (v.id r) records)) [
      | inr (old, there) ↦
          let at : err (conflict v.resource (v.id r) v.already_exists) ≡ ok next =
            rw (e, there, save_new) at h in
          cc
      | inl free ↦
          let at : ok (insert (v.id r) (if v.version r == 0 then v.at_version 1 r else r) records)
              ≡ ok next =
            rw (e, free, save_new) at h in
          (free, cc)
    ]
  ]

  -- A save that succeeds stores the record, with a version, under an identifier that was free.
  pub save_new-lookup :
      (r : R) (records next : Dict R)
      → save_new v r records ≡ ok next
      → (lookup (v.id r) records ≡ none)
        × ((stored : R) × (v.id stored ≡ v.id r) × (lookup (v.id r) next ≡ some stored))
        × ((other : String) → v.id r ≢ other → lookup other next ≡ lookup other records)
  unfolding save_new
  save_new-lookup r records next h =
      let stored : R = if v.version r == 0 then v.at_version 1 r else r in
      let (free, e) : (lookup (v.id r) records ≡ none) × (next ≡ insert (v.id r) stored records) =
        save_new-ok r records next h in
      (
        free,
        (stored, if-id (v.version r == 0) r, rw (e, lookup-insert_self (v.id r) stored records)),
        λ other ne. rw (e, lookup-insert_ne (v.id r) other stored records ne),
      )
