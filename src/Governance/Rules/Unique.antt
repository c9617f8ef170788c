-- ===== src/Governance/Rules/Unique.antt =====
-- The texts that `uniqueStrings` keeps.
use personal_cfo_os.Base.{
  String, ◌≡◌, false, not, ◌&&◌, List, [], ◌∷◌, arith, string_eq, eq_iff, is_empty,
}
use personal_cfo_os.Governance.Rules.{among, unique_from, unique_strings}

abbrev pub Distinct : List String → Type 0
Distinct [] = Unit
Distinct (s ∷ ss) = (among s ss ≡ false) × Distinct ss

among-unique_from :
    (s : String) (seen items : List String)
    → among s (unique_from seen items) ≡ (not (is_empty s) && (among s items && not (among s seen)))
unfolding among unique_from
among-unique_from s seen [] = ground arith
among-unique_from s seen (item ∷ items) = ground (
  arith,
  eq_iff s item,
  eq_iff item "",
  eq_iff s "",
  among-unique_from s seen items,
  among-unique_from s (item ∷ seen) items,
)

unique_from-Distinct : (seen items : List String) → Distinct (unique_from seen items)
unfolding among unique_from
unique_from-Distinct seen [] = tt
unique_from-Distinct seen (item ∷ items) = ground (
  arith,
  eq_iff item item,
  unique_from-Distinct seen items,
  unique_from-Distinct (item ∷ seen) items,
  among-unique_from item (item ∷ seen) items,
)

-- The texts kept are distinct, and are the given ones that are not empty.
pub unique_strings_lem :
    (items : List String)
    → Distinct (unique_strings items)
      × ((s : String) → among s (unique_strings items) ≡ (not (is_empty s) && among s items))
unfolding unique_strings among
unique_strings_lem items =
    (unique_from-Distinct [] items, λ s. ground (arith, among-unique_from s [] items))
