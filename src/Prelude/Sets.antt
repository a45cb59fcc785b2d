-- ===== src/Prelude/Sets.antt =====
-- `BTreeSet` as a list in the order of its elements.
use mathlib.Core.Path.{◌≡◌}
use mathlib.Core.Bool.{Bool, false, not, ◌&&◌, ◌||◌}
use mathlib.Core.List.{List, [], ◌∷◌}
use native.Mathlib.Omega.{arith}
use coln.Prelude.Tests.{PartialEq, ◌==◌, if◌then◌else◌}

module _ {ℓ} {K : Type ℓ} ⦃e : PartialEq K⦄ where
  unfoldable pub member : K → List K → Bool
  member k [] = false
  member k (j ∷ s) = k == j || member k s

  unfoldable pub set_remove : K → List K → List K
  set_remove k [] = []
  set_remove k (j ∷ s) = let rest = set_remove k s in if k == j then rest else j ∷ rest

  unfoldable pub set_insert : (K → K → Bool) → K → List K → List K
  set_insert less k [] = k ∷ []
  set_insert less k (j ∷ s) =
      if k == j then j ∷ s else (if less k j then k ∷ j ∷ s else j ∷ set_insert less k s)

  pub member-set_remove :
      (k j : K) (s : List K) → member j (set_remove k s) ≡ (not (k == j) && member j s)
  unfolding member set_remove
  member-set_remove k j [] = ground arith
  member-set_remove k j (i ∷ s) =
      ground (arith, e.equals_iff k i, e.equals_iff k j, e.equals_iff j i, member-set_remove k j s)

  pub member-set_insert :
      (less : K → K → Bool) (k j : K) (s : List K)
      → member j (set_insert less k s) ≡ (k == j || member j s)
  unfolding member set_insert
  member-set_insert less k j [] = ground (arith, e.equals_iff k j, e.equals_iff j k)
  member-set_insert less k j (i ∷ s) = ground (
    arith,
    e.equals_iff k i,
    e.equals_iff k j,
    e.equals_iff j k,
    e.equals_iff j i,
    member-set_insert less k j s,
  )
