-- ===== src/Prelude/Sorting.antt =====
-- `sort_by` and `chunk_by` of the standard library, on lists. The sort is stable: it stands for
-- `sort_unstable_by` too, which may leave equal elements in any order.
use Prim.Native.Nat.{Ordering}
use mathlib.Core.Bool.{Bool}
use mathlib.Core.List.{List, [], ◌∷◌}
use coln.Prelude.Tests.{if◌then◌else◌}

module _ {ℓ} {A : Type ℓ} where
  -- Into a sorted list, before the first element that is not less.
  unfoldable pub insert_by : (A → A → Ordering) → A → List A → List A
  insert_by cmp x [] = x ∷ []
  insert_by cmp x (y ∷ ys) = elim (cmp y x) [
    | Ordering.lt ↦ y ∷ insert_by cmp x ys
    | Ordering.eq ↦ x ∷ y ∷ ys
    | Ordering.gt ↦ x ∷ y ∷ ys
  ]

  unfoldable pub sort_by : (A → A → Ordering) → List A → List A
  unfolding insert_by
  sort_by cmp [] = []
  sort_by cmp (x ∷ xs) = insert_by cmp x (sort_by cmp xs)

  abbrev pub join_chunk : (A → A → Bool) → A → List (List A) → List (List A)
  join_chunk same x [] = (x ∷ []) ∷ []
  join_chunk same x ([] ∷ chunks) = (x ∷ []) ∷ chunks
  join_chunk same x ((y ∷ ys) ∷ chunks) =
      if same x y then (x ∷ y ∷ ys) ∷ chunks else (x ∷ []) ∷ (y ∷ ys) ∷ chunks

  -- The maximal runs in which each neighbour is the same as the one before.
  unfoldable pub chunk_by : (A → A → Bool) → List A → List (List A)
  chunk_by same [] = []
  chunk_by same (x ∷ xs) = join_chunk same x (chunk_by same xs)
