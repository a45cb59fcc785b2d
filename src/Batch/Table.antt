-- ===== src/Batch/Table.antt =====
-- Sorted tables: packages/coln-batch/src/table.rs, the default methods of the trait `SortedTable` and its
-- implementation `ArrowSortedTable`.
pub mod Search
use coln.Prelude.{
  ℕ, zero, suc, ◌+◌, ◌-◌, ◌/◌, compare, Ordering, String, Option, none, some, List, [], ◌∷◌, map,
  Bool, true, false, ◌&&◌, ◌||◌,
}
use coln.Prelude.Tests.{ltb, leb, nat_eq, if◌then◌else◌}
use coln.Prelude.Lists.{length, get_or, range}
use coln.Prelude.Sorting.{sort_by}
use coln.Batch.Types.{Key, Weight, Schema}
use coln.Batch.Relation.{Relation, key_at, weight}

-- `while lo < hi { … }` of `lower_bound` and `upper_bound`: `right` says that the row at `mid` lies
-- left of the bound. The range shrinks in each round, so its length bounds the rounds.
unfoldable pub bound_loop : ℕ → (ℕ → Bool) → ℕ → ℕ → ℕ
bound_loop zero right lo hi = lo
bound_loop (suc rounds) right lo hi = elim (ltb lo hi) [
  | false ↦ lo
  | true ↦
      let mid = lo + (hi - lo) / 2 in
      elim (right mid) [
        | true ↦ bound_loop rounds right (mid + 1) hi
        | false ↦ bound_loop rounds right lo mid
      ]
]

-- `value` gives the key of a row in the sort column that is searched.
unfoldable pub lower_bound : (ℕ → Key) → Key → ℕ → ℕ → ℕ
lower_bound value v lo hi = bound_loop (hi - lo) (λ row. ltb (value row) v) lo hi

unfoldable pub upper_bound : (ℕ → Key) → Key → ℕ → ℕ → ℕ
upper_bound value v lo hi = bound_loop (hi - lo) (λ row. leb (value row) v) lo hi

unfoldable pub equal_range : (ℕ → Key) → Key → ℕ → ℕ → ℕ × ℕ
equal_range value v lo hi =
    let start = lower_bound value v lo hi in (start, upper_bound value v start hi)

pub record ArrowSortedTable : Type 0 where
  pub name : String
  pub schema : Schema
  pub sort_order : List ℕ
  pub cols : List (List Key)
  pub weights : List Weight

pub data BuildError : Type 0 where
  wrong_length not_a_permutation : BuildError

pub data Built : Type 0 where
  ok : ArrowSortedTable → Built
  bail : BuildError → Built

abbrev pub seen_at : List Bool → ℕ → Bool
seen_at seen c = get_or seen c false

abbrev pub mark : List Bool → ℕ → List Bool
mark [] c = []
mark (s ∷ seen) zero = true ∷ seen
mark (s ∷ seen) (suc c) = s ∷ mark seen c

-- The loop over the sort order with its vector `seen`.
unfoldable pub is_fresh_order : ℕ → List Bool → List ℕ → Bool
is_fresh_order arity seen [] = true
is_fresh_order arity seen (c ∷ order) =
    let rest = is_fresh_order arity (mark seen c) order in
    if leb arity c || seen_at seen c then false else rest

abbrev pub col_at : List (List Key) → ℕ → List Key
col_at cols c = get_or cols c []

-- The comparison of two rows by the columns of the sort order.
unfoldable pub cmp_by : List (List Key) → List ℕ → ℕ → ℕ → Ordering
cmp_by cols [] a b = Ordering.eq
cmp_by cols (c ∷ order) a b = elim (compare (key_at (col_at cols c) a) (key_at (col_at cols c) b)) [
  | Ordering.lt ↦ Ordering.lt
  | Ordering.eq ↦ cmp_by cols order a b
  | Ordering.gt ↦ Ordering.gt
]

abbrev pub falses : ℕ → List Bool
falses zero = []
falses (suc n) = false ∷ falses n

-- The source sorts with `sort_unstable_by`, so rows that are equal in every column may have their weights in
-- another order than here.
unfoldable pub from_relation : Relation → List ℕ → Built
from_relation rel order =
    if nat_eq (length order) (length rel.cols)
    then (if is_fresh_order (length rel.cols) (falses (length rel.cols)) order
        then (let idx = sort_by (cmp_by rel.cols order) (range (length rel.weights)) in
            ok (record {
              name = rel.name;
              schema = rel.schema;
              sort_order = order;
              cols = map (λ c. map (λ i. key_at c i) idx) rel.cols;
              weights = map (weight rel) idx;
            }))
        else bail not_a_permutation)
    else bail wrong_length

unfoldable pub value : ArrowSortedTable → ℕ → ℕ → Key
value table row col = key_at (col_at table.cols col) row
