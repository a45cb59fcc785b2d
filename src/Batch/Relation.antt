-- ===== src/Batch/Relation.antt =====
-- Z-sets in columns: packages/coln-batch/src/relation.rs. The reads of the source panic out of range;
-- `with_weights` asserts that every column has a key for every weight, and each function here reads
-- rows below `len` only, so the default of `key_at` and `weight` is never met.
pub mod Rows
pub mod Normal
pub mod Weights
pub mod Ascending
pub mod Order
pub mod Pushing
pub mod Merge
pub mod Addition
use coln.Prelude.{
  ℕ, zero, suc, ◌+◌, ◌-◌, ◌*◌, ◌/◌, ◌%◌, compare, Ordering, String, Option, none, some, List, [],
  ◌∷◌, ◌++◌, map, Bool, true, false, not, ◌&&◌, ◌||◌,
}
use coln.Prelude.Tests.{PartialEq, ◌==◌, ltb, leb, nat_eq, if◌then◌else◌}
use coln.Prelude.Int.{ℤ, pos, negsuc, leb_ℤ, eq_ℤ}
use coln.Prelude.Lists.{length, get_or, get_elem?, replicate, range, range_from, take, drop}
use coln.Prelude.Sorting.{sort_by, chunk_by}
use coln.Prelude.Outcome.{Outcome, returns, panic, ◌>>=◌, expect}
use coln.Batch.Types.{
  Key, Weight, Schema, Dictionary, Value, ScalarType, add_weights, mul_weights, uint_schema,
}
use coln.Batch.Types

pub record Relation : Type 0 where
  pub name : String
  pub schema : Schema
  pub cols : List (List Key)
  pub weights : List Weight

abbrev pub key_at : List Key → ℕ → Key
key_at col row = get_or col row 0

unfoldable pub len : Relation → ℕ
len rel = length rel.weights

unfoldable pub arity : Relation → ℕ
arity rel = length rel.cols

unfoldable pub all_long : ℕ → List (List Key) → Bool
all_long n [] = true
all_long n (c ∷ cols) = nat_eq (length c) n && all_long n cols

unfoldable pub with_weights : String → Schema → List (List Key) → List Weight → Outcome Relation
with_weights name schema cols weights =
    if nat_eq (Types.arity schema) (length cols) && all_long (length weights) cols
    then returns (record { name = name; schema = schema; cols = cols; weights = weights })
    else panic

-- `cols.first().map_or(0, Vec::len)`.
abbrev pub first_len : List (List Key) → ℕ
first_len [] = 0
first_len (c ∷ cols) = length c

unfoldable pub with_schema : String → Schema → List (List Key) → Outcome Relation
with_schema name schema cols = with_weights name schema cols (replicate (first_len cols) (pos 1))

unfoldable pub new : String → List String → List (List Key) → Outcome Relation
new name col_names cols = with_schema name (uint_schema col_names) cols

unfoldable pub empty : String → Schema → Outcome Relation
empty name schema = with_schema name schema (replicate (Types.arity schema) [])

unfoldable pub is_empty : Relation → Bool
unfolding len
is_empty rel = nat_eq (len rel) 0

unfoldable pub row : Relation → ℕ → List Key
row rel i = map (λ c. key_at c i) rel.cols

unfoldable pub weight : Relation → ℕ → Weight
weight rel i = get_or rel.weights i (pos 0)

unfoldable pub cmp_rows : List (List Key) → ℕ → ℕ → Ordering
cmp_rows [] a b = Ordering.eq
cmp_rows (c ∷ cols) a b = elim (compare (key_at c a) (key_at c b)) [
  | Ordering.lt ↦ Ordering.lt
  | Ordering.eq ↦ cmp_rows cols a b
  | Ordering.gt ↦ Ordering.gt
]

unfoldable pub cmp_row_pair : List (List Key) → ℕ → List (List Key) → ℕ → Ordering
cmp_row_pair [] i bs j = Ordering.eq
cmp_row_pair (a ∷ as') i [] j = Ordering.eq
cmp_row_pair (a ∷ as') i (b ∷ bs) j = elim (compare (key_at a i) (key_at b j)) [
  | Ordering.lt ↦ Ordering.lt
  | Ordering.eq ↦ cmp_row_pair as' i bs j
  | Ordering.gt ↦ Ordering.gt
]

unfoldable pub pick : Relation → List ℕ → List Weight → Relation
pick rel rows weights = record rel {
  cols = map (λ c. map (λ i. key_at c i) rows) rel.cols;
  weights = weights;
}

abbrev pub is_eq : Ordering → Bool
is_eq Ordering.eq = true
is_eq Ordering.lt = false
is_eq Ordering.gt = false

abbrev pub is_lt : Ordering → Bool
is_lt Ordering.lt = true
is_lt Ordering.eq = false
is_lt Ordering.gt = false

-- `copies.iter().map(|&r| self.weights[r]).fold(0, add_weights)`.
unfoldable pub fold_weights : Relation → Weight → List ℕ → Outcome Weight
fold_weights rel sum [] = returns sum
fold_weights rel sum (r ∷ rows) =
    add_weights sum (weight rel r) >>= λ next. fold_weights rel next rows

-- One row and one weight for each run of equal rows, those of weight 0 left out.
unfoldable pub weigh_chunks : Relation → List (List ℕ) → Outcome (List (ℕ × Weight))
weigh_chunks rel [] = returns []
weigh_chunks rel ([] ∷ chunks) = weigh_chunks rel chunks
weigh_chunks rel ((r ∷ copies) ∷ chunks) = do
  total ← fold_weights rel (pos 0) (r ∷ copies)
  rest ← weigh_chunks rel chunks
  returns (if eq_ℤ total (pos 0) then rest else (r, total) ∷ rest)

-- The source sorts with `sort_unstable_by`, so it may add the weights of copies of a row in another order
-- than here. The sum is the same; which order it is can decide whether an intermediate sum overflows.
unfoldable pub consolidate : Relation → Outcome Relation
consolidate rel = do
  let idx = sort_by (cmp_rows rel.cols) (range (length rel.weights))
  kept ← weigh_chunks rel (chunk_by (λ a b. is_eq (cmp_rows rel.cols a b)) idx)
  returns (pick rel (map (λ p. p.0) kept) (map (λ p. p.1) kept))

unfoldable pub positive_rows : Relation → List ℕ → List ℕ
positive_rows rel [] = []
positive_rows rel (i ∷ rows) =
    let rest = positive_rows rel rows in if leb_ℤ (weight rel i) (pos 0) then rest else i ∷ rest

unfoldable pub distinct : Relation → Outcome Relation
distinct rel = do
  normal ← consolidate rel
  let rows = positive_rows normal (range (length normal.weights))
  returns (pick normal rows (replicate (length rows) (pos 1)))

-- `(start..start + n).all(|i| cmp_rows(i - 1, i) == Less)`.
unfoldable pub ascending_from : List (List Key) → ℕ → ℕ → Bool
ascending_from cols start zero = true
ascending_from cols start (suc n) =
    is_lt (cmp_rows cols (start - 1) start) && ascending_from cols (suc start) n

unfoldable pub no_zero : List Weight → Bool
no_zero [] = true
no_zero (w ∷ weights) = not (eq_ℤ w (pos 0)) && no_zero weights

unfoldable pub is_consolidated : Relation → Bool
is_consolidated rel = ascending_from rel.cols 1 (length rel.weights - 1) && no_zero rel.weights

unfoldable pub negate_weights : List Weight → Outcome (List Weight)
negate_weights [] = returns []
negate_weights (w ∷ weights) = do
  n ← mul_weights w (negsuc 0)
  rest ← negate_weights weights
  returns (n ∷ rest)

unfoldable pub negate : Relation → Outcome Relation
negate rel = negate_weights rel.weights >>= λ weights. returns (record rel { weights = weights })

-- `cols[c].push(x)` for each column and each key of a row.
unfoldable pub push_row : List (List Key) → List Key → List (List Key)
push_row [] keys = []
push_row (c ∷ cols) [] = c ∷ cols
push_row (c ∷ cols) (k ∷ keys) = (c ++ k ∷ []) ∷ push_row cols keys

abbrev pub merge_order : Relation → Relation → ℕ → ℕ → Ordering
merge_order a b i j =
    if nat_eq j (length b.weights)
    then Ordering.lt
    else if nat_eq i (length a.weights)
    then Ordering.gt
    else cmp_row_pair a.cols i b.cols j

abbrev pub merge_weight : Relation → Relation → Weight → ℕ → ℕ → Ordering → Outcome Weight
merge_weight a b sign i j Ordering.lt = returns (weight a i)
merge_weight a b sign i j Ordering.gt = mul_weights sign (weight b j)
merge_weight a b sign i j Ordering.eq =
    mul_weights sign (weight b j) >>= λ scaled. add_weights (weight a i) scaled

abbrev pub merge_source : Relation → Relation → ℕ → ℕ → Ordering → List Key
merge_source a b i j Ordering.lt = row a i
merge_source a b i j Ordering.gt = row b j
merge_source a b i j Ordering.eq = row a i

abbrev pub next_left : Ordering → ℕ → ℕ
next_left Ordering.gt i = i
next_left Ordering.lt i = i + 1
next_left Ordering.eq i = i + 1

abbrev pub next_right : Ordering → ℕ → ℕ
next_right Ordering.lt j = j
next_right Ordering.gt j = j + 1
next_right Ordering.eq j = j + 1

-- The loop of `merge`. Each round takes a row of one side or of both, so the rows of both sides
-- together bound the rounds.
unfoldable pub merge_loop :
    ℕ
    → Relation
    → Relation
    → Weight
    → ℕ
    → ℕ
    → List (List Key)
    → List Weight
    → Outcome (List (List Key) × List Weight)
merge_loop zero a b sign i j cols weights = returns (cols, weights)
merge_loop (suc fuel) a b sign i j cols weights =
    elim (ltb i (length a.weights) || ltb j (length b.weights)) [
      | false ↦ returns (cols, weights)
      | true ↦
          let order = merge_order a b i j in
          merge_weight a b sign i j order >>= λ w.
          (let cols' =
              if eq_ℤ w (pos 0) then cols else push_row cols (merge_source a b i j order) in
            let weights' = if eq_ℤ w (pos 0) then weights else weights ++ w ∷ [] in
            merge_loop fuel a b sign (next_left order i) (next_right order j) cols' weights')
    ]

unfoldable pub merge : Relation → Relation → Weight → Outcome Relation
merge a b sign =
    if nat_eq (length a.cols) (length b.cols) && (is_consolidated a && is_consolidated b)
    then (do
      (cols, weights) ←
          merge_loop (length a.weights + length b.weights) a b sign 0 0
            (replicate (length a.cols) []) []
      with_weights a.name a.schema cols weights)
    else panic

unfoldable pub plus : Relation → Relation → Outcome Relation
plus a b = merge a b (pos 1)

unfoldable pub minus : Relation → Relation → Outcome Relation
minus a b = merge a b (negsuc 0)

-- The rows of flat keys, `width` keys a row.
unfoldable pub push_flat : ℕ → ℕ → List Key → List (List Key) → List (List Key)
push_flat zero width flat cols = cols
push_flat (suc n) width flat cols =
    push_flat n width (drop width flat) (push_row cols (take width flat))

unfoldable pub from_flat_rows : String → Schema → List Key → List Weight → Outcome Relation
from_flat_rows name schema flat weights =
    let width = Types.arity schema in
    if ltb 0 width && nat_eq (length flat % width) 0
    then with_weights name schema (push_flat (length flat / width) width flat (replicate width []))
        weights
    else panic
