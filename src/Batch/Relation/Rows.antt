-- ===== src/Batch/Relation/Rows.antt =====
-- Relations from typed rows, and their rows as values: the constructors `from_rows` and
-- `from_weighted_rows` and the decoding of packages/coln-batch/src/relation.rs.
use coln.Prelude.{ℕ, suc, String, List, [], ◌∷◌, ◌++◌, map}
use coln.Prelude.Tests.{nat_eq, if◌then◌else◌}
use coln.Prelude.Int.{pos}
use coln.Prelude.Lists.{length, get_or, replicate, range}
use coln.Prelude.Outcome.{Outcome}
use coln.Batch.Types
use coln.Batch.Types.{
  Key, Weight, ScalarType, Schema, Dictionary, Value, KeyError, scalar_type, same_type, to_key,
  from_key, column_type,
}
use coln.Batch.Relation.{Relation, with_weights, key_at, push_row, arity}

pub data RowError : Type 0 where
  wrong_arity : String → ℕ → ℕ → ℕ → RowError
  wrong_type : String → ℕ → ℕ → ScalarType → Value → RowError
  bad_key : String → ℕ → KeyError → RowError

-- `anyhow::Result`, and the panic of `with_weights`. What a failed load leaves in the dictionary, the
-- strings up to the failure, is not part of the value.
pub data Loaded (A : Type 0) : Type 0 where
  ok : A → Loaded A
  bail : RowError → Loaded A
  panic : Loaded A

infixl 5 ◌and_then◌
abbrev pub ◌and_then◌ : {A B : Type 0} → Loaded A → (A → Loaded B) → Loaded B
ok a and_then f = f a
bail e and_then f = bail e
panic and_then f = panic

abbrev pub loaded : {A : Type 0} → Outcome A → Loaded A
loaded (Outcome.returns a) = ok a
loaded Outcome.panic = panic

-- The keys of the values of a row, from column `c` on, each of the type of its column.
unfoldable pub encode_row :
    String → Schema → ℕ → ℕ → List Value → Dictionary → Loaded (Dictionary × List Key)
encode_row name schema i c [] dict = ok (dict, [])
encode_row name schema i c (value ∷ row) dict = loaded (column_type schema c) and_then λ expected.
    if same_type (scalar_type value) expected
    then (loaded (to_key value dict) and_then λ coded.
        encode_row name schema i (suc c) row coded.0 and_then λ rest. ok (rest.0, coded.1 ∷ rest.1))
    else bail (wrong_type name i c expected value)

-- The loop over the rows from row `i` on, with the columns and the weights so far.
unfoldable pub encode_rows :
    String
    → Schema
    → ℕ
    → List (List Value × Weight)
    → Dictionary
    → List (List Key)
    → List Weight
    → Loaded (Dictionary × List (List Key) × List Weight)
unfolding encode_row
encode_rows name schema i [] dict cols weights = ok (dict, cols, weights)
encode_rows name schema i ((row, weight) ∷ rows) dict cols weights =
    if nat_eq (length row) (Types.arity schema)
    then (encode_row name schema i 0 row dict and_then λ coded.
        encode_rows name schema (suc i) rows coded.0 (push_row cols coded.1)
          (weights ++ weight ∷ []))
    else bail (wrong_arity name i (length row) (Types.arity schema))

unfoldable pub from_weighted_rows :
    String → Schema → List (List Value × Weight) → Dictionary → Loaded (Dictionary × Relation)
unfolding encode_rows
from_weighted_rows name schema rows dict =
    encode_rows name schema 0 rows dict (replicate (Types.arity schema) []) [] and_then λ done.
    loaded (with_weights name schema done.1 done.2) and_then λ rel. ok (done.0, rel)

unfoldable pub from_rows :
    String → Schema → List (List Value) → Dictionary → Loaded (Dictionary × Relation)
unfolding from_weighted_rows
from_rows name schema rows dict =
    from_weighted_rows name schema (map (λ row. (row, pos 1)) rows) dict

-- One cell, decoded.
unfoldable pub cell : Relation → ℕ → ℕ → Dictionary → Loaded Value
cell rel row col dict = loaded (column_type rel.schema col) and_then λ ty.
    elim (from_key ty (key_at (get_or rel.cols col []) row) dict) [
      | Types.Decoded.value v ↦ ok v
      | Types.Decoded.bail e ↦ bail (bad_key rel.name col e)
    ]

unfoldable pub cells : Relation → ℕ → List ℕ → Dictionary → Loaded (List Value)
unfolding cell
cells rel row [] dict = ok []
cells rel row (col ∷ columns) dict =
    cell rel row col dict and_then λ v. cells rel row columns dict and_then λ rest. ok (v ∷ rest)

-- The `i`-th row, decoded.
unfoldable pub row_values : Relation → ℕ → Dictionary → Loaded (List Value)
unfolding cells
row_values rel i dict = cells rel i (range (arity rel)) dict
