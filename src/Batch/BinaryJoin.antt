-- ===== src/Batch/BinaryJoin.antt =====
-- The chain of hash joins: packages/coln-batch/src/binary_join.rs. An index is an association list, so the
-- weights of a filtering atom are added in its order. As in the reference executor, the reads of a prepared
-- query are in range.
use coln.Prelude.{
  ℕ, suc, ◌+◌, ◌*◌, Option, none, some, List, [], ◌∷◌, ◌++◌, map, Bool, true, false, ◌&&◌,
}
use coln.Prelude.Tests.{ℕ-eq, List-eq, nat_eq, if◌then◌else◌}
use coln.Prelude.Int.{pos, eq_ℤ}
use coln.Prelude.Lists.{length, get_or, replicate, range, take, drop}
use coln.Prelude.Maps
use coln.Prelude.Maps.{HashMap}
use coln.Prelude.Outcome.{Outcome, returns, ◌>>=◌, expect}
use coln.Batch.Types.{Key, Weight, Schema, add_weights, mul_weights}
use coln.Batch.Relation
use coln.Batch.Relation.{Relation, from_flat_rows, consolidate}
use coln.Batch.Table
use coln.Batch.Table.{ArrowSortedTable, value}
use coln.Batch.Query
use coln.Batch.Query.{Query, VarId, KeyTerm, KeyAtom, Catalog, Checked, set_at, num_vars, prepare}
use coln.Batch.Reference.{checked}

pub record Joined : Type 0 where
  pub bound : List (Option ℕ)
  pub width : ℕ
  pub flat : List Key
  pub weights : List Weight

pub record Columns : Type 0 where
  pub lit_checks : List (ℕ × Key)
  pub key_pairs : List (ℕ × ℕ)
  pub new_vars : List (VarId × ℕ)
  pub intra_eq : List (ℕ × ℕ)

-- The loop over the terms of an atom. `first_col` holds the first column of each variable.
unfoldable pub classify : List (Option ℕ) → ℕ → List KeyTerm → HashMap VarId ℕ → Columns
classify bound c [] first_col = record {
  lit_checks = [];
  key_pairs = [];
  new_vars = [];
  intra_eq = [];
}
classify bound c (KeyTerm.lit x ∷ terms) first_col =
    let rest = classify bound (suc c) terms first_col in
    record rest { lit_checks = (c, x) ∷ rest.lit_checks }
classify bound c (KeyTerm.var v ∷ terms) first_col = elim (Maps.get v first_col) [
  | some c0 ↦
      let rest = classify bound (suc c) terms first_col in
      record rest { intra_eq = (c0, c) ∷ rest.intra_eq }
  | none ↦
      let rest = classify bound (suc c) terms (Maps.insert v c first_col) in
      elim (get_or bound v none) [
        | some icol ↦ record rest { key_pairs = (icol, c) ∷ rest.key_pairs }
        | none ↦ record rest { new_vars = (v, c) ∷ rest.new_vars }
      ]
]

unfoldable pub literals_fit : ArrowSortedTable → ℕ → List (ℕ × Key) → Bool
literals_fit table r [] = true
literals_fit table r ((c, x) ∷ checks) = nat_eq (value table r c) x && literals_fit table r checks

unfoldable pub repeats_fit : ArrowSortedTable → ℕ → List (ℕ × ℕ) → Bool
repeats_fit table r [] = true
repeats_fit table r ((a, b) ∷ pairs) =
    nat_eq (value table r a) (value table r b) && repeats_fit table r pairs

abbrev pub Index : Type 0
Index = HashMap (List Key) (List ℕ)

-- `index.entry(key).or_default().push(r)`.
unfoldable pub push_index : List Key → ℕ → Index → Index
push_index key r index = elim (Maps.get key index) [
  | some rows ↦ Maps.insert key (rows ++ r ∷ []) index
  | none ↦ Maps.insert key (r ∷ []) index
]

-- The hash index over the rows that pass the atom's own tests.
unfoldable pub build_index : ArrowSortedTable → Columns → List ℕ → Index → Index
unfolding literals_fit repeats_fit push_index
build_index table columns [] index = index
build_index table columns (r ∷ rows) index =
    let keep = literals_fit table r columns.lit_checks && repeats_fit table r columns.intra_eq in
    let key = map (λ p. value table r p.1) columns.key_pairs in
    build_index table columns rows (if keep then push_index key r index else index)

abbrev pub weight_at : ArrowSortedTable → ℕ → Weight
weight_at table r = get_or table.weights r (pos 0)

-- The sum of the weights of all rows of the index.
unfoldable pub sum_rows : ArrowSortedTable → List ℕ → Weight → Outcome Weight
sum_rows table [] sum = returns sum
sum_rows table (r ∷ rows) sum =
    add_weights sum (weight_at table r) >>= λ next. sum_rows table rows next

unfoldable pub factor : ArrowSortedTable → Index → Weight → Outcome Weight
unfolding sum_rows
factor table [] sum = returns sum
factor table ((key, rows) ∷ index) sum = sum_rows table rows sum >>= λ next. factor table index next

unfoldable pub scale : Weight → List Weight → Outcome (List Weight)
scale f [] = returns []
scale f (w ∷ weights) = do scaled ← mul_weights w f; rest ← scale f weights; returns (scaled ∷ rest)

abbrev pub Rows : Type 0
Rows = List Key × List Weight

-- The rows of the atom that match a row of bindings of weight `w`.
unfoldable pub extend_row :
    ArrowSortedTable → List (VarId × ℕ) → List Key → Weight → List ℕ → Rows → Outcome Rows
extend_row table new_vars row w [] out = returns out
extend_row table new_vars row w (r ∷ matches) (keys, weights) =
    mul_weights w (weight_at table r) >>= λ product.
    extend_row table new_vars row w matches
      (keys ++ (row ++ map (λ p. value table r p.1) new_vars), weights ++ product ∷ [])

unfoldable pub probe : ArrowSortedTable → Columns → Index → Joined → List ℕ → Rows → Outcome Rows
unfolding extend_row
probe table columns index joined [] out = returns out
probe table columns index joined (i ∷ rows) out =
    let row = take joined.width (drop (i * joined.width) joined.flat) in
    let key = map (λ p. get_or row p.0 0) columns.key_pairs in
    elim (Maps.get key index) [
      | some matches ↦
          extend_row table columns.new_vars row (get_or joined.weights i (pos 0)) matches out
          >>= λ next. probe table columns index joined rows next
      | none ↦ probe table columns index joined rows out
    ]

unfoldable pub bind_new : ℕ → List (VarId × ℕ) → List (Option ℕ) → List (Option ℕ)
bind_new column [] bound = bound
bind_new column ((v, c) ∷ new_vars) bound =
    bind_new (suc column) new_vars (set_at bound v (some column))

abbrev pub is_nil {ℓ} : {A : Type ℓ} → List A → Bool
is_nil [] = true
is_nil (x ∷ xs) = false

-- `none` where no row is left.
abbrev pub unless_empty : Joined → Option Joined
unless_empty joined = if is_nil joined.weights then none else some joined

unfoldable pub join_table : ArrowSortedTable → List KeyTerm → Joined → Outcome (Option Joined)
unfolding classify build_index factor scale probe bind_new
join_table table terms joined =
    let columns = classify joined.bound 0 terms [] in
    let index = build_index table columns (range (length table.weights)) [] in
    if is_nil columns.key_pairs && is_nil columns.new_vars
    then (factor table index (pos 0) >>= λ f.
        if eq_ℤ f (pos 0)
        then returns none
        else (scale f joined.weights >>= λ weights.
            returns (some (record joined { weights = weights }))))
    else (probe table columns index joined (range (length joined.weights)) ([], []) >>= λ out.
        returns (
          unless_empty (record {
            bound = bind_new joined.width columns.new_vars joined.bound;
            width = joined.width + length columns.new_vars;
            flat = out.0;
            weights = out.1;
          })))

unfoldable pub join_atom : Catalog → KeyAtom → Joined → Checked (Option Joined)
unfolding join_table
join_atom catalog atom joined = elim (Query.get catalog atom.relation) [
  | Query.ok rel ↦ elim (Table.from_relation rel (range (Relation.arity rel))) [
    | Table.ok table ↦ checked (join_table table atom.terms joined)
    | Table.bail e ↦ Query.bail (Query.build_error e)
  ]
  | Query.bail e ↦ Query.bail e
  | Query.panic ↦ Query.panic
]

unfoldable pub join_atoms : Catalog → List KeyAtom → Joined → Checked (Option Joined)
unfolding join_atom
join_atoms catalog [] joined = Query.ok (some joined)
join_atoms catalog (atom ∷ atoms) joined = elim (join_atom catalog atom joined) [
  | Query.ok none ↦ Query.ok none
  | Query.ok (some next) ↦ join_atoms catalog atoms next
  | Query.bail e ↦ Query.bail e
  | Query.panic ↦ Query.panic
]

unfoldable pub head_columns : List VarId → List (Option ℕ) → Outcome (List ℕ)
head_columns [] bound = returns []
head_columns (v ∷ head) bound = do
  c ← expect (get_or bound v none)
  rest ← head_columns head bound
  returns (c ∷ rest)

unfoldable pub project : List ℕ → ℕ → List Key → List ℕ → List Key
project columns width flat [] = []
project columns width flat (i ∷ rows) =
    map (λ c. get_or (take width (drop (i * width) flat)) c 0) columns
    ++ project columns width flat rows

unfoldable pub finish : Query → Schema → Joined → Outcome Relation
unfolding head_columns project
finish query schema joined = head_columns query.head joined.bound >>= λ columns.
    from_flat_rows "result" schema
      (project columns joined.width joined.flat (range (length joined.weights))) joined.weights
    >>= consolidate

unfoldable pub execute : Query → Catalog → Checked Relation
unfolding join_atoms finish
execute query catalog = elim (prepare catalog query) [
  | Query.ok prepared ↦ elim prepared.atoms [
    | none ↦ checked (Relation.empty "result" prepared.schema)
    | some atoms ↦
        elim (join_atoms catalog atoms (record {
          bound = replicate (num_vars query) none;
          width = 0;
          flat = [];
          weights = pos 1 ∷ [];
        })) [
          | Query.ok none ↦ checked (Relation.empty "result" prepared.schema)
          | Query.ok (some joined) ↦ checked (finish query prepared.schema joined)
          | Query.bail e ↦ Query.bail e
          | Query.panic ↦ Query.panic
        ]
  ]
  | Query.bail e ↦ Query.bail e
  | Query.panic ↦ Query.panic
]
