-- ===== src/Examples/BatchExamples.antt =====
-- The batch engine's theorems at concrete inputs.
use coln.Prelude.{
  ℕ, zero, suc, ◌+◌, ◌/◌, String, ◌≤◌, ◌<◌, ◌≡◌, ◌↔◌, refl, sym, Option, none, some, List, [], ◌∷◌,
  map, Bool, true, false, arith,
}
use coln.Prelude.Tests.{String-eq}
use coln.Prelude.Int.{ℤ, pos, negsuc, ◌≤ℤ◌, ◌+ℤ◌}
use coln.Prelude.Interner.{Agrees-empty}
use coln.Prelude.Outcome.{returns}
use coln.Batch.Types
use coln.Batch.Types.{
  Key, Value, ScalarType, Dictionary, to_key, from_key, scalar_type, intern, string_at, code,
  flip_sign, to_u64, Decoded,
}
use coln.Batch.Types.Keys.{IsConsistent, intern_lem, from_key-to_key, Comparable, to_key_order}
use coln.Batch.Relation.{Relation, is_consolidated, consolidate, plus, minus}
use coln.Batch.Relation.Weights.{weight_of, weight_of-consolidate}
use coln.Batch.Relation.Order.{consolidate-is_consolidated}
use coln.Batch.Relation.Addition.{plus-weight, minus-weight}
use coln.Batch.Relation.Normal.{IsSelection, consolidate-IsSelection}
use coln.Batch.Table.{equal_range, lower_bound, upper_bound, bound_loop}
use coln.Batch.Table.Search.{equal_range_exact}
use coln.Batch.Query
use coln.Batch.Query.{Query, Atom, Term, Catalog, Typing, KeyTerm, KeyAtom, check, column_types}
use coln.Batch.Query.Agreement.{IsTypedBody, check-IsTypedBody}
use coln.Batch.BinaryJoin
use coln.Batch.Reference
use coln.Batch.Reference.{State, search}
use coln.Batch.Reference.Undo.{search-Restores}

empty_dictionary : IsConsistent Types.new
empty_dictionary = Agrees-empty ⦃e = String-eq⦄

intern_lem_example :
    IsConsistent (intern "a" Types.new).0
    × (string_at (intern "a" Types.new).0 (intern "a" Types.new).1 ≡ some "a")
    × (code (intern "a" Types.new).0 "a" ≡ some (intern "a" Types.new).1)
    × ((k : Key) (t : String)
        → string_at Types.new k ≡ some t
        → string_at (intern "a" Types.new).0 k ≡ some t)
intern_lem_example = intern_lem Types.new empty_dictionary "a"

from_key-to_key_example :
    (d : Dictionary) × (k : Key) × (to_key (Value.iint (negsuc 4)) Types.new ≡ returns (d, k))
    × IsConsistent d
    × (from_key ScalarType.iint_type k d ≡ Decoded.value (Value.iint (negsuc 4)))
unfolding scalar_type
from_key-to_key_example = from_key-to_key Types.new empty_dictionary (Value.iint (negsuc 4)) refl

to_key_order_example :
    (k : Key) × (l : Key) × (to_key (Value.iint (negsuc 4)) Types.new ≡ returns (Types.new, k))
    × (to_key (Value.iint (pos 3)) Types.new ≡ returns (Types.new, l))
    × ((k ≤ l) ↔ (negsuc 4 ≤ℤ pos 3))
to_key_order_example =
    to_key_order (Value.iint (negsuc 4)) (Value.iint (pos 3)) (Comparable.iints (negsuc 4) (pos 3))
      refl refl Types.new Types.new

-- The keys 0, 0, 1, 1.
abbrev halves : ℕ → Key
halves i = i / 2

halves_sorted : (i j : ℕ) → 0 ≤ i → i ≤ j → j < 4 → halves i ≤ halves j
halves_sorted i j l h k = omega arith

found : equal_range halves 1 0 4 ≡ (2, 4)
unfolding equal_range lower_bound upper_bound bound_loop
found = refl

equal_range_exact_example :
    (0 ≤ (equal_range halves 1 0 4).0)
    × ((equal_range halves 1 0 4).0 ≤ (equal_range halves 1 0 4).1)
    × ((equal_range halves 1 0 4).1 ≤ 4)
    × ((i : ℕ)
        → 0 ≤ i
        → i < 4
        → (halves i ≡ 1)
          ↔ (((equal_range halves 1 0 4).0 ≤ i) × (i < (equal_range halves 1 0 4).1)))
equal_range_exact_example = equal_range_exact halves 1 0 4 (omega arith) halves_sorted

abbrev edges : Relation
edges = record {
  name = "edge";
  schema = Types.uint_schema ("a" ∷ "b" ∷ []);
  cols = (1 ∷ 2 ∷ []) ∷ (2 ∷ 3 ∷ []) ∷ [];
  weights = pos 1 ∷ pos 1 ∷ [];
}

abbrev catalog : Catalog
catalog = record { map = ("edge", edges) ∷ []; dict = Types.new }

-- The paths of two edges.
abbrev paths : Query
paths = record {
  var_names = "x" ∷ "y" ∷ "z" ∷ [];
  atoms =
      record { relation = "edge"; terms = Term.var 0 ∷ Term.var 1 ∷ [] }
      ∷ record { relation = "edge"; terms = Term.var 1 ∷ Term.var 2 ∷ [] }
      ∷ [];
  head = 0 ∷ 2 ∷ [];
}

abbrev all_uint : Typing
all_uint = record {
  var_types = ScalarType.uint_type ∷ ScalarType.uint_type ∷ ScalarType.uint_type ∷ [];
}

paths-check : check catalog paths ≡ Query.ok all_uint
unfolding check Query.validate Query.mark_atoms Query.num_vars Query.check_seen Query.first_unseen
    Query.set_at Query.check_head Query.infer_var_types Query.infer_atoms Query.infer_atom
    column_types coln.Prelude.Maps.get Types.types Types.uint_schema Query.infer_terms
    Query.all_typed
paths-check = refl

check-IsTypedBody_example :
    IsTypedBody (column_types catalog) (map (λ t. some t) all_uint.var_types) paths.atoms
check-IsTypedBody_example = check-IsTypedBody catalog paths all_uint paths-check

abbrev path_atoms : List (KeyAtom × Relation)
path_atoms =
    (record { relation = "edge"; terms = KeyTerm.var 0 ∷ KeyTerm.var 1 ∷ [] }, edges)
    ∷ (record { relation = "edge"; terms = KeyTerm.var 1 ∷ KeyTerm.var 2 ∷ [] }, edges)
    ∷ []

abbrev start : State
start = (none ∷ none ∷ none ∷ [], record { keys = []; weights = [] })

abbrev finish : State
finish = (none ∷ none ∷ none ∷ [], record { keys = 1 ∷ 3 ∷ []; weights = pos 1 ∷ [] })

paths-search : search paths path_atoms (pos 1) start ≡ returns finish
unfolding search coln.Batch.Relation.len Query.set_at Types.mul_weights coln.Prelude.Int.◌*ℤ◌
    coln.Batch.Relation.weight
paths-search = refl

search-Restores_example : finish.0 ≡ start.0
search-Restores_example = search-Restores paths path_atoms (pos 1) start finish paths-search

-- The reference executor and the chain of hash joins agree on the paths.
abbrev path_relation : Relation
path_relation = record {
  name = "result";
  schema = Types.uint_schema ("x" ∷ "z" ∷ []);
  cols = (1 ∷ []) ∷ (3 ∷ []) ∷ [];
  weights = pos 1 ∷ [];
}

reference_paths : Reference.execute paths catalog ≡ Query.ok path_relation
unfolding Reference.execute Query.prepare Query.validate Query.mark_atoms Query.num_vars
    Query.check_seen Query.first_unseen Query.set_at Query.check_head Query.infer_var_types
    Query.infer_atoms Query.infer_atom column_types coln.Prelude.Maps.get Types.types
    Types.uint_schema Query.infer_terms Query.all_typed check Query.head_schema Query.prepare_atoms
    Reference.run_search search Reference.tables Query.get coln.Batch.Relation.all_long
    coln.Batch.Relation.cmp_rows coln.Batch.Relation.consolidate coln.Batch.Relation.empty
    coln.Batch.Relation.fold_weights coln.Batch.Relation.from_flat_rows coln.Batch.Relation.len
    coln.Batch.Relation.pick coln.Batch.Relation.push_flat coln.Batch.Relation.push_row
    coln.Batch.Relation.weigh_chunks coln.Batch.Relation.weight coln.Batch.Relation.with_weights
    Types.add_weights Types.arity Types.mul_weights coln.Prelude.Int.◌*ℤ◌ coln.Prelude.Int.◌+ℤ◌
    coln.Prelude.Sorting.chunk_by coln.Prelude.Sorting.insert_by coln.Prelude.Sorting.sort_by
reference_paths = refl

join_paths : BinaryJoin.execute paths catalog ≡ Query.ok path_relation
unfolding BinaryJoin.execute Query.prepare Query.validate Query.mark_atoms Query.num_vars
    Query.check_seen Query.first_unseen Query.set_at Query.check_head Query.infer_var_types
    Query.infer_atoms Query.infer_atom column_types coln.Prelude.Maps.get Types.types
    Types.uint_schema Query.infer_terms Query.all_typed check Query.head_schema Query.prepare_atoms
    Query.get BinaryJoin.bind_new BinaryJoin.build_index BinaryJoin.classify BinaryJoin.extend_row
    BinaryJoin.finish BinaryJoin.join_atoms BinaryJoin.join_atom BinaryJoin.join_table
    BinaryJoin.literals_fit BinaryJoin.probe BinaryJoin.project BinaryJoin.push_index
    coln.Batch.Relation.arity coln.Batch.Table.cmp_by coln.Batch.Table.from_relation
    coln.Batch.Table.is_fresh_order coln.Batch.Table.value coln.Prelude.Maps.insert
    coln.Batch.Relation.all_long coln.Batch.Relation.cmp_rows coln.Batch.Relation.consolidate
    coln.Batch.Relation.empty coln.Batch.Relation.fold_weights coln.Batch.Relation.from_flat_rows
    coln.Batch.Relation.len coln.Batch.Relation.pick coln.Batch.Relation.push_flat
    coln.Batch.Relation.push_row coln.Batch.Relation.weigh_chunks coln.Batch.Relation.weight
    coln.Batch.Relation.with_weights Types.add_weights Types.arity Types.mul_weights
    coln.Prelude.Int.◌*ℤ◌ coln.Prelude.Int.◌+ℤ◌ coln.Prelude.Sorting.chunk_by
    coln.Prelude.Sorting.insert_by coln.Prelude.Sorting.sort_by
join_paths = refl

-- The row 3 twice, the row 2 taken away again.
abbrev copies : Relation
copies = record {
  name = "copies";
  schema = Types.uint_schema ("a" ∷ []);
  cols = (3 ∷ 2 ∷ 3 ∷ 2 ∷ []) ∷ [];
  weights = pos 1 ∷ pos 1 ∷ pos 2 ∷ negsuc 0 ∷ [];
}

abbrev normal : Relation
normal = record copies { cols = (3 ∷ []) ∷ []; weights = pos 3 ∷ [] }

copies-normal : consolidate copies ≡ returns normal
unfolding coln.Batch.Relation.all_long coln.Batch.Relation.cmp_rows coln.Batch.Relation.consolidate
    coln.Batch.Relation.fold_weights coln.Batch.Relation.pick coln.Batch.Relation.weigh_chunks
    coln.Batch.Relation.weight Types.add_weights coln.Prelude.Int.◌+ℤ◌ coln.Prelude.Sorting.chunk_by
    coln.Prelude.Sorting.insert_by coln.Prelude.Sorting.sort_by
copies-normal = refl

consolidate-IsSelection_example : IsSelection copies normal
consolidate-IsSelection_example = consolidate-IsSelection copies normal copies-normal

consolidate-is_consolidated_example : is_consolidated normal ≡ true
consolidate-is_consolidated_example = consolidate-is_consolidated copies normal copies-normal

weight_of-consolidate_example : weight_of normal (3 ∷ []) ≡ weight_of copies (3 ∷ [])
weight_of-consolidate_example = weight_of-consolidate copies normal (3 ∷ []) copies-normal

-- The row 2 once, the row 3 three times less.
abbrev change : Relation
change = record copies { cols = (2 ∷ 3 ∷ []) ∷ []; weights = pos 1 ∷ negsuc 2 ∷ [] }

abbrev changed : Relation
changed = record copies { cols = (2 ∷ []) ∷ []; weights = pos 1 ∷ [] }

abbrev unchanged : Relation
unchanged = record copies { cols = (2 ∷ 3 ∷ []) ∷ []; weights = negsuc 0 ∷ pos 6 ∷ [] }

plus-changed : plus normal change ≡ returns changed
unfolding plus coln.Batch.Relation.merge coln.Batch.Relation.is_consolidated
    coln.Batch.Relation.ascending_from coln.Batch.Relation.no_zero coln.Batch.Relation.cmp_rows
    coln.Batch.Relation.merge_loop coln.Batch.Relation.cmp_row_pair Types.mul_weights
    coln.Prelude.Int.◌*ℤ◌ coln.Batch.Relation.weight Types.add_weights ◌+ℤ◌
    coln.Batch.Relation.with_weights Types.arity Types.uint_schema coln.Batch.Relation.push_row
    coln.Batch.Relation.all_long coln.Batch.Relation.row
plus-changed = refl

minus-unchanged : minus normal change ≡ returns unchanged
unfolding minus coln.Batch.Relation.merge coln.Batch.Relation.is_consolidated
    coln.Batch.Relation.ascending_from coln.Batch.Relation.no_zero coln.Batch.Relation.cmp_rows
    coln.Batch.Relation.merge_loop coln.Batch.Relation.cmp_row_pair Types.mul_weights
    coln.Prelude.Int.◌*ℤ◌ coln.Batch.Relation.weight Types.add_weights ◌+ℤ◌
    coln.Batch.Relation.with_weights Types.arity Types.uint_schema coln.Batch.Relation.push_row
    coln.Batch.Relation.all_long coln.Batch.Relation.row
minus-unchanged = refl

plus-weight_example :
    weight_of changed (3 ∷ []) ≡ weight_of normal (3 ∷ []) +ℤ weight_of change (3 ∷ [])
plus-weight_example = plus-weight normal change changed (3 ∷ []) plus-changed

minus-weight_example :
    weight_of unchanged (3 ∷ []) +ℤ weight_of change (3 ∷ []) ≡ weight_of normal (3 ∷ [])
minus-weight_example = minus-weight normal change unchanged (3 ∷ []) minus-unchanged
