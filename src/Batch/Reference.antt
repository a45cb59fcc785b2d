-- ===== src/Batch/Reference.antt =====
-- The reference executor, packages/coln-batch/src/reference.rs: every combination of rows. In a prepared
-- query a term has a column and a variable an entry in the binding, so the defaults of the reads are not met.
pub mod Undo
use coln.Prelude.{ℕ, zero, suc, ◌+◌, Option, none, some, List, [], ◌∷◌, ◌++◌, Bool, true, false}
use coln.Prelude.Tests.{nat_eq, if◌then◌else◌}
use coln.Prelude.Int.{pos}
use coln.Prelude.Lists.{get_or, replicate, range}
use coln.Prelude.Outcome
use coln.Prelude.Outcome.{Outcome, returns, panic, ◌>>=◌, expect}
use coln.Batch.Types.{Key, Weight, mul_weights}
use coln.Batch.Relation.{Relation, key_at, len, weight, empty, from_flat_rows, consolidate}
use coln.Batch.Query
use coln.Batch.Query.{
  Query, VarId, KeyTerm, KeyAtom, Catalog, Checked, Prepared, set_at, num_vars, prepare,
}

abbrev pub Binding : Type 0
Binding = List (Option Key)

pub record Output : Type 0 where
  pub keys : List Key
  pub weights : List Weight

unfoldable pub undo : Binding → List VarId → Binding
undo binding [] = binding
undo binding (v ∷ newly_bound) = undo (set_at binding v none) newly_bound

-- The loop over the terms of an atom: whether the row `r` fits, the binding, and what it bound.
unfoldable pub unify :
    List (List Key) → ℕ → ℕ → List KeyTerm → Binding → List VarId → Bool × Binding × List VarId
unify cols r c [] binding newly = (true, binding, newly)
unify cols r c (KeyTerm.lit l ∷ terms) binding newly =
    let rest = unify cols r (suc c) terms binding newly in
    if nat_eq (key_at (get_or cols c []) r) l then rest else (false, binding, newly)
unify cols r c (KeyTerm.var v ∷ terms) binding newly = elim (get_or binding v none) [
  | some bound ↦
      let rest = unify cols r (suc c) terms binding newly in
      if nat_eq (key_at (get_or cols c []) r) bound then rest else (false, binding, newly)
  | none ↦
      unify cols r (suc c) terms (set_at binding v (some (key_at (get_or cols c []) r)))
        (newly ++ v ∷ [])
]

unfoldable pub push_head : List VarId → Binding → List Key → Outcome (List Key)
push_head [] binding keys = returns keys
push_head (v ∷ head) binding keys =
    expect (get_or binding v none) >>= λ k. push_head head binding (keys ++ k ∷ [])

abbrev pub State : Type 0
State = Binding × Output

-- The rest of a round of the loop over the rows, with the search of the atoms that follow.
unfoldable pub finish_row :
    Weight → (Weight → State → Outcome State) → Output → Bool × Binding × List VarId → Outcome State
unfolding undo
finish_row product rest out (false, bound, newly) = returns (undo bound newly, out)
finish_row product rest out (true, bound, newly) =
    rest product (bound, out) >>= λ found. returns (undo found.0 newly, found.1)

-- The weights are multiplied only for a row that fits.
unfoldable pub row_product : Weight → Weight → Bool → Outcome Weight
row_product w v true = mul_weights w v
row_product w v false = returns w

unfoldable pub try_row :
    KeyAtom → Relation → Weight → (Weight → State → Outcome State) → ℕ → State → Outcome State
unfolding unify finish_row row_product
try_row atom table w rest r (binding, out) =
    let unified = unify table.cols r 0 atom.terms binding [] in
    row_product w (weight table r) unified.0 >>= λ product. finish_row product rest out unified

unfoldable pub for_rows : List ℕ → (ℕ → State → Outcome State) → State → Outcome State
for_rows [] body state = returns state
for_rows (r ∷ rows) body state = body r state >>= λ next. for_rows rows body next

unfoldable pub search : Query → List (KeyAtom × Relation) → Weight → State → Outcome State
unfolding push_head try_row for_rows
search query [] w (binding, out) = push_head query.head binding out.keys >>= λ keys.
    returns (binding, record { keys = keys; weights = out.weights ++ w ∷ [] })
search query ((atom, table) ∷ atoms) w state =
    for_rows (range (len table)) (try_row atom table w (λ v s. search query atoms v s)) state

-- The atoms with their relations.
unfoldable pub tables : Catalog → List KeyAtom → Checked (List (KeyAtom × Relation))
tables catalog [] = Query.ok []
tables catalog (atom ∷ atoms) = elim (Query.get catalog atom.relation) [
  | Query.ok rel ↦ elim (tables catalog atoms) [
    | Query.ok rest ↦ Query.ok ((atom, rel) ∷ rest)
    | Query.bail e ↦ Query.bail e
    | Query.panic ↦ Query.panic
  ]
  | Query.bail e ↦ Query.bail e
  | Query.panic ↦ Query.panic
]

abbrev pub checked : {A : Type 0} → Outcome A → Checked A
checked (returns a) = Query.ok a
checked panic = Query.panic

unfoldable pub run_search : Query → Prepared → List (KeyAtom × Relation) → Outcome Relation
unfolding search
run_search query prepared atoms =
    search query atoms (pos 1) (replicate (num_vars query) none, record { keys = []; weights = [] })
    >>= λ found.
        from_flat_rows "result" prepared.schema found.1.keys found.1.weights >>= consolidate

unfoldable pub execute : Query → Catalog → Checked Relation
unfolding tables run_search
execute query catalog = elim (prepare catalog query) [
  | Query.ok prepared ↦ elim prepared.atoms [
    | none ↦ checked (empty "result" prepared.schema)
    | some atoms ↦ elim (tables catalog atoms) [
      | Query.ok joined ↦ checked (run_search query prepared joined)
      | Query.bail e ↦ Query.bail e
      | Query.panic ↦ Query.panic
    ]
  ]
  | Query.bail e ↦ Query.bail e
  | Query.panic ↦ Query.panic
]
