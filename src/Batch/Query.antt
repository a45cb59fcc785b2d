-- ===== src/Batch/Query.antt =====
-- Conjunctive queries, their validation, typing and preparation: packages/coln-batch/src/query.rs. The
-- messages of the errors stand as the data that they print.
pub mod Binding
pub mod Agreement
use coln.Prelude.{
  ℕ, zero, suc, ◌+◌, String, Option, none, some, List, [], ◌∷◌, map, Bool, true, false,
}
use coln.Prelude.Tests.{PartialEq, String-eq, ltb, leb, nat_eq, if◌then◌else◌}
use coln.Prelude.Lists.{length, get_elem?, get_or, replicate}
use coln.Prelude.Maps
use coln.Prelude.Maps.{HashMap}
use coln.Batch.Types.{
  Key, ScalarType, uint_type, Value, scalar_type, same_type, Schema, Column, types, Dictionary,
  key_if_known,
}
use coln.Batch.Relation.{Relation}
use coln.Batch.Table.{BuildError}

abbrev pub VarId : Type 0
VarId = ℕ

pub data Term : Type 0 where
  var : VarId → Term
  lit : Value → Term

pub record Atom : Type 0 where
  pub relation : String
  pub terms : List Term

pub record Query : Type 0 where
  pub var_names : List String
  pub atoms : List Atom
  pub head : List VarId

pub data QueryError : Type 0 where
  no_atoms empty_head : QueryError
  unknown_variable : String → VarId → QueryError
  unused_variable : VarId → QueryError
  unknown_head : VarId → QueryError
  no_relation : String → QueryError
  wrong_arity : String → ℕ → ℕ → QueryError
  literal_type : Value → String → ℕ → ScalarType → QueryError
  build_error : BuildError → QueryError
  variable_type : VarId → ScalarType → String × ℕ → String × ℕ → ScalarType → QueryError

-- `anyhow::Result`, and the panic of an index out of bounds or an `expect`.
pub data Checked (A : Type 0) : Type 0 where
  ok : A → Checked A
  bail : QueryError → Checked A
  panic : Checked A

infixl 5 ◌>>=◌
abbrev pub ◌>>=◌ : {A B : Type 0} → Checked A → (A → Checked B) → Checked B
ok a >>= f = f a
bail e >>= f = bail e
panic >>= f = panic

-- `xs[i] = x` where `i` is in bounds.
unfoldable pub set_at : {A : Type 0} → List A → ℕ → A → List A
set_at [] i x = []
set_at (y ∷ ys) zero x = x ∷ ys
set_at (y ∷ ys) (suc i) x = y ∷ set_at ys i x

-- A variable of the head is in range in a validated query, so the defaults of `get_or` are not met.
unfoldable pub num_vars : Query → ℕ
num_vars query = length query.var_names

unfoldable pub head_names : Query → List String
head_names query = map (λ v. get_or query.var_names v "") query.head

unfoldable pub mark_terms : ℕ → String → List Term → List Bool → Checked (List Bool)
mark_terms n relation [] seen = ok seen
mark_terms n relation (lit value ∷ terms) seen = mark_terms n relation terms seen
mark_terms n relation (var v ∷ terms) seen =
    let rest = mark_terms n relation terms (set_at seen v true) in
    if leb n v then bail (unknown_variable relation v) else rest

unfoldable pub mark_atoms : ℕ → List Atom → List Bool → Checked (List Bool)
unfolding mark_terms
mark_atoms n [] seen = ok seen
mark_atoms n (atom ∷ atoms) seen =
    mark_terms n atom.relation atom.terms seen >>= λ marked. mark_atoms n atoms marked

unfoldable pub first_unseen : ℕ → List Bool → Option VarId
first_unseen v [] = none
first_unseen v (false ∷ seen) = some v
first_unseen v (true ∷ seen) = first_unseen (suc v) seen

unfoldable pub check_head : ℕ → List VarId → Checked Unit
check_head n [] = ok tt
check_head n (v ∷ head) =
    let rest = check_head n head in if leb n v then bail (unknown_head v) else rest

unfoldable pub check_seen : List Bool → Checked Unit
check_seen seen = elim (first_unseen 0 seen) [ some v ↦ bail (unused_variable v) | none ↦ ok tt ]

unfoldable pub validate : Query → Checked Unit
validate query = elim query.atoms [
  | [] ↦ bail no_atoms
  | _ ∷ _ ↦ elim query.head [
    | [] ↦ bail empty_head
    | _ ∷ _ ↦ mark_atoms (num_vars query) query.atoms (replicate (num_vars query) false) >>= λ seen.
        check_seen seen >>= λ all_seen. check_head (num_vars query) query.head
  ]
]

-- `var_types` and `bound_at` of `infer_var_types`.
pub record Bindings : Type 0 where
  pub var_types : List (Option ScalarType)
  pub bound_at : List (Option (String × ℕ))

unfoldable pub bind : String → ℕ → VarId → ScalarType → Bindings → Checked Bindings
bind relation c v t b = elim (get_elem? b.var_types v) [
  | none ↦ panic
  | some none ↦ ok (record {
    var_types = set_at b.var_types v (some t);
    bound_at = set_at b.bound_at v (some (relation, c));
  })
  | some (some known) ↦ if same_type known t then ok b else (elim (get_or b.bound_at v none) [
    | some place ↦ bail (variable_type v known place (relation, c) t)
    | none ↦ panic
  ])
]

unfoldable pub infer_term : String → ℕ → Term → Option ScalarType → Bindings → Checked Bindings
unfolding bind
infer_term relation c term none b = ok b
infer_term relation c (lit value) (some t) b =
    if same_type (scalar_type value) t then ok b else bail (literal_type value relation c t)
infer_term relation c (var v) (some t) b = bind relation c v t b

-- The loop over the terms of an atom with their columns.
unfoldable pub infer_terms :
    String → ℕ → List Term → List (Option ScalarType) → Bindings → Checked Bindings
unfolding infer_term
infer_terms relation c (term ∷ terms) (t ∷ ts) b =
    infer_term relation c term t b >>= λ grown. infer_terms relation (suc c) terms ts grown
infer_terms relation c [] ts b = ok b
infer_terms relation c (term ∷ terms) [] b = ok b

module _ (schema_of : String → Checked (List (Option ScalarType))) where
  unfoldable pub infer_atom : Atom → Bindings → Checked Bindings
  infer_atom atom b = schema_of atom.relation >>= λ ts.
      if nat_eq (length ts) (length atom.terms)
      then infer_terms atom.relation 0 atom.terms ts b
      else bail (wrong_arity atom.relation (length atom.terms) (length ts))

  unfoldable pub infer_atoms : List Atom → Bindings → Checked Bindings
  infer_atoms [] b = ok b
  infer_atoms (atom ∷ atoms) b = infer_atom atom b >>= λ grown. infer_atoms atoms grown

  unfoldable pub infer_var_types : ℕ → List Atom → Checked (List (Option ScalarType))
  infer_var_types n atoms =
      infer_atoms atoms (record { var_types = replicate n none; bound_at = replicate n none })
      >>= λ b. ok b.var_types

pub record Catalog : Type 0 where
  pub map : HashMap String Relation
  pub dict : Dictionary

unfoldable pub insert : Relation → Catalog → Catalog
insert rel catalog = record { map = Maps.insert rel.name rel catalog.map; dict = catalog.dict }

unfoldable pub get : Catalog → String → Checked Relation
get catalog name = elim (Maps.get name catalog.map) [
  | some rel ↦ ok rel
  | none ↦ bail (no_relation name)
]

unfoldable pub contains : Catalog → String → Bool
contains catalog name = elim (Maps.get name catalog.map) [ some rel ↦ true | none ↦ false ]

unfoldable pub column_types : Catalog → String → Checked (List (Option ScalarType))
unfolding get
column_types catalog name = get catalog name >>= λ rel. ok (map (λ t. some t) (types rel.schema))

-- `expect` on every type.
unfoldable pub all_typed : List (Option ScalarType) → Checked (List ScalarType)
all_typed [] = ok []
all_typed (none ∷ ts) = panic
all_typed (some t ∷ ts) = all_typed ts >>= λ rest. ok (t ∷ rest)

pub record Typing : Type 0 where
  pub var_types : List ScalarType

unfoldable pub check : Catalog → Query → Checked Typing
check catalog query = validate query >>= λ valid.
    infer_var_types (column_types catalog) (num_vars query) query.atoms >>= λ ts.
    all_typed ts >>= λ var_types. ok (record { var_types = var_types })

unfoldable pub head_schema : Typing → Query → Schema
head_schema typing query = record {
  columns =
      map
        (λ v. record {
          name = get_or query.var_names v "";
          ty = get_or typing.var_types v uint_type;
        })
        query.head;
}

pub data KeyTerm : Type 0 where
  var : VarId → KeyTerm
  lit : Key → KeyTerm

pub record KeyAtom : Type 0 where
  pub relation : String
  pub terms : List KeyTerm

pub record Prepared : Type 0 where
  pub schema : Schema
  pub atoms : Option (List KeyAtom)

-- `none` where a string literal is not in the dictionary.
unfoldable pub prepare_terms : Dictionary → List Term → Option (List KeyTerm)
prepare_terms dict [] = some []
prepare_terms dict (var v ∷ terms) = elim (prepare_terms dict terms) [
  | some rest ↦ some (KeyTerm.var v ∷ rest)
  | none ↦ none
]
prepare_terms dict (lit value ∷ terms) = elim (key_if_known value dict) [
  | none ↦ none
  | some key ↦ elim (prepare_terms dict terms) [
    | some rest ↦ some (KeyTerm.lit key ∷ rest)
    | none ↦ none
  ]
]

unfoldable pub prepare_atoms : Dictionary → List Atom → Option (List KeyAtom)
unfolding prepare_terms
prepare_atoms dict [] = some []
prepare_atoms dict (atom ∷ atoms) = elim (prepare_terms dict atom.terms) [
  | none ↦ none
  | some terms ↦ elim (prepare_atoms dict atoms) [
    | some rest ↦ some (record { relation = atom.relation; terms = terms } ∷ rest)
    | none ↦ none
  ]
]

unfoldable pub prepare : Catalog → Query → Checked Prepared
unfolding check head_schema prepare_atoms
prepare catalog query = check catalog query >>= λ typing.
    ok
      (record { schema = head_schema typing query; atoms = prepare_atoms catalog.dict query.atoms })
