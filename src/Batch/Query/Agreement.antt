-- ===== src/Batch/Query/Agreement.antt =====
-- Lemmas on the typing of queries, packages/coln-batch/src/query.rs.
use coln.Prelude.{
  ℕ, suc, ◌≡◌, refl, sym, ap, ◌∙◌, subst, inl, inr, String, Option, none, some, List, [], ◌∷◌, map,
  arith,
}
use coln.Prelude.Tests.{nat_eq, Bool-cases}
use coln.Prelude.Lists.{length, get_elem?}
use coln.Batch.Types.{ScalarType, scalar_type, same_type}
use coln.Batch.Query.{
  Term, Atom, Query, Checked, ok, Bindings, infer_term, infer_terms, infer_atom, infer_atoms,
  infer_var_types, Catalog, column_types, all_typed, Typing, check, num_vars, validate,
}
use coln.Batch.Query.Binding.{ok_of_bind, ok_inj, same_type_eq, Types, Grows, bind-Grows}

abbrev IsTypedTerm : Types → Term → Option ScalarType → Type 0
IsTypedTerm ts term none = Unit
IsTypedTerm ts (Term.lit value) (some t) = scalar_type value ≡ t
IsTypedTerm ts (Term.var v) (some t) = get_elem? ts v ≡ some (some t)

-- The terms agree with the columns, of which there are as many.
abbrev IsTyped : Types → List Term → List (Option ScalarType) → Type 0
IsTyped ts [] [] = Unit
IsTyped ts (term ∷ terms) (t ∷ cols) = IsTypedTerm ts term t × IsTyped ts terms cols
IsTyped ts [] (t ∷ cols) = ⊥
IsTyped ts (term ∷ terms) [] = ⊥

IsTypedTerm-Grows :
    (ts us : Types) (term : Term) (t : Option ScalarType)
    → Grows ts us
    → IsTypedTerm ts term t
    → IsTypedTerm us term t
IsTypedTerm-Grows ts us term none g h = tt
IsTypedTerm-Grows ts us (Term.lit value) (some t) g h = h
IsTypedTerm-Grows ts us (Term.var v) (some t) g h = g v t h

IsTyped-Grows :
    (ts us : Types) (terms : List Term) (cols : List (Option ScalarType))
    → Grows ts us
    → IsTyped ts terms cols
    → IsTyped us terms cols
IsTyped-Grows ts us [] [] g h = tt
IsTyped-Grows ts us (term ∷ terms) (t ∷ cols) g h =
    (IsTypedTerm-Grows ts us term t g h.0, IsTyped-Grows ts us terms cols g h.1)
IsTyped-Grows ts us [] (t ∷ cols) g h = h
IsTyped-Grows ts us (term ∷ terms) [] g h = h

infer_term-Grows :
    (relation : String) (c : ℕ) (term : Term) (t : Option ScalarType) (b b' : Bindings)
    → infer_term relation c term t b ≡ ok b'
    → Grows b.var_types b'.var_types × IsTypedTerm b'.var_types term t
unfolding infer_term
infer_term-Grows relation c term none b b' h = rw (sym (ok_inj h)) (λ w u k. k, tt)
infer_term-Grows relation c (Term.lit value) (some t) b b' h =
    elim (Bool-cases (same_type (scalar_type value) t)) [
      | inl same ↦
          let unchanged : b ≡ b' = ground (arith, h, same) in
          (
            subst (λ (x : Bindings). Grows b.var_types x.var_types) unchanged (λ w u k. k),
            same_type_eq (scalar_type value) t same,
          )
      | inr other ↦ absurd (ground (arith, h, other))
    ]
infer_term-Grows relation c (Term.var v) (some t) b b' h = bind-Grows relation c v t b b' h

infer_terms-Grows :
    (relation : String) (c : ℕ) (terms : List Term) (cols : List (Option ScalarType))
    (b b' : Bindings)
    → length cols ≡ length terms
    → infer_terms relation c terms cols b ≡ ok b'
    → Grows b.var_types b'.var_types × IsTyped b'.var_types terms cols
unfolding infer_terms
infer_terms-Grows relation c [] [] b b' n h = rw (sym (ok_inj h)) (λ w u k. k, tt)
infer_terms-Grows relation c [] (t ∷ cols) b b' n h = absurd (omega (arith, n))
infer_terms-Grows relation c (term ∷ terms) [] b b' n h = absurd (omega (arith, n))
infer_terms-Grows relation c (term ∷ terms) (t ∷ cols) b b' n h =
    let (mid, e, k) = ok_of_bind (infer_term relation c term t b) _ b' h in
    let first = infer_term-Grows relation c term t b mid e in
    let rest = infer_terms-Grows relation (suc c) terms cols mid b' (omega (arith, n)) k in
    (
      λ v u p. rest.0 v u (first.0 v u p),
      (IsTypedTerm-Grows mid.var_types b'.var_types term t rest.0 first.1, rest.1),
    )

module _ (schema_of : String → Checked (List (Option ScalarType))) where
  -- Every atom names a relation, has a term for each of its columns, and agrees with their types.
  abbrev pub IsTypedBody : Types → List Atom → Type 0
  IsTypedBody ts [] = Unit
  IsTypedBody ts (atom ∷ atoms) =
      ((cols : List (Option ScalarType)) × (schema_of atom.relation ≡ ok cols)
        × IsTyped ts atom.terms cols)
      × IsTypedBody ts atoms

  infer_atom-Grows :
      (atom : Atom) (b b' : Bindings)
      → infer_atom schema_of atom b ≡ ok b'
      → Grows b.var_types b'.var_types
        × ((cols : List (Option ScalarType)) × (schema_of atom.relation ≡ ok cols)
            × IsTyped b'.var_types atom.terms cols)
  unfolding infer_atom
  infer_atom-Grows atom b b' h =
      let (cols, e, k) = ok_of_bind (schema_of atom.relation) _ b' h in
      elim (Bool-cases (nat_eq (length cols) (length atom.terms))) [
        | inl same ↦
            let rest =
              infer_terms-Grows atom.relation 0 atom.terms cols b b' (ground (arith, same))
                (ground (arith, k, same)) in
            (rest.0, (cols, e, rest.1))
        | inr other ↦ absurd (ground (arith, k, other))
      ]

  infer_atoms-Grows :
      (atoms : List Atom) (b b' : Bindings)
      → infer_atoms schema_of atoms b ≡ ok b'
      → Grows b.var_types b'.var_types × IsTypedBody b'.var_types atoms
  unfolding infer_atoms
  infer_atoms-Grows [] b b' h = rw (sym (ok_inj h)) (λ w u k. k, tt)
  infer_atoms-Grows (atom ∷ atoms) b b' h =
      let (mid, e, k) = ok_of_bind (infer_atom schema_of atom b) _ b' h in
      let first = infer_atom-Grows atom b mid e in
      let rest = infer_atoms-Grows atoms mid b' k in
      (
        λ v u p. rest.0 v u (first.0 v u p),
        (
          (
            first.1.0,
            first.1.1,
            IsTyped-Grows mid.var_types b'.var_types atom.terms first.1.0 rest.0 first.1.2,
          ),
          rest.1,
        ),
      )

  -- The types that `infer_var_types` gives fit the body.
  pub infer_var_types-IsTypedBody :
      (n : ℕ) (atoms : List Atom) (ts : Types)
      → infer_var_types schema_of n atoms ≡ ok ts
      → IsTypedBody ts atoms
  unfolding infer_var_types
  infer_var_types-IsTypedBody n atoms ts h =
      let (b, e, k) = ok_of_bind (infer_atoms schema_of atoms _) _ ts h in
      subst (λ us. IsTypedBody us atoms) (ok_inj k) (infer_atoms-Grows atoms _ b e).1

all_typed-map :
    (ts : Types) (us : List ScalarType) → all_typed ts ≡ ok us → ts ≡ map (λ t. some t) us
unfolding all_typed
all_typed-map [] us h = rw (sym (ok_inj h)) refl
all_typed-map (none ∷ ts) us h = absurd (ground (arith, h))
all_typed-map (some t ∷ ts) us h =
    let (rest, e, k) = ok_of_bind (all_typed ts) _ us h in
    rw (sym (ok_inj k)) (ap (λ x. some t ∷ x) (all_typed-map ts rest e))

-- When a query passes the check of a catalog, every variable has one type, every atom names a relation of
-- the catalog and has a term for each of its columns, and every variable has the type of each column that
-- it stands in, and every literal the type of its column.
pub check-IsTypedBody :
    (catalog : Catalog) (query : Query) (typing : Typing)
    → check catalog query ≡ ok typing
    → IsTypedBody (column_types catalog) (map (λ t. some t) typing.var_types) query.atoms
unfolding check
check-IsTypedBody catalog query typing h =
    let (valid, e, k) = ok_of_bind (validate query) _ typing h in
    let (ts, f, l) =
      ok_of_bind (infer_var_types (column_types catalog) (num_vars query) query.atoms) _ typing k in
    let (us, g, m) = ok_of_bind (all_typed ts) _ typing l in
    subst (λ us. IsTypedBody (column_types catalog) us query.atoms)
      (all_typed-map ts us g ∙ ap (λ (r : Typing). map (λ t. some t) r.var_types) (ok_inj m))
      (infer_var_types-IsTypedBody (column_types catalog) (num_vars query) query.atoms ts f)
