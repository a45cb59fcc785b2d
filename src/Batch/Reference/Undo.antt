-- ===== src/Batch/Reference/Undo.antt =====
-- Lemmas on the bindings of the search, packages/coln-batch/src/reference.rs.
use coln.Prelude.{
  ℕ, zero, suc, ◌≡◌, ◌≢◌, refl, sym, ap, ◌∙◌, subst, inl, inr, Option, none, List, [], ◌∷◌, ◌++◌,
  Bool, true, false, arith,
}
use coln.Prelude.Tests.{nat_eq, Bool-cases, Option-cases}
use coln.Prelude.Lists.{get_or, range}
use coln.Prelude.Outcome.{Outcome, returns, panic, ◌>>=◌}
use coln.Batch.Types.{Key, Weight}
use coln.Batch.Relation.{Relation, key_at, len, weight}
use coln.Batch.Query.{Query, VarId, KeyTerm, KeyAtom, set_at}
use coln.Batch.Reference.{
  Binding, Output, State, undo, unify, push_head, finish_row, row_product, try_row, for_rows,
  search,
}

set_at-set_at : (b : Binding) (v : ℕ) (x y : Option Key) → set_at (set_at b v x) v y ≡ set_at b v y
unfolding set_at
set_at-set_at [] v x y = refl
set_at-set_at (z ∷ b) zero x y = refl
set_at-set_at (z ∷ b) (suc v) x y = ap (λ r. z ∷ r) (set_at-set_at b v x y)

set_at_comm :
    (b : Binding) (v w : ℕ) (x y : Option Key)
    → v ≢ w
    → set_at (set_at b v x) w y ≡ set_at (set_at b w y) v x
unfolding set_at
set_at_comm [] v w x y ne = refl
set_at_comm (z ∷ b) zero zero x y ne = absurd (ne refl)
set_at_comm (z ∷ b) zero (suc w) x y ne = refl
set_at_comm (z ∷ b) (suc v) zero x y ne = refl
set_at_comm (z ∷ b) (suc v) (suc w) x y ne =
    ap (λ r. z ∷ r) (set_at_comm b v w x y (λ e. ne (ap suc e)))

set_at-none : (b : Binding) (v : ℕ) → get_or b v none ≡ none → set_at b v none ≡ b
unfolding set_at
set_at-none [] v h = refl
set_at-none (z ∷ b) zero h = rw h refl
set_at-none (z ∷ b) (suc v) h = ap (λ r. z ∷ r) (set_at-none b v h)

get_or-set_at-none :
    (b : Binding) (v w : ℕ) → get_or b v none ≡ none → get_or (set_at b w none) v none ≡ none
unfolding set_at
get_or-set_at-none [] v w h = refl
get_or-set_at-none (z ∷ b) zero zero h = refl
get_or-set_at-none (z ∷ b) zero (suc w) h = h
get_or-set_at-none (z ∷ b) (suc v) zero h = h
get_or-set_at-none (z ∷ b) (suc v) (suc w) h = get_or-set_at-none b v w h

get_or-undo :
    (b : Binding) (v : ℕ) (newly : List VarId)
    → get_or b v none ≡ none
    → get_or (undo b newly) v none ≡ none
unfolding undo
get_or-undo b v [] h = h
get_or-undo b v (w ∷ newly) h = get_or-undo (set_at b w none) v newly (get_or-set_at-none b v w h)

-- An entry that is cleared in the end may hold anything before.
undo-set_at :
    (b : Binding) (v : ℕ) (x : Option Key) (newly : List VarId)
    → undo (set_at b v x) (newly ++ v ∷ []) ≡ set_at (undo b newly) v none
unfolding undo
undo-set_at b v x [] = set_at-set_at b v x none
undo-set_at b v x (w ∷ newly) = elim (Bool-cases (nat_eq v w)) [
  | inl same ↦
      let e : v ≡ w = ground (arith, same) in
      subst
        (λ u.
          undo (set_at (set_at b v x) u none) (newly ++ v ∷ [])
          ≡ set_at (undo (set_at b u none) newly) v none)
        e
        (ap (λ r. undo r (newly ++ v ∷ []))
            (set_at-set_at b v x none ∙ sym (set_at-set_at b v none none))
          ∙ undo-set_at (set_at b v none) v none newly)
  | inr other ↦
      ap (λ r. undo r (newly ++ v ∷ [])) (set_at_comm b v w x none (λ p. ground (arith, other, p)))
      ∙ undo-set_at (set_at b w none) v x newly
]

-- Undoing what a row bound gives the binding back, whether the row fits or not.
pub undo-unify :
    (cols : List (List Key)) (r c : ℕ) (terms : List KeyTerm) (binding start : Binding)
    (newly : List VarId)
    → undo binding newly ≡ start
    → undo (unify cols r c terms binding newly).1 (unify cols r c terms binding newly).2 ≡ start
unfolding unify
undo-unify cols r c [] binding start newly h = h
undo-unify cols r c (KeyTerm.lit l ∷ terms) binding start newly h =
    elim (Bool-cases (nat_eq (key_at (get_or cols c []) r) l)) [
      | inl same ↦ rw (same, unify) (undo-unify cols r (suc c) terms binding start newly h)
      | inr other ↦ rw (other, unify) h
    ]
undo-unify cols r c (KeyTerm.var v ∷ terms) binding start newly h =
    elim (Option-cases (get_or binding v none)) [
      | inl (bound, e) ↦ elim (Bool-cases (nat_eq (key_at (get_or cols c []) r) bound)) [
        | inl same ↦ rw (e, same, unify) (undo-unify cols r (suc c) terms binding start newly h)
        | inr other ↦ rw (e, other, unify) h
      ]
      | inr e ↦
          rw (e, unify)
            (undo-unify cols r (suc c) terms (set_at binding v _) start (newly ++ v ∷ []) (
              undo-set_at binding v _ newly
              ∙ set_at-none (undo binding newly) v (get_or-undo binding v newly e)
              ∙ h))
    ]

returns_of_bind :
    {A B : Type 0} (m : Outcome A) (f : A → Outcome B) (b : B)
    → (m >>= f) ≡ returns b
    → (a : A) × (m ≡ returns a) × (f a ≡ returns b)
returns_of_bind (returns a) f b h = (a, refl, h)
returns_of_bind panic f b h = absurd (ground (arith, h))

returns_inj : {A : Type 0} {a b : A} → returns a ≡ returns b → a ≡ b
returns_inj p = ground (arith, p)

-- The binding is the same before and after.
abbrev Restores : (State → Outcome State) → Type 0
Restores f = (s t : State) → f s ≡ returns t → t.0 ≡ s.0

finish_row-Restores :
    (product : Weight) (rest : Weight → State → Outcome State) (out : Output)
    (unified : Bool × Binding × List VarId) (t : State)
    → ((w : Weight) → Restores (rest w))
    → finish_row product rest out unified ≡ returns t
    → t.0 ≡ undo unified.1 unified.2
unfolding finish_row
finish_row-Restores product rest out (false, bound, newly) t restores h =
    ap (λ (s : State). s.0) (sym (returns_inj h))
finish_row-Restores product rest out (true, bound, newly) t restores h =
    let (found, e, k) = returns_of_bind (rest product (bound, out)) _ t h in
    ap (λ (s : State). s.0) (sym (returns_inj k))
    ∙ ap (λ b. undo b newly) (restores product (bound, out) found e)

try_row-Restores :
    (atom : KeyAtom) (table : Relation) (w : Weight) (rest : Weight → State → Outcome State) (r : ℕ)
    → ((v : Weight) → Restores (rest v))
    → Restores (try_row atom table w rest r)
unfolding try_row
try_row-Restores atom table w rest r restores (binding, out) t h =
    let unified = unify table.cols r 0 atom.terms binding [] in
    let (product, e, k) = returns_of_bind (row_product w (weight table r) unified.0) _ t h in
    finish_row-Restores product rest out unified t restores k
    ∙ undo-unify table.cols r 0 atom.terms binding binding [] refl

for_rows-Restores :
    (rows : List ℕ) (body : ℕ → State → Outcome State)
    → ((r : ℕ) → Restores (body r))
    → Restores (for_rows rows body)
unfolding for_rows
for_rows-Restores [] body restores s t h = ap (λ (s : State). s.0) (sym (returns_inj h))
for_rows-Restores (r ∷ rows) body restores s t h =
    let (next, e, k) = returns_of_bind (body r s) _ t h in
    for_rows-Restores rows body restores next t k ∙ restores r s next e

-- Whenever the search for the atoms that are left returns, whatever the rows it tried bound is undone: the
-- binding is the one that it was called with.
pub search-Restores :
    (query : Query) (atoms : List (KeyAtom × Relation)) (w : Weight) (s t : State)
    → search query atoms w s ≡ returns t
    → t.0 ≡ s.0
unfolding search
search-Restores query [] w (binding, out) t h =
    let (keys, e, k) = returns_of_bind (push_head query.head binding out.keys) _ t h in
    ap (λ (s : State). s.0) (sym (returns_inj k))
search-Restores query ((atom, table) ∷ atoms) w s t h =
    for_rows-Restores (range (len table)) (try_row atom table w (λ v u. search query atoms v u))
      (λ r.
        try_row-Restores atom table w (λ v u. search query atoms v u) r
          (λ v a b. search-Restores query atoms v a b))
      s t h
