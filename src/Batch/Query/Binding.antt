-- ===== src/Batch/Query/Binding.antt =====
-- How `infer_var_types` binds a variable to its type.
use coln.Prelude.{
  ℕ, zero, suc, ◌≡◌, ◌≢◌, refl, ap, ◌∙◌, inl, inr, String, Option, none, some, List, [], ◌∷◌, true,
  arith,
}
use coln.Prelude.Tests.{nat_eq, Bool-cases, Option-cases}
use coln.Prelude.Lists.{get_elem?, get_or, index_cong}
use coln.Batch.Types.{
  ScalarType, uint_type, iint_type, bool_type, char_type, string_type, same_type,
}
use coln.Batch.Query.{Checked, ok, bail, panic, ◌>>=◌, set_at, Bindings, bind}

pub ok_of_bind :
    {A B : Type 0} (first : Checked A) (next : A → Checked B) (result : B)
    → (first >>= next) ≡ ok result
    → (a : A) × (first ≡ ok a) × (next a ≡ ok result)
ok_of_bind (ok a) next result h = (a, refl, h)
ok_of_bind (bail e) next result h = absurd (ground (arith, h))
ok_of_bind panic next result h = absurd (ground (arith, h))

pub ok_inj : {A : Type 0} {a b : A} → ok a ≡ ok b → a ≡ b
ok_inj p = ground (arith, p)

pub same_type_eq : (s t : ScalarType) → same_type s t ≡ true → s ≡ t
same_type_eq uint_type uint_type h = refl
same_type_eq iint_type iint_type h = refl
same_type_eq bool_type bool_type h = refl
same_type_eq char_type char_type h = refl
same_type_eq string_type string_type h = refl
same_type_eq uint_type iint_type h = absurd (ground (arith, h))
same_type_eq uint_type bool_type h = absurd (ground (arith, h))
same_type_eq uint_type char_type h = absurd (ground (arith, h))
same_type_eq uint_type string_type h = absurd (ground (arith, h))
same_type_eq iint_type uint_type h = absurd (ground (arith, h))
same_type_eq iint_type bool_type h = absurd (ground (arith, h))
same_type_eq iint_type char_type h = absurd (ground (arith, h))
same_type_eq iint_type string_type h = absurd (ground (arith, h))
same_type_eq bool_type uint_type h = absurd (ground (arith, h))
same_type_eq bool_type iint_type h = absurd (ground (arith, h))
same_type_eq bool_type char_type h = absurd (ground (arith, h))
same_type_eq bool_type string_type h = absurd (ground (arith, h))
same_type_eq char_type uint_type h = absurd (ground (arith, h))
same_type_eq char_type iint_type h = absurd (ground (arith, h))
same_type_eq char_type bool_type h = absurd (ground (arith, h))
same_type_eq char_type string_type h = absurd (ground (arith, h))
same_type_eq string_type uint_type h = absurd (ground (arith, h))
same_type_eq string_type iint_type h = absurd (ground (arith, h))
same_type_eq string_type bool_type h = absurd (ground (arith, h))
same_type_eq string_type char_type h = absurd (ground (arith, h))

pub set_at_same :
    {A : Type 0} (xs : List A) (i : ℕ) (x y : A)
    → get_elem? xs i ≡ some y
    → get_elem? (set_at xs i x) i ≡ some x
unfolding set_at
set_at_same [] i x y h = absurd (ground (arith, h))
set_at_same (z ∷ xs) zero x y h = refl
set_at_same (z ∷ xs) (suc i) x y h = set_at_same xs i x y h

pub set_at_other :
    {A : Type 0} (xs : List A) (i j : ℕ) (x : A)
    → i ≢ j
    → get_elem? (set_at xs i x) j ≡ get_elem? xs j
unfolding set_at
set_at_other [] i j x ne = refl
set_at_other (z ∷ xs) zero zero x ne = absurd (ne refl)
set_at_other (z ∷ xs) zero (suc j) x ne = refl
set_at_other (z ∷ xs) (suc i) zero x ne = refl
set_at_other (z ∷ xs) (suc i) (suc j) x ne = set_at_other xs i j x (λ e. ne (ap suc e))

-- A typing of the variables, some of them still open.
abbrev pub Types : Type 0
Types = List (Option ScalarType)

abbrev pub Grows : Types → Types → Type 0
Grows ts us =
    (v : ℕ) (t : ScalarType) → get_elem? ts v ≡ some (some t) → get_elem? us v ≡ some (some t)

pub Grows-set_at :
    (ts : Types) (v : ℕ) (t : ScalarType)
    → get_elem? ts v ≡ some none
    → Grows ts (set_at ts v (some t))
Grows-set_at ts v t e w u k = elim (Bool-cases (nat_eq v w)) [
  | inl same ↦ absurd (ground (arith, e, k, same, index_cong ts v w (ground (arith, same))))
  | inr other ↦ set_at_other ts v w (some t) (λ p. ground (arith, other, p)) ∙ k
]

pub bind_open :
    (relation : String) (c v : ℕ) (t : ScalarType) (b b' : Bindings)
    → get_elem? b.var_types v ≡ some none
    → bind relation c v t b ≡ ok b'
    → b'.var_types ≡ set_at b.var_types v (some t)
unfolding bind
bind_open relation c v t b b' e h = ground (arith, h, e)

pub bind_known :
    (relation : String) (c v : ℕ) (t known : ScalarType) (b b' : Bindings)
    → get_elem? b.var_types v ≡ some (some known)
    → bind relation c v t b ≡ ok b'
    → (same_type known t ≡ true) × (b' ≡ b)
unfolding bind
bind_known relation c v t known b b' e h = elim (Bool-cases (same_type known t)) [
  | inl same ↦ (same, ground (arith, h, e, same))
  | inr other ↦ elim (Option-cases (get_or b.bound_at v none)) [
    | inl (place, p) ↦ absurd (ground (arith, h, e, other, p))
    | inr p ↦ absurd (ground (arith, h, e, other, p))
  ]
]

pub bind_missing :
    (relation : String) (c v : ℕ) (t : ScalarType) (b b' : Bindings)
    → get_elem? b.var_types v ≡ none
    → bind relation c v t b ≢ ok b'
unfolding bind
bind_missing relation c v t b b' e h = ground (arith, h, e)

pub bind-Grows :
    (relation : String) (c v : ℕ) (t : ScalarType) (b b' : Bindings)
    → bind relation c v t b ≡ ok b'
    → Grows b.var_types b'.var_types × (get_elem? b'.var_types v ≡ some (some t))
bind-Grows relation c v t b b' h = elim (Option-cases (get_elem? b.var_types v)) [
  | inr e ↦ absurd (bind_missing relation c v t b b' e h)
  | inl (none, e) ↦
      rw (bind_open relation c v t b b' e h)
        (Grows-set_at b.var_types v t e, set_at_same b.var_types v (some t) none e)
  | inl (some known, e) ↦
      let old = bind_known relation c v t known b b' e h in
      rw old.1 (λ w u k. k, e ∙ ap (λ x. some (some x)) (same_type_eq known t old.0))
]
