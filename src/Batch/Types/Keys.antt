-- ===== src/Batch/Types/Keys.antt =====
-- Lemmas on keys and the dictionary, packages/coln-batch/src/types.rs.
use coln.Prelude.{
  ℕ, ◌^◌, ◌<◌, ◌≤◌, ◌≡◌, ◌↔◌, inl, inr, refl, ◌∙◌, String, none, some, [], ◌∷◌, ◌++◌, Bool, true,
  false, arith,
}
use coln.Prelude.Tests.{String-eq, Option-cases, beq_self, if◌then◌else◌}
use coln.Prelude.Int.{ℤ, pos, negsuc, ◌≤ℤ◌}
use coln.Prelude.Lists.{length, get_elem?-append, get_elem?-append_length, lt-get_elem?}
use coln.Prelude.Maps
use coln.Prelude.Interner.{Agrees, Agrees-grown}
use coln.Prelude.Outcome.{returns}
use coln.Batch.Types.{
  Key, Value, uint, iint, bool, char, string, scalar_type, Dictionary, intern, code, string_at,
  to_u64, to_i64, flip_sign, key_if_known, to_key, from_key, value, is_char, fits_i64,
}

-- The values that the Rust types hold.
abbrev pub InRange : Value → Type 0
InRange (uint u) = u < 2 ^ 64
InRange (iint i) = fits_i64 i ≡ true
InRange (bool b) = Unit
InRange (char c) = is_char c ≡ true
InRange (string s) = Unit

flip_to_i64 : (i : ℤ) → fits_i64 i ≡ true → to_i64 (flip_sign (flip_sign (to_u64 i))) ≡ i
unfolding to_i64 flip_sign to_u64
flip_to_i64 (pos n) h = ground arith
flip_to_i64 (negsuc n) h = ground arith

abbrev pub IsConsistent : Dictionary → Type 0
IsConsistent d = Agrees d.strings d.codes

module _ (d : Dictionary) (s : String) where
  intern_old : (i : ℕ) → Maps.get s d.codes ≡ some i → intern s d ≡ (d, i)
  unfolding intern
  intern_old i e = rw (e, intern)

  abbrev grown : Dictionary
  grown = record { strings = d.strings ++ s ∷ []; codes = Maps.insert s (length d.strings) d.codes }

  intern_new : Maps.get s d.codes ≡ none → intern s d ≡ (grown, length d.strings)
  unfolding intern
  intern_new e = rw (e, intern)

module _ (d : Dictionary) (c : IsConsistent d) (s : String) where
  -- Interning keeps the dictionary consistent and every code that it gave out, gives a code that
  -- stands for the string, and gives the same code again.
  pub intern_lem :
      IsConsistent (intern s d).0
      × (string_at (intern s d).0 (intern s d).1 ≡ some s)
      × (code (intern s d).0 s ≡ some (intern s d).1)
      × ((k : Key) (t : String) → string_at d k ≡ some t → string_at (intern s d).0 k ≡ some t)
  unfolding string_at code
  intern_lem = elim (Option-cases (Maps.get s d.codes)) [
    | inl (i, old) ↦ rw (intern_old d s i old) (c, c.located s i old, old, λ k t e. e)
    | inr new ↦ rw (intern_new d s new) (
      Agrees-grown d.strings d.codes s new c,
      get_elem?-append_length d.strings s [],
      rw (Maps.get-insert, beq_self s),
      λ k t e. get_elem?-append d.strings (s ∷ []) k (lt-get_elem? d.strings k e) ∙ e,
    )
  ]

from_key-string_at :
    (s : String) (k : Key) (d : Dictionary)
    → string_at d k ≡ some s
    → from_key (scalar_type (string s)) k d ≡ value (string s)
unfolding from_key scalar_type
from_key-string_at s k d e = ground arith

module _ (d : Dictionary) (c : IsConsistent d) where
  code_located : (s : String) (k : Key) → code d s ≡ some k → string_at d k ≡ some s
  unfolding code string_at
  code_located s k e = c.located s k e

  -- Decoding the key of a value that the dictionary knows gives the value.
  pub from_key-key_if_known :
      (v : Value) (k : Key)
      → InRange v
      → key_if_known v d ≡ some k
      → from_key (scalar_type v) k d ≡ value v
  unfolding from_key key_if_known scalar_type
  from_key-key_if_known (uint u) k r e = ground arith
  from_key-key_if_known (iint i) k r e = ground (arith, flip_to_i64 i r)
  from_key-key_if_known (bool b) k r e = ground arith
  from_key-key_if_known (char x) k r e = ground arith
  from_key-key_if_known (string s) k r e = from_key-string_at s k d (code_located s k e)

  -- Encoding a value that is in range never panics; its key decodes to it.
  pub from_key-to_key :
      (v : Value)
      → InRange v
      → (d' : Dictionary) × (k : Key) × (to_key v d ≡ returns (d', k))
        × IsConsistent d'
        × (from_key (scalar_type v) k d' ≡ value v)
  unfolding to_key key_if_known
  from_key-to_key (string s) r =
      let known = intern_lem d c s in
      ((intern s d).0, (intern s d).1, refl, known.0, from_key-string_at s _ _ known.1)
  from_key-to_key (uint u) r = (d, _, refl, c, from_key-key_if_known (uint u) _ r refl)
  from_key-to_key (iint i) r = (d, _, refl, c, from_key-key_if_known (iint i) _ r refl)
  from_key-to_key (bool b) r = (d, _, refl, c, from_key-key_if_known (bool b) _ r refl)
  from_key-to_key (char x) r = (d, _, refl, c, from_key-key_if_known (char x) _ r refl)

flip_order :
    (i j : ℤ)
    → fits_i64 i ≡ true
    → fits_i64 j ≡ true
    → (flip_sign (to_u64 i) ≤ flip_sign (to_u64 j)) ↔ (i ≤ℤ j)
unfolding flip_sign to_u64
flip_order (pos m) (pos n) h k = (λ o. ground arith, λ o. ground arith)
flip_order (pos m) (negsuc n) h k = (λ o. ground arith, λ o. ground arith)
flip_order (negsuc m) (pos n) h k = (λ o. ground arith, λ o. ground arith)
flip_order (negsuc m) (negsuc n) h k = (λ o. ground arith, λ o. ground arith)

abbrev pub ImpliesBool : Bool → Bool → Type 0
ImpliesBool true false = ⊥
ImpliesBool true true = Unit
ImpliesBool false b = Unit

-- Values of one type whose order the keys keep: all but strings.
pub data Comparable : Value → Value → Type 0 where
  uints : (a b : ℕ) → Comparable (uint a) (uint b)
  iints : (a b : ℤ) → Comparable (iint a) (iint b)
  bools : (a b : Bool) → Comparable (bool a) (bool b)
  chars : (a b : ℕ) → Comparable (char a) (char b)

-- Their natural order: false before true, characters by their code points.
abbrev pub NotAfter : {v w : Value} → Comparable v w → Type 0
NotAfter (uints a b) = a ≤ b
NotAfter (iints a b) = a ≤ℤ b
NotAfter (bools a b) = ImpliesBool a b
NotAfter (chars a b) = a ≤ b

bool_order : (a b : Bool) → ((if a then 1 else 0) ≤ (if b then 1 else 0)) ↔ ImpliesBool a b
bool_order true true = (λ o. ground arith, λ o. ground arith)
bool_order true false = (λ o. ground arith, λ o. ground arith)
bool_order false true = (λ o. ground arith, λ o. ground arith)
bool_order false false = (λ o. ground arith, λ o. ground arith)

-- Two values of one type other than string, each in its range: encoding them, in any dictionaries,
-- does not panic and leaves the dictionaries as they are, and the keys are ordered as the values.
pub to_key_order :
    (v w : Value)
    → (c : Comparable v w) → InRange v
    → InRange w
    → (d d' : Dictionary)
    → (k : Key) × (l : Key) × (to_key v d ≡ returns (d, k))
      × (to_key w d' ≡ returns (d', l))
      × ((k ≤ l) ↔ NotAfter c)
unfolding to_key key_if_known
to_key_order _ _ (uints a b) r s d d' = (a, b, refl, refl, (λ o. o, λ o. o))
to_key_order _ _ (iints a b) r s d d' = (_, _, refl, refl, flip_order a b r s)
to_key_order _ _ (bools a b) r s d d' = (_, _, refl, refl, bool_order a b)
to_key_order _ _ (chars a b) r s d d' = (a, b, refl, refl, (λ o. o, λ o. o))
