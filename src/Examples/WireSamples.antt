-- ===== src/Examples/WireSamples.antt =====
-- Concrete functions for the crates that the wire format calls; any number stands for a byte of theirs.
use Prim.Native.String.{[] as no_text, ◌∷◌ as begin}
use Prim.Native.Nat.{compare as compare_ℕ}
use Prim.Native.Char.{Char, char, code, IsLt, IsScalar}
use text.Mathlib.TextEquality.{Char-path}
use coln.Prelude.{
  ℕ, zero, suc, ◌+◌, ◌-◌, ◌*◌, ◌/◌, ◌%◌, ◌<◌, ◌≡◌, Ordering, refl, ap, ◌∙◌, inl, inr, ◌⊎◌, Option,
  some, none, String, List, [], ◌∷◌, ◌++◌, arith,
}
use coln.Prelude.Int.{ℤ, pos, negsuc}
use coln.Prelude.Tests.{ltb, nat_eq, if◌then◌else◌, Bool-cases}
use coln.Prelude.Lists.{length}
use coln.Commit.Leb128.Signed.{IsSigned, IsI64}
use coln.Commit.Wire.Libraries.{Libraries, Faithful}
use coln.Examples.Samples.{sample_unsigned, sample-WritesUnsigned}

-- A character by its number.
abbrev BothLt : Ordering → Ordering → Type 0
BothLt Ordering.lt o = IsLt o
BothLt Ordering.eq o = ⊥
BothLt Ordering.gt o = ⊥

abbrev Scalar : Ordering → Ordering → Ordering → Type 0
Scalar Ordering.lt o p = Unit
Scalar Ordering.eq o p = BothLt o p
Scalar Ordering.gt o p = BothLt o p

abbrev find_both : (o p : Ordering) → Option (BothLt o p)
find_both Ordering.lt Ordering.lt = some tt
find_both Ordering.lt Ordering.eq = none
find_both Ordering.lt Ordering.gt = none
find_both Ordering.eq p = none
find_both Ordering.gt p = none

abbrev find_scalar : (o p q : Ordering) → Option (Scalar o p q)
find_scalar Ordering.lt p q = some tt
find_scalar Ordering.eq p q = find_both p q
find_scalar Ordering.gt p q = find_both p q

find_both-finds : (o p : Ordering) → BothLt o p → (x : BothLt o p) × (find_both o p ≡ some x)
find_both-finds Ordering.lt Ordering.lt x = (tt, refl)
find_both-finds Ordering.lt Ordering.eq x = elim x [ ]
find_both-finds Ordering.lt Ordering.gt x = elim x [ ]
find_both-finds Ordering.eq p x = elim x [ ]
find_both-finds Ordering.gt p x = elim x [ ]

find_scalar-finds :
    (o p q : Ordering) → Scalar o p q → (x : Scalar o p q) × (find_scalar o p q ≡ some x)
find_scalar-finds Ordering.lt p q x = (tt, refl)
find_scalar-finds Ordering.eq p q x = find_both-finds p q x
find_scalar-finds Ordering.gt p q x = find_both-finds p q x

abbrev with_proof : (n : ℕ) → Option (IsScalar n) → Option Char
with_proof n (some p) = some (char n p)
with_proof n none = none

abbrev char_of : ℕ → Option Char
char_of n = with_proof n (find_scalar (compare_ℕ n 55296) (compare_ℕ 57343 n) (compare_ℕ n 1114112))

char_of-code : (c : Char) → char_of (code c) ≡ some c
char_of-code (char n p) =
    let (x, e) =
      find_scalar-finds (compare_ℕ n 55296) (compare_ℕ 57343 n) (compare_ℕ n 1114112) p in
    ap (with_proof n) e ∙ ap some (Char-path (char n x) (char n p) refl)

abbrev char_numbers : String → List ℕ
char_numbers no_text = []
char_numbers (begin c s) = code c ∷ char_numbers s

abbrev push_char : Option Char → Option String → Option String
push_char (some c) (some s) = some (begin c s)
push_char (some c) none = none
push_char none s = none

abbrev text_of : List ℕ → Option String
text_of [] = some ""
text_of (n ∷ ns) = push_char (char_of n) (text_of ns)

text_of-char_numbers : (s : String) → text_of (char_numbers s) ≡ some s
text_of-char_numbers no_text = refl
text_of-char_numbers (begin c s) = rw (char_of-code c, text_of-char_numbers s) refl

-- Integers as bytes.
abbrev bound : ℕ → ℕ
bound zero = 64
bound (suc fuel) = 128 * bound fuel

unfoldable pub signed_groups : ℕ → ℤ → List ℕ
signed_groups zero (pos n) = n ∷ []
signed_groups zero (negsuc n) = (127 - n) ∷ []
signed_groups (suc fuel) (pos n) =
    let rest = signed_groups fuel (pos (n / 128)) in
    if ltb n 64 then n ∷ [] else (n % 128 + 128) ∷ rest
signed_groups (suc fuel) (negsuc n) =
    let rest = signed_groups fuel (negsuc (n / 128)) in
    if ltb n 64 then (127 - n) ∷ [] else (127 - n % 128 + 128) ∷ rest

signed_groups-pos : (fuel n : ℕ) → n < bound fuel → IsSigned (pos n) (signed_groups fuel (pos n))
unfolding signed_groups
signed_groups-pos zero n h = IsSigned.last_pos h
signed_groups-pos (suc fuel) n h = elim (Bool-cases (ltb n 64)) [
  | inl low ↦ rw (low, signed_groups) (IsSigned.last_pos (ground arith))
  | inr high ↦
      rw (high, signed_groups)
        (IsSigned.more_pos (ground arith) (signed_groups-pos fuel (n / 128) (omega (arith, h))))
]

signed_groups-neg :
    (fuel n : ℕ) → n < bound fuel → IsSigned (negsuc n) (signed_groups fuel (negsuc n))
unfolding signed_groups
signed_groups-neg zero n h = IsSigned.last_neg h
signed_groups-neg (suc fuel) n h = elim (Bool-cases (ltb n 64)) [
  | inl low ↦ rw (low, signed_groups) (IsSigned.last_neg (ground arith))
  | inr high ↦
      rw (high, signed_groups)
        (IsSigned.more_neg (ground arith) (signed_groups-neg fuel (n / 128) (omega (arith, h))))
]

abbrev sample_signed : ℤ → List ℕ
sample_signed i = signed_groups 9 i

-- The integer in front of the bytes.
abbrev read_more : ℕ → (ℤ × List ℕ) ⊎ String → (ℤ × List ℕ) ⊎ String
read_more byte (inl (pos m, rest)) = inl (pos (byte - 128 + 128 * m), rest)
read_more byte (inl (negsuc m, rest)) = inl (negsuc (255 - byte + 128 * m), rest)
read_more byte (inr message) = inr message

unfoldable pub sample_read_signed : List ℕ → (ℤ × List ℕ) ⊎ String
sample_read_signed [] = inr "unexpected end"
sample_read_signed (byte ∷ bytes) =
    let later = sample_read_signed bytes in
    if ltb byte 64
    then inl (pos byte, bytes)
    else if ltb byte 128
    then inl (negsuc (127 - byte), bytes)
    else read_more byte later

sample_read_signed-back :
    (i : ℤ) (part rest : List ℕ)
    → IsSigned i part
    → sample_read_signed (part ++ rest) ≡ inl (i, rest)
unfolding sample_read_signed
sample_read_signed-back i part rest (IsSigned.last_pos low) = ground (arith, low)
sample_read_signed-back i part rest (IsSigned.last_neg low) = ground (arith, low)
sample_read_signed-back i part rest (IsSigned.more_pos {bytes = part'} high u) =
    ground (arith, high, sample_read_signed-back _ part' rest u)
sample_read_signed-back i part rest (IsSigned.more_neg {bytes = part'} high u) =
    ground (arith, high, sample_read_signed-back _ part' rest u)

sample_signed-IsSigned : (i : ℤ) → IsI64 i → IsSigned i (sample_signed i)
sample_signed-IsSigned (pos n) h = signed_groups-pos 9 n (omega (arith, h))
sample_signed-IsSigned (negsuc n) h = signed_groups-neg 9 n (omega (arith, h))

abbrev fold : ℤ → ℕ
fold (pos n) = 2 * n
fold (negsuc n) = 2 * n + 1

abbrev unfold_number : ℕ → ℤ
unfold_number n = if nat_eq (n % 2) 0 then pos (n / 2) else negsuc (n / 2)

abbrev fold_all : List ℤ → List ℕ
fold_all [] = []
fold_all (i ∷ is) = fold i ∷ fold_all is

abbrev unfold_all : List ℕ → List ℤ
unfold_all [] = []
unfold_all (n ∷ ns) = unfold_number n ∷ unfold_all ns

unfold_number-fold : (i : ℤ) → unfold_number (fold i) ≡ i
unfold_number-fold (pos n) = ground arith
unfold_number-fold (negsuc n) = ground arith

unfold_all-fold_all : (is : List ℤ) → unfold_all (fold_all is) ≡ is
unfold_all-fold_all [] = refl
unfold_all-fold_all (i ∷ is) = rw (unfold_number-fold i, unfold_all-fold_all is) refl

abbrev plain : List ℕ → List ℕ ⊎ String
plain ns = inl ns

abbrev pub sample_libraries : Libraries
sample_libraries = record {
  unsigned = sample_unsigned;
  signed = sample_signed;
  read_signed = sample_read_signed;
  lebsize = λ i. length (sample_signed i);
  save_u32 = λ ns. ns;
  load_u32 = plain;
  save_i64 = fold_all;
  load_i64 = λ ns. inl (unfold_all ns);
  save_delta = λ ns. ns;
  load_delta = plain;
  save_meta = λ ns. ns;
  load_meta = plain;
  as_bytes = char_numbers;
  from_utf8 = text_of;
}

abbrev loaded_i64 : List ℤ → List ℤ ⊎ String
loaded_i64 is = inl is

pub sample_libraries-Faithful : Faithful sample_libraries
sample_libraries-Faithful = record {
  writes = sample-WritesUnsigned;
  writes_signed =
      (λ n h. sample_signed-IsSigned (pos n) h, λ n h. sample_signed-IsSigned (negsuc n) h);
  read_signed_back =
      λ i rest h. sample_read_signed-back i (sample_signed i) rest (sample_signed-IsSigned i h);
  lebsize_length = λ i h. refl;
  load_u32_back = λ ns h. refl;
  load_i64_back = λ is h. ap loaded_i64 (unfold_all-fold_all is);
  load_delta_back = λ ns h. refl;
  load_meta_back = λ ns h. refl;
  from_utf8_back = text_of-char_numbers;
}
