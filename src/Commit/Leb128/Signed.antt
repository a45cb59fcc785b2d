-- ===== src/Commit/Leb128/Signed.antt =====
-- Lemmas on reading written signed numbers, packages/coln-store/src/commit/leb128.rs.
use native.Mathlib.Decide.{dec_lt}
use coln.Prelude.{
  ℕ, zero, suc, ◌+◌, ◌-◌, ◌*◌, ◌/◌, ◌%◌, ◌^◌, ◌<◌, ◌≤◌, ◌≡◌, refl, List, [], ◌∷◌, true, false,
  arith,
}
use coln.Prelude.Int.{ℤ, pos, negsuc}
use coln.Commit.Leb128.{finished, more, sign_bit, signed_round}
use coln.Commit.Leb128.RoundTrip.{pow_mono}

-- The signed LEB128 encoding that the crate documents: two's complement, seven bits a byte, lowest group
-- first, the top bit set on every byte but the last, whose bit 6 is the sign, no byte more than needed.
pub data IsSigned : ℤ → List ℕ → Type 0 where
  last_pos : {n : ℕ} → n < 64 → IsSigned (pos n) (n ∷ [])
  last_neg : {n : ℕ} → n < 64 → IsSigned (negsuc n) ((127 - n) ∷ [])
  more_pos :
      {n : ℕ} {bytes : List ℕ}
      → 64 ≤ n
      → IsSigned (pos (n / 128)) bytes
      → IsSigned (pos n) ((n % 128 + 128) ∷ bytes)
  more_neg :
      {n : ℕ} {bytes : List ℕ}
      → 64 ≤ n
      → IsSigned (negsuc (n / 128)) bytes
      → IsSigned (negsuc n) ((127 - n % 128 + 128) ∷ bytes)

-- Two's complement with `half` numbers of either sign.
abbrev pub FitsSigned : ℕ → ℤ → Type 0
FitsSigned half (pos n) = n < half
FitsSigned half (negsuc n) = n < half

abbrev pub IsI64 : ℤ → Type 0
IsI64 i = FitsSigned (2 ^ 63) i

-- What the program relies on of `leb128::write::signed`.
abbrev pub WritesSigned : (ℤ → List ℕ) → Type 0
WritesSigned signed =
    ((n : ℕ) → n < 2 ^ 63 → IsSigned (pos n) (signed (pos n)))
    × ((n : ℕ) → n < 2 ^ 63 → IsSigned (negsuc n) (signed (negsuc n)))

-- In range, a group past the 63rd bit is 0, and a group that is continued stands before it.
pub at_63 : (v p : ℕ) → 2 ^ 63 ≤ p → v * p < 2 ^ 63 → v ≡ 0
at_63 zero p h k = refl
at_63 (suc v) p h k = absurd (grind arith)

pub before_57 : (v p : ℕ) → 64 ≤ v → 2 ^ 57 ≤ p → v * p < 2 ^ 63 → ⊥
before_57 v p h k l = grind arith

-- The last round accepts the byte of a number in range.
pub last_pos-finished :
    (s k v previous : ℕ)
    → s ≡ 7 * k
    → v < 64
    → (0 < k → v ≡ 0 → sign_bit previous ≡ true)
    → v * 2 ^ s < 2 ^ 63
    → signed_round (s + 7) previous v ≡ finished
unfolding signed_round
last_pos-finished s k v previous e low signed fits = elim (dec_lt 64 (s + 7)) [
  | yes late ↦
      let none_left : v ≡ 0 = at_63 v (2 ^ s) (pow_mono 63 s (omega (arith, e, late))) fits in
      ground (arith, none_left, signed (omega (arith, e, late)) none_left)
  | no early ↦ elim (dec_lt 0 k) [
    | no first ↦ ground (arith, e, low, first)
    | yes later ↦ elim (dec_lt 0 v) [
      | yes some_left ↦ ground (arith, low, early, some_left)
      | no none_left ↦ ground (arith, early, signed later (omega (arith, none_left)))
    ]
  ]
]

pub last_neg-finished :
    (s k v previous : ℕ)
    → s ≡ 7 * k
    → v < 64
    → (0 < k → v ≡ 0 → sign_bit previous ≡ false)
    → v * 2 ^ s < 2 ^ 63
    → signed_round (s + 7) previous (127 - v) ≡ finished
unfolding signed_round
last_neg-finished s k v previous e low signed fits = elim (dec_lt 64 (s + 7)) [
  | yes late ↦
      let none_left : v ≡ 0 = at_63 v (2 ^ s) (pow_mono 63 s (omega (arith, e, late))) fits in
      ground (arith, none_left, signed (omega (arith, e, late)) none_left)
  | no early ↦ elim (dec_lt 0 k) [
    | no first ↦ ground (arith, e, low, first)
    | yes later ↦ elim (dec_lt 0 v) [
      | yes some_left ↦ ground (arith, low, early, some_left)
      | no none_left ↦ ground (arith, early, signed later (omega (arith, none_left)))
    ]
  ]
]

pub continued :
    (s v previous byte : ℕ)
    → 64 ≤ v
    → v * 2 ^ s < 2 ^ 63
    → signed_round (s + 7) previous (byte + 128) ≡ more
unfolding signed_round
continued s v previous byte high fits = elim (dec_lt 64 (s + 7)) [
  | yes late ↦ absurd (before_57 v (2 ^ s) high (pow_mono 57 s (omega (arith, late))) fits)
  | no early ↦ ground (arith, early)
]
