-- ===== src/Commit/Leb128/SignedLoop.antt =====
-- Lemmas on the loop of `read_i64`, packages/coln-store/src/commit/leb128.rs.
use native.Mathlib.Decide.{dec_lt}
use native.Mathlib.Nat.{div-add-mod}
use coln.Prelude.{
  ℕ, zero, suc, ◌+◌, ◌-◌, ◌*◌, ◌/◌, ◌%◌, ◌^◌, ◌<◌, ◌≤◌, ◌≡◌, refl, sym, ap, ◌∙◌, String, List, [],
  ◌∷◌, ◌++◌, true, false, arith,
}
use coln.Prelude.Int.{ℤ, pos, negsuc}
use coln.Prelude.Lists.{length}
use coln.Commit.Codec.{ok}
use coln.Commit.Codec.Reading.{At, At-next, read_u8-At}
use coln.Commit.Leb128.{
  finished, sign_bit, signed_round, from_bits, sign_extend, read_i64_loop, read_i64, max_rounds,
}
use coln.Commit.Leb128.RoundTrip.{pow_mono, shifted}
use coln.Commit.Leb128.Signed.{
  IsSigned, last_pos, last_neg, more_pos, more_neg, WritesSigned, IsI64, at_63, before_57,
  last_pos-finished, last_neg-finished, continued,
}

-- What is left after a group is continued.
later_pos : (n : ℕ) → 64 ≤ n → n / 128 ≡ 0 → sign_bit (n % 128 + 128) ≡ true
later_pos n h e = ground (arith, h, e)

later_neg : (n : ℕ) → 64 ≤ n → n / 128 ≡ 0 → sign_bit (127 - n % 128 + 128) ≡ false
later_neg n h e = ground (arith, h, e)

group_sum : (v s : ℕ) → v % 128 * 2 ^ s + v / 128 * 2 ^ (s + 7) ≡ v * 2 ^ s
group_sum v s = rw (shifted s) (omega (arith, ap (λ (t : ℕ). t * 2 ^ s) (div-add-mod v 128)))

-- Seven bits and their complement.
complement : (g s : ℕ) → g < 128 → (127 - g) * 2 ^ s + g * 2 ^ s + 2 ^ s ≡ 2 ^ (s + 7)
complement g s h =
    let all : (127 - g) + g + 1 ≡ 128 = omega (arith, h) in
    rw (shifted s) (omega (arith, ap (λ (t : ℕ). t * 2 ^ s) all))

early : (s v : ℕ) → 64 ≤ v → v * 2 ^ s < 2 ^ 63 → s < 57
early s v high fits = elim (dec_lt s 57) [
  | yes h ↦ h
  | no h ↦ absurd (before_57 v (2 ^ s) high (pow_mono 57 s (omega (arith, h))) fits)
]

small_group : (g s : ℕ) → g < 128 → s < 57 → g * 2 ^ s < 2 ^ 64
small_group g s h k = let below : 2 ^ s ≤ 2 ^ 57 = pow_mono s 57 (omega (arith, k)) in grind arith

module _ (bytes : List ℕ) (ctx : String) (rest : List ℕ) (small : length bytes < 2 ^ 64) where
  loop_more :
      (rounds r s v previous byte at : ℕ)
      → 64 ≤ v
      → v * 2 ^ s < 2 ^ 63
      → byte < 128
      → At bytes at ((byte + 128) ∷ rest)
      → read_i64_loop (suc rounds) bytes at ctx r s previous
        ≡ read_i64_loop rounds bytes (at + 1) ctx (r + byte * 2 ^ s) (s + 7) (byte + 128)
  unfolding read_i64_loop
  loop_more rounds r s v previous byte at high fits low here =
      let seven : (byte + 128) % 128 ≡ byte = omega (arith, low) in
      let group : byte * 2 ^ s % 2 ^ 64 ≡ byte * 2 ^ s =
        omega (arith, small_group byte s low (early s v high fits)) in
      ground (
        arith,
        read_u8-At bytes at (byte + 128) rest ctx here small,
        continued s v previous byte high fits,
        seven,
        group,
      )

  loop_last :
      (rounds r s previous byte at : ℕ)
      → byte < 128
      → signed_round (s + 7) previous byte ≡ finished
      → At bytes at (byte ∷ rest)
      → read_i64_loop (suc rounds) bytes at ctx r s previous
        ≡ ok (from_bits (sign_extend (s + 7) byte (r + byte * 2 ^ s % 2 ^ 64)), at + 1)
  unfolding read_i64_loop
  loop_last rounds r s previous byte at low done here =
      let seven : byte % 128 ≡ byte = omega (arith, low) in
      ground (arith, read_u8-At bytes at byte rest ctx here small, done, seven)

-- The bits of the last round.
bits_pos :
    (r s v : ℕ)
    → v < 64
    → r + v * 2 ^ s < 2 ^ 63
    → from_bits (sign_extend (s + 7) v (r + v * 2 ^ s % 2 ^ 64)) ≡ pos (r + v * 2 ^ s)
bits_pos r s v low fits =
    let group : v * 2 ^ s % 2 ^ 64 ≡ v * 2 ^ s = omega (arith, fits) in
    rw group (ground (arith, low, fits))

-- At the 63rd bit the whole word is there; before it the bits above the group are filled.
bits_neg-top :
    (r c : ℕ)
    → r + c + 1 ≡ 2 ^ 63
    → from_bits (sign_extend (63 + 7) 127 (r + 127 * 2 ^ 63 % 2 ^ 64)) ≡ negsuc c
bits_neg-top r c e = ground (arith, e)

bits_neg-filled : (a p n : ℕ) → a + p ≡ 2 ^ 64 → n < 2 ^ 63 → p ≡ n + 1 → from_bits a ≡ negsuc n
bits_neg-filled a p n e h k = ground (arith, e, h, k)

sign_extend-neg :
    (s v bits : ℕ)
    → v < 64
    → s + 7 < 64
    → sign_extend (s + 7) (127 - v) bits ≡ bits + (2 ^ 64 - 2 ^ (s + 7))
sign_extend-neg s v bits low soon = ground (arith, low, soon)

bits_neg :
    (r c s k v : ℕ)
    → v < 64
    → s ≤ 63
    → s ≡ 7 * k
    → r + c + 1 ≡ 2 ^ s
    → c + v * 2 ^ s < 2 ^ 63
    → from_bits (sign_extend (s + 7) (127 - v) (r + (127 - v) * 2 ^ s % 2 ^ 64))
      ≡ negsuc (c + v * 2 ^ s)
bits_neg r c s k v low inside sevens e fits = elim (dec_lt 64 (s + 7)) [
  | yes late ↦
      let s_e : s ≡ 63 = omega (arith, late, inside, sevens) in
      let v_e : v ≡ 0 =
        at_63 v (2 ^ s) (pow_mono 63 s (omega (arith, s_e))) (omega (arith, fits)) in
      let start : r + c + 1 ≡ 2 ^ 63 = e ∙ ap (λ (t : ℕ). 2 ^ t) s_e in
      let sum : c + v * 2 ^ s ≡ c = rw v_e (omega arith) in
      let word : from_bits (sign_extend (s + 7) (127 - v) (r + (127 - v) * 2 ^ s % 2 ^ 64))
          ≡ negsuc c =
        rw (s_e, v_e) (bits_neg-top r c start) in
      word ∙ ap (λ (n : ℕ). negsuc n) (sym sum)
  | no soon ↦
      let near : s + 7 ≤ 63 = omega (arith, soon, sevens) in
      let under : 2 ^ (s + 7) ≤ 2 ^ 63 = pow_mono (s + 7) 63 near in
      let whole = complement v s (omega (arith, low)) in
      let group : (127 - v) * 2 ^ s % 2 ^ 64 ≡ (127 - v) * 2 ^ s = omega (arith, whole, under) in
      ap (λ (g : ℕ). from_bits (sign_extend (s + 7) (127 - v) (r + g))) group
      ∙ ap from_bits (sign_extend-neg s v (r + (127 - v) * 2 ^ s) low (omega (arith, near)))
      ∙ bits_neg-filled (r + (127 - v) * 2 ^ s + (2 ^ 64 - 2 ^ (s + 7))) (c + v * 2 ^ s + 1)
          (c + v * 2 ^ s) (omega (arith, whole, under, e)) fits refl
]

module _ (bytes : List ℕ) (ctx : String) (small : length bytes < 2 ^ 64) (rest : List ℕ) where
  read_pos :
      (rounds k r s at v previous : ℕ) (part : List ℕ)
      → IsSigned (pos v) part
      → s ≡ 7 * k
      → s ≤ 63
      → 10 ≤ rounds + k
      → (0 < k → v ≡ 0 → sign_bit previous ≡ true)
      → r + v * 2 ^ s < 2 ^ 63
      → At bytes at (part ++ rest)
      → read_i64_loop rounds bytes at ctx r s previous ≡ ok (pos (r + v * 2 ^ s), at + length part)
  read_pos zero k r s at v previous part u e inside enough signed fits here =
      absurd (omega (arith, e, inside, enough))
  read_pos (suc rounds) k r s at v previous part (last_pos low) e inside enough signed fits here =
      loop_last bytes ctx rest small rounds r s previous v at (omega (arith, low))
        (last_pos-finished s k v previous e low signed (omega (arith, fits))) here
      ∙ ap (λ (i : ℤ). ok (i, at + 1)) (bits_pos r s v low fits)
  read_pos (suc rounds) k r s at v previous part (more_pos {bytes = part'} high u) e inside enough
        signed fits here =
      let sum = group_sum v s in
      let near = early s v high (omega (arith, fits)) in
      loop_more bytes ctx (part' ++ rest) small rounds r s v previous (v % 128) at high
        (omega (arith, fits)) (omega arith) here
      ∙ read_pos rounds (suc k) (r + v % 128 * 2 ^ s) (s + 7) (at + 1) (v / 128) (v % 128 + 128)
          part' u (omega (arith, e)) (omega (arith, near, e)) (omega (arith, enough))
          (λ _ z. later_pos v high z) (omega (arith, fits, sum))
          (At-next bytes at ((v % 128 + 128) ∷ []) (part' ++ rest) here)
      ∙ ground (arith, sum)

  read_neg :
      (rounds k r c s at v previous : ℕ) (part : List ℕ)
      → IsSigned (negsuc v) part
      → s ≡ 7 * k
      → s ≤ 63
      → 10 ≤ rounds + k
      → (0 < k → v ≡ 0 → sign_bit previous ≡ false)
      → r + c + 1 ≡ 2 ^ s
      → c + v * 2 ^ s < 2 ^ 63
      → At bytes at (part ++ rest)
      → read_i64_loop rounds bytes at ctx r s previous
        ≡ ok (negsuc (c + v * 2 ^ s), at + length part)
  read_neg zero k r c s at v previous part u e inside enough signed start fits here =
      absurd (omega (arith, e, inside, enough))
  read_neg (suc rounds) k r c s at v previous part (last_neg low) e inside enough signed start fits
        here =
      loop_last bytes ctx rest small rounds r s previous (127 - v) at (omega (arith, low))
        (last_neg-finished s k v previous e low signed (omega (arith, fits))) here
      ∙ ap (λ (i : ℤ). ok (i, at + 1)) (bits_neg r c s k v low inside e start fits)
  read_neg (suc rounds) k r c s at v previous part (more_neg {bytes = part'} high u) e inside enough
        signed start fits here =
      let sum = group_sum v s in
      let whole = complement (v % 128) s (omega arith) in
      let near = early s v high (omega (arith, fits)) in
      loop_more bytes ctx (part' ++ rest) small rounds r s v previous (127 - v % 128) at high
        (omega (arith, fits)) (omega arith) here
      ∙ read_neg rounds (suc k) (r + (127 - v % 128) * 2 ^ s) (c + v % 128 * 2 ^ s) (s + 7) (at + 1)
          (v / 128) (127 - v % 128 + 128) part' u (omega (arith, e)) (omega (arith, near, e))
          (omega (arith, enough)) (λ _ z. later_neg v high z) (omega (arith, start, whole))
          (omega (arith, fits, sum))
          (At-next bytes at ((127 - v % 128 + 128) ∷ []) (part' ++ rest) here)
      ∙ ground (arith, sum)

-- Where the writer's bytes of an `i64` stand, `read_i64` gives the number and the position behind them;
-- its loop needs no more than its rounds.
pub read_i64-signed :
    (signed : ℤ → List ℕ)
    → WritesSigned signed
    → (bytes rest : List ℕ) (at : ℕ) (value : ℤ) (ctx : String) → length bytes < 2 ^ 64
    → IsI64 value
    → At bytes at (signed value ++ rest)
    → read_i64 bytes at ctx ≡ ok (value, at + length (signed value))
unfolding read_i64
read_i64-signed signed writes bytes rest at (pos n) ctx small fits here =
    read_pos bytes ctx small rest max_rounds 0 0 0 at n 0 (signed (pos n)) (writes.0 n fits)
      (omega arith) (omega arith) (omega arith) (λ z. absurd (omega (arith, z)))
      (omega (arith, fits)) here
    ∙ ground arith
read_i64-signed signed writes bytes rest at (negsuc n) ctx small fits here =
    read_neg bytes ctx small rest max_rounds 0 0 0 0 at n 0 (signed (negsuc n)) (writes.1 n fits)
      (omega arith) (omega arith) (omega arith) (λ z. absurd (omega (arith, z))) (omega arith)
      (omega (arith, fits)) here
    ∙ ground arith
