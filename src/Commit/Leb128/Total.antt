-- ===== src/Commit/Leb128/Total.antt =====
-- Lemmas on reading a number from any bytes, packages/coln-store/src/commit/leb128.rs.
use native.Mathlib.Decide.{dec_lt}
use coln.Prelude.{
  ℕ, zero, suc, ◌+◌, ◌*◌, ◌%◌, ◌^◌, ◌<◌, ◌≤◌, ◌≡◌, refl, String, List, [], ◌∷◌, true, false, arith,
}
use coln.Prelude.Tests.{ltb, leb}
use coln.Prelude.Lists.{length, take, drop, length-drop}
use coln.Commit.Codec.{
  CodecError, Parsed, ok, err, ◌>>=◌, bad_format, read_slice, first_byte, read_u8,
}
use coln.Commit.Leb128.{Round, finished, too_large, overlong, more, round, read_u64_loop, read_u64}

-- A value with the property or an error, and no panic.
pub data Settles {A : Type 0} (P : A → Type 0) : Parsed A → Type 0 where
  value : {a : A} → P a → Settles P (ok a)
  error : {e : CodecError} → Settles P (err e)

Settles-then :
    {A B : Type 0} {P : A → Type 0} {Q : B → Type 0} {m : Parsed A} (f : A → Parsed B)
    → Settles P m
    → ((a : A) → P a → Settles Q (f a))
    → Settles Q (m >>= f)
Settles-then f (value {a = a} p) h = h a p
Settles-then f error h = error

first_byte-Settles :
    (P : ℕ × ℕ → Type 0) (bytes : List ℕ) (at : ℕ)
    → 0 < length bytes
    → ((byte : ℕ) → P (byte, at))
    → Settles P (first_byte (take 1 bytes, at))
first_byte-Settles P [] at h p = absurd (omega (arith, h))
first_byte-Settles P (b ∷ bytes) at h p = value (p b)

module _ (bytes : List ℕ) (ctx : String) (small : length bytes + 1 < 2 ^ 64) where
  read_u8-Settles :
      (at : ℕ)
      → at ≤ length bytes
      → Settles (λ (got : ℕ × ℕ). (got.1 ≡ at + 1) × (at < length bytes)) (read_u8 bytes at ctx)
  unfolding read_u8 read_slice
  read_u8-Settles at inside = elim (dec_lt at (length bytes)) [
    | yes h ↦
        let low : leb (2 ^ 64) (at + 1) ≡ false = ground arith in
        let within : ltb (length bytes) (at + 1) ≡ false = ground arith in
        rw (low, within)
          (first_byte-Settles (λ got. (got.1 ≡ at + 1) × (at < length bytes)) (drop at bytes)
            (at + 1) (omega (arith, length-drop at bytes)) (λ byte. (refl, h)))
    | no h ↦
        let low : leb (2 ^ 64) (at + 1) ≡ false = ground arith in
        let beyond : ltb (length bytes) (at + 1) ≡ true = ground arith in rw (low, beyond) error
  ]

  round-more : (shift byte : ℕ) → round shift byte ≡ more → shift ≤ 64
  unfolding round
  round-more shift byte h = ground arith

  abbrev pub Behind : ℕ → ℕ → ℕ × ℕ → Type 0
  Behind at rounds got = (at < got.1) × (got.1 ≤ at + rounds) × (got.1 ≤ length bytes)

  Behind-later :
      (at at' rounds : ℕ) (got : ℕ × ℕ)
      → at' ≡ at + 1
      → Behind at' rounds got
      → Behind at (suc rounds) got
  Behind-later at at' rounds got e b = (omega (arith, b.0), omega (arith, b.1), b.2)

  later-Settles :
      {A : Type 0} {P Q : A → Type 0} {m : Parsed A}
      → ((a : A) → P a → Q a)
      → Settles P m
      → Settles Q m
  later-Settles f (value {a = a} p) = value (f a p)
  later-Settles f error = error

  round-Settles :
      (rounds at shift next : ℕ) (got : ℕ × ℕ)
      → (got.1 ≡ at + 1) × (at < length bytes)
      → (round (shift + 7) got.0 ≡ more
          → Settles (Behind got.1 rounds) (read_u64_loop rounds bytes got.1 ctx next (shift + 7)))
      → (r : Round) → round (shift + 7) got.0 ≡ r
      → Settles (Behind at (suc rounds)) (elim r [
        | finished ↦ ok (next, got.1)
        | too_large ↦ bad_format "leb128 too large while reading " ctx
        | overlong ↦ bad_format "overlong leb128 while reading " ctx
        | more ↦ read_u64_loop rounds bytes got.1 ctx next (shift + 7)
      ])
  round-Settles rounds at shift next got p later finished e =
      value (omega (arith, p.0), omega (arith, p.0), omega (arith, p.0, p.1))
  round-Settles rounds at shift next got p later too_large e = error
  round-Settles rounds at shift next got p later overlong e = error
  round-Settles rounds at shift next got p later more e =
      later-Settles (λ a b. Behind-later at got.1 rounds a p.0 b) (later e)

  read_u64_loop-Settles :
      (rounds at result shift : ℕ)
      → at ≤ length bytes
      → shift ≤ 64
      → 70 ≤ shift + 7 * rounds
      → Settles (Behind at rounds) (read_u64_loop rounds bytes at ctx result shift)
  unfolding read_u64_loop
  read_u64_loop-Settles zero at result shift inside low enough = absurd (omega arith)
  read_u64_loop-Settles (suc rounds) at result shift inside low enough =
      Settles-then _ (read_u8-Settles at inside) λ got p.
        round-Settles rounds at shift (result + got.0 % 128 * 2 ^ shift % 2 ^ 64) got p
          (λ e.
            read_u64_loop-Settles rounds got.1 _ (shift + 7) (omega (arith, p.0, p.1))
              (round-more (shift + 7) got.0 e) (omega (arith, enough)))
          (round (shift + 7) got.0) refl

  -- From any position of any bytes, fewer than 2^64 - 1 of them, `read_u64` ends within its rounds and without a
  -- panic: it gives an error, or a number that took one to ten bytes of the input.
  pub read_u64-Settles :
      (at : ℕ) → at ≤ length bytes → Settles (Behind at 10) (read_u64 bytes at ctx)
  unfolding read_u64
  read_u64-Settles at inside = read_u64_loop-Settles 10 at 0 0 inside (omega arith) (omega arith)
