-- ===== src/Commit/Leb128/RoundTrip.antt =====
-- Lemmas on reading written numbers, packages/coln-store/src/commit/leb128.rs.
use native.Mathlib.Decide.{dec_lt}
use native.Mathlib.Nat.{pow-le-pow_right, div-add-mod}
use native.Mathlib.Numerals.{towards_suc}
use coln.Prelude.{
  append_assoc, ℕ, zero, suc, ◌+◌, ◌*◌, ◌/◌, ◌%◌, ◌^◌, ◌<◌, ◌≤◌, ◌≡◌, ap, ◌∙◌, String, List, [],
  ◌∷◌, ◌++◌, arith,
}
use coln.Prelude.Lists.{length, length-append}
use coln.Commit.Codec.{ok, bad_format}
use coln.Commit.Codec.Reading.{At, At-append, At-fits, At-next, read_u8-At, read_slice-At}
use coln.Commit.Leb128.{
  finished, more, round, read_u64_loop, read_u64, read_u32, read_len, read_len_prefixed_bytes,
  write_len_prefixed_bytes, max_rounds,
}
use coln.Commit.Leb128.Format
use coln.Commit.Leb128.Format.{IsUnsigned, WritesUnsigned}

pub pow_mono : (a b : ℕ) → a ≤ b → 2 ^ a ≤ 2 ^ b
pow_mono a b h = pow-le-pow_right {n = 2} (omega arith) h

late_value : (v p : ℕ) → 2 ^ 63 ≤ p → v * p < 2 ^ 64 → v ≤ 1
late_value zero p h k = omega arith
late_value (suc zero) p h k = omega arith
late_value (suc (suc v)) p h k = absurd (grind arith)

too_wide : (v p : ℕ) → 128 ≤ v → 2 ^ 58 ≤ p → v * p < 2 ^ 64 → ⊥
too_wide v p h k l = grind arith

past_end : (v p : ℕ) → 0 < v → 2 ^ 70 ≤ p → v * p < 2 ^ 64 → ⊥
past_end v p k h l = grind arith

-- Of a number in range, the group at `shift` ends the encoding or the shift has not passed 56.
round_last :
    (s v : ℕ)
    → (k : ℕ) → s ≡ 7 * k
    → v < 128
    → (0 < k → 0 < v)
    → v * 2 ^ s < 2 ^ 64
    → round (s + 7) v ≡ finished
unfolding round
round_last s v k e small nz fits = elim (dec_lt 64 (s + 7)) [
  | yes late ↦
      let high : 2 ^ 63 ≤ 2 ^ s = pow_mono 63 s (omega arith) in
      let tiny : v ≤ 1 = late_value v (2 ^ s) high fits in ground (arith, nz (omega arith))
  | no early ↦ elim (dec_lt 0 k) [ yes later ↦ ground (arith, nz later) | no first ↦ ground arith ]
]

round_more : (s v : ℕ) → 128 ≤ v → v * 2 ^ s < 2 ^ 64 → round (s + 7) (v % 128 + 128) ≡ more
unfolding round
round_more s v big fits = elim (dec_lt 64 (s + 7)) [
  | yes late ↦ absurd (too_wide v (2 ^ s) big (pow_mono 58 s (omega arith)) fits)
  | no early ↦ ground arith
]

pub shifted : (s : ℕ) → 2 ^ (s + 7) ≡ 128 * 2 ^ s
shifted s = simp towards_suc (omega arith)

-- The sum after one more group.
group_sum : (r v s : ℕ) → r + v % 128 * 2 ^ s + v / 128 * 2 ^ (s + 7) ≡ r + v * 2 ^ s
group_sum r v s = rw (shifted s) (omega (arith, ap (λ (t : ℕ). t * 2 ^ s) (div-add-mod v 128)))

whole_group :
    (byte g s : ℕ) → byte % 128 ≡ g → g * 2 ^ s < 2 ^ 64 → byte % 128 * 2 ^ s % 2 ^ 64 ≡ g * 2 ^ s
whole_group byte g s e fits = rw e (omega arith)

module _ (bytes : List ℕ) (ctx : String) (rest : List ℕ) (small : length bytes < 2 ^ 64) where
  loop_last :
      (rounds k r s v at : ℕ)
      → s ≡ 7 * k
      → v < 128
      → (0 < k → 0 < v)
      → r + v * 2 ^ s < 2 ^ 64
      → At bytes at (v ∷ rest)
      → read_u64_loop (suc rounds) bytes at ctx r s ≡ ok (r + v * 2 ^ s, at + 1)
  unfolding read_u64_loop
  loop_last rounds k r s v at e low nz fits here =
      let group : v % 128 * 2 ^ s % 2 ^ 64 ≡ v * 2 ^ s =
        whole_group v v s (omega arith) (omega arith) in
      ground (
        arith,
        read_u8-At bytes at v rest ctx here small,
        round_last s v k e low nz (omega arith),
        group,
      )

  loop_more :
      (rounds r s v at : ℕ)
      → 128 ≤ v
      → r + v * 2 ^ s < 2 ^ 64
      → At bytes at ((v % 128 + 128) ∷ rest)
      → read_u64_loop (suc rounds) bytes at ctx r s
        ≡ read_u64_loop rounds bytes (at + 1) ctx (r + v % 128 * 2 ^ s) (s + 7)
  unfolding read_u64_loop
  loop_more rounds r s v at high fits here =
      let group : (v % 128 + 128) % 128 * 2 ^ s % 2 ^ 64 ≡ v % 128 * 2 ^ s =
        whole_group (v % 128 + 128) (v % 128) s (omega arith) (omega (arith, group_sum r v s)) in
      ground (
        arith,
        read_u8-At bytes at (v % 128 + 128) rest ctx here small,
        round_more s v high (omega arith),
        group,
      )

module _ (bytes : List ℕ) (ctx : String) (rest : List ℕ) (small : length bytes < 2 ^ 64) where
  read_u64_loop-At :
      (rounds k r s at v : ℕ) (part : List ℕ)
      → IsUnsigned v part
      → s ≡ 7 * k
      → 10 ≤ rounds + k
      → (0 < k → 0 < v)
      → r + v * 2 ^ s < 2 ^ 64
      → At bytes at (part ++ rest)
      → read_u64_loop rounds bytes at ctx r s ≡ ok (r + v * 2 ^ s, at + length part)
  read_u64_loop-At zero k r s at v part u e enough nz fits here =
      absurd (past_end v (2 ^ s) (nz (omega arith)) (pow_mono 70 s (omega arith)) (omega arith))
  read_u64_loop-At (suc rounds) k r s at v part (Format.last low) e enough nz fits here =
      loop_last bytes ctx rest small rounds k r s v at e low nz fits here
  read_u64_loop-At (suc rounds) k r s at v part (Format.more {bytes = part'} high u) e enough nz
        fits here =
      let sum = group_sum r v s in
      loop_more bytes ctx (part' ++ rest) small rounds r s v at high fits here
      ∙ read_u64_loop-At rounds (suc k) (r + v % 128 * 2 ^ s) (s + 7) (at + 1) (v / 128) part' u
          (omega arith) (omega arith) (λ _. omega arith) (omega arith)
          (At-next bytes at ((v % 128 + 128) ∷ []) (part' ++ rest) here)
      ∙ ground (arith, sum)

  read_u64-At :
      {v : ℕ} {part : List ℕ} (u : IsUnsigned v part) (at : ℕ)
      → v < 2 ^ 64
      → At bytes at (part ++ rest)
      → read_u64 bytes at ctx ≡ ok (v, at + length part)
  unfolding read_u64
  read_u64-At {v} {part} u at fits here =
      read_u64_loop-At max_rounds 0 0 0 at v part u (omega arith) (omega arith)
        (λ z. absurd (omega arith)) (omega arith) here
      ∙ ground arith

module _ (unsigned : ℕ → List ℕ) (writes : WritesUnsigned unsigned) where
  module _ (bytes rest : List ℕ) (at value : ℕ) (ctx : String) (small : length bytes < 2 ^ 64)
      (fits : value < 2 ^ 64) (here : At bytes at (unsigned value ++ rest)) where
    -- Where the writer's bytes of a `u64` stand, `read_u64` gives the number and the position
    -- behind them; its loop needs no more than its rounds.
    pub read_u64-unsigned : read_u64 bytes at ctx ≡ ok (value, at + length (unsigned value))
    read_u64-unsigned = read_u64-At bytes ctx rest small (writes value fits) at fits here

    pub read_len-unsigned : read_len bytes at ctx ≡ ok (value, at + length (unsigned value))
    unfolding read_len
    read_len-unsigned = read_u64-unsigned

    -- `read_u32` accepts the numbers of 32 bits.
    pub read_u32-unsigned :
        value < 2 ^ 32 → read_u32 bytes at ctx ≡ ok (value, at + length (unsigned value))
    unfolding read_u32
    read_u32-unsigned word = rw read_u64-unsigned (ground arith)

    -- `read_u32` refuses the writer's bytes of a `u64` of more than 32 bits, with its own error.
    pub read_u32-too_large :
        2 ^ 32 ≤ value
        → read_u32 bytes at ctx ≡ bad_format "leb128 too large for u32 while reading " ctx
    unfolding read_u32
    read_u32-too_large large = rw read_u64-unsigned (ground arith)

  -- Bytes written with their length in front, into any buffer and with anything behind, are read
  -- back by `read_len_prefixed_bytes` from the position where they were written.
  pub read-write_len_prefixed_bytes :
      (buf payload rest : List ℕ) (ctx : String)
      → length (write_len_prefixed_bytes unsigned buf payload ++ rest) < 2 ^ 64
      → read_len_prefixed_bytes
          (write_len_prefixed_bytes unsigned buf payload ++ rest)
          (length buf)
          ctx
        ≡ ok (payload, length (write_len_prefixed_bytes unsigned buf payload))
  unfolding read_len_prefixed_bytes write_len_prefixed_bytes
  read-write_len_prefixed_bytes buf payload rest ctx small =
      let bytes = write_len_prefixed_bytes unsigned buf payload ++ rest in
      let prefix = unsigned (length payload) in
      let here : At bytes (length buf) (prefix ++ (payload ++ rest)) =
        At-append bytes buf (prefix ++ (payload ++ rest)) (simp append_assoc) in
      let behind : At bytes (length buf + length prefix) (payload ++ rest) =
        At-next bytes (length buf) prefix (payload ++ rest) here in
      let total = At-fits bytes (length buf + length prefix) payload rest behind in
      rw
        (
          read_len-unsigned bytes (payload ++ rest) (length buf) (length payload) ctx small
              (omega (arith, total)) here,
          read_slice-At bytes (length buf + length prefix) payload rest behind ctx small,
        )
        (ground (arith, length-append (buf ++ prefix) payload, length-append buf prefix))
