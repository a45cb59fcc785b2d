-- ===== src/Commit/Leb128.antt =====
-- packages/coln-store/src/commit/leb128.rs. The writers call the crate `leb128`, which is a parameter:
-- the function that gives the bytes it writes.
pub mod Format
pub mod RoundTrip
pub mod Total
pub mod Blobs
pub mod Canonical
pub mod Signed
pub mod SignedLoop
use coln.Prelude.{
  ℕ, zero, suc, ◌+◌, ◌*◌, ◌%◌, ◌^◌, String, List, [], ◌∷◌, ◌++◌, Bool, ◌&&◌, ◌-◌, ◌/◌, not, ◌||◌,
}
use coln.Prelude.Int.{ℤ, pos, negsuc}
use coln.Prelude.Tests.{ltb, leb, nat_eq, if◌then◌else◌}
use coln.Prelude.Lists.{length}
use coln.Commit.Codec.{Parsed, ok, err, crash, ◌>>=◌, bad_format, read_slice, read_u8}

module _ (unsigned : ℕ → List ℕ) where
  unfoldable pub write_u64 : List ℕ → ℕ → List ℕ
  write_u64 buf value = buf ++ unsigned value

  unfoldable pub write_u32 : List ℕ → ℕ → List ℕ
  unfolding write_u64
  write_u32 buf value = write_u64 buf value

  unfoldable pub write_len : List ℕ → ℕ → List ℕ
  unfolding write_u64
  write_len buf len = write_u64 buf len

  unfoldable pub write_len_prefixed_bytes : List ℕ → List ℕ → List ℕ
  unfolding write_len
  write_len_prefixed_bytes buf bytes = write_len buf (length bytes) ++ bytes

-- What a round of the loop in `read_u64` does with the byte that it read, `shift` counted up already.
pub data Round : Type 0 where
  finished too_large overlong more : Round

unfoldable pub round : ℕ → ℕ → Round
round shift byte =
    if ltb byte 128
    then (if ltb 64 shift && ltb 1 byte
        then too_large
        else if ltb 7 shift && nat_eq byte 0
        then overlong
        else finished)
    else if ltb 64 shift
    then too_large
    else more

-- The loop of `read_u64`; `rounds` bounds it. The bits of a byte land above those of `result`, so
-- `|` is a sum; `<<` drops what passes 64 bits.
unfoldable pub read_u64_loop : ℕ → List ℕ → ℕ → String → ℕ → ℕ → Parsed (ℕ × ℕ)
read_u64_loop zero bytes at ctx result shift = crash
read_u64_loop (suc rounds) bytes at ctx result shift = read_u8 bytes at ctx >>= λ got.
    let (byte, at') = got in
    let result' = result + byte % 128 * 2 ^ shift % 2 ^ 64 in
    elim (round (shift + 7) byte) [
      | finished ↦ ok (result', at')
      | too_large ↦ bad_format "leb128 too large while reading " ctx
      | overlong ↦ bad_format "overlong leb128 while reading " ctx
      | more ↦ read_u64_loop rounds bytes at' ctx result' (shift + 7)
    ]

-- The shift passes 64 in the tenth round, which ends the loop.
abbrev pub max_rounds : ℕ
max_rounds = 10

unfoldable pub read_u64 : List ℕ → ℕ → String → Parsed (ℕ × ℕ)
unfolding read_u64_loop
read_u64 bytes at ctx = read_u64_loop max_rounds bytes at ctx 0 0

abbrev pub fits_u32 : String → ℕ × ℕ → Parsed (ℕ × ℕ)
fits_u32 ctx (value, at) =
    if ltb value (2 ^ 32)
    then ok (value, at)
    else bad_format "leb128 too large for u32 while reading " ctx

unfoldable pub read_u32 : List ℕ → ℕ → String → Parsed (ℕ × ℕ)
unfolding read_u64
read_u32 bytes at ctx = read_u64 bytes at ctx >>= fits_u32 ctx

-- A `u64` always fits a `usize` of 64 bits.
unfoldable pub read_len : List ℕ → ℕ → String → Parsed (ℕ × ℕ)
unfolding read_u64
read_len bytes at ctx = read_u64 bytes at ctx

unfoldable pub read_len_prefixed_bytes : List ℕ → ℕ → String → Parsed (List ℕ × ℕ)
unfolding read_len read_slice
read_len_prefixed_bytes bytes at ctx =
    read_len bytes at ctx >>= λ got. let (len, at') = got in read_slice bytes at' len ctx

module _ (signed : ℤ → List ℕ) where
  unfoldable pub write_i64 : List ℕ → ℤ → List ℕ
  write_i64 buf value = buf ++ signed value

-- Bit 6 of a byte, `byte & 0x40 > 0`.
abbrev pub sign_bit : ℕ → Bool
sign_bit byte = nat_eq (byte / 64 % 2) 1

-- How a round of `read_i64` ends. `shift` is the one after the byte.
unfoldable pub signed_round : ℕ → ℕ → ℕ → Round
signed_round shift previous byte =
    if ltb byte 128
    then (if ltb 64 shift && not (nat_eq byte 0 || nat_eq byte 127)
        then too_large
        else if ltb 7 shift
            && ((nat_eq byte 0 && not (sign_bit previous))
                || (nat_eq byte 127 && sign_bit previous))
        then overlong
        else finished)
    else if ltb 64 shift
    then too_large
    else more

-- The bits of an `i64`, two's complement.
abbrev pub from_bits : ℕ → ℤ
from_bits bits = if ltb bits (2 ^ 63) then pos bits else negsuc (2 ^ 64 - 1 - bits)

-- `result |= -1 << shift` fills the bits from `shift` on, which are clear.
abbrev pub sign_extend : ℕ → ℕ → ℕ → ℕ
sign_extend shift byte bits =
    if ltb shift 64 && sign_bit byte then bits + (2 ^ 64 - 2 ^ shift) else bits

unfoldable pub read_i64_loop : ℕ → List ℕ → ℕ → String → ℕ → ℕ → ℕ → Parsed (ℤ × ℕ)
unfolding signed_round
read_i64_loop zero bytes at ctx result shift previous = crash
read_i64_loop (suc rounds) bytes at ctx result shift previous = read_u8 bytes at ctx >>= λ got.
    let (byte, at') = got in
    let result' = result + byte % 128 * 2 ^ shift % 2 ^ 64 in
    elim (signed_round (shift + 7) previous byte) [
      | finished ↦ ok (from_bits (sign_extend (shift + 7) byte result'), at')
      | too_large ↦ bad_format "leb128 too large while reading " ctx
      | overlong ↦ bad_format "overlong leb128 while reading " ctx
      | more ↦ read_i64_loop rounds bytes at' ctx result' (shift + 7) byte
    ]

unfoldable pub read_i64 : List ℕ → ℕ → String → Parsed (ℤ × ℕ)
unfolding read_i64_loop
read_i64 bytes at ctx = read_i64_loop max_rounds bytes at ctx 0 0 0
