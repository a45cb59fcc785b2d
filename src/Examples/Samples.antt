-- ===== src/Examples/Samples.antt =====
-- Concrete functions for the parameters: an unsigned LEB128 writer, and a stand-in for the hash function
-- with its 32 bytes.
use coln.Prelude.{ℕ, zero, suc, ◌+◌, ◌*◌, ◌/◌, ◌%◌, ◌<◌, ◌≡◌, refl, inl, inr, List, [], ◌∷◌, arith}
use coln.Prelude.Tests.{ltb, if◌then◌else◌, Bool-cases}
use coln.Prelude.Lists.{length, replicate}
use coln.Commit.Leb128.Format.{IsUnsigned, WritesUnsigned}

-- The numbers of `fuel + 1` groups are those below this bound.
abbrev bound : ℕ → ℕ
bound zero = 128
bound (suc fuel) = 128 * bound fuel

unfoldable pub write_groups : ℕ → ℕ → List ℕ
write_groups zero v = v ∷ []
write_groups (suc fuel) v =
    let rest = write_groups fuel (v / 128) in if ltb v 128 then v ∷ [] else (v % 128 + 128) ∷ rest

write_groups-IsUnsigned : (fuel v : ℕ) → v < bound fuel → IsUnsigned v (write_groups fuel v)
unfolding write_groups
write_groups-IsUnsigned zero v h = IsUnsigned.last h
write_groups-IsUnsigned (suc fuel) v h = elim (Bool-cases (ltb v 128)) [
  | inl low ↦ rw (low, write_groups) (IsUnsigned.last (ground arith))
  | inr high ↦
      rw (high, write_groups)
        (IsUnsigned.more (ground arith) (write_groups-IsUnsigned fuel (v / 128) (omega arith)))
]

abbrev pub sample_unsigned : ℕ → List ℕ
sample_unsigned v = write_groups 9 v

pub sample-WritesUnsigned : WritesUnsigned sample_unsigned
sample-WritesUnsigned v h = write_groups-IsUnsigned 9 v (omega arith)

abbrev pub sample_hash : List ℕ → List ℕ
sample_hash preimage = replicate 32 (length preimage % 256)

pub sample_hash-length : (preimage : List ℕ) → length (sample_hash preimage) ≡ 32
sample_hash-length preimage = refl
