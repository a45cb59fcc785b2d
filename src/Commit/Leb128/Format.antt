-- ===== src/Commit/Leb128/Format.antt =====
-- The unsigned LEB128 encoding that the crate documents: seven bits a byte, lowest group first, the
-- top bit set on every byte but the last, no byte more than needed.
use coln.Prelude.{ℕ, ◌+◌, ◌/◌, ◌%◌, ◌^◌, ◌<◌, ◌≤◌, List, [], ◌∷◌}

pub data IsUnsigned : ℕ → List ℕ → Type 0 where
  last : {v : ℕ} → v < 128 → IsUnsigned v (v ∷ [])
  more :
      {v : ℕ} {bytes : List ℕ}
      → 128 ≤ v
      → IsUnsigned (v / 128) bytes
      → IsUnsigned v ((v % 128 + 128) ∷ bytes)

-- What the program relies on of `leb128::write::unsigned`.
abbrev pub WritesUnsigned : (ℕ → List ℕ) → Type 0
WritesUnsigned unsigned = (v : ℕ) → v < 2 ^ 64 → IsUnsigned v (unsigned v)
