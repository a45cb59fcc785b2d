-- ===== src/Commit/Hash.antt =====
-- packages/coln-store/src/commit/hash.rs
use coln.Prelude.{ℕ, List}
use coln.Prelude.Tests.{PartialEq, ℕ-eq, List-eq}
use coln.Prelude.Lists.{take}

abbrev pub hash_size : ℕ
hash_size = 32

-- The bytes of a hash. That there are `hash_size` of them is a hypothesis where it matters.
abbrev pub CommitHash : Type 0
CommitHash = List ℕ

instance abbrev pub CommitHash-eq : PartialEq CommitHash
CommitHash-eq = List-eq {A = ℕ}

unfoldable pub checksum : CommitHash → List ℕ
checksum h = take 4 h
