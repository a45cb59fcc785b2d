-- ===== src/Commit/HashDict.antt =====
-- The dictionary of commit hashes, packages/coln-store/src/commit/hash_dict.rs: `hashes` is the
-- vector of the source, `indexes` its reverse map.
pub mod Consistent
pub mod Truncate
pub mod Wire
use coln.Prelude.{ℕ, ◌%◌, ◌^◌, ◌≡◌, Option, none, some, List, [], ◌∷◌, ◌++◌}
use coln.Prelude.Tests.{leb, if◌then◌else◌}
use coln.Prelude.Lists.{length, get_elem?, take, drop}
use coln.Prelude.Maps
use coln.Prelude.Maps.{HashMap}
use coln.Prelude.Outcome.{Outcome, returns, panic, ◌>>=◌}
use coln.Commit.Hash.{CommitHash, CommitHash-eq}

pub record HashMapper : Type 0 where
  pub hashes : List CommitHash
  pub indexes : HashMap CommitHash ℕ

abbrev pub empty : HashMapper
empty = record { hashes = []; indexes = [] }

-- `len as u32` keeps the low 32 bits.
unfoldable pub insert : HashMapper → CommitHash → HashMapper × ℕ
insert m hash = elim (Maps.get hash m.indexes) [
  | some index ↦ (m, index)
  | none ↦
      let index = length m.hashes % 2 ^ 32 in
      (record { hashes = m.hashes ++ hash ∷ []; indexes = Maps.insert hash index m.indexes }, index)
]

unfoldable pub index : HashMapper → CommitHash → Option ℕ
index m hash = Maps.get hash m.indexes

unfoldable pub hash_at : HashMapper → ℕ → Option CommitHash
hash_at m i = get_elem? m.hashes i

-- The loop of `truncate` over the drained hashes, with its `expect`.
unfoldable pub remove_drained :
    List CommitHash → HashMap CommitHash ℕ → Outcome (HashMap CommitHash ℕ)
remove_drained [] indexes = returns indexes
remove_drained (hash ∷ drained) indexes = elim (Maps.get hash indexes) [
  | some i ↦ remove_drained drained (Maps.remove hash indexes)
  | none ↦ panic
]

unfoldable pub truncate : HashMapper → ℕ → Outcome HashMapper
truncate m len =
    if leb len (length m.hashes)
    then (do
      indexes ← remove_drained (drop len m.hashes) m.indexes
      returns (record { hashes = take len m.hashes; indexes = indexes }))
    else panic
