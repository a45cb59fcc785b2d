-- ===== src/Commit/HashDict/Consistent.antt =====
-- The invariant of `HashMapper`, packages/coln-store/src/commit/hash_dict.rs.
use coln.Prelude.{
  ℕ, ◌+◌, ◌%◌, ◌^◌, ◌<◌, ◌≤◌, ◌≡◌, ◌⊎◌, inl, inr, ◌∙◌, none, some, [], ◌∷◌, ◌++◌, arith,
}
use coln.Prelude.Tests.{Option-cases, beq_self}
use coln.Prelude.Lists.{
  length, take, take_all, take-append, length-append, get_elem?-append, get_elem?-append_length,
  lt-get_elem?,
}
use coln.Prelude.Maps
use coln.Prelude.Interner.{Agrees, Agrees-empty, Agrees-grown, get_elem?_snoc}
use coln.Commit.Hash.{CommitHash, CommitHash-eq}
use coln.Commit.HashDict.{HashMapper, empty, insert, index, hash_at}

abbrev pub IsConsistent : HashMapper → Type 0
IsConsistent m = Agrees m.hashes m.indexes

pub empty-IsConsistent : IsConsistent empty
empty-IsConsistent = Agrees-empty

module _ (m : HashMapper) (h : CommitHash) where
  abbrev grown : HashMapper
  grown = record {
    hashes = m.hashes ++ h ∷ [];
    indexes = Maps.insert h (length m.hashes % 2 ^ 32) m.indexes;
  }

  insert_old : (i : ℕ) → Maps.get h m.indexes ≡ some i → insert m h ≡ (m, i)
  unfolding insert
  insert_old i e = rw (e, insert)

  insert_new : Maps.get h m.indexes ≡ none → insert m h ≡ (grown, length m.hashes % 2 ^ 32)
  unfolding insert
  insert_new e = rw (e, insert)

  module _ (small : length m.hashes < 2 ^ 32) (new : Maps.get h m.indexes ≡ none) where
    code_small : length m.hashes % 2 ^ 32 ≡ length m.hashes
    code_small = omega arith

    grown-IsConsistent : IsConsistent m → IsConsistent grown
    grown-IsConsistent c = rw code_small (Agrees-grown m.hashes m.indexes h new c)

module _ (m : HashMapper) (c : IsConsistent m) (h : CommitHash) where
  -- Interning returns an index at which the vector holds the hash.
  pub hash_at-insert : length m.hashes < 2 ^ 32 → hash_at (insert m h).0 (insert m h).1 ≡ some h
  unfolding hash_at
  hash_at-insert small = elim (Option-cases (Maps.get h m.indexes)) [
    | inl (i, e) ↦ rw (insert_old m h i e) (c.located h i e)
    | inr e ↦
        rw (insert_new m h e) (rw (code_small m h small e) (get_elem?-append_length m.hashes h []))
  ]

  pub insert-IsConsistent : length m.hashes < 2 ^ 32 → IsConsistent (insert m h).0
  insert-IsConsistent small = elim (Option-cases (Maps.get h m.indexes)) [
    | inl (i, e) ↦ rw (insert_old m h i e) c
    | inr e ↦ rw (insert_new m h e) (grown-IsConsistent m h small e c)
  ]

  -- Interning keeps every index that was given out.
  pub insert_keeps :
      (i : ℕ) (k : CommitHash) → hash_at m i ≡ some k → hash_at (insert m h).0 i ≡ some k
  unfolding hash_at
  insert_keeps i k e = elim (Option-cases (Maps.get h m.indexes)) [
    | inl (j, old) ↦ rw (insert_old m h j old) e
    | inr new ↦
        rw (insert_new m h new)
          (get_elem?-append m.hashes (h ∷ []) i (lt-get_elem? m.hashes i e) ∙ e)
  ]

  pub insert_prefix : take (length m.hashes) (insert m h).0.hashes ≡ m.hashes
  insert_prefix = elim (Option-cases (Maps.get h m.indexes)) [
    | inl (j, old) ↦ rw (insert_old m h j old) (take_all m.hashes)
    | inr new ↦ rw (insert_new m h new) (take-append m.hashes (h ∷ []))
  ]

  pub length-insert :
      (length m.hashes ≤ length (insert m h).0.hashes)
      × (length (insert m h).0.hashes ≤ length m.hashes + 1)
  length-insert = elim (Option-cases (Maps.get h m.indexes)) [
    | inl (j, old) ↦ rw (insert_old m h j old) (omega arith)
    | inr new ↦ rw (insert_new m h new) (omega (arith, length-append m.hashes (h ∷ [])))
  ]

  pub insert_only :
      (i : ℕ) (k : CommitHash)
      → hash_at (insert m h).0 i ≡ some k
      → (hash_at m i ≡ some k) ⊎ (h ≡ k)
  unfolding hash_at
  insert_only i k e = elim (Option-cases (Maps.get h m.indexes)) [
    | inl (j, old) ↦ inl (rw (insert_old m h j old) at e)
    | inr new ↦ elim (get_elem?_snoc m.hashes h i k (rw (insert_new m h new) at e)) [
      | inl before ↦ inl before
      | inr (last, same) ↦ inr same
    ]
  ]

  pub index-insert : index (insert m h).0 h ≡ some (insert m h).1
  unfolding index
  index-insert = elim (Option-cases (Maps.get h m.indexes)) [
    | inl (j, old) ↦ rw (insert_old m h j old) old
    | inr new ↦ rw (insert_new m h new) (rw (Maps.get-insert, beq_self h))
  ]
