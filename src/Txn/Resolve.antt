-- ===== src/Txn/Resolve.antt =====
-- Lemmas on `collect_op_hashes`, packages/coln-store/src/commit/mod.rs.
use coln.Prelude.{
  ℕ, suc, ◌+◌, ◌^◌, ◌<◌, ◌≤◌, ◌≡◌, ap, ◌∙◌, ◌⊎◌, inl, inr, some, List, [], ◌∷◌, arith,
}
use coln.Prelude.Lists.{length}
use coln.Commit.Hash.{CommitHash}
use coln.Commit.HashDict
use coln.Commit.HashDict.{HashMapper, hash_at}
use coln.Commit.HashDict.Consistent
use coln.Commit.HashDict.Consistent.{IsConsistent}
use coln.Value.{id, int, str, WireRowId}
use coln.Txn.{
  existing, pending, TxnWireTuple, PendingOp, add, collect_value_hashes, collect_op_hashes,
}

-- The hash is among the cells.
abbrev pub MentionedBy : CommitHash → TxnWireTuple → Type 0
MentionedBy h [] = ⊥
MentionedBy h (id (existing row_id) ∷ values) = (row_id.commit ≡ h) ⊎ MentionedBy h values
MentionedBy h (id (pending temp) ∷ values) = MentionedBy h values
MentionedBy h (int i ∷ values) = MentionedBy h values
MentionedBy h (str s ∷ values) = MentionedBy h values

abbrev pub Mentioned : CommitHash → List PendingOp → Type 0
Mentioned h [] = ⊥
Mentioned h (add row_id table values ∷ ops) = MentionedBy h values ⊎ Mentioned h ops

-- The cells that operations have.
abbrev pub cells : List PendingOp → ℕ
cells [] = 0
cells (add row_id table values ∷ ops) = length values + cells ops

record Collected (m m' : HashMapper) (n : ℕ) (P : CommitHash → Type 0) : Type 0 where
  consistent : IsConsistent m'
  bounded : length m'.hashes ≤ length m.hashes + n
  keeps : (i : ℕ) (h : CommitHash) → hash_at m i ≡ some h → hash_at m' i ≡ some h
  found : (h : CommitHash) → P h → (i : ℕ) × (hash_at m' i ≡ some h)
  only : (i : ℕ) (h : CommitHash) → hash_at m' i ≡ some h → (hash_at m i ≡ some h) ⊎ P h

Collected-refl :
    (m : HashMapper) (n : ℕ) (P : CommitHash → Type 0)
    → IsConsistent m
    → ((h : CommitHash) → P h → ⊥)
    → Collected m m n P
Collected-refl m n P c none_of = record {
  consistent = c;
  bounded = omega arith;
  keeps = λ i h e. e;
  found = λ h p. absurd (none_of h p);
  only = λ i h e. inl e;
}

Collected-step :
    (m m' : HashMapper) (row : WireRowId) (n : ℕ) (P : CommitHash → Type 0)
    → IsConsistent m
    → length m.hashes < 2 ^ 32
    → Collected (HashDict.insert m row.commit).0 m' n P
    → Collected m m' (suc n) (λ h. (row.commit ≡ h) ⊎ P h)
Collected-step m m' row n P c room rest = record {
  consistent = rest.consistent;
  bounded = omega (arith, rest.bounded, (Consistent.length-insert m c row.commit).1);
  keeps = λ i h e. rest.keeps i h (Consistent.insert_keeps m c row.commit i h e);
  found = λ h p. elim p [
    | inl same ↦ (
      (HashDict.insert m row.commit).1,
      rest.keeps _ h (Consistent.hash_at-insert m c row.commit room ∙ ap some same),
    )
    | inr other ↦ rest.found h other
  ];
  only = λ i h e. elim (rest.only i h e) [
    | inl before ↦ elim (Consistent.insert_only m c row.commit i h before) [
      | inl old ↦ inl old
      | inr same ↦ inr (inl same)
    ]
    | inr later ↦ inr (inr later)
  ];
}

Collected-weaken :
    (m m' : HashMapper) (n : ℕ) (P : CommitHash → Type 0)
    → Collected m m' n P
    → Collected m m' (suc n) P
Collected-weaken m m' n P c = record {
  consistent = c.consistent;
  bounded = omega (arith, c.bounded);
  keeps = c.keeps;
  found = c.found;
  only = c.only;
}

collect_value_hashes-Collected :
    (values : TxnWireTuple) (m : HashMapper)
    → IsConsistent m
    → length m.hashes + length values ≤ 2 ^ 32
    → Collected m (collect_value_hashes values m) (length values) (λ h. MentionedBy h values)
unfolding collect_value_hashes
collect_value_hashes-Collected [] m c room = Collected-refl m 0 (λ h. MentionedBy h []) c (λ h p. p)
collect_value_hashes-Collected (id (existing row) ∷ values) m c room =
    let inserted = (HashDict.insert m row.commit).0 in
    Collected-step m _ row (length values) (λ h. MentionedBy h values) c (omega arith)
      (collect_value_hashes-Collected values inserted
        (Consistent.insert-IsConsistent m c row.commit (omega arith))
        (omega (arith, (Consistent.length-insert m c row.commit).1)))
collect_value_hashes-Collected (id (pending temp) ∷ values) m c room =
    Collected-weaken m _ _ _ (collect_value_hashes-Collected values m c (omega arith))
collect_value_hashes-Collected (int i ∷ values) m c room =
    Collected-weaken m _ _ _ (collect_value_hashes-Collected values m c (omega arith))
collect_value_hashes-Collected (str s ∷ values) m c room =
    Collected-weaken m _ _ _ (collect_value_hashes-Collected values m c (omega arith))

Collected-trans :
    (a b c : HashMapper) (m n : ℕ) (P Q : CommitHash → Type 0)
    → Collected a b m P
    → Collected b c n Q
    → Collected a c (m + n) (λ h. P h ⊎ Q h)
Collected-trans a b c m n P Q f g = record {
  consistent = g.consistent;
  bounded = omega (arith, f.bounded, g.bounded);
  keeps = λ i h e. g.keeps i h (f.keeps i h e);
  found = λ h p. elim p [
    | inl first ↦ let (i, e) = f.found h first in (i, g.keeps i h e)
    | inr second ↦ g.found h second
  ];
  only = λ i h e. elim (g.only i h e) [
    | inl before ↦ elim (f.only i h before) [ inl old ↦ inl old | inr first ↦ inr (inl first) ]
    | inr second ↦ inr (inr second)
  ];
}

collect_op_hashes-Collected :
    (ops : List PendingOp) (m : HashMapper)
    → IsConsistent m
    → length m.hashes + cells ops ≤ 2 ^ 32
    → Collected m (collect_op_hashes ops m) (cells ops) (λ h. Mentioned h ops)
unfolding collect_op_hashes
collect_op_hashes-Collected [] m c room = Collected-refl m 0 (λ h. Mentioned h []) c (λ h p. p)
collect_op_hashes-Collected (add row table values ∷ ops) m c room =
    let first = collect_value_hashes-Collected values m c (omega arith) in
    Collected-trans m (collect_value_hashes values m) _ (length values) (cells ops)
      (λ h. MentionedBy h values) (λ h. Mentioned h ops) first
      (collect_op_hashes-Collected ops _ first.consistent (omega (arith, first.bounded)))

-- For staged operations of at most 2^32 cells: the dictionary that a commit stores is consistent and
-- holds a hash exactly when some staged operation refers to an existing row of that commit.
pub collect_op_hashes_exact :
    (ops : List PendingOp)
    → cells ops ≤ 2 ^ 32
    → IsConsistent (collect_op_hashes ops HashDict.empty)
      × ((h : CommitHash)
          → Mentioned h ops
          → (i : ℕ) × (hash_at (collect_op_hashes ops HashDict.empty) i ≡ some h))
      × ((h : CommitHash) (i : ℕ)
          → hash_at (collect_op_hashes ops HashDict.empty) i ≡ some h
          → Mentioned h ops)
collect_op_hashes_exact ops room =
    let c =
      collect_op_hashes-Collected ops HashDict.empty Consistent.empty-IsConsistent (omega arith) in
    (
      c.consistent,
      c.found,
      λ h i e. elim (c.only i h e) [ inl old ↦ absurd (nothing i h old) | inr named ↦ named ],
    )
  where
    nothing : (i : ℕ) (h : CommitHash) → hash_at HashDict.empty i ≡ some h → ⊥
    nothing i h e = unfold hash_at in cc (e)
