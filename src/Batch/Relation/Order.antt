-- ===== src/Batch/Relation/Order.antt =====
-- Lemmas on `is_consolidated`, packages/coln-batch/src/relation.rs.
use coln.Prelude.{
  ℕ, zero, suc, ◌+◌, ◌-◌, ◌<◌, ◌≡◌, refl, ap, ◌∙◌, subst, inl, inr, Ordering, List, [], ◌∷◌, map,
  true, compare, arith,
}
use coln.Prelude.Tests.{Bool-cases}
use coln.Prelude.Int.{pos, eq_ℤ}
use coln.Prelude.Lists.{length, length-map, get_or, range}
use coln.Prelude.Outcome.{returns}
use coln.Prelude.Sorting.{sort_by, chunk_by}
use coln.Batch.Types.{Key, Weight}
use coln.Batch.Relation.{
  Relation, key_at, cmp_rows, pick, fold_weights, weigh_chunks, consolidate, ascending_from,
  is_consolidated,
}
use coln.Batch.Relation.Normal.{
  returns_of_bind, returns_inj, key_at-map, picked_cols, consolidate-IsSelection,
}
use coln.Batch.Relation.Ascending.{Lt, LtHeads, AreRuns, same, sort_by-IsSorted, chunk_by-AreRuns}

module _ (cols : List (List Key)) where
  -- The rows that are kept, each below all those behind it.
  abbrev LtAll : ℕ → List (ℕ × Weight) → Type 0
  LtAll r [] = Unit
  LtAll r (p ∷ ps) = Lt cols r p.0 × LtAll r ps

  abbrev AreAscending : List (ℕ × Weight) → Type 0
  AreAscending [] = Unit
  AreAscending (p ∷ ps) = LtAll p.0 ps × AreAscending ps

  AreAscending-at :
      (kept : List (ℕ × Weight)) (i : ℕ)
      → AreAscending kept
      → suc i < length kept
      → Lt cols (get_or (map (λ p. p.0) kept) i 0) (get_or (map (λ p. p.0) kept) (suc i) 0)
  AreAscending-at [] i all h = absurd (omega (arith, h))
  AreAscending-at (p ∷ []) i all h = absurd (omega (arith, h))
  AreAscending-at (p ∷ q ∷ ps) zero all h = all.0.0
  AreAscending-at (p ∷ q ∷ ps) (suc i) all h = AreAscending-at (q ∷ ps) i all.1 (omega (arith, h))

-- The rows of a chunk that is weighed stand in front of the rest, or are left out.
module _ (rel : Relation) where
  weigh_chunks-LtAll :
      (r : ℕ) (cs : List (List ℕ)) (kept : List (ℕ × Weight))
      → LtHeads rel.cols r cs
      → weigh_chunks rel cs ≡ returns kept
      → LtAll rel.cols r kept
  unfolding weigh_chunks
  weigh_chunks-LtAll r [] kept all h = subst (λ ps. LtAll rel.cols r ps) (returns_inj h) tt
  weigh_chunks-LtAll r ([] ∷ cs) kept all h = weigh_chunks-LtAll r cs kept all h
  weigh_chunks-LtAll r ((y ∷ copies) ∷ cs) kept all h =
      let (total, k, e) = returns_of_bind (fold_weights rel (pos 0) (y ∷ copies)) _ kept h in
      let (rest, l, f) = returns_of_bind (weigh_chunks rel cs) _ kept k in
      let before = weigh_chunks-LtAll r cs rest all.1 f in
      elim (Bool-cases (eq_ℤ total (pos 0))) [
        | inl none_left ↦
            let same_e : rest ≡ kept = ground (arith, l, none_left) in
            subst (λ ps. LtAll rel.cols r ps) same_e before
        | inr left ↦
            let same_e : (y, total) ∷ rest ≡ kept = ground (arith, l, left) in
            subst (λ ps. LtAll rel.cols r ps) same_e (all.0, before)
      ]

  weigh_chunks-AreAscending :
      (cs : List (List ℕ)) (kept : List (ℕ × Weight))
      → AreRuns rel.cols cs
      → weigh_chunks rel cs ≡ returns kept
      → AreAscending rel.cols kept
  unfolding weigh_chunks
  weigh_chunks-AreAscending [] kept runs h =
      subst (λ ps. AreAscending rel.cols ps) (returns_inj h) tt
  weigh_chunks-AreAscending ([] ∷ cs) kept runs h = elim runs [ ]
  weigh_chunks-AreAscending ((y ∷ copies) ∷ cs) kept runs h =
      let (total, k, e) = returns_of_bind (fold_weights rel (pos 0) (y ∷ copies)) _ kept h in
      let (rest, l, f) = returns_of_bind (weigh_chunks rel cs) _ kept k in
      let before = weigh_chunks-AreAscending cs rest runs.1 f in
      elim (Bool-cases (eq_ℤ total (pos 0))) [
        | inl none_left ↦
            let same_e : rest ≡ kept = ground (arith, l, none_left) in
            subst (λ ps. AreAscending rel.cols ps) same_e before
        | inr left ↦
            let same_e : (y, total) ∷ rest ≡ kept = ground (arith, l, left) in
            subst (λ ps. AreAscending rel.cols ps) same_e
              (weigh_chunks-LtAll y cs rest runs.0 f, before)
      ]

-- Picked rows compare as the rows that they are picked from.
cmp_rows-picked :
    (cols : List (List Key)) (rows : List ℕ) (i j : ℕ)
    → i < length rows
    → j < length rows
    → cmp_rows (picked_cols cols rows) i j ≡ cmp_rows cols (get_or rows i 0) (get_or rows j 0)
unfolding cmp_rows picked_cols
cmp_rows-picked [] rows i j h k = refl
cmp_rows-picked (c ∷ cols) rows i j h k =
    rw (key_at-map c rows i h, cmp_rows, key_at-map c rows j k)
      (ap
        (λ (o : Ordering).
          elim (compare (key_at c (get_or rows i 0)) (key_at c (get_or rows j 0)))
            as (λ _. Ordering) [
              | Ordering.lt ↦ Ordering.lt
              | Ordering.eq ↦ o
              | Ordering.gt ↦ Ordering.gt
            ])
        (cmp_rows-picked cols rows i j h k))

ascending_from-Lt :
    (cols : List (List Key)) (start n : ℕ)
    → ((i : ℕ) → suc i < start + n → cmp_rows cols i (suc i) ≡ Ordering.lt)
    → 0 < start
    → ascending_from cols start n ≡ true
unfolding ascending_from
ascending_from-Lt cols start zero h k = refl
ascending_from-Lt cols zero (suc n) h k = absurd (omega (arith, k))
ascending_from-Lt cols (suc start) (suc n) h k =
    let before : suc start - 1 ≡ start = omega arith in
    rw (before, h start (omega arith))
      (ascending_from-Lt cols (suc (suc start)) n (λ i l. h i (omega (arith, l))) (omega arith))

-- Whatever `consolidate` returns is in the normal form that `is_consolidated` tests, the one that `merge`
-- demands of its operands: its rows ascend strictly, and none has the weight 0.
pub consolidate-is_consolidated :
    (rel r : Relation) → consolidate rel ≡ returns r → is_consolidated r ≡ true
unfolding consolidate is_consolidated pick picked_cols
consolidate-is_consolidated rel r h =
    let idx = sort_by (cmp_rows rel.cols) (range (length rel.weights)) in
    let (kept, k, e) = returns_of_bind (weigh_chunks rel (chunk_by (same rel.cols) idx)) _ r h in
    let runs =
      chunk_by-AreRuns rel.cols idx (sort_by-IsSorted rel.cols (range (length rel.weights))) in
    let ascending = weigh_chunks-AreAscending rel (chunk_by (same rel.cols) idx) kept runs e in
    let rows = map (λ (p : ℕ × Weight). p.0) kept in
    let count : length rows ≡ length kept = length-map (λ p. p.0) kept in
    let weights : length (map (λ (p : ℕ × Weight). p.1) kept) ≡ length kept =
      length-map (λ p. p.1) kept in
    let order : ascending_from (picked_cols rel.cols rows) 1
          (length (map (λ (p : ℕ × Weight). p.1) kept) - 1)
        ≡ true =
      ascending_from-Lt (picked_cols rel.cols rows) 1 _
        (λ i l.
          cmp_rows-picked rel.cols rows i (suc i) (omega (arith, l, count, weights))
            (omega (arith, l, count, weights))
          ∙ AreAscending-at rel.cols kept i ascending (omega (arith, l, weights)))
        (omega arith) in
    let present = (consolidate-IsSelection rel r h).present in
    let ascends : ascending_from r.cols 1 (length r.weights - 1) ≡ true =
      subst (λ (s : Relation). ascending_from s.cols 1 (length s.weights - 1) ≡ true)
        (returns_inj k) order in
    rw (ascends, present) refl
