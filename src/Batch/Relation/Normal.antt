-- ===== src/Batch/Relation/Normal.antt =====
-- Lemmas on `consolidate`, packages/coln-batch/src/relation.rs.
use coln.Prelude.{
  ℕ, zero, suc, ◌+◌, ◌<◌, ◌≤◌, ◌≡◌, refl, sym, ap, ◌∙◌, subst, inl, inr, Ordering, List, [], ◌∷◌,
  map, Bool, true, false, arith,
}
use coln.Prelude.Tests.{Bool-cases}
use coln.Prelude.Int.{pos, eq_ℤ}
use coln.Prelude.Lists.{length-map, length, get_or, range, range_from}
use coln.Prelude.Outcome.{Outcome, returns, panic, ◌>>=◌}
use coln.Prelude.Sorting.{insert_by, sort_by, join_chunk, chunk_by}
use coln.Batch.Types.{Key, Weight}
use coln.Batch.Relation.{
  Relation, key_at, row, len, all_long, no_zero, pick, cmp_rows, is_eq, fold_weights, weigh_chunks,
  consolidate,
}

-- Every position is below `n`.
abbrev AllBelow : ℕ → List ℕ → Type 0
AllBelow n [] = Unit
AllBelow n (i ∷ is) = (i < n) × AllBelow n is

abbrev ChunksBelow : ℕ → List (List ℕ) → Type 0
ChunksBelow n [] = Unit
ChunksBelow n (c ∷ cs) = AllBelow n c × ChunksBelow n cs

range_from-AllBelow : (start count n : ℕ) → start + count ≤ n → AllBelow n (range_from start count)
range_from-AllBelow start zero n h = tt
range_from-AllBelow start (suc count) n h =
    (omega arith, range_from-AllBelow (suc start) count n (omega arith))

module _ (n : ℕ) where
  insert_by-AllBelow :
      (cmp : ℕ → ℕ → Ordering) (x : ℕ) (is : List ℕ)
      → x < n
      → AllBelow n is
      → AllBelow n (insert_by cmp x is)
  unfolding insert_by
  insert_by-AllBelow cmp x [] h all = (h, tt)
  insert_by-AllBelow cmp x (i ∷ is) h all =
      elim (cmp i x)
        as (λ o. AllBelow n (elim o [
          | Ordering.lt ↦ i ∷ insert_by cmp x is
          | Ordering.eq ↦ x ∷ i ∷ is
          | Ordering.gt ↦ x ∷ i ∷ is
        ])) [
          | Ordering.lt ↦ (all.0, insert_by-AllBelow cmp x is h all.1)
          | Ordering.eq ↦ (h, all)
          | Ordering.gt ↦ (h, all)
        ]

  sort_by-AllBelow :
      (cmp : ℕ → ℕ → Ordering) (is : List ℕ) → AllBelow n is → AllBelow n (sort_by cmp is)
  unfolding sort_by
  sort_by-AllBelow cmp [] all = tt
  sort_by-AllBelow cmp (i ∷ is) all =
      insert_by-AllBelow cmp i (sort_by cmp is) all.0 (sort_by-AllBelow cmp is all.1)

  join_chunk-ChunksBelow :
      (same : ℕ → ℕ → Bool) (x : ℕ) (cs : List (List ℕ))
      → x < n
      → ChunksBelow n cs
      → ChunksBelow n (join_chunk same x cs)
  join_chunk-ChunksBelow same x [] h all = ((h, tt), tt)
  join_chunk-ChunksBelow same x ([] ∷ cs) h all = ((h, tt), all.1)
  join_chunk-ChunksBelow same x ((y ∷ ys) ∷ cs) h all = elim (Bool-cases (same x y)) [
    | inl e ↦ rw e ((h, all.0), all.1)
    | inr e ↦ rw e ((h, tt), all)
  ]

  chunk_by-ChunksBelow :
      (same : ℕ → ℕ → Bool) (is : List ℕ) → AllBelow n is → ChunksBelow n (chunk_by same is)
  unfolding chunk_by
  chunk_by-ChunksBelow same [] all = tt
  chunk_by-ChunksBelow same (i ∷ is) all =
      join_chunk-ChunksBelow same i (chunk_by same is) all.0 (chunk_by-ChunksBelow same is all.1)

pub returns_of_bind :
    {A B : Type 0} (first : Outcome A) (next : A → Outcome B) (result : B)
    → (first >>= next) ≡ returns result
    → (a : A) × (next a ≡ returns result) × (first ≡ returns a)
returns_of_bind (returns a) next result h = (a, h, refl)
returns_of_bind panic next result h = absurd (ground (arith, h))

pub returns_inj : {A : Type 0} {a b : A} → returns a ≡ returns b → a ≡ b
returns_inj p = ground (arith, p)

-- Positions with their weights: each position is below `n`, and no weight is 0.
abbrev IsKept : ℕ → List (ℕ × Weight) → Type 0
IsKept n [] = Unit
IsKept n (p ∷ ps) = (p.0 < n) × (eq_ℤ p.1 (pos 0) ≡ false) × IsKept n ps

weigh_chunks-IsKept :
    (rel : Relation) (n : ℕ) (cs : List (List ℕ)) (kept : List (ℕ × Weight))
    → ChunksBelow n cs
    → weigh_chunks rel cs ≡ returns kept
    → IsKept n kept
unfolding weigh_chunks
weigh_chunks-IsKept rel n [] kept all h = subst (λ ps. IsKept n ps) (returns_inj h) tt
weigh_chunks-IsKept rel n ([] ∷ cs) kept all h = weigh_chunks-IsKept rel n cs kept all.1 h
weigh_chunks-IsKept rel n ((r ∷ copies) ∷ cs) kept all h =
    let (total, k, e) = returns_of_bind (fold_weights rel (pos 0) (r ∷ copies)) _ kept h in
    let (rest, l, f) = returns_of_bind (weigh_chunks rel cs) _ kept k in
    let before = weigh_chunks-IsKept rel n cs rest all.1 f in
    elim (Bool-cases (eq_ℤ total (pos 0))) [
      | inl none_left ↦
          let same : rest ≡ kept = ground (arith, l, none_left) in
          subst (λ ps. IsKept n ps) same before
      | inr left ↦
          let same : (r, total) ∷ rest ≡ kept = ground (arith, l, left) in
          subst (λ ps. IsKept n ps) same (all.0.0, left, before)
    ]

pub key_at-map :
    (c : List Key) (rows : List ℕ) (i : ℕ)
    → i < length rows
    → key_at (map (λ k. key_at c k) rows) i ≡ key_at c (get_or rows i 0)
key_at-map c [] i h = absurd (omega (arith, h))
key_at-map c (r ∷ rows) zero h = refl
key_at-map c (r ∷ rows) (suc i) h = key_at-map c rows i (omega (arith, h))

unfoldable pub picked_cols : List (List Key) → List ℕ → List (List Key)
picked_cols cols rows = map (λ c. map (λ k. key_at c k) rows) cols

all_long-picked :
    (n : ℕ) (cols : List (List Key)) (rows : List ℕ)
    → length rows ≡ n
    → all_long n (picked_cols cols rows) ≡ true
unfolding all_long picked_cols
all_long-picked n [] rows h = refl
all_long-picked n (c ∷ cols) rows h =
    ground (arith, length-map (λ k. key_at c k) rows, all_long-picked n cols rows h, h)

pub row-picked :
    (cols : List (List Key)) (rows : List ℕ) (i : ℕ)
    → i < length rows
    → map (λ c. key_at c i) (picked_cols cols rows) ≡ map (λ c. key_at c (get_or rows i 0)) cols
unfolding picked_cols
row-picked [] rows i h = refl
row-picked (c ∷ cols) rows i h =
    rw (key_at-map c rows i h) (ap (λ r. key_at c (get_or rows i 0) ∷ r) (row-picked cols rows i h))

no_zero-IsKept :
    (n : ℕ) (kept : List (ℕ × Weight)) → IsKept n kept → no_zero (map (λ p. p.1) kept) ≡ true
unfolding no_zero
no_zero-IsKept n [] h = refl
no_zero-IsKept n (p ∷ ps) h = ground (arith, h.1, no_zero-IsKept n ps h.2)

IsKept-below :
    (n : ℕ) (kept : List (ℕ × Weight)) (i : ℕ)
    → IsKept n kept
    → i < length kept
    → get_or (map (λ p. p.0) kept) i 0 < n
IsKept-below n [] i h k = absurd (omega (arith, k))
IsKept-below n (p ∷ ps) zero h k = h.0
IsKept-below n (p ∷ ps) (suc i) h k = IsKept-below n ps i h.2 (omega (arith, k))

-- `r` has some rows of `rel`, its columns are as long as its weights, and no weight is 0.
pub record IsSelection (rel r : Relation) : Type 0 where
  pub rectangular : all_long (len r) r.cols ≡ true
  pub present : no_zero r.weights ≡ true
  pub chosen : (i : ℕ) → i < len r → (j : ℕ) × (j < len rel) × (row r i ≡ row rel j)

module _ (rel : Relation) (kept : List (ℕ × Weight)) (h : IsKept (len rel) kept) where
  pick-IsSelection : IsSelection rel (pick rel (map (λ p. p.0) kept) (map (λ p. p.1) kept))
  unfolding pick len row picked_cols
  pick-IsSelection =
      let rows = map (λ p. p.0) kept in
      let as_long : length rows ≡ length (map (λ (p : ℕ × Weight). p.1) kept) =
        length-map (λ p. p.0) kept ∙ sym (length-map (λ p. p.1) kept) in
      record {
        rectangular = all_long-picked _ rel.cols rows as_long;
        present = no_zero-IsKept (len rel) kept h;
        chosen = λ i k. (
          get_or rows i 0,
          IsKept-below (len rel) kept i h
              (omega (arith, k, length-map (λ (p : ℕ × Weight). p.1) kept)),
          row-picked rel.cols rows i (omega (arith, k, as_long)),
        );
      }

-- Whenever `consolidate` returns, every row of the result is a row of the relation, no weight of the result
-- is 0, and each of its columns has a key for each weight.
pub consolidate-IsSelection : (rel r : Relation) → consolidate rel ≡ returns r → IsSelection rel r
unfolding consolidate len
consolidate-IsSelection rel r h =
    let idx = sort_by (cmp_rows rel.cols) (range (length rel.weights)) in
    let same = λ (a b : ℕ). is_eq (cmp_rows rel.cols a b) in
    let (kept, k, e) = returns_of_bind (weigh_chunks rel (chunk_by same idx)) _ r h in
    let below = chunk_by-ChunksBelow (length rel.weights) same idx (
      sort_by-AllBelow (length rel.weights) (cmp_rows rel.cols) (range (length rel.weights))
        (range_from-AllBelow 0 (length rel.weights) (length rel.weights) (omega arith))) in
    subst (λ s. IsSelection rel s) (returns_inj k)
      (pick-IsSelection rel kept
        (weigh_chunks-IsKept rel (length rel.weights) (chunk_by same idx) kept below e))
