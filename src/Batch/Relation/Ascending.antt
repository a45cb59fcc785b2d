-- ===== src/Batch/Relation/Ascending.antt =====
-- Lemmas on the order of the rows of `consolidate`, packages/coln-batch/src/relation.rs.
use coln.Prelude.{
  ℕ, ◌≡◌, refl, ap, ◌⊎◌, inl, inr, Ordering, List, [], ◌∷◌, Bool, true, false, arith,
}
use coln.Prelude.Tests.{Bool-cases}
use coln.Prelude.Sorting.{insert_by, sort_by, join_chunk, chunk_by}
use coln.Batch.Types.{Key}
use coln.Batch.Relation.{cmp_rows, is_eq}

-- Rows are compared as a total preorder.
cmp_rows-flip :
    (cols : List (List Key)) (a b : ℕ)
    → cmp_rows cols a b ≡ Ordering.gt
    → cmp_rows cols b a ≡ Ordering.lt
unfolding cmp_rows
cmp_rows-flip [] a b e = absurd (cc)
cmp_rows-flip (c ∷ cols) a b e = ground (arith, e, cmp_rows-flip cols a b)

cmp_rows-sym :
    (cols : List (List Key)) (a b : ℕ)
    → cmp_rows cols a b ≡ Ordering.eq
    → cmp_rows cols b a ≡ Ordering.eq
unfolding cmp_rows
cmp_rows-sym [] a b e = refl
cmp_rows-sym (c ∷ cols) a b e = ground (arith, e, cmp_rows-sym cols a b)

cmp_rows-lt_lt :
    (cols : List (List Key)) (a b c : ℕ)
    → cmp_rows cols a b ≡ Ordering.lt
    → cmp_rows cols b c ≡ Ordering.lt
    → cmp_rows cols a c ≡ Ordering.lt
unfolding cmp_rows
cmp_rows-lt_lt [] a b c e f = absurd (cc)
cmp_rows-lt_lt (col ∷ cols) a b c e f = ground (arith, e, f, cmp_rows-lt_lt cols a b c)

cmp_rows-lt_eq :
    (cols : List (List Key)) (a b c : ℕ)
    → cmp_rows cols a b ≡ Ordering.lt
    → cmp_rows cols b c ≡ Ordering.eq
    → cmp_rows cols a c ≡ Ordering.lt
unfolding cmp_rows
cmp_rows-lt_eq [] a b c e f = absurd (cc)
cmp_rows-lt_eq (col ∷ cols) a b c e f = ground (arith, e, f, cmp_rows-lt_eq cols a b c)

cmp_rows-eq_lt :
    (cols : List (List Key)) (a b c : ℕ)
    → cmp_rows cols a b ≡ Ordering.eq
    → cmp_rows cols b c ≡ Ordering.lt
    → cmp_rows cols a c ≡ Ordering.lt
unfolding cmp_rows
cmp_rows-eq_lt [] a b c e f = absurd (cc)
cmp_rows-eq_lt (col ∷ cols) a b c e f = ground (arith, e, f, cmp_rows-eq_lt cols a b c)

cmp_rows-eq_eq :
    (cols : List (List Key)) (a b c : ℕ)
    → cmp_rows cols a b ≡ Ordering.eq
    → cmp_rows cols b c ≡ Ordering.eq
    → cmp_rows cols a c ≡ Ordering.eq
unfolding cmp_rows
cmp_rows-eq_eq [] a b c e f = refl
cmp_rows-eq_eq (col ∷ cols) a b c e f = ground (arith, e, f, cmp_rows-eq_eq cols a b c)

module _ (cols : List (List Key)) where
  abbrev pub Lt : ℕ → ℕ → Type 0
  Lt a b = cmp_rows cols a b ≡ Ordering.lt

  abbrev Le : ℕ → ℕ → Type 0
  Le a b = Lt a b ⊎ (cmp_rows cols a b ≡ Ordering.eq)

  Le-trans : (a b c : ℕ) → Le a b → Le b c → Le a c
  Le-trans a b c (inl e) (inl f) = inl (cmp_rows-lt_lt cols a b c e f)
  Le-trans a b c (inl e) (inr f) = inl (cmp_rows-lt_eq cols a b c e f)
  Le-trans a b c (inr e) (inl f) = inl (cmp_rows-eq_lt cols a b c e f)
  Le-trans a b c (inr e) (inr f) = inr (cmp_rows-eq_eq cols a b c e f)

  -- A row is at most every row of the list, and a list is sorted.
  abbrev LeAll : ℕ → List ℕ → Type 0
  LeAll x [] = Unit
  LeAll x (y ∷ ys) = Le x y × LeAll x ys

  abbrev IsSorted : List ℕ → Type 0
  IsSorted [] = Unit
  IsSorted (x ∷ xs) = LeAll x xs × IsSorted xs

  LeAll-trans : (x y : ℕ) (ys : List ℕ) → Le x y → LeAll y ys → LeAll x ys
  LeAll-trans x y [] h all = tt
  LeAll-trans x y (z ∷ ys) h all = (Le-trans x y z h all.0, LeAll-trans x y ys h all.1)

  abbrev placed : ℕ → ℕ → List ℕ → Ordering → List ℕ
  placed x i is o = elim o [
    | Ordering.lt ↦ i ∷ insert_by (cmp_rows cols) x is
    | Ordering.eq ↦ x ∷ i ∷ is
    | Ordering.gt ↦ x ∷ i ∷ is
  ]

  LeAll-insert_by :
      (z x : ℕ) (is : List ℕ) → Le z x → LeAll z is → LeAll z (insert_by (cmp_rows cols) x is)
  unfolding insert_by
  LeAll-insert_by z x [] h all = (h, tt)
  LeAll-insert_by z x (i ∷ is) h all =
      elim (cmp_rows cols i x) as (λ o. LeAll z (placed x i is o)) [
        | Ordering.lt ↦ (all.0, LeAll-insert_by z x is h all.1)
        | Ordering.eq ↦ (h, all)
        | Ordering.gt ↦ (h, all)
      ]

  placed-IsSorted :
      (x i : ℕ) (is : List ℕ) (o : Ordering)
      → cmp_rows cols i x ≡ o
      → IsSorted (i ∷ is)
      → IsSorted (insert_by (cmp_rows cols) x is)
      → IsSorted (placed x i is o)
  placed-IsSorted x i is Ordering.lt e sorted later =
      (LeAll-insert_by i x is (inl e) sorted.0, later)
  placed-IsSorted x i is Ordering.eq e sorted later =
      let below : Le x i = inr (cmp_rows-sym cols i x e) in
      ((below, LeAll-trans x i is below sorted.0), sorted)
  placed-IsSorted x i is Ordering.gt e sorted later =
      let below : Le x i = inl (cmp_rows-flip cols i x e) in
      ((below, LeAll-trans x i is below sorted.0), sorted)

  insert_by-IsSorted :
      (x : ℕ) (is : List ℕ) → IsSorted is → IsSorted (insert_by (cmp_rows cols) x is)
  unfolding insert_by
  insert_by-IsSorted x [] sorted = (tt, tt)
  insert_by-IsSorted x (i ∷ is) sorted =
      placed-IsSorted x i is (cmp_rows cols i x) refl sorted (insert_by-IsSorted x is sorted.1)

  pub sort_by-IsSorted : (is : List ℕ) → IsSorted (sort_by (cmp_rows cols) is)
  unfolding sort_by
  sort_by-IsSorted [] = tt
  sort_by-IsSorted (i ∷ is) =
      insert_by-IsSorted i (sort_by (cmp_rows cols) is) (sort_by-IsSorted is)

  abbrev pub same : ℕ → ℕ → Bool
  same a b = is_eq (cmp_rows cols a b)

  -- What the first rows of chunks are: at least a row, above it, and each above those before.
  abbrev LeHeads : ℕ → List (List ℕ) → Type 0
  LeHeads x [] = Unit
  LeHeads x ([] ∷ cs) = LeHeads x cs
  LeHeads x ((y ∷ ys) ∷ cs) = Le x y × LeHeads x cs

  abbrev pub LtHeads : ℕ → List (List ℕ) → Type 0
  LtHeads x [] = Unit
  LtHeads x ([] ∷ cs) = LtHeads x cs
  LtHeads x ((y ∷ ys) ∷ cs) = Lt x y × LtHeads x cs

  abbrev pub AreRuns : List (List ℕ) → Type 0
  AreRuns [] = Unit
  AreRuns ([] ∷ cs) = ⊥
  AreRuns ((y ∷ ys) ∷ cs) = LtHeads y cs × AreRuns cs

  LeHeads-join_chunk :
      (w x : ℕ) (cs : List (List ℕ)) → Le w x → LeHeads w cs → LeHeads w (join_chunk same x cs)
  LeHeads-join_chunk w x [] h all = (h, tt)
  LeHeads-join_chunk w x ([] ∷ cs) h all = (h, all)
  LeHeads-join_chunk w x ((y ∷ ys) ∷ cs) h all = elim (Bool-cases (same x y)) [
    | inl e ↦ rw e (h, all.1)
    | inr e ↦ rw e (h, all)
  ]

  LeHeads-chunk_by : (w : ℕ) (is : List ℕ) → LeAll w is → LeHeads w (chunk_by same is)
  unfolding chunk_by
  LeHeads-chunk_by w [] all = tt
  LeHeads-chunk_by w (i ∷ is) all =
      LeHeads-join_chunk w i (chunk_by same is) all.0 (LeHeads-chunk_by w is all.1)

  LtHeads-lt : (x y : ℕ) (cs : List (List ℕ)) → Lt x y → LtHeads y cs → LtHeads x cs
  LtHeads-lt x y [] h all = tt
  LtHeads-lt x y ([] ∷ cs) h all = LtHeads-lt x y cs h all
  LtHeads-lt x y ((z ∷ zs) ∷ cs) h all =
      (cmp_rows-lt_lt cols x y z h all.0, LtHeads-lt x y cs h all.1)

  LtHeads-eq :
      (x y : ℕ) (cs : List (List ℕ)) → cmp_rows cols x y ≡ Ordering.eq → LtHeads y cs → LtHeads x cs
  LtHeads-eq x y [] h all = tt
  LtHeads-eq x y ([] ∷ cs) h all = LtHeads-eq x y cs h all
  LtHeads-eq x y ((z ∷ zs) ∷ cs) h all =
      (cmp_rows-eq_lt cols x y z h all.0, LtHeads-eq x y cs h all.1)

  join_chunk-AreRuns :
      (x : ℕ) (cs : List (List ℕ)) → LeHeads x cs → AreRuns cs → AreRuns (join_chunk same x cs)
  join_chunk-AreRuns x [] le runs = (tt, tt)
  join_chunk-AreRuns x ([] ∷ cs) le runs = elim runs [ ]
  join_chunk-AreRuns x ((y ∷ ys) ∷ cs) le runs = elim le.0 [
    | inl below ↦
        let differ : same x y ≡ false = ap is_eq below in
        rw differ ((below, LtHeads-lt x y cs below runs.0), runs)
    | inr equal ↦
        let alike : same x y ≡ true = ap is_eq equal in
        rw alike (LtHeads-eq x y cs equal runs.0, runs.1)
  ]

  pub chunk_by-AreRuns : (is : List ℕ) → IsSorted is → AreRuns (chunk_by same is)
  unfolding chunk_by
  chunk_by-AreRuns [] sorted = tt
  chunk_by-AreRuns (i ∷ is) sorted =
      join_chunk-AreRuns i (chunk_by same is) (LeHeads-chunk_by i is sorted.0)
        (chunk_by-AreRuns is sorted.1)
