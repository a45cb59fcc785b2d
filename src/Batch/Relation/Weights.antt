-- ===== src/Batch/Relation/Weights.antt =====
-- Lemmas on the weight of a row in a Z-set, packages/coln-batch/src/relation.rs.
use coln.Prelude.{
  ℕ, zero, suc, ◌+◌, ◌<◌, ◌≡◌, refl, sym, ap, ◌∙◌, subst, inl, inr, Ordering, List, [], ◌∷◌, map,
  Bool, true, false, arith,
}
use coln.Prelude.Tests.{◌==◌, if◌then◌else◌, Bool-cases, ℕ-eq, List-eq}
use coln.Prelude.Int.{ℤ, pos, eq_ℤ, eq_ℤ_sound, ◌+ℤ◌, +ℤ_comm, +ℤ_assoc, zero-+ℤ, +ℤ-zero}
use coln.Prelude.Lists.{length-map, length, get_or, range, range_from}
use coln.Prelude.Outcome.{returns}
use coln.Prelude.Sorting.{insert_by, sort_by, join_chunk, chunk_by}
use coln.Batch.Types.{Key, Weight, add_weights, fits_i64}
use coln.Batch.Relation.{
  Relation, key_at, row, len, weight, pick, cmp_rows, is_eq, fold_weights, weigh_chunks,
  consolidate,
}
use coln.Batch.Relation.Normal.{returns_of_bind, returns_inj, row-picked}

-- The sum of `f` at the positions.
abbrev pub sum : (ℕ → ℤ) → List ℕ → ℤ
sum f [] = pos 0
sum f (i ∷ is) = f i +ℤ sum f is

-- What row `i` adds to the weight of the row `k`.
abbrev pub term : Relation → List Key → ℕ → ℤ
term rel k i = if row rel i == k then weight rel i else pos 0

-- The weight of the row `k` in the Z-set: the sum of the weights of its copies.
unfoldable pub weight_of : Relation → List Key → ℤ
weight_of rel k = sum (term rel k) (range (len rel))

pub swap : (a b s : ℤ) → a +ℤ (b +ℤ s) ≡ b +ℤ (a +ℤ s)
swap a b s = sym (+ℤ_assoc a b s) ∙ ap (λ x. x +ℤ s) (+ℤ_comm a b) ∙ +ℤ_assoc b a s

module _ (f : ℕ → ℤ) where
  sum-insert_by :
      (cmp : ℕ → ℕ → Ordering) (x : ℕ) (is : List ℕ) → sum f (insert_by cmp x is) ≡ f x +ℤ sum f is
  unfolding insert_by
  sum-insert_by cmp x [] = refl
  sum-insert_by cmp x (i ∷ is) =
      elim (cmp i x)
        as (λ o.
          sum f (elim o [
            | Ordering.lt ↦ i ∷ insert_by cmp x is
            | Ordering.eq ↦ x ∷ i ∷ is
            | Ordering.gt ↦ x ∷ i ∷ is
          ])
          ≡ f x +ℤ (f i +ℤ sum f is)) [
            | Ordering.lt ↦
                ap (λ s. f i +ℤ s) (sum-insert_by cmp x is) ∙ swap (f i) (f x) (sum f is)
            | Ordering.eq ↦ refl
            | Ordering.gt ↦ refl
          ]

  pub sum-sort_by : (cmp : ℕ → ℕ → Ordering) (is : List ℕ) → sum f (sort_by cmp is) ≡ sum f is
  unfolding sort_by
  sum-sort_by cmp [] = refl
  sum-sort_by cmp (i ∷ is) =
      sum-insert_by cmp i (sort_by cmp is) ∙ ap (λ s. f i +ℤ s) (sum-sort_by cmp is)

  -- The sum over all chunks.
  abbrev sums : List (List ℕ) → ℤ
  sums [] = pos 0
  sums (c ∷ cs) = sum f c +ℤ sums cs

  sums-join_chunk :
      (same : ℕ → ℕ → Bool) (x : ℕ) (cs : List (List ℕ))
      → sums (join_chunk same x cs) ≡ f x +ℤ sums cs
  sums-join_chunk same x [] = ap (λ s. s +ℤ pos 0) (+ℤ-zero (f x))
  sums-join_chunk same x ([] ∷ cs) = +ℤ_assoc (f x) (pos 0) (sums cs)
  sums-join_chunk same x ((y ∷ ys) ∷ cs) = elim (Bool-cases (same x y)) [
    | inl e ↦ rw e (+ℤ_assoc (f x) (f y +ℤ sum f ys) (sums cs))
    | inr e ↦ rw e (ap (λ s. s +ℤ ((f y +ℤ sum f ys) +ℤ sums cs)) (+ℤ-zero (f x)))
  ]

  sums-chunk_by : (same : ℕ → ℕ → Bool) (is : List ℕ) → sums (chunk_by same is) ≡ sum f is
  unfolding chunk_by
  sums-chunk_by same [] = refl
  sums-chunk_by same (i ∷ is) =
      sums-join_chunk same i (chunk_by same is) ∙ ap (λ s. f i +ℤ s) (sums-chunk_by same is)

  -- A sum over a range, by the first position or moved by one.
  sum_shift :
      (start n : ℕ) → sum f (range_from (suc start) n) ≡ sum (λ i. f (suc i)) (range_from start n)
  sum_shift start zero = refl
  sum_shift start (suc n) = ap (λ s. f (suc start) +ℤ s) (sum_shift (suc start) n)

pub sum_cong :
    (f g : ℕ → ℤ) (start n : ℕ)
    → ((i : ℕ) → i < start + n → f i ≡ g i)
    → sum f (range_from start n) ≡ sum g (range_from start n)
sum_cong f g start zero h = refl
sum_cong f g start (suc n) h =
    ap (λ s. s +ℤ sum f (range_from (suc start) n)) (h start (omega arith))
    ∙ ap (λ s. g start +ℤ s) (sum_cong f g (suc start) n (λ i k. h i (omega (arith, k))))

pub no_weight : (b : Bool) (w : ℤ) → w ≡ pos 0 → (if b then w else pos 0) ≡ pos 0
no_weight true w h = h
no_weight false w h = refl

module _ (rel : Relation) where
  cmp_rows-row :
      (cols : List (List Key)) (a b : ℕ)
      → is_eq (cmp_rows cols a b) ≡ true
      → map (λ c. key_at c a) cols ≡ map (λ c. key_at c b) cols
  unfolding cmp_rows
  cmp_rows-row [] a b h = refl
  cmp_rows-row (c ∷ cols) a b h =
      let first : key_at c a ≡ key_at c b = ground (arith, h) in
      let rest : is_eq (cmp_rows cols a b) ≡ true = ground (arith, h) in
      rw first (ap (λ r. key_at c b ∷ r) (cmp_rows-row cols a b rest))

  -- Every position holds the row `q`.
  abbrev AllRow : List Key → List ℕ → Type 0
  AllRow q [] = Unit
  AllRow q (i ∷ is) = (row rel i ≡ q) × AllRow q is

  abbrev AlikeChunks : List (List ℕ) → Type 0
  AlikeChunks [] = Unit
  AlikeChunks ([] ∷ cs) = AlikeChunks cs
  AlikeChunks ((i ∷ is) ∷ cs) = AllRow (row rel i) is × AlikeChunks cs

  abbrev same : ℕ → ℕ → Bool
  same a b = is_eq (cmp_rows rel.cols a b)

  join_chunk-Alike :
      (x : ℕ) (cs : List (List ℕ)) → AlikeChunks cs → AlikeChunks (join_chunk same x cs)
  unfolding row
  join_chunk-Alike x [] h = (tt, tt)
  join_chunk-Alike x ([] ∷ cs) h = (tt, h)
  join_chunk-Alike x ((y ∷ ys) ∷ cs) h = elim (Bool-cases (same x y)) [
    | inl e ↦
        let p = cmp_rows-row rel.cols x y e in
        rw e ((sym p, subst (λ q. AllRow q ys) (sym p) h.0), h.1)
    | inr e ↦ rw e (tt, h)
  ]

  chunk_by-Alike : (is : List ℕ) → AlikeChunks (chunk_by same is)
  unfolding chunk_by
  chunk_by-Alike [] = tt
  chunk_by-Alike (i ∷ is) = join_chunk-Alike i (chunk_by same is) (chunk_by-Alike is)

  -- The sum of the weights at the positions.
  abbrev total : List ℕ → ℤ
  total is = sum (weight rel) is

  sum-AllRow :
      (k q : List Key) (is : List ℕ)
      → AllRow q is
      → sum (term rel k) is ≡ (if q == k then total is else pos 0)
  sum-AllRow k q [] h = elim (Bool-cases (q == k)) [ inl e ↦ rw e refl | inr e ↦ rw e refl ]
  sum-AllRow k q (i ∷ is) h =
      rw (h.0, sum-AllRow k q is h.1)
        (elim (Bool-cases (q == k)) [ inl e ↦ rw e refl | inr e ↦ rw e (zero-+ℤ (pos 0)) ])

  pub add_weights-returns : (a b t : Weight) → add_weights a b ≡ returns t → t ≡ a +ℤ b
  unfolding add_weights
  add_weights-returns a b t h = elim (Bool-cases (fits_i64 (a +ℤ b))) [
    | inl e ↦ sym (returns_inj (ground (arith, h, e)))
    | inr e ↦ absurd (ground (arith, h, e))
  ]

  fold_weights-total :
      (is : List ℕ) (s t : Weight) → fold_weights rel s is ≡ returns t → t ≡ s +ℤ total is
  unfolding fold_weights
  fold_weights-total [] s t h = sym (returns_inj h) ∙ sym (+ℤ-zero s)
  fold_weights-total (i ∷ is) s t h =
      let (next, k, e) = returns_of_bind (add_weights s (weight rel i)) _ t h in
      fold_weights-total is next t k
      ∙ ap (λ x. x +ℤ total is) (add_weights-returns s (weight rel i) next e)
      ∙ +ℤ_assoc s (weight rel i) (total is)

  -- What the kept positions with their weights add to the row `k`.
  abbrev kept_sum : List Key → List (ℕ × Weight) → ℤ
  kept_sum k [] = pos 0
  kept_sum k (p ∷ ps) = (if row rel p.0 == k then p.1 else pos 0) +ℤ kept_sum k ps

  weigh_chunks-sum :
      (k : List Key) (cs : List (List ℕ)) (kept : List (ℕ × Weight))
      → AlikeChunks cs
      → weigh_chunks rel cs ≡ returns kept
      → kept_sum k kept ≡ sums (term rel k) cs
  unfolding weigh_chunks
  weigh_chunks-sum k [] kept alike h = ap (kept_sum k) (sym (returns_inj h))
  weigh_chunks-sum k ([] ∷ cs) kept alike h =
      weigh_chunks-sum k cs kept alike h ∙ sym (zero-+ℤ (sums (term rel k) cs))
  weigh_chunks-sum k ((i ∷ is) ∷ cs) kept alike h =
      let (w, l, e) = returns_of_bind (fold_weights rel (pos 0) (i ∷ is)) _ kept h in
      let (rest, m, f) = returns_of_bind (weigh_chunks rel cs) _ kept l in
      let before = weigh_chunks-sum k cs rest alike.1 f in
      let chunk : sum (term rel k) (i ∷ is) ≡ (if row rel i == k then w else pos 0) =
        sum-AllRow k (row rel i) (i ∷ is) (refl, alike.0)
        ∙ ap (λ x. if row rel i == k then x else pos 0)
            (sym (fold_weights-total (i ∷ is) (pos 0) w e ∙ zero-+ℤ _)) in
      elim (Bool-cases (eq_ℤ w (pos 0))) [
        | inl gone ↦
            let same_kept : rest ≡ kept = ground (arith, m, gone) in
            ap (kept_sum k) (sym same_kept)
            ∙ before
            ∙ sym (
                ap (λ x. x +ℤ sums (term rel k) cs)
                  (chunk ∙ no_weight (row rel i == k) w (eq_ℤ_sound w (pos 0) gone))
                ∙ zero-+ℤ _)
        | inr left ↦
            let same_kept : (i, w) ∷ rest ≡ kept = ground (arith, m, left) in
            ap (kept_sum k) (sym same_kept)
            ∙ ap (λ x. (if row rel i == k then w else pos 0) +ℤ x) before
            ∙ ap (λ x. x +ℤ sums (term rel k) cs) (sym chunk)
      ]

  -- The positions of a selection, read one by one.
  picked_sum :
      (k : List Key) (kept : List (ℕ × Weight))
      → sum
          (λ i.
            if row rel (get_or (map (λ (p : ℕ × Weight). p.0) kept) i 0) == k
            then get_or (map (λ (p : ℕ × Weight). p.1) kept) i (pos 0)
            else pos 0)
          (range (length (map (λ (p : ℕ × Weight). p.1) kept)))
        ≡ kept_sum k kept
  picked_sum k [] = refl
  picked_sum k (p ∷ ps) =
      ap (λ s. (if row rel p.0 == k then p.1 else pos 0) +ℤ s)
        (sum_shift _ 0 (length (map (λ (p : ℕ × Weight). p.1) ps)) ∙ picked_sum k ps)

  weight_of-pick :
      (k : List Key) (kept : List (ℕ × Weight))
      → weight_of (pick rel (map (λ p. p.0) kept) (map (λ p. p.1) kept)) k ≡ kept_sum k kept
  unfolding weight_of pick len row weight coln.Batch.Relation.Normal.picked_cols
  weight_of-pick k kept =
      sum_cong _ _ 0 (length (map (λ (p : ℕ × Weight). p.1) kept)) (λ i h.
        ap (λ q. if q == k then get_or (map (λ (p : ℕ × Weight). p.1) kept) i (pos 0) else pos 0)
          (row-picked rel.cols (map (λ (p : ℕ × Weight). p.0) kept) i (
            omega (
              arith,
              h,
              length-map (λ (p : ℕ × Weight). p.0) kept,
              length-map (λ (p : ℕ × Weight). p.1) kept,
            ))))
      ∙ picked_sum k kept

-- Bringing a relation into normal form, where it does not overflow, keeps the weight of every row.
pub weight_of-consolidate :
    (rel r : Relation) (k : List Key)
    → consolidate rel ≡ returns r
    → weight_of r k ≡ weight_of rel k
unfolding consolidate weight_of len
weight_of-consolidate rel r k h =
    let idx = sort_by (cmp_rows rel.cols) (range (length rel.weights)) in
    let (kept, l, e) = returns_of_bind (weigh_chunks rel (chunk_by (same rel) idx)) _ r h in
    ap (λ (s : Relation). weight_of s k) (sym (returns_inj l))
    ∙ weight_of-pick rel k kept
    ∙ weigh_chunks-sum rel k (chunk_by (same rel) idx) kept (chunk_by-Alike rel idx) e
    ∙ sums-chunk_by (term rel k) (same rel) idx
    ∙ sum-sort_by (term rel k) (cmp_rows rel.cols) (range (length rel.weights))
