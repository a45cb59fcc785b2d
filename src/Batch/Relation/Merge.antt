-- ===== src/Batch/Relation/Merge.antt =====
-- Lemmas on the loop of `merge`, packages/coln-batch/src/relation.rs.
use coln.Prelude.{
  ℕ, zero, suc, ◌+◌, ◌-◌, ◌<◌, ◌≤◌, ◌≡◌, refl, sym, ap, ◌∙◌, subst, inl, inr, Ordering, String,
  List, [], ◌∷◌, Bool, true, false, ◌&&◌, ◌||◌, arith,
}
use coln.Prelude.Tests.{◌==◌, if◌then◌else◌, Bool-cases, ltb, nat_eq, ℕ-eq, List-eq}
use coln.Prelude.Int.{ℤ, pos, ◌+ℤ◌, ◌*ℤ◌, +ℤ_assoc, zero-+ℤ, +ℤ-zero, eq_of_parts, +ℤ_parts}
use coln.Prelude.Lists.{length-map, length, range_from, replicate}
use coln.Prelude.Outcome.{returns}
use coln.Batch.Types.{Key, Weight, add_weights, mul_weights, fits_i64}
use coln.Batch.Types
use coln.Batch.Relation.{
  Relation, key_at, row, len, weight, all_long, cmp_row_pair, merge_order, merge_weight,
  merge_source, next_left, next_right, merge_loop, with_weights,
}
use coln.Batch.Relation.Normal.{returns_of_bind, returns_inj}
use coln.Batch.Relation.Weights.{sum, swap, term, weight_of, add_weights-returns}
use coln.Batch.Relation.Pushing.{
  sum_next, at_row, table_weight, next_cols, next_weights, next-weight, next-all_long, next-length,
}

pub length-row : (rel : Relation) (i : ℕ) → length (row rel i) ≡ length rel.cols
unfolding row
length-row rel i = length-map (λ c. key_at c i) rel.cols

mul_weights-returns : (a b t : Weight) → mul_weights a b ≡ returns t → t ≡ a *ℤ b
unfolding mul_weights
mul_weights-returns a b t h = elim (Bool-cases (fits_i64 (a *ℤ b))) [
  | inl e ↦ sym (returns_inj (ground (arith, h, e)))
  | inr e ↦ absurd (ground (arith, h, e))
]

cmp_row_pair-row :
    (as' bs : List (List Key)) (i j : ℕ)
    → length as' ≡ length bs
    → cmp_row_pair as' i bs j ≡ Ordering.eq
    → at_row as' i ≡ at_row bs j
unfolding cmp_row_pair
cmp_row_pair-row [] [] i j e h = refl
cmp_row_pair-row [] (b ∷ bs) i j e h = absurd (omega (arith, e))
cmp_row_pair-row (a ∷ as') [] i j e h = absurd (omega (arith, e))
cmp_row_pair-row (a ∷ as') (b ∷ bs) i j e h =
    let first : key_at a i ≡ key_at b j = ground (arith, h) in
    let rest : cmp_row_pair as' i bs j ≡ Ordering.eq = ground (arith, h) in
    rw first (ap (λ r. key_at b j ∷ r) (cmp_row_pair-row as' bs i j (omega (arith, e)) rest))

pub regroup : (s l u v : ℤ) → (s +ℤ l) +ℤ (u +ℤ v) ≡ (s +ℤ u) +ℤ (l +ℤ v)
regroup s l u v = omega (arith, +ℤ_parts, eq_of_parts ((s +ℤ l) +ℤ (u +ℤ v)) ((s +ℤ u) +ℤ (l +ℤ v)))

module _ (a b : Relation) (sign : Weight) (k : List Key)
    (same_arity : length a.cols ≡ length b.cols) where
  -- What row `j` of `b`, scaled, adds to the row `k`.
  abbrev pub scaled : ℕ → ℤ
  scaled j = if row b j == k then sign *ℤ weight b j else pos 0

  abbrev left_from : ℕ → ℤ
  left_from i = sum (term a k) (range_from i (len a - i))

  abbrev right_from : ℕ → ℤ
  right_from j = sum scaled (range_from j (len b - j))

  -- A round takes a row of one side, or the same row of both.
  abbrev Takes : ℕ → ℕ → Weight → Ordering → Type 0
  Takes i j w o =
      (length (merge_source a b i j o) ≡ length a.cols)
      × (next_left o i ≤ len a)
      × (next_right o j ≤ len b)
      × ((len a - next_left o i) + (len b - next_right o j) < (len a - i) + (len b - j))
      × ((if merge_source a b i j o == k then w else pos 0)
            +ℤ (left_from (next_left o i) +ℤ right_from (next_right o j))
          ≡ left_from i +ℤ right_from j)

  take_left :
      (i j : ℕ) (w : Weight)
      → i < len a
      → j ≤ len b
      → merge_weight a b sign i j Ordering.lt ≡ returns w
      → Takes i j w Ordering.lt
  take_left i j w h l e = (
    length-row a i,
    omega (arith, h),
    l,
    omega (arith, h),
    ap (λ x. (if row a i == k then x else pos 0) +ℤ (left_from (i + 1) +ℤ right_from j))
          (sym (returns_inj e))
        ∙ sym (+ℤ_assoc _ _ _)
        ∙ ap (λ x. x +ℤ right_from j) (sym (sum_next (term a k) i (len a) h)),
  )

  take_right :
      (i j : ℕ) (w : Weight)
      → i ≤ len a
      → j < len b
      → merge_weight a b sign i j Ordering.gt ≡ returns w
      → Takes i j w Ordering.gt
  take_right i j w h l e = (
    length-row b j ∙ sym same_arity,
    h,
    omega (arith, l),
    omega (arith, l),
    ap (λ x. (if row b j == k then x else pos 0) +ℤ (left_from i +ℤ right_from (j + 1)))
          (mul_weights-returns sign (weight b j) w e)
        ∙ swap (scaled j) (left_from i) (right_from (j + 1))
        ∙ ap (λ x. left_from i +ℤ x) (sym (sum_next scaled j (len b) l)),
  )

  split_weight :
      (q : Bool) (u v : ℤ)
      → (if q then u +ℤ v else pos 0) ≡ (if q then u else pos 0) +ℤ (if q then v else pos 0)
  split_weight true u v = refl
  split_weight false u v = sym (zero-+ℤ (pos 0))

  take_both :
      (i j : ℕ) (w : Weight)
      → i < len a
      → j < len b
      → row a i ≡ row b j
      → merge_weight a b sign i j Ordering.eq ≡ returns w
      → Takes i j w Ordering.eq
  take_both i j w h l same e =
      let (scaled_b, sum_e, mul_e) = returns_of_bind (mul_weights sign (weight b j)) _ w e in
      let value : w ≡ weight a i +ℤ (sign *ℤ weight b j) =
        add_weights-returns a (weight a i) scaled_b w sum_e
        ∙ ap (λ x. weight a i +ℤ x) (mul_weights-returns sign (weight b j) scaled_b mul_e) in
      (
        length-row a i,
        omega (arith, h),
        omega (arith, l),
        omega (arith, h, l),
        ap (λ x. (if row a i == k then x else pos 0) +ℤ (left_from (i + 1) +ℤ right_from (j + 1)))
              value
            ∙ ap (λ x. x +ℤ (left_from (i + 1) +ℤ right_from (j + 1)))
                (split_weight (row a i == k) (weight a i) (sign *ℤ weight b j))
            ∙ regroup _ _ _ _
            ∙ ap
                (λ r.
                  (term a k i +ℤ left_from (i + 1))
                  +ℤ ((if r == k then sign *ℤ weight b j else pos 0) +ℤ right_from (j + 1)))
                same
            ∙ ap (λ x. x +ℤ (scaled j +ℤ right_from (j + 1)))
                (sym (sum_next (term a k) i (len a) h))
            ∙ ap (λ x. left_from i +ℤ x) (sym (sum_next scaled j (len b) l)),
      )

  by_order :
      (i j : ℕ) (w : Weight) (o : Ordering)
      → i < len a
      → j < len b
      → cmp_row_pair a.cols i b.cols j ≡ o
      → merge_weight a b sign i j o ≡ returns w
      → Takes i j w o
  unfolding row
  by_order i j w Ordering.lt h l e m = take_left i j w h (omega (arith, l)) m
  by_order i j w Ordering.gt h l e m = take_right i j w (omega (arith, h)) l m
  by_order i j w Ordering.eq h l e m =
      take_both i j w h l (cmp_row_pair-row a.cols b.cols i j same_arity e) m

  round-Takes :
      (i j : ℕ) (w : Weight) (o : Ordering)
      → i ≤ len a
      → j ≤ len b
      → (ltb i (len a) || ltb j (len b)) ≡ true
      → merge_order a b i j ≡ o
      → merge_weight a b sign i j o ≡ returns w
      → Takes i j w o
  unfolding len row
  round-Takes i j w o h l more e m = elim (Bool-cases (nat_eq j (len b))) [
    | inl b_done ↦
        let is_lt : Ordering.lt ≡ o = ground (arith, e, b_done) in
        subst (λ x. merge_weight a b sign i j x ≡ returns w → Takes i j w x) is_lt
          (take_left i j w (ground (arith, more, b_done)) l) m
    | inr b_left ↦ elim (Bool-cases (nat_eq i (len a))) [
      | inl a_done ↦
          let is_gt : Ordering.gt ≡ o = ground (arith, e, b_left, a_done) in
          subst (λ x. merge_weight a b sign i j x ≡ returns w → Takes i j w x) is_gt
            (take_right i j w h (ground (arith, l, b_left))) m
      | inr a_left ↦
          let by_rows : cmp_row_pair a.cols i b.cols j ≡ o = ground (arith, e, b_left, a_left) in
          by_order i j w o (ground (arith, h, a_left)) (ground (arith, l, b_left)) by_rows m
    ]
  ]

  at_end :
      (i j : ℕ) (cols : List (List Key)) (ws : List Weight) (out : List (List Key) × List Weight)
      → len a - i ≡ 0
      → len b - j ≡ 0
      → returns (cols, ws) ≡ returns out
      → table_weight out.0 out.1 k ≡ table_weight cols ws k +ℤ (left_from i +ℤ right_from j)
  unfolding ◌+ℤ◌
  at_end i j cols ws out p q e =
      ap (λ (x : List (List Key) × List Weight). table_weight x.0 x.1 k) (sym (returns_inj e))
      ∙ sym (+ℤ-zero _)
      ∙ ap (λ n. table_weight cols ws k +ℤ (sum (term a k) (range_from i n) +ℤ pos 0)) (sym p)
      ∙ ap (λ n. table_weight cols ws k +ℤ (left_from i +ℤ sum scaled (range_from j n))) (sym q)

  pub merge_loop-weight :
      (fuel i j : ℕ) (cols : List (List Key)) (ws : List Weight)
      (out : List (List Key) × List Weight)
      → i ≤ len a
      → j ≤ len b
      → (len a - i) + (len b - j) ≤ fuel
      → length cols ≡ length a.cols
      → all_long (length ws) cols ≡ true
      → merge_loop fuel a b sign i j cols ws ≡ returns out
      → table_weight out.0 out.1 k ≡ table_weight cols ws k +ℤ (left_from i +ℤ right_from j)
  unfolding merge_loop len
  merge_loop-weight zero i j cols ws out h l enough wide long e =
      at_end i j cols ws out (omega (arith, enough)) (omega (arith, enough)) e
  merge_loop-weight (suc fuel) i j cols ws out h l enough wide long e =
      elim (Bool-cases (ltb i (len a) || ltb j (len b))) [
        | inr done ↦
            at_end i j cols ws out (ground (arith, done)) (ground (arith, done))
              (rw (done, merge_loop) at e)
        | inl more ↦
            let o = merge_order a b i j in
            let (w, next, m) =
              returns_of_bind (merge_weight a b sign i j o) _ out (rw (more, merge_loop) at e) in
            let t = round-Takes i j w o h l more refl m in
            let keys = merge_source a b i j o in
            let fits : length keys ≡ length cols = t.0 ∙ sym wide in
            merge_loop-weight fuel (next_left o i) (next_right o j) (next_cols cols keys w)
              (next_weights ws w) out t.1 t.2 (omega (arith, enough, t.3))
              (next-length cols ws keys w fits long ∙ wide) (next-all_long cols ws keys w fits long)
              next
            ∙ ap (λ x. x +ℤ (left_from (next_left o i) +ℤ right_from (next_right o j)))
                (next-weight cols ws keys w fits long k)
            ∙ +ℤ_assoc _ _ _
            ∙ ap (λ x. table_weight cols ws k +ℤ x) t.4
      ]

pub all_long-replicate : (n : ℕ) → all_long 0 (replicate n []) ≡ true
unfolding all_long
all_long-replicate zero = refl
all_long-replicate (suc n) = all_long-replicate n

pub length-replicate : {A : Type 0} (n : ℕ) (x : A) → length (replicate n x) ≡ n
length-replicate zero x = refl
length-replicate (suc n) x = ap suc (length-replicate n x)

pub with_weights-weight :
    (name : String) (schema : Types.Schema) (cols : List (List Key)) (ws : List Weight)
    (r : Relation) (k : List Key)
    → with_weights name schema cols ws ≡ returns r
    → weight_of r k ≡ table_weight cols ws k
unfolding with_weights weight_of len row weight
with_weights-weight name schema cols ws r k h =
    elim (Bool-cases (nat_eq (Types.arity schema) (length cols) && all_long (length ws) cols)) [
      | inl fits ↦
          let built : record { name = name; schema = schema; cols = cols; weights = ws } ≡ r =
            returns_inj (ground (arith, h, fits)) in
          ap (λ (s : Relation). weight_of s k) (sym built)
      | inr off ↦ absurd (ground (arith, h, off))
    ]
