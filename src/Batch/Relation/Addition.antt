-- ===== src/Batch/Relation/Addition.antt =====
-- Lemmas on `merge`, `plus` and `minus`, packages/coln-batch/src/relation.rs.
use coln.Prelude.{
  ℕ, ◌+◌, ◌-◌, ◌≡◌, ap, ◌∙◌, inl, inr, List, [], ◌∷◌, Bool, true, false, ◌&&◌, arith,
}
use coln.Prelude.Tests.{◌==◌, if◌then◌else◌, Bool-cases, nat_eq, ℕ-eq, List-eq}
use coln.Prelude.Int.{ℤ, pos, negsuc, ◌+ℤ◌, ◌*ℤ◌, +ℤ_assoc, zero-+ℤ, +ℤ-zero}
use coln.Prelude.Lists.{length, range, range_from, replicate}
use coln.Prelude.Outcome.{returns}
use coln.Batch.Types.{Key, Weight}
use coln.Batch.Relation.{
  Relation, row, len, weight, merge_loop, merge, plus, minus, is_consolidated,
}
use coln.Batch.Relation.Normal.{returns_of_bind}
use coln.Batch.Relation.Weights.{sum, sum_cong, term, weight_of}
use coln.Batch.Relation.Merge.{
  merge_loop-weight, scaled, all_long-replicate, length-replicate, with_weights-weight, regroup,
}

-- The weights of a merge, where the second operand is scaled.
pub merge-weight :
    (a b r : Relation) (sign : Weight) (k : List Key)
    → merge a b sign ≡ returns r
    → weight_of r k
      ≡ weight_of a k
        +ℤ sum (λ j. if row b j == k then sign *ℤ weight b j else pos 0) (range (len b))
unfolding merge weight_of len
merge-weight a b r sign k h =
    elim (Bool-cases
      (nat_eq (length a.cols) (length b.cols) && (is_consolidated a && is_consolidated b))) [
        | inr refused ↦ absurd (ground (arith, h, refused))
        | inl accepted ↦
            let from_a : len a - 0 ≡ len a = omega arith in
            let from_b : len b - 0 ≡ len b = omega arith in
            let (out, built, e) =
              returns_of_bind
                (merge_loop (length a.weights + length b.weights) a b sign 0 0
                  (replicate (length a.cols) []) [])
                _ r (rw (accepted, merge) at h) in
            with_weights-weight a.name a.schema out.0 out.1 r k built
            ∙ merge_loop-weight a b sign k (ground (arith, accepted))
                (length a.weights + length b.weights) 0 0 (replicate (length a.cols) []) [] out
                (omega arith) (omega arith) (omega arith) (length-replicate (length a.cols) [])
                (all_long-replicate (length a.cols)) e
            ∙ zero-+ℤ _
            ∙ ap
                (λ n.
                  sum (term a k) (range_from 0 n)
                  +ℤ sum (scaled a b sign k (ground (arith, accepted))) (range_from 0 (len b - 0)))
                from_a
            ∙ ap
                (λ n.
                  weight_of a k
                  +ℤ sum (scaled a b sign k (ground (arith, accepted))) (range_from 0 n))
                from_b
      ]

one_times : (w : ℤ) → pos 1 *ℤ w ≡ w
unfolding ◌*ℤ◌
one_times (pos n) = ground arith
one_times (negsuc n) = ground arith

minus_one_times : (w : ℤ) → (negsuc 0 *ℤ w) +ℤ w ≡ pos 0
unfolding ◌*ℤ◌ ◌+ℤ◌
minus_one_times (pos n) = ground arith
minus_one_times (negsuc n) = ground arith

-- Whenever `plus` returns, a row weighs in the sum what it weighs in both operands together.
pub plus-weight :
    (a b r : Relation) (k : List Key)
    → plus a b ≡ returns r
    → weight_of r k ≡ weight_of a k +ℤ weight_of b k
unfolding plus weight_of
plus-weight a b r k h =
    merge-weight a b r (pos 1) k h
    ∙ ap (λ s. weight_of a k +ℤ s)
        (sum_cong _ (term b k) 0 (len b)
          (λ i l. ap (λ w. if row b i == k then w else pos 0) (one_times (weight b i))))

sum_cancel :
    (f g : ℕ → ℤ) (is : List ℕ) → ((i : ℕ) → f i +ℤ g i ≡ pos 0) → sum f is +ℤ sum g is ≡ pos 0
sum_cancel f g [] h = zero-+ℤ (pos 0)
sum_cancel f g (i ∷ is) h =
    regroup (f i) (sum f is) (g i) (sum g is)
    ∙ ap (λ s. s +ℤ (sum f is +ℤ sum g is)) (h i)
    ∙ zero-+ℤ _
    ∙ sum_cancel f g is h

opposite :
    (q : Bool) (w : ℤ) → (if q then negsuc 0 *ℤ w else pos 0) +ℤ (if q then w else pos 0) ≡ pos 0
opposite true w = minus_one_times w
opposite false w = zero-+ℤ (pos 0)

-- Whenever `minus` returns, the difference and the second operand together give a row its weight in the
-- first operand.
pub minus-weight :
    (a b r : Relation) (k : List Key)
    → minus a b ≡ returns r
    → weight_of r k +ℤ weight_of b k ≡ weight_of a k
unfolding minus weight_of
minus-weight a b r k h =
    ap (λ s. s +ℤ weight_of b k) (merge-weight a b r (negsuc 0) k h)
    ∙ +ℤ_assoc (weight_of a k) _ _
    ∙ ap (λ s. weight_of a k +ℤ s)
        (sum_cancel _ (term b k) (range (len b)) (λ i. opposite (row b i == k) (weight b i)))
    ∙ +ℤ-zero _
