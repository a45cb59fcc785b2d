-- ===== src/Batch/Table/Search.antt =====
-- Lemmas on the binary searches, packages/coln-batch/src/table.rs.
use native.Mathlib.Decide.{dec_lt}
use coln.Prelude.{
  ℕ, zero, suc, ◌+◌, ◌-◌, ◌/◌, ◌<◌, ◌≤◌, ◌≡◌, ◌↔◌, inl, inr, Bool, true, false, arith,
}
use coln.Prelude.Tests.{ltb, leb, Bool-cases}
use coln.Batch.Types.{Key}
use coln.Batch.Table.{bound_loop, lower_bound, upper_bound, equal_range}

-- `r` splits the rows from `lo` to `hi` into those that pass the test and those that do not.
pub record Splits (right : ℕ → Bool) (lo hi r : ℕ) : Type 0 where
  pub above : lo ≤ r
  pub below : r ≤ hi
  pub passes : (i : ℕ) → lo ≤ i → i < r → right i ≡ true
  pub fails : (i : ℕ) → r ≤ i → i < hi → right i ≡ false

true_and_false : {b : Bool} → b ≡ true → b ≡ false → ⊥
true_and_false p q = cc

-- Rows that pass come before rows that do not.
abbrev pub IsMonotone : (ℕ → Bool) → ℕ → ℕ → Type 0
IsMonotone right lo hi = (i j : ℕ) → lo ≤ i → i ≤ j → j < hi → right j ≡ true → right i ≡ true

module _ (right : ℕ → Bool) where
  module _ (lo hi mid r : ℕ) (mono : IsMonotone right lo hi) (low : lo ≤ mid)
      (high : mid < hi) where
    from_right : right mid ≡ true → Splits right (mid + 1) hi r → Splits right lo hi r
    from_right pass s = record {
      above = omega (arith, s.above);
      below = s.below;
      passes = λ i p q. elim (dec_lt mid i) [
        | yes later ↦ s.passes i (omega arith) q
        | no early ↦ mono i mid p (omega arith) high pass
      ];
      fails = s.fails;
    }

    from_left : right mid ≡ false → Splits right lo mid r → Splits right lo hi r
    from_left fail s = record {
      above = s.above;
      below = omega (arith, s.below);
      passes = s.passes;
      fails = λ i p q. elim (dec_lt i mid) [
        | yes early ↦ s.fails i p early
        | no later ↦ elim (Bool-cases (right i)) [
          | inl pass ↦ absurd (true_and_false (mono mid i low (omega arith) q pass) fail)
          | inr fails ↦ fails
        ]
      ];
    }

  bound_loop-Splits :
      (rounds lo hi : ℕ)
      → lo ≤ hi
      → hi - lo ≤ rounds
      → IsMonotone right lo hi
      → Splits right lo hi (bound_loop rounds right lo hi)
  unfolding bound_loop
  bound_loop-Splits zero lo hi h enough mono = record {
    above = omega arith;
    below = h;
    passes = λ i p q. absurd (omega arith);
    fails = λ i p q. absurd (omega arith);
  }
  bound_loop-Splits (suc rounds) lo hi h enough mono = elim (Bool-cases (ltb lo hi)) [
    | inr done ↦
        rw (done, bound_loop)
          (record {
            above = omega arith;
            below = h;
            passes = λ i p q. absurd (omega arith);
            fails = λ i p q. absurd (ground arith);
          })
    | inl more ↦
        let mid = lo + (hi - lo) / 2 in
        let low : lo ≤ mid = omega arith in
        let high : mid < hi = ground arith in
        elim (Bool-cases (right mid)) [
          | inl pass ↦
              rw (more, pass, bound_loop)
                (from_right lo hi mid _ mono low high pass (
                  bound_loop-Splits rounds (mid + 1) hi (omega arith) (omega arith)
                    (λ i j p q k. mono i j (omega arith) q k)))
          | inr fail ↦
              rw (more, fail, bound_loop)
                (from_left lo hi mid _ mono low high fail (
                  bound_loop-Splits rounds lo mid low (omega arith)
                    (λ i j p q k. mono i j p q (omega arith))))
        ]
  ]

module _ (value : ℕ → Key) (v lo hi : ℕ) (ordered : lo ≤ hi)
    (sorted : (i j : ℕ) → lo ≤ i → i ≤ j → j < hi → value i ≤ value j) where
  -- In a sorted range `lower_bound` gives the first row whose key is not less than `v`: every row
  -- before it in the range has a smaller key, and no row from it on.
  pub lower_bound-Splits : Splits (λ row. ltb (value row) v) lo hi (lower_bound value v lo hi)
  unfolding lower_bound
  lower_bound-Splits =
      bound_loop-Splits (λ row. ltb (value row) v) (hi - lo) lo hi ordered (omega arith)
        (λ i j p q k e. ground (arith, sorted i j p q k))

  pub upper_bound-Splits : Splits (λ row. leb (value row) v) lo hi (upper_bound value v lo hi)
  unfolding upper_bound
  upper_bound-Splits =
      bound_loop-Splits (λ row. leb (value row) v) (hi - lo) lo hi ordered (omega arith)
        (λ i j p q k e. ground (arith, sorted i j p q k))

module _ (value : ℕ → Key) (v lo hi : ℕ) (ordered : lo ≤ hi)
    (sorted : (i j : ℕ) → lo ≤ i → i ≤ j → j < hi → value i ≤ value j) where
  at_key :
      (i start end : ℕ)
      → value i ≡ v
      → (i < start → ltb (value i) v ≡ true)
      → (end ≤ i → leb (value i) v ≡ false)
      → (start ≤ i) × (i < end)
  at_key i start end e low high = (
    elim (dec_lt i start) [ yes h ↦ absurd (ground (arith, low h, e)) | no h ↦ omega arith ],
    elim (dec_lt i end) [ yes h ↦ h | no h ↦ absurd (ground (arith, high (omega arith), e)) ],
  )

  between_bounds : (i : ℕ) → ltb (value i) v ≡ false → leb (value i) v ≡ true → value i ≡ v
  between_bounds i low high = ground arith

  -- In a sorted range `equal_range` gives a subrange that holds exactly the rows whose key is `v`.
  pub equal_range_exact :
      (lo ≤ (equal_range value v lo hi).0)
      × ((equal_range value v lo hi).0 ≤ (equal_range value v lo hi).1)
      × ((equal_range value v lo hi).1 ≤ hi)
      × ((i : ℕ)
          → lo ≤ i
          → i < hi
          → (value i ≡ v)
            ↔ (((equal_range value v lo hi).0 ≤ i) × (i < (equal_range value v lo hi).1)))
  unfolding equal_range
  equal_range_exact =
      let lower = lower_bound-Splits value v lo hi ordered sorted in
      let start = lower_bound value v lo hi in
      let upper =
        upper_bound-Splits value v start hi lower.below
          (λ i j p q k. sorted i j (omega (arith, lower.above)) q k) in
      (
        lower.above,
        upper.above,
        upper.below,
        λ i p q. (
          λ e.
              at_key i start (upper_bound value v start hi) e (lower.passes i p)
                (λ h. upper.fails i h q),
          λ inside. between_bounds i (lower.fails i inside.0 q) (upper.passes i inside.0 inside.1),
        ),
      )
