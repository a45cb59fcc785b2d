-- ===== src/Batch/Relation/Pushing.antt =====
-- Lemmas on `push_row`, packages/coln-batch/src/relation.rs.
use coln.Prelude.{
  ℕ, zero, suc, ◌+◌, ◌-◌, ◌<◌, ◌≡◌, refl, sym, ap, ◌∙◌, subst, inl, inr, List, [], ◌∷◌, ◌++◌, map,
  true, arith,
}
use coln.Prelude.Tests.{◌==◌, if◌then◌else◌, Bool-cases, ℕ-eq, List-eq}
use coln.Prelude.Int.{ℤ, pos, eq_ℤ, eq_ℤ_sound, ◌+ℤ◌, +ℤ_assoc, zero-+ℤ, +ℤ-zero}
use coln.Prelude.Lists.{length, get_or, range, range_from, length-append}
use coln.Batch.Types.{Key, Weight}
use coln.Batch.Relation.{key_at, all_long, push_row}
use coln.Batch.Relation.Weights.{no_weight, sum, sum_cong}

sum_snoc :
    (f : ℕ → ℤ) (start n last : ℕ)
    → last ≡ start + n
    → sum f (range_from start (suc n)) ≡ sum f (range_from start n) +ℤ f last
sum_snoc f start zero last e =
    +ℤ-zero (f start) ∙ sym (zero-+ℤ (f start)) ∙ ap (λ i. pos 0 +ℤ f i) (omega (arith, e))
sum_snoc f start (suc n) last e =
    ap (λ s. f start +ℤ s) (sum_snoc f (suc start) n last (omega (arith, e)))
    ∙ sym (+ℤ_assoc (f start) _ _)

pub sum_next :
    (f : ℕ → ℤ) (i n : ℕ)
    → i < n
    → sum f (range_from i (n - i)) ≡ f i +ℤ sum f (range_from (i + 1) (n - (i + 1)))
sum_next f i n h =
    let one_more : n - i ≡ suc (n - (i + 1)) = omega arith in
    let next : suc i ≡ i + 1 = omega arith in
    ap (λ m. sum f (range_from i m)) one_more
    ∙ ap (λ j. f i +ℤ sum f (range_from j (n - (i + 1)))) next

-- A table of columns with weights: what its row `i` adds to the row `k`, and the weight of `k`.
abbrev pub at_row : List (List Key) → ℕ → List Key
at_row cols i = map (λ c. key_at c i) cols

abbrev entry : List (List Key) → List Weight → List Key → ℕ → ℤ
entry cols ws k i = if at_row cols i == k then get_or ws i (pos 0) else pos 0

abbrev pub table_weight : List (List Key) → List Weight → List Key → ℤ
table_weight cols ws k = sum (entry cols ws k) (range (length ws))

get_or-snoc :
    {A : Type 0} (xs : List A) (x d : A) (i : ℕ)
    → i < length xs
    → get_or (xs ++ x ∷ []) i d ≡ get_or xs i d
get_or-snoc [] x d i h = absurd (omega (arith, h))
get_or-snoc (y ∷ xs) x d zero h = refl
get_or-snoc (y ∷ xs) x d (suc i) h = get_or-snoc xs x d i (omega (arith, h))

get_or-last :
    {A : Type 0} (xs : List A) (x d : A) (n : ℕ) → length xs ≡ n → get_or (xs ++ x ∷ []) n d ≡ x
get_or-last [] x d n h = rw (sym h) refl
get_or-last (y ∷ xs) x d zero h = absurd (omega (arith, h))
get_or-last (y ∷ xs) x d (suc n) h = get_or-last xs x d n (omega (arith, h))

-- The columns after a row was pushed.
pub all_long-push_row :
    (n : ℕ) (cols : List (List Key)) (keys : List Key)
    → length keys ≡ length cols
    → all_long n cols ≡ true
    → all_long (suc n) (push_row cols keys) ≡ true
unfolding all_long push_row
all_long-push_row n [] keys e h = refl
all_long-push_row n (c ∷ cols) [] e h = absurd (omega (arith, e))
all_long-push_row n (c ∷ cols) (k ∷ keys) e h =
    ground (arith, h, length-append c (k ∷ []), all_long-push_row n cols keys (omega (arith, e)))

at_row-push_row :
    (n : ℕ) (cols : List (List Key)) (keys : List Key) (i : ℕ)
    → length keys ≡ length cols
    → all_long n cols ≡ true
    → i < n
    → at_row (push_row cols keys) i ≡ at_row cols i
unfolding all_long push_row
at_row-push_row n [] keys i e h k = refl
at_row-push_row n (c ∷ cols) [] i e h k = refl
at_row-push_row n (c ∷ cols) (x ∷ keys) i e h k =
    let long : length c ≡ n = ground (arith, h) in
    rw (get_or-snoc c x 0 i (omega (arith, k, long))) (
      ap (λ r. key_at c i ∷ r)
        (at_row-push_row n cols keys i (omega (arith, e)) (ground (arith, h)) k))

last-push_row :
    (n : ℕ) (cols : List (List Key)) (keys : List Key)
    → length keys ≡ length cols
    → all_long n cols ≡ true
    → at_row (push_row cols keys) n ≡ keys
unfolding all_long push_row
last-push_row n [] [] e h = refl
last-push_row n [] (x ∷ keys) e h = absurd (omega (arith, e))
last-push_row n (c ∷ cols) [] e h = absurd (omega (arith, e))
last-push_row n (c ∷ cols) (x ∷ keys) e h =
    rw (get_or-last c x 0 n (ground (arith, h)))
      (ap (λ r. x ∷ r) (last-push_row n cols keys (omega (arith, e)) (ground (arith, h))))

length-push_row :
    (cols : List (List Key)) (keys : List Key)
    → length keys ≡ length cols
    → length (push_row cols keys) ≡ length cols
unfolding push_row
length-push_row [] keys e = refl
length-push_row (c ∷ cols) [] e = refl
length-push_row (c ∷ cols) (x ∷ keys) e = ap suc (length-push_row cols keys (omega (arith, e)))

-- Pushing a row adds its weight.
table_weight-push_row :
    (cols : List (List Key)) (ws : List Weight) (keys : List Key) (w : Weight) (k : List Key)
    → length keys ≡ length cols
    → all_long (length ws) cols ≡ true
    → table_weight (push_row cols keys) (ws ++ w ∷ []) k
      ≡ table_weight cols ws k +ℤ (if keys == k then w else pos 0)
table_weight-push_row cols ws keys w k e h =
    let grown : length (ws ++ w ∷ []) ≡ suc (length ws) =
      omega (arith, length-append ws (w ∷ [])) in
    ap (λ n. sum (entry (push_row cols keys) (ws ++ w ∷ []) k) (range n)) grown
    ∙ sum_snoc (entry (push_row cols keys) (ws ++ w ∷ []) k) 0 (length ws) (length ws) (omega arith)
    ∙ ap (λ s. s +ℤ entry (push_row cols keys) (ws ++ w ∷ []) k (length ws))
        (sum_cong _ _ 0 (length ws) (λ i l.
          rw
            (
              at_row-push_row (length ws) cols keys i e h (omega (arith, l)),
              get_or-snoc ws w (pos 0) i (omega (arith, l)),
            )
            refl))
    ∙ ap (λ s. table_weight cols ws k +ℤ s)
        (rw (last-push_row (length ws) cols keys e h, get_or-last ws w (pos 0) (length ws) refl)
          refl)

-- The row and the weight are pushed unless the weight is 0.
abbrev pub next_cols : List (List Key) → List Key → Weight → List (List Key)
next_cols cols keys w = if eq_ℤ w (pos 0) then cols else push_row cols keys

abbrev pub next_weights : List Weight → Weight → List Weight
next_weights ws w = if eq_ℤ w (pos 0) then ws else ws ++ w ∷ []

module _ (cols : List (List Key)) (ws : List Weight) (keys : List Key) (w : Weight)
    (e : length keys ≡ length cols) (h : all_long (length ws) cols ≡ true) where
  pub next-weight :
      (k : List Key)
      → table_weight (next_cols cols keys w) (next_weights ws w) k
        ≡ table_weight cols ws k +ℤ (if keys == k then w else pos 0)
  next-weight k = elim (Bool-cases (eq_ℤ w (pos 0))) [
    | inl gone ↦ rw gone (
        sym (
          ap (λ s. table_weight cols ws k +ℤ s)
            (no_weight (keys == k) w (eq_ℤ_sound w (pos 0) gone))
          ∙ +ℤ-zero _))
    | inr left ↦ rw left (table_weight-push_row cols ws keys w k e h)
  ]

  pub next-all_long : all_long (length (next_weights ws w)) (next_cols cols keys w) ≡ true
  next-all_long = elim (Bool-cases (eq_ℤ w (pos 0))) [
    | inl gone ↦ rw gone h
    | inr left ↦ rw left (
        subst (λ n. all_long n (push_row cols keys) ≡ true)
          (sym (length-append ws (w ∷ []) ∙ omega arith))
          (all_long-push_row (length ws) cols keys e h))
  ]

  pub next-length : length (next_cols cols keys w) ≡ length cols
  next-length = elim (Bool-cases (eq_ℤ w (pos 0))) [
    | inl gone ↦ rw gone refl
    | inr left ↦ rw left (length-push_row cols keys e)
  ]
