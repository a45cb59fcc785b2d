-- ===== src/Prelude/Interner.antt =====
-- A vector and its reverse map that agree, as in the dictionaries that hand out codes.
use Prim.Native.Nat.{ℕ, zero, suc}
use mathlib.Core.Path.{◌≡◌, refl, ◌∙◌}
use mathlib.Core.Logic.{◌⊎◌, inl, inr}
use mathlib.Core.List.{List, [], ◌∷◌, ◌++◌}
use mathlib.Core.Option.{none, some}
use native.Mathlib.Omega.{arith}
use coln.Prelude.Tests.{PartialEq, ◌==◌, Bool-cases}
use coln.Prelude.Lists.{length, get_elem?, get_elem?-append, get_elem?-append_length, lt-get_elem?}
use coln.Prelude.Maps
use coln.Prelude.Maps.{HashMap}

module _ {ℓ} {K : Type ℓ} where
  -- What is at an index of a list with one more element.
  pub get_elem?_snoc :
      (xs : List K) (x : K) (i : ℕ) (y : K)
      → get_elem? (xs ++ x ∷ []) i ≡ some y
      → (get_elem? xs i ≡ some y) ⊎ ((i ≡ length xs) × (x ≡ y))
  get_elem?_snoc [] x zero y h = inr (refl, ground arith)
  get_elem?_snoc [] x (suc i) y h = absurd (ground arith)
  get_elem?_snoc (z ∷ xs) x zero y h = inl h
  get_elem?_snoc (z ∷ xs) x (suc i) y h = ground (arith, get_elem?_snoc xs x i y h)

module _ {ℓ} {K : Type ℓ} ⦃e : PartialEq K⦄ where
  -- Every record is a position, and every position is recorded.
  pub record Agrees (xs : List K) (m : HashMap K ℕ) : Type ℓ where
    pub located : (k : K) (i : ℕ) → Maps.get k m ≡ some i → get_elem? xs i ≡ some k
    pub recorded : (k : K) (i : ℕ) → get_elem? xs i ≡ some k → Maps.get k m ≡ some i

  pub Agrees-empty : Agrees [] []
  unfolding Maps.get
  Agrees-empty = record { located = λ k i h. ground arith; recorded = λ k i h. ground arith }

  module _ (xs : List K) (m : HashMap K ℕ) (x : K) (new : Maps.get x m ≡ none)
      (a : Agrees xs m) where
    grown_located :
        (k : K) (i : ℕ)
        → Maps.get k (Maps.insert x (length xs) m) ≡ some i
        → get_elem? (xs ++ x ∷ []) i ≡ some k
    grown_located k i h = elim (Bool-cases (x == k)) [
      | inl same ↦ ground (
        arith,
        Maps.get-insert x k (length xs) m,
        e.equals_iff x k,
        get_elem?-append_length xs x [],
      )
      | inr other ↦
          let old : Maps.get k m ≡ some i = ground (arith, Maps.get-insert x k (length xs) m) in
          get_elem?-append xs (x ∷ []) i (lt-get_elem? xs i (a.located k i old)) ∙ a.located k i old
    ]

    grown_recorded :
        (k : K) (i : ℕ)
        → get_elem? (xs ++ x ∷ []) i ≡ some k
        → Maps.get k (Maps.insert x (length xs) m) ≡ some i
    grown_recorded k i h = elim (get_elem?_snoc xs x i k h) [
      | inl old ↦
          ground (arith, Maps.get-insert x k (length xs) m, e.equals_iff x k, a.recorded k i old)
      | inr (last, same) ↦ ground (arith, Maps.get-insert x k (length xs) m, e.equals_iff x k)
    ]

    -- A new key takes the next position.
    pub Agrees-grown : Agrees (xs ++ x ∷ []) (Maps.insert x (length xs) m)
    Agrees-grown = record { located = grown_located; recorded = grown_recorded }
