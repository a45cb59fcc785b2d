-- ===== src/Prelude/Outcome.antt =====
-- A run that can panic: `panic` stands for an abort by `panic!`, `assert!`, `expect` or an index out
-- of bounds.
use mathlib.Core.Option.{Option, none, some}

pub data Outcome {ℓ} (A : Type ℓ) : Type ℓ where
  returns : A → Outcome A
  panic : Outcome A

infixl 5 ◌>>=◌
abbrev pub ◌>>=◌ {ℓ κ} : {A : Type ℓ} {B : Type κ} → Outcome A → (A → Outcome B) → Outcome B
returns a >>= f = f a
panic >>= f = panic

-- `expect` and `unwrap`.
abbrev pub expect {ℓ} : {A : Type ℓ} → Option A → Outcome A
expect (some a) = returns a
expect none = panic
