-- ===== src/Commit/Codec/Reading.antt =====
-- What stands at the reader's position, and what `read_slice` and `read_u8` do there.
use coln.Prelude.{ℕ, ◌+◌, ◌^◌, ◌<◌, ◌≤◌, ◌≡◌, refl, ap, ◌∙◌, String, List, [], ◌∷◌, ◌++◌, arith}
use coln.Prelude.Tests.{ltb, leb}
use coln.Prelude.Lists.{
  length, take, drop, length-append, take-append, drop-append, drop-drop, length-drop,
}
use coln.Commit.Codec.{ok, Ensures, holds, errs, crashes, Ensures-if, read_slice, read_u8}

-- From `at` on, the data is `rest`.
pub record At (bytes : List ℕ) (at : ℕ) (rest : List ℕ) : Type 0 where
  pub inside : at ≤ length bytes
  pub follows : drop at bytes ≡ rest

pub At-start : (bytes : List ℕ) → At bytes 0 bytes
At-start bytes = record { inside = omega arith; follows = refl }

pub At-append :
    (bytes before rest : List ℕ) → bytes ≡ before ++ rest → At bytes (length before) rest
At-append bytes before rest e = rw e (record {
  inside = omega (arith, length-append before rest);
  follows = drop-append before rest;
})

module _ (bytes : List ℕ) (at : ℕ) (part rest : List ℕ) (here : At bytes at (part ++ rest)) where
  pub At-fits : at + length part + length rest ≡ length bytes
  At-fits =
      omega
        (arith, here.inside, ap length here.follows, length-drop at bytes, length-append part rest)

  pub At-next : At bytes (at + length part) rest
  At-next = record {
    inside = omega (arith, At-fits);
    follows =
        drop-drop at (length part) bytes
        ∙ ap (drop (length part)) here.follows
        ∙ drop-append part rest;
  }

  pub read_slice-At :
      (ctx : String)
      → length bytes < 2 ^ 64
      → read_slice bytes at (length part) ctx ≡ ok (part, at + length part)
  unfolding read_slice
  read_slice-At ctx small = rw (here.follows, take-append part rest) (ground (arith, At-fits))

pub read_u8-At :
    (bytes : List ℕ) (at byte : ℕ) (rest : List ℕ) (ctx : String)
    → At bytes at (byte ∷ rest)
    → length bytes < 2 ^ 64
    → read_u8 bytes at ctx ≡ ok (byte, at + 1)
unfolding read_u8
read_u8-At bytes at byte rest ctx here small =
    rw (read_slice-At bytes at (byte ∷ []) rest here ctx small)

-- A slice that is read is the one at the position.
pub read_slice-Ensures :
    (bytes : List ℕ) (at len : ℕ) (ctx : String)
    → Ensures
        (λ got. (got.0 ≡ take len (drop at bytes)) × (got.1 ≡ at + len))
        (read_slice bytes at len ctx)
unfolding read_slice
read_slice-Ensures bytes at len ctx =
    Ensures-if (leb (2 ^ 64) (at + len)) _ _ (λ _. crashes)
      λ _. Ensures-if (ltb (length bytes) (at + len)) _ _ (λ _. errs) λ _. holds (refl, refl)
