-- ===== src/Commit/Wire/Libraries.antt =====
-- The crates that packages/coln-store/src/commit/wire calls: `leb128` and `hexane` of the commit's
-- numbers and columns, and the UTF-8 encoding of strings.
use coln.Prelude.{ℕ, ◌^◌, ◌<◌, ◌≡◌, ◌⊎◌, inl, inr, Option, some, String, List, [], ◌∷◌, ◌++◌}
use coln.Prelude.Int.{ℤ}
use coln.Prelude.Lists.{length}
use coln.Commit.Codec.{Parsed, ok, err, decode_error}
use coln.Commit.Leb128.Format.{WritesUnsigned}
pub use coln.Commit.Leb128.Signed.{WritesSigned, FitsSigned, IsI64}

-- A failing call gives the message of its error. `save` is `from_values(..).save()`, a column of
-- `ValueMeta` holds its words.
pub record Libraries : Type 0 where
  pub unsigned : ℕ → List ℕ
  pub signed : ℤ → List ℕ
  pub read_signed : List ℕ → (ℤ × List ℕ) ⊎ String
  pub lebsize : ℤ → ℕ
  pub save_u32 : List ℕ → List ℕ
  pub load_u32 : List ℕ → List ℕ ⊎ String
  pub save_i64 : List ℤ → List ℕ
  pub load_i64 : List ℕ → List ℤ ⊎ String
  pub save_delta : List ℕ → List ℕ
  pub load_delta : List ℕ → List ℕ ⊎ String
  pub save_meta : List ℕ → List ℕ
  pub load_meta : List ℕ → List ℕ ⊎ String
  pub as_bytes : String → List ℕ
  pub from_utf8 : List ℕ → Option String

-- Numbers below a bound, and integers of 64 bits.
abbrev pub AllBelow : ℕ → List ℕ → Type 0
AllBelow bound [] = Unit
AllBelow bound (n ∷ ns) = (n < bound) × AllBelow bound ns

abbrev pub AllI64 : List ℤ → Type 0
AllI64 [] = Unit
AllI64 (i ∷ is) = IsI64 i × AllI64 is

-- What the program relies on: numbers, columns and strings that were written are read back.
pub record Faithful (lib : Libraries) : Type 0 where
  pub writes : WritesUnsigned lib.unsigned
  pub writes_signed : WritesSigned lib.signed
  pub read_signed_back :
      (i : ℤ) (rest : List ℕ) → IsI64 i → lib.read_signed (lib.signed i ++ rest) ≡ inl (i, rest)
  pub lebsize_length : (i : ℤ) → IsI64 i → lib.lebsize i ≡ length (lib.signed i)
  pub load_u32_back : (ns : List ℕ) → AllBelow (2 ^ 32) ns → lib.load_u32 (lib.save_u32 ns) ≡ inl ns
  pub load_i64_back : (is : List ℤ) → AllI64 is → lib.load_i64 (lib.save_i64 is) ≡ inl is
  pub load_delta_back :
      (ns : List ℕ) → AllBelow (2 ^ 32) ns → lib.load_delta (lib.save_delta ns) ≡ inl ns
  pub load_meta_back :
      (ns : List ℕ) → AllBelow (2 ^ 64) ns → lib.load_meta (lib.save_meta ns) ≡ inl ns
  pub from_utf8_back : (s : String) → lib.from_utf8 (lib.as_bytes s) ≡ some s

-- `Column::load(..)?`
abbrev pub loaded {ℓ} : {A : Type ℓ} → A ⊎ String → Parsed A
loaded (inl values) = ok values
loaded (inr message) = err (decode_error message)
