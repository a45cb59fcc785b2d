-- ===== src/Commit/Codec.antt =====
-- Errors and the byte reader of packages/coln-store/src/commit/error.rs and commit/utils.rs. A reader
-- takes the data and the position, and gives the value and the position after it; `crash` is a
-- panic. `usize` has 64 bits.
pub mod Reading
use Prim.Native.String.{◌++◌ as joined}
use coln.Prelude.{ℕ, ◌+◌, ◌^◌, ◌≡◌, refl, subst, String, Bool, true, false, List, [], ◌∷◌}
use coln.Prelude.Tests.{ltb, leb, if◌then◌else◌}
use coln.Prelude.Lists.{length, take, drop}

pub data ChunkType : Type 0 where
  commit root : ChunkType

-- The foreign error values of `IOError` and `DecodeError` stand by their messages.
pub data CodecError : Type 0 where
  header_error io_error schema_error data_format_error data_content_error : String → CodecError
  checksum_mismatch : CodecError
  decode_error : String → CodecError
  chunk_mismatch : ChunkType → ChunkType → CodecError
  other : String → CodecError

pub data Parsed {ℓ} (A : Type ℓ) : Type ℓ where
  ok : A → Parsed A
  err : CodecError → Parsed A
  crash : Parsed A

infixl 5 ◌>>=◌
abbrev pub ◌>>=◌ {ℓ κ} : {A : Type ℓ} {B : Type κ} → Parsed A → (A → Parsed B) → Parsed B
ok a >>= f = f a
err e >>= f = err e
crash >>= f = crash

-- `P` holds of the value, if there is one.
pub data Ensures {ℓ} {A : Type ℓ} (P : A → Type 0) : Parsed A → Type ℓ where
  holds : {a : A} → P a → Ensures P (ok a)
  errs : {e : CodecError} → Ensures P (err e)
  crashes : Ensures P crash

pub Ensures-bind {ℓ κ} :
    {A : Type ℓ} {B : Type κ} {P : B → Type 0} (m : Parsed A) (f : A → Parsed B)
    → ((a : A) → Ensures P (f a))
    → Ensures P (m >>= f)
Ensures-bind (ok a) f h = h a
Ensures-bind (err e) f h = errs
Ensures-bind crash f h = crashes

pub Ensures-then {ℓ κ} :
    {A : Type ℓ} {B : Type κ} {P : A → Type 0} {Q : B → Type 0} {m : Parsed A} (f : A → Parsed B)
    → Ensures P m
    → ((a : A) → P a → Ensures Q (f a))
    → Ensures Q (m >>= f)
Ensures-then f (holds {a = a} p) h = h a p
Ensures-then f errs h = errs
Ensures-then f crashes h = crashes

pub Ensures-if {ℓ} :
    {A : Type ℓ} {P : A → Type 0} (b : Bool) (m n : Parsed A)
    → (b ≡ true → Ensures P m)
    → (b ≡ false → Ensures P n)
    → Ensures P (if b then m else n)
Ensures-if true m n h k = h refl
Ensures-if false m n h k = k refl

pub ok-injective {ℓ} : {A : Type ℓ} (a b : A) → ok a ≡ ok b → a ≡ b
ok-injective a b e = cc

pub Ensures-ok {ℓ} :
    {A : Type ℓ} {P : A → Type 0} {m : Parsed A} → Ensures P m → (a : A) → m ≡ ok a → P a
Ensures-ok {P = P} (holds {a = b} p) a e = subst P (ok-injective b a e) p
Ensures-ok errs a e = absurd (cc)
Ensures-ok crashes a e = absurd (cc)

-- A sequence that gives a value, by its two parts.
pub ok_of_bind {ℓ κ} :
    {A : Type ℓ} {B : Type κ} (m : Parsed A) (f : A → Parsed B) (b : B)
    → (m >>= f) ≡ ok b
    → (a : A) × (m ≡ ok a) × (f a ≡ ok b)
ok_of_bind (ok a) f b e = (a, refl, e)
ok_of_bind (err x) f b e = absurd (cc)
ok_of_bind crash f b e = absurd (cc)

abbrev pub bad_format {ℓ} : {A : Type ℓ} → String → String → Parsed A
bad_format what ctx = err (data_format_error (joined what ctx))

-- A sum past the largest `usize` panics where overflow is checked; where it wraps, the slice
-- starts behind its end and panics too.
unfoldable pub read_slice : List ℕ → ℕ → ℕ → String → Parsed (List ℕ × ℕ)
read_slice bytes at len ctx =
    if leb (2 ^ 64) (at + len)
    then crash
    else if ltb (length bytes) (at + len)
    then bad_format "truncated while reading " ctx
    else ok (take len (drop at bytes), at + len)

abbrev pub first_byte : List ℕ × ℕ → Parsed (ℕ × ℕ)
first_byte (byte ∷ rest, at) = ok (byte, at)
first_byte ([], at) = crash

unfoldable pub read_u8 : List ℕ → ℕ → String → Parsed (ℕ × ℕ)
unfolding read_slice
read_u8 bytes at ctx = read_slice bytes at 1 ctx >>= first_byte
