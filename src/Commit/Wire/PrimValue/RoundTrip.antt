-- ===== src/Commit/Wire/PrimValue/RoundTrip.antt =====
-- Lemmas on values on the wire, packages/coln-store/src/commit/wire/prim.rs.
use coln.Prelude.{
  ℕ, ◌+◌, ◌*◌, ◌/◌, ◌%◌, ◌^◌, ◌<◌, ◌≡◌, refl, sym, ap, subst, ◌∙◌, inl, String, List, [], ◌++◌,
  append-nil, arith,
}
use coln.Prelude.Int.{ℤ, pos, negsuc}
use coln.Prelude.Lists.{length, length-append}
use coln.Value.{id, int, str}
use coln.Txn.{TxnWireValue, existing, pending}
use coln.Ir.{IrPath, BuiltinTy, builtin_int, builtin_str}
use coln.Commit.Codec.{Parsed, ok, err, crash}
use coln.Commit.Codec.Reading.{At}
use coln.Commit.Leb128.Blobs.{blob, write_len_prefixed_bytes-blob, read-blob}
use coln.Commit.Wire.Libraries.{Libraries, Faithful, FitsSigned, IsI64}
use coln.Commit.Wire.PrimValue.{
  ValueMeta, leb, string_type, new_meta, from_code, meta_type, meta_length, as_i32,
  encode_prim_value, decode_prim_value, encode_path, decode_path, decode_leb, decode_string,
  path_of_bytes,
}

-- A cell whose numbers have the 32 bits of the source's types.
abbrev pub IsCell : TxnWireValue → Type 0
IsCell (id (existing row_id)) = row_id.counter < 2 ^ 32
IsCell (id (pending temp)) = temp < 2 ^ 32
IsCell (int i) = FitsSigned (2 ^ 31) i
IsCell (str s) = Unit

word :
    (n code : ℕ)
    → n < 2 ^ 59
    → code < 32
    → ((n * 32 % 2 ^ 64 + code) % 32 ≡ code)
      × ((n * 32 % 2 ^ 64 + code) / 32 ≡ n)
      × (n * 32 % 2 ^ 64 + code < 2 ^ 64)
word n code h c = (omega arith, omega arith, omega arith)

as_i32-small : (i : ℤ) → FitsSigned (2 ^ 31) i → as_i32 i ≡ i
unfolding as_i32
as_i32-small (pos n) h = ground arith
as_i32-small (negsuc n) h = ground arith

IsI64-small : (i : ℤ) → FitsSigned (2 ^ 31) i → IsI64 i
IsI64-small (pos n) h = omega arith
IsI64-small (negsuc n) h = omega arith

-- What encoding a value put behind the buffer, and what decoding finds there.
pub record Written (lib : Libraries) (value : TxnWireValue) (ty : BuiltinTy) (out : List ℕ)
    (meta : ValueMeta) (out' : List ℕ) : Type 0 where
  pub bytes : List ℕ
  pub grown : out' ≡ out ++ bytes
  pub sized : meta_length meta ≡ length bytes
  pub fits : meta < 2 ^ 64
  pub read : decode_prim_value lib meta ty bytes ≡ ok value

module _ {A B : Type 0} {a c : A} {b d : B} where
  pub ok_first : ◌≡◌ {A = Parsed (A × B)} (ok (a, b)) (ok (c, d)) → a ≡ c
  ok_first e =
      ap (λ (m : Parsed (A × B)). elim m as (λ _. A) [ ok x ↦ x.0 | err _ ↦ a | crash ↦ a ]) e

  pub ok_second : ◌≡◌ {A = Parsed (A × B)} (ok (a, b)) (ok (c, d)) → b ≡ d
  ok_second e =
      ap (λ (m : Parsed (A × B)). elim m as (λ _. B) [ ok x ↦ x.1 | err _ ↦ b | crash ↦ b ]) e

meta_type-leb : (n : ℕ) → n < 2 ^ 59 → meta_type (new_meta leb n) ≡ leb
unfolding meta_type new_meta from_code
meta_type-leb n h = rw (word n 4 h (omega arith)).0 refl

meta_type-string : (n : ℕ) → n < 2 ^ 59 → meta_type (new_meta string_type n) ≡ string_type
unfolding meta_type new_meta from_code
meta_type-string n h = rw (word n 12 h (omega arith)).0 refl

module _ (lib : Libraries) (faithful : Faithful lib) where
  leb-Written :
      (i : ℤ) (out : List ℕ)
      → FitsSigned (2 ^ 31) i
      → length (out ++ lib.signed i) < 2 ^ 59
      → Written lib (int i) builtin_int out (new_meta leb (lib.lebsize i)) (out ++ lib.signed i)
  unfolding new_meta meta_length decode_prim_value
  leb-Written i out h small =
      let wide = IsI64-small i h in
      let size = faithful.lebsize_length i wide in
      let short : lib.lebsize i < 2 ^ 59 = omega (arith, size, length-append out (lib.signed i)) in
      let w = word (lib.lebsize i) 4 short (omega arith) in
      let back : lib.read_signed (lib.signed i) ≡ inl (i, []) =
        ap lib.read_signed (sym (append-nil (lib.signed i)))
        ∙ faithful.read_signed_back i [] wide in
      record {
        bytes = lib.signed i;
        grown = refl;
        sized = w.1 ∙ size;
        fits = w.2;
        read = rw (meta_type-leb (lib.lebsize i) short, back, decode_leb, as_i32-small i h) refl;
      }

  string-Written :
      (s : String) (out : List ℕ)
      → length (out ++ lib.as_bytes s) < 2 ^ 59
      → Written lib
          (str s)
          builtin_str
          out
          (new_meta string_type (length (lib.as_bytes s)))
          (out ++ lib.as_bytes s)
  unfolding new_meta meta_length decode_prim_value
  string-Written s out small =
      let n = length (lib.as_bytes s) in
      let short : n < 2 ^ 59 = omega (arith, length-append out (lib.as_bytes s)) in
      let w = word n 12 short (omega arith) in
      record {
        bytes = lib.as_bytes s;
        grown = refl;
        sized = w.1;
        fits = w.2;
        read = rw (meta_type-string n short, faithful.from_utf8_back s, decode_string) refl;
      }

  Written-same :
      (value : TxnWireValue) (ty : BuiltinTy) (out out₁ out₂ : List ℕ) (m₁ m₂ : ValueMeta)
      → ◌≡◌ {A = Parsed (ValueMeta × List ℕ)} (ok (m₁, out₁)) (ok (m₂, out₂))
      → (length out₁ < 2 ^ 59 → Written lib value ty out m₁ out₁)
      → length out₂ < 2 ^ 59
      → Written lib value ty out m₂ out₂
  Written-same value ty out out₁ out₂ m₁ m₂ e made small =
      subst (λ (m : ValueMeta). Written lib value ty out m out₂) (ok_first e)
        (subst (λ (o : List ℕ). length o < 2 ^ 59 → Written lib value ty out m₁ o) (ok_second e)
          made small)

  -- Whenever a value is encoded, its bytes with its word decode to it.
  pub encode_prim_value-Written :
      (value : TxnWireValue) (ty : BuiltinTy) (out out' : List ℕ) (meta : ValueMeta)
      → IsCell value
      → encode_prim_value lib value ty out ≡ ok (meta, out')
      → length out' < 2 ^ 59
      → Written lib value ty out meta out'
  unfolding encode_prim_value
  encode_prim_value-Written (int i) builtin_int out out' meta cell e small =
      Written-same _ _ out _ out' _ meta e (leb-Written i out cell) small
  encode_prim_value-Written (str s) builtin_str out out' meta cell e small =
      Written-same _ _ out _ out' _ meta e (string-Written s out) small
  encode_prim_value-Written (id r) builtin_int out out' meta cell e small = absurd (cc)
  encode_prim_value-Written (id r) builtin_str out out' meta cell e small = absurd (cc)
  encode_prim_value-Written (str s) builtin_int out out' meta cell e small = absurd (cc)
  encode_prim_value-Written (int i) builtin_str out out' meta cell e small = absurd (cc)

  pub decode_path-encode_path :
      (path : IrPath) (bytes rest : List ℕ) (at : ℕ)
      → length bytes < 2 ^ 64
      → At bytes at (encode_path lib path ++ rest)
      → decode_path lib bytes at ≡ ok (path, at + length (encode_path lib path))
  unfolding decode_path encode_path
  decode_path-encode_path path bytes rest at small here =
      let same : encode_path lib path ≡ blob lib.unsigned (lib.as_bytes path) =
        write_len_prefixed_bytes-blob lib.unsigned [] (lib.as_bytes path) in
      rw
        (
          same,
          read-blob lib.unsigned faithful.writes bytes small at (lib.as_bytes path) rest "path"
              (rw same at here),
          faithful.from_utf8_back path,
          path_of_bytes,
        )
        refl
