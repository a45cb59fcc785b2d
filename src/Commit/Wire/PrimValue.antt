-- ===== src/Commit/Wire/PrimValue.antt =====
-- Values on the wire, packages/coln-store/src/commit/wire/prim.rs.
pub mod RoundTrip
use coln.Prelude.{
  ℕ, ◌+◌, ◌-◌, ◌*◌, ◌/◌, ◌%◌, ◌^◌, Option, none, some, inl, inr, List, [], ◌∷◌, ◌++◌, Bool, true,
  false,
}
use coln.Prelude.Int.{ℤ, pos, negsuc}
use coln.Prelude.Tests.{ltb, nat_eq, if◌then◌else◌}
use coln.Prelude.Lists.{length}
use coln.Value.{id, int, str}
use coln.Txn.{TxnWireValue}
use coln.Ir.{IrPath, BuiltinTy, builtin_int, builtin_str}
use coln.Commit.Codec.{Parsed, ok, err, ◌>>=◌, schema_error, data_format_error}
use coln.Commit.Leb128.{write_len_prefixed_bytes, read_len_prefixed_bytes}
use coln.Commit.Wire.Libraries.{Libraries}

pub data ValueType : Type 0 where
  null false_type true_type uleb leb big_int big_uint big_rat bfloat16 float16 float32 float64 :
      ValueType
  string_type bytes_type : ValueType
  unknown : ℕ → ValueType

unfoldable pub type_code_of : ValueType → ℕ
type_code_of null = 0
type_code_of false_type = 1
type_code_of true_type = 2
type_code_of uleb = 3
type_code_of leb = 4
type_code_of big_int = 5
type_code_of big_uint = 6
type_code_of big_rat = 7
type_code_of float16 = 8
type_code_of float32 = 9
type_code_of float64 = 10
type_code_of bfloat16 = 11
type_code_of string_type = 12
type_code_of bytes_type = 13
type_code_of (unknown code) = code

unfoldable pub from_code : ℕ → ValueType
from_code code =
    if nat_eq code 0
    then null
    else if nat_eq code 1
    then false_type
    else if nat_eq code 2
    then true_type
    else if nat_eq code 3
    then uleb
    else if nat_eq code 4
    then leb
    else if nat_eq code 5
    then big_int
    else if nat_eq code 6
    then big_uint
    else if nat_eq code 7
    then big_rat
    else if nat_eq code 8
    then float16
    else if nat_eq code 9
    then float32
    else if nat_eq code 10
    then float64
    else if nat_eq code 11
    then bfloat16
    else if nat_eq code 12
    then string_type
    else if nat_eq code 13
    then bytes_type
    else unknown code

unfoldable pub is_valid_for : ValueType → BuiltinTy → Bool
is_valid_for uleb builtin_int = true
is_valid_for leb builtin_int = true
is_valid_for big_int builtin_int = true
is_valid_for big_uint builtin_int = true
is_valid_for string_type builtin_str = true
is_valid_for type ty = false

-- The word of the source.
abbrev pub ValueMeta : Type 0
ValueMeta = ℕ

-- `<<` drops what passes 64 bits. A code of more than 5 bits, which only `unknown` has, would
-- overlap the length; no caller passes one.
unfoldable pub new_meta : ValueType → ℕ → ValueMeta
unfolding type_code_of
new_meta type length = length * 32 % 2 ^ 64 + type_code_of type

unfoldable pub meta_type : ValueMeta → ValueType
unfolding from_code
meta_type meta = from_code (meta % 32)

unfoldable pub meta_length : ValueMeta → ℕ
meta_length meta = meta / 32

-- An `i64` as an `i32`: the low 32 bits, two's complement.
unfoldable pub as_i32 : ℤ → ℤ
as_i32 (pos n) =
    if ltb (n % 2 ^ 32) (2 ^ 31) then pos (n % 2 ^ 32) else negsuc (2 ^ 32 - 1 - n % 2 ^ 32)
as_i32 (negsuc n) =
    if ltb (n % 2 ^ 32) (2 ^ 31) then negsuc (n % 2 ^ 32) else pos (2 ^ 32 - 1 - n % 2 ^ 32)

module _ (lib : Libraries) where
  -- The word of the value, and the buffer with its bytes.
  unfoldable pub encode_prim_value : TxnWireValue → BuiltinTy → List ℕ → Parsed (ValueMeta × List ℕ)
  unfolding new_meta
  encode_prim_value (int i) builtin_int out = ok (new_meta leb (lib.lebsize i), out ++ lib.signed i)
  encode_prim_value (id row_id) builtin_int out = err (schema_error "expected int, got ")
  encode_prim_value (str s) builtin_int out = err (schema_error "expected int, got ")
  encode_prim_value (str s) builtin_str out =
      ok (new_meta string_type (length (lib.as_bytes s)), out ++ lib.as_bytes s)
  encode_prim_value (id row_id) builtin_str out = err (schema_error "expected string, got ")
  encode_prim_value (int i) builtin_str out = err (schema_error "expected string, got ")

  unfoldable pub decode_leb : List ℕ → Parsed TxnWireValue
  unfolding as_i32
  decode_leb bytes = elim (lib.read_signed bytes) [
    | inl (i, []) ↦ ok (int (as_i32 i))
    | inl (i, byte ∷ rest) ↦ err (data_format_error "trailing bytes in leb value")
    | inr message ↦ err (data_format_error message)
  ]

  unfoldable pub decode_string : List ℕ → Parsed TxnWireValue
  decode_string bytes = elim (lib.from_utf8 bytes) [
    | some s ↦ ok (str s)
    | none ↦ err (data_format_error "value column: invalid utf-8")
  ]

  unfoldable pub decode_as : ValueType → List ℕ → Parsed TxnWireValue
  unfolding decode_leb decode_string
  decode_as leb bytes = decode_leb bytes
  decode_as string_type bytes = decode_string bytes
  decode_as type bytes = err (data_format_error "unsupported value type code ")

  unfoldable pub decode_prim_value : ValueMeta → BuiltinTy → List ℕ → Parsed TxnWireValue
  unfolding meta_type is_valid_for decode_as
  decode_prim_value meta ty bytes =
      if is_valid_for (meta_type meta) ty
      then decode_as (meta_type meta) bytes
      else err (schema_error "value type is not valid for column type ")

  unfoldable pub encode_path : IrPath → List ℕ
  unfolding write_len_prefixed_bytes
  encode_path path = write_len_prefixed_bytes lib.unsigned [] (lib.as_bytes path)

  unfoldable pub path_of_bytes : List ℕ × ℕ → Parsed (IrPath × ℕ)
  path_of_bytes (bytes, at) = elim (lib.from_utf8 bytes) [
    | some path ↦ ok (path, at)
    | none ↦ err (data_format_error "path invalid utf-8")
  ]

  unfoldable pub decode_path : List ℕ → ℕ → Parsed (IrPath × ℕ)
  unfolding read_len_prefixed_bytes path_of_bytes
  decode_path bytes at = read_len_prefixed_bytes bytes at "path" >>= path_of_bytes
