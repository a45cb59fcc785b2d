-- ===== src/Batch/Types.antt =====
-- Values, their keys, schemas and the string dictionary: packages/coln-batch/src/types.rs.
pub mod Keys
use coln.Prelude.{
  ℕ, zero, suc, ◌+◌, ◌-◌, ◌^◌, String, Option, none, some, List, [], ◌∷◌, ◌++◌, map, Bool, true,
  false, ◌&&◌, ◌||◌,
}
use coln.Prelude.Tests.{PartialEq, String-eq, ◌==◌, ltb, leb, nat_eq, if◌then◌else◌}
use coln.Prelude.Int.{ℤ, pos, negsuc, ◌+ℤ◌, ◌*ℤ◌, leb_ℤ}
use coln.Prelude.Lists.{length, get_elem?}
use coln.Prelude.Maps
use coln.Prelude.Maps.{HashMap}
use coln.Prelude.Outcome.{Outcome, returns, panic, ◌>>=◌, expect}

-- A `u64`.
abbrev pub Key : Type 0
Key = ℕ

-- An `i64`.
abbrev pub Weight : Type 0
Weight = ℤ

abbrev pub fits_i64 : ℤ → Bool
fits_i64 (pos n) = ltb n (2 ^ 63)
fits_i64 (negsuc n) = ltb n (2 ^ 63)

-- `checked_add` and `checked_mul`, with the panic on overflow.
unfoldable pub add_weights : Weight → Weight → Outcome Weight
add_weights a b = if fits_i64 (a +ℤ b) then returns (a +ℤ b) else panic

unfoldable pub mul_weights : Weight → Weight → Outcome Weight
mul_weights a b = if fits_i64 (a *ℤ b) then returns (a *ℤ b) else panic

pub data ScalarType : Type 0 where
  uint_type iint_type bool_type char_type string_type : ScalarType

-- A `char` stands by its code point.
pub data Value : Type 0 where
  uint : ℕ → Value
  iint : ℤ → Value
  bool : Bool → Value
  char : ℕ → Value
  string : String → Value

-- The derived equality.
abbrev pub same_type : ScalarType → ScalarType → Bool
same_type uint_type uint_type = true
same_type iint_type iint_type = true
same_type bool_type bool_type = true
same_type char_type char_type = true
same_type string_type string_type = true
same_type _ _ = false

unfoldable pub scalar_type : Value → ScalarType
scalar_type (uint u) = uint_type
scalar_type (iint i) = iint_type
scalar_type (bool b) = bool_type
scalar_type (char c) = char_type
scalar_type (string s) = string_type

pub record Dictionary : Type 0 where
  pub strings : List String
  pub codes : HashMap String Key

abbrev pub new : Dictionary
new = record { strings = []; codes = [] }

unfoldable pub intern : String → Dictionary → Dictionary × Key
intern s dict = elim (Maps.get s dict.codes) [
  | some code ↦ (dict, code)
  | none ↦
      let code = length dict.strings in
      (record { strings = dict.strings ++ s ∷ []; codes = Maps.insert s code dict.codes }, code)
]

unfoldable pub code : Dictionary → String → Option Key
code dict s = Maps.get s dict.codes

unfoldable pub string_at : Dictionary → Key → Option String
string_at dict key = get_elem? dict.strings key

-- `i as u64` and `k as i64`: two's complement.
unfoldable pub to_u64 : ℤ → ℕ
to_u64 (pos n) = n
to_u64 (negsuc n) = 2 ^ 64 - 1 - n

unfoldable pub to_i64 : ℕ → ℤ
to_i64 k = if ltb k (2 ^ 63) then pos k else negsuc (2 ^ 64 - 1 - k)

-- `k ^ SIGN_BIT` sets bit 63 where it is clear and clears it where it is set.
unfoldable pub flip_sign : ℕ → ℕ
flip_sign k = if ltb k (2 ^ 63) then k + 2 ^ 63 else k - 2 ^ 63

unfoldable pub key_if_known : Value → Dictionary → Option Key
key_if_known (uint u) dict = some u
key_if_known (iint i) dict = some (flip_sign (to_u64 i))
key_if_known (bool b) dict = some (if b then 1 else 0)
key_if_known (char c) dict = some c
key_if_known (string s) dict = code dict s

unfoldable pub to_key : Value → Dictionary → Outcome (Dictionary × Key)
to_key (string s) dict = returns (intern s dict)
to_key (uint u) dict = expect (key_if_known (uint u) dict) >>= λ k. returns (dict, k)
to_key (iint i) dict = expect (key_if_known (iint i) dict) >>= λ k. returns (dict, k)
to_key (bool b) dict = expect (key_if_known (bool b) dict) >>= λ k. returns (dict, k)
to_key (char c) dict = expect (key_if_known (char c) dict) >>= λ k. returns (dict, k)

-- `u32::try_from(key).ok().and_then(char::from_u32)`: the Unicode scalar values.
abbrev pub is_char : ℕ → Bool
is_char c = ltb c 0xd800 || (leb 0xe000 c && ltb c 0x110000)

pub data KeyError : Type 0 where
  not_a_boolean not_a_character not_a_code : Key → KeyError

pub data Decoded : Type 0 where
  value : Value → Decoded
  bail : KeyError → Decoded

unfoldable pub from_key : ScalarType → Key → Dictionary → Decoded
from_key uint_type key dict = value (uint key)
from_key iint_type key dict = value (iint (to_i64 (flip_sign key)))
from_key bool_type key dict =
    if nat_eq key 0
    then value (bool false)
    else if nat_eq key 1
    then value (bool true)
    else bail (not_a_boolean key)
from_key char_type key dict = if is_char key then value (char key) else bail (not_a_character key)
from_key string_type key dict = elim (string_at dict key) [
  | some s ↦ value (string s)
  | none ↦ bail (not_a_code key)
]

pub record Column : Type 0 where
  pub name : String
  pub ty : ScalarType

pub record Schema : Type 0 where
  pub columns : List Column

-- A schema of unsigned integer columns.
unfoldable pub uint_schema : List String → Schema
uint_schema names = record { columns = map (λ n. record { name = n; ty = uint_type }) names }

unfoldable pub arity : Schema → ℕ
arity schema = length schema.columns

unfoldable pub column_type : Schema → ℕ → Outcome ScalarType
column_type schema col = expect (get_elem? schema.columns col) >>= λ c. returns c.ty

unfoldable pub names : Schema → List String
names schema = map (λ c. c.name) schema.columns

unfoldable pub types : Schema → List ScalarType
types schema = map (λ c. c.ty) schema.columns

unfoldable pub column_name : Schema → ℕ → Outcome String
column_name schema col = expect (get_elem? schema.columns col) >>= λ c. returns c.name

abbrev pub rename_columns : List String → List Column → List Column
rename_columns (n ∷ names) (c ∷ columns) =
    record { name = n; ty = c.ty } ∷ rename_columns names columns
rename_columns [] columns = []
rename_columns (n ∷ names) [] = []

-- The same columns with new names. The zip stops at the shorter list, and the assertion refuses fewer names.
unfoldable pub renamed : Schema → List String → Outcome Schema
unfolding arity
renamed schema names =
    let columns = rename_columns names schema.columns in
    if nat_eq (length columns) (arity schema) then returns (record { columns = columns }) else panic
