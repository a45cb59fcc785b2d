-- ===== src/Value.antt =====
-- Cells, row ids and operations: packages/coln-store/src/value.rs, table/cell.rs and op.rs.
use coln.Prelude.{ℕ, String, List}
use coln.Prelude.Int.{ℤ}
use coln.Commit.Hash.{CommitHash}

-- An `i32` is an integer; nothing here computes with it.
pub data Value {ℓ} (I : Type ℓ) : Type ℓ where
  id : I → Value I
  int : ℤ → Value I
  str : String → Value I

unfoldable pub map_owned {ℓ κ} : {I : Type ℓ} {J : Type κ} → (I → J) → Value I → Value J
map_owned f (id i) = id (f i)
map_owned f (int i) = int i
map_owned f (str s) = str s

pub record WireRowId : Type 0 where
  pub commit : CommitHash
  pub counter : ℕ

abbrev pub WireValue : Type 0
WireValue = Value WireRowId

-- The position of a table in the store.
abbrev pub TableOid : Type 0
TableOid = ℕ

pub data Op : Type 0 where
  add : WireRowId → TableOid → List WireValue → Op

unfoldable pub op_id : Op → WireRowId
op_id (add row_id table values) = row_id

unfoldable pub op_table : Op → TableOid
op_table (add row_id table values) = table
