-- ===== src/Commit/Wire/Group.antt =====
-- Groups of operations of one table on the wire, packages/coln-store/src/commit/wire/data.rs.
pub mod Transpose
pub mod RoundTrip
use coln.Prelude.{ℕ, zero, suc, ◌+◌, Option, none, some, List, [], ◌∷◌, ◌++◌}
use coln.Prelude.Tests.{nat_eq, if◌then◌else◌}
use coln.Prelude.Lists.{length, get_elem?}
use coln.Value.{TableOid}
use coln.Txn.{TxnWireValue, TxnWireTuple, PendingOp, add}
use coln.Ir.{IrPath, Schema, ColumnEntry}
use coln.Commit.Hash.{CommitHash}
use coln.Commit.HashDict.{HashMapper}
use coln.Commit.Codec.{Parsed, ok, err, crash, ◌>>=◌, schema_error, data_format_error}
use coln.Commit.Leb128.{write_len, write_len_prefixed_bytes, read_len, read_len_prefixed_bytes}
use coln.Commit.Wire.Libraries.{Libraries}
use coln.Commit.Wire.PrimValue.{encode_path, decode_path}
use coln.Commit.Wire.Columns.{encode_txn_value_column, decode_txn_value_column}

pub record TableMeta : Type 0 where
  pub path : IrPath
  pub oid : TableOid
  pub schema : Schema

-- The first loop of `encode_op_group`, which checks the operations.
unfoldable pub group_rows : TableOid → ℕ → List PendingOp → Parsed (List TxnWireTuple)
group_rows table_oid column_count [] = ok []
group_rows table_oid column_count (add row_id table values ∷ ops) =
    let later = group_rows table_oid column_count ops in
    if nat_eq table table_oid
    then (if nat_eq (length values) column_count
        then (do rows ← later; ok (values ∷ rows))
        else err (schema_error "op group column count mismatch"))
    else err (schema_error "op group table mismatch")

-- `row.as_slice()[column_index]` of every row; an index out of range panics.
unfoldable pub column_of : ℕ → List TxnWireTuple → Parsed (List TxnWireValue)
column_of column_index [] = ok []
column_of column_index (row ∷ rows) = elim (get_elem? row column_index) [
  | some value ↦ (do values ← column_of column_index rows; ok (value ∷ values))
  | none ↦ crash
]

-- `column[row_index]` of every column.
unfoldable pub row_of : List (List TxnWireValue) → ℕ → Parsed TxnWireTuple
row_of [] row_index = ok []
row_of (column ∷ columns) row_index = elim (get_elem? column row_index) [
  | some value ↦ (do values ← row_of columns row_index; ok (value ∷ values))
  | none ↦ crash
]

-- The rows from `row_index` on. Left out: `Vec::with_capacity(row_count)`, which panics or aborts before
-- the loop when the memory for the count cannot be had; only the count of a table without columns is not
-- compared with the lengths of the columns before.
unfoldable pub transpose : ℕ → ℕ → List (List TxnWireValue) → Parsed (List TxnWireTuple)
unfolding row_of
transpose zero row_index columns = ok []
transpose (suc count) row_index columns = do
  row ← row_of columns row_index
  rows ← transpose count (suc row_index) columns
  ok (row ∷ rows)

pub record DecodedOpGroup : Type 0 where
  pub table : TableOid
  pub rows : List TxnWireTuple

module _ (lib : Libraries) where
  -- The loop of `encode_op_group` over the columns of the schema.
  unfoldable pub encode_columns :
      List ColumnEntry → ℕ → List TxnWireTuple → HashMapper → List ℕ → Parsed (List ℕ)
  unfolding column_of encode_txn_value_column
  encode_columns [] column_index rows mapper buf = ok buf
  encode_columns (col_entry ∷ columns) column_index rows mapper buf = do
    values ← column_of column_index rows
    blob ← encode_txn_value_column lib values col_entry.col_type mapper
    encode_columns columns (suc column_index) rows mapper
        (write_len_prefixed_bytes lib.unsigned buf blob)

  unfoldable pub encode_op_group :
      IrPath → TableOid → Schema → List PendingOp → HashMapper → Parsed (List ℕ)
  unfolding group_rows encode_columns encode_path write_len
  encode_op_group table_path table_oid schema ops mapper = do
    rows ← group_rows table_oid (length schema.columns) ops
    encode_columns schema.columns 0 rows mapper (
        write_len lib.unsigned (write_len lib.unsigned (encode_path lib table_path) (length rows))
          (length schema.columns))

  -- The loop of `decode_op_group` over the columns of the schema.
  unfoldable pub decode_columns :
      List ColumnEntry → ℕ → List ℕ → ℕ → List CommitHash → Parsed (List (List TxnWireValue) × ℕ)
  unfolding read_len_prefixed_bytes decode_txn_value_column
  decode_columns [] row_count bytes at hashes = ok ([], at)
  decode_columns (col_entry ∷ schema) row_count bytes at hashes = do
    (column_blob, at₁) ← read_len_prefixed_bytes bytes at "op group column"
    column ← decode_txn_value_column lib column_blob col_entry.col_type hashes
    let later = decode_columns schema row_count bytes at₁ hashes
    if nat_eq (length column) row_count
        then (do (columns, at₂) ← later; ok (column ∷ columns, at₂))
        else err (data_format_error "op group column length mismatch")

  -- The rest of `decode_op_group`, with the table of the path.
  unfoldable pub decode_rows :
      TableMeta → ℕ → ℕ → List ℕ → ℕ → List CommitHash → Parsed DecodedOpGroup
  unfolding decode_columns transpose
  decode_rows meta row_count column_count bytes at hashes =
      if nat_eq column_count (length meta.schema.columns)
      then (do
        (columns, last) ← decode_columns meta.schema.columns row_count bytes at hashes
        if nat_eq last (length bytes)
            then (do
              rows ← transpose row_count 0 columns
              ok (record { table = meta.oid; rows = rows }))
            else err (data_format_error "trailing bytes after op group"))
      else err (data_format_error "op group column count mismatch")

  unfoldable pub decode_op_group :
      List ℕ → List CommitHash → (IrPath → Option TableMeta) → Parsed DecodedOpGroup
  unfolding decode_path read_len decode_rows
  decode_op_group bytes hashes table_meta_for = do
    (table_path, at₁) ← decode_path lib bytes 0
    (row_count, at₂) ← read_len bytes at₁ "op group row count"
    (column_count, at₃) ← read_len bytes at₂ "op group column count"
    elim (table_meta_for table_path) [
      | some meta ↦ decode_rows meta row_count column_count bytes at₃ hashes
      | none ↦ err (schema_error "missing schema for table ")
    ]
