-- ===== src/Commit/Wire/Group/RoundTrip.antt =====
-- Lemmas on encoding and decoding a group, packages/coln-store/src/commit/wire/data.rs.
use coln.Prelude.{
  ℕ, suc, ◌+◌, ◌^◌, ◌<◌, ◌≡◌, refl, sym, ap, ◌∙◌, subst, Option, some, List, [], ◌∷◌, ◌++◌, map,
  append-nil, append_assoc, arith,
}
use coln.Prelude.Tests.{nat_eq_self}
use coln.Prelude.Lists.{length-map, length, length-append}
use coln.Value.{TableOid}
use coln.Txn.{TxnWireValue, TxnWireTuple, PendingOp}
use coln.Ir.{IrPath, Schema, ColumnEntry}
use coln.Commit.HashDict.{HashMapper}
use coln.Commit.Codec.{Parsed, ok, ok-injective, ok_of_bind}
use coln.Commit.Codec.Reading.{At, At-start, At-next, At-fits}
use coln.Commit.Leb128.{write_len}
use coln.Commit.Leb128.Blobs
use coln.Commit.Leb128.Blobs.{blob}
use coln.Commit.Wire.Libraries.{Libraries, Faithful}
use coln.Commit.Wire.PrimValue.{encode_path}
use coln.Commit.Wire.PrimValue.RoundTrip.{decode_path-encode_path}
use coln.Commit.Wire.Columns.{encode_txn_value_column}
use coln.Commit.Wire.Columns.RowRefs.{IsUsable}
use coln.Commit.Wire.Columns.Prims.{decode-encode_value_column}
use coln.Commit.Wire.Group.{
  TableMeta, DecodedOpGroup, group_rows, column_of, encode_columns, encode_op_group, decode_columns,
  decode_rows, transpose, decode_op_group,
}
use coln.Commit.Wire.Group.Transpose.{
  AllRows, AllTuples, values_of, group_rows-AllRows, column_of-CellsOf, ColumnsFrom,
  transpose-columns,
}

module _ (lib : Libraries) (faithful : Faithful lib) (mapper : HashMapper)
    (usable : IsUsable mapper) (rows : List TxnWireTuple) (width : ℕ)
    (all : AllRows width rows) where
  -- What encoding the columns from an index on put behind the buffer, and what decoding finds there.
  record EncodedColumns (schema : List ColumnEntry) (i : ℕ) (buf out : List ℕ) : Type 0 where
    tail : List ℕ
    columns : List (List TxnWireValue)
    grown : out ≡ buf ++ tail
    from : ColumnsFrom i rows columns
    count : length columns ≡ length schema
    read :
        (bytes rest : List ℕ) (at : ℕ)
        → length bytes < 2 ^ 64
        → At bytes at (tail ++ rest)
        → decode_columns lib schema (length rows) bytes at mapper.hashes
          ≡ ok (columns, at + length tail)

  EncodedColumns-cons :
      (col_entry : ColumnEntry) (schema : List ColumnEntry) (i : ℕ) (buf part out : List ℕ)
      (column : List TxnWireValue)
      → column_of i rows ≡ ok column
      → encode_txn_value_column lib column col_entry.col_type mapper ≡ ok part
      → length part < 2 ^ 59
      → EncodedColumns schema (suc i) (buf ++ blob lib.unsigned part) out
      → EncodedColumns (col_entry ∷ schema) i buf out
  unfolding decode_columns
  EncodedColumns-cons col_entry schema i buf part out column is_column encoded small q =
      let cells = column_of-CellsOf i rows column is_column in
      record {
        tail = blob lib.unsigned part ++ q.tail;
        columns = column ∷ q.columns;
        grown = q.grown ∙ append_assoc buf (blob lib.unsigned part) q.tail;
        from = (is_column, q.from);
        count = ap suc q.count;
        read = λ bytes rest at fit here.
            let part_blob = blob lib.unsigned part in
            let here' : At bytes at (part_blob ++ (q.tail ++ rest)) =
              rw (append_assoc part_blob q.tail rest) at here in
            let behind = At-next bytes at part_blob (q.tail ++ rest) here' in
            rw
              (
                Blobs.read-blob lib.unsigned faithful.writes bytes fit at part (q.tail ++ rest)
                    "op group column" here',
                decode-encode_value_column lib faithful mapper usable column col_entry.col_type part
                    (cells.cells width all) encoded small,
                cells.long,
                nat_eq_self (length rows),
                q.read bytes rest (at + length part_blob) fit behind,
              )
              (ap ended (omega (arith, length-append part_blob q.tail)));
      }
    where
      ended : ℕ → Parsed (List (List TxnWireValue) × ℕ)
      ended n = ok (column ∷ q.columns, n)

  encode_columns-EncodedColumns :
      (schema : List ColumnEntry) (i : ℕ) (buf out : List ℕ)
      → encode_columns lib schema i rows mapper buf ≡ ok out
      → length out < 2 ^ 59
      → EncodedColumns schema i buf out
  unfolding encode_columns decode_columns
  encode_columns-EncodedColumns [] i buf out e small = record {
    tail = [];
    columns = [];
    grown = sym (ok-injective _ _ e) ∙ sym (append-nil buf);
    from = tt;
    count = refl;
    read = λ bytes rest at _ _. ground arith;
  }
  encode_columns-EncodedColumns (col_entry ∷ schema) i buf out e small =
      let (column, is_column, e₁) = ok_of_bind (column_of i rows) _ out e in
      let (part, encoded, e₂) =
        ok_of_bind (encode_txn_value_column lib column col_entry.col_type mapper) _ out e₁ in
      let later : encode_columns lib schema (suc i) rows mapper (buf ++ blob lib.unsigned part)
          ≡ ok out =
        subst (λ b. encode_columns lib schema (suc i) rows mapper b ≡ ok out)
          (Blobs.write_len_prefixed_bytes-blob lib.unsigned buf part) e₂ in
      let q =
        encode_columns-EncodedColumns schema (suc i) (buf ++ blob lib.unsigned part) out later
          small in
      let short : length part < 2 ^ 59 = omega (
        arith,
        small,
        ap length q.grown,
        length-append (buf ++ blob lib.unsigned part) q.tail,
        length-append buf (blob lib.unsigned part),
        length-append (lib.unsigned (length part)) part,
      ) in
      EncodedColumns-cons col_entry schema i buf part out column is_column encoded short q

module _ (lib : Libraries) (faithful : Faithful lib) (mapper : HashMapper)
    (usable : IsUsable mapper) (path : IrPath) (table : TableOid) (schema : Schema) where
  abbrev meta : TableMeta
  meta = record { path = path; oid = table; schema = schema }

  abbrev header : List TxnWireTuple → List ℕ
  header rows =
      (encode_path lib path ++ lib.unsigned (length rows)) ++ lib.unsigned (length schema.columns)

  abbrev decoded : List TxnWireTuple → Parsed DecodedOpGroup
  decoded rows = ok (record { table = table; rows = rows })

  decode-header :
      (rows : List TxnWireTuple) (out : List ℕ) (table_meta_for : IrPath → Option TableMeta)
      → AllRows (length schema.columns) rows
      → length rows < 2 ^ 64
      → length schema.columns < 2 ^ 64
      → table_meta_for path ≡ some meta
      → encode_columns lib schema.columns 0 rows mapper (header rows) ≡ ok out
      → length out < 2 ^ 59
      → decode_op_group lib out mapper.hashes table_meta_for ≡ decoded rows
  unfolding decode_op_group decode_rows
  decode-header rows out table_meta_for all few narrow known e small =
      let q =
        encode_columns-EncodedColumns lib faithful mapper usable rows (length schema.columns) all
          schema.columns 0 (header rows) out e small in
      let fit : length out < 2 ^ 64 = omega (arith, small) in
      let path_bytes = encode_path lib path in
      let count_bytes = lib.unsigned (length rows) in
      let width_bytes = lib.unsigned (length schema.columns) in
      let whole : out ≡ path_bytes ++ (count_bytes ++ (width_bytes ++ q.tail)) =
        q.grown ∙ simp append_assoc in
      let here : At out 0 (path_bytes ++ (count_bytes ++ (width_bytes ++ q.tail))) =
        subst (At out 0) whole (At-start out) in
      let at_count = At-next out 0 path_bytes (count_bytes ++ (width_bytes ++ q.tail)) here in
      let at_width =
        At-next out (0 + length path_bytes) count_bytes (width_bytes ++ q.tail) at_count in
      let at_tail : At out (0 + length path_bytes + length count_bytes + length width_bytes)
          (q.tail ++ []) =
        rw (append-nil q.tail)
          (At-next out (0 + length path_bytes + length count_bytes) width_bytes q.tail at_width) in
      let all_read : 0 + length path_bytes + length count_bytes + length width_bytes + length q.tail
          ≡ length out =
        omega (arith, At-fits out _ q.tail [] at_tail) in
      let rows_e : transpose (length rows) 0 q.columns ≡ ok rows =
        transpose-columns rows q.columns (length rows) 0
          (subst (λ n. AllRows n rows) (sym q.count) all) q.from (omega arith) in
      rw
        (
          decode_path-encode_path lib faithful path out (count_bytes ++ (width_bytes ++ q.tail)) 0
              fit here,
          Blobs.read_number lib.unsigned faithful.writes out fit (0 + length path_bytes)
              (length rows) (width_bytes ++ q.tail) "op group row count" few at_count,
          Blobs.read_number lib.unsigned faithful.writes out fit
              (0 + length path_bytes + length count_bytes) (length schema.columns) q.tail
              "op group column count" narrow at_width,
          known,
          decode_rows,
          nat_eq_self (length schema.columns),
          q.read out [] (0 + length path_bytes + length count_bytes + length width_bytes) fit
              at_tail,
          all_read,
          nat_eq_self (length out),
          rows_e,
        )
        refl

  -- A group that `encode_op_group` gives decodes to its table and the cells of its operations, row by
  -- row, where the path is that of the table. The dictionary is consistent, of fewer than 2^32 hashes,
  -- the cells' numbers have 32 bits, the counts 64 bits and the group has fewer than 2^59 bytes.
  pub decode-encode_op_group :
      (ops : List PendingOp) (out : List ℕ) (table_meta_for : IrPath → Option TableMeta)
      → AllTuples ops
      → length ops < 2 ^ 64
      → length schema.columns < 2 ^ 64
      → table_meta_for path ≡ some meta
      → encode_op_group lib path table schema ops mapper ≡ ok out
      → length out < 2 ^ 59
      → decode_op_group lib out mapper.hashes table_meta_for ≡ decoded (map values_of ops)
  unfolding encode_op_group write_len
  decode-encode_op_group ops out table_meta_for cells few narrow known e small =
      let (rows, e₁, e₂) = ok_of_bind (group_rows table (length schema.columns) ops) _ out e in
      let (same, all) = group_rows-AllRows table (length schema.columns) ops rows cells e₁ in
      let count : length rows ≡ length ops = ap length same ∙ length-map values_of ops in
      decode-header rows out table_meta_for all (omega (arith, few, count)) narrow known e₂ small
      ∙ ap decoded same
