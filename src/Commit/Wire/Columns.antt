-- ===== src/Commit/Wire/Columns.antt =====
-- Columns of cells on the wire: the column functions of packages/coln-store/src/commit/wire/data.rs.
pub mod RowRefs
pub mod Prims
use coln.Prelude.{ℕ, ◌+◌, ◌-◌, ◌%◌, ◌^◌, Option, none, some, List, [], ◌∷◌, Bool, ◌&&◌}
use coln.Prelude.Int.{ℤ, pos, negsuc, eq_ℤ}
use coln.Prelude.Tests.{ltb, leb, nat_eq, if◌then◌else◌}
use coln.Prelude.Lists.{length, get_elem?, take, drop}
use coln.Value.{id, int, str}
use coln.Txn.{TxnWireValue, existing, pending}
use coln.Ir.{BuiltinTy, ColType}
use coln.Commit.Hash.{CommitHash}
use coln.Commit.HashDict.{HashMapper, index}
use coln.Commit.Codec.{Parsed, ok, err, ◌>>=◌, schema_error, data_format_error}
use coln.Commit.Leb128.{write_len_prefixed_bytes, read_len_prefixed_bytes}
use coln.Commit.Wire.Libraries.{Libraries, loaded}
use coln.Commit.Wire.PrimValue.{ValueMeta, meta_length, encode_prim_value, decode_prim_value}

-- -1, the index that stands for the commit itself.
abbrev pub local_commit_hash_index : ℤ
local_commit_hash_index = negsuc 0

-- A round of the loop in `encode_txn_row_ref_column`: what it pushes to the two columns.
unfoldable pub row_ref_parts : HashMapper → TxnWireValue → Parsed (ℤ × ℕ)
unfolding index
row_ref_parts mapper (id (existing row_id)) = elim (index mapper row_id.commit) [
  | some i ↦ ok (pos i, row_id.counter)
  | none ↦ err (schema_error "missing commit hash in dictionary: ")
]
row_ref_parts mapper (id (pending temp)) = ok (local_commit_hash_index, temp)
row_ref_parts mapper (int i) = err (schema_error "expected row reference, got ")
row_ref_parts mapper (str s) = err (schema_error "expected row reference, got ")

unfoldable pub split_row_refs : HashMapper → List TxnWireValue → Parsed (List ℤ × List ℕ)
unfolding row_ref_parts
split_row_refs mapper [] = ok ([], [])
split_row_refs mapper (value ∷ values) = do
  (hash_index, counter) ← row_ref_parts mapper value
  (hash_indices, counters) ← split_row_refs mapper values
  ok (hash_index ∷ hash_indices, counter ∷ counters)

-- An `i64` as a `usize`, two's complement.
abbrev pub as_usize : ℤ → ℕ
as_usize (pos n) = n % 2 ^ 64
as_usize (negsuc n) = 2 ^ 64 - 1 - n % 2 ^ 64

-- The closure of `decode_txn_row_ref_column`.
unfoldable pub row_ref_of : List CommitHash → ℤ → ℕ → Parsed TxnWireValue
row_ref_of hashes hash_index counter =
    if eq_ℤ hash_index local_commit_hash_index
    then ok (id (pending counter))
    else elim (get_elem? hashes (as_usize hash_index)) [
      | some commit ↦ ok (id (existing (record { commit = commit; counter = counter })))
      | none ↦ err (data_format_error "txn row-ref hash index out of bounds")
    ]

unfoldable pub join_row_refs : List CommitHash → List ℤ → List ℕ → Parsed (List TxnWireValue)
unfolding row_ref_of
join_row_refs hashes (hash_index ∷ hash_indices) (counter ∷ counters) = do
  value ← row_ref_of hashes hash_index counter
  values ← join_row_refs hashes hash_indices counters
  ok (value ∷ values)
join_row_refs hashes [] counters = ok []
join_row_refs hashes (hash_index ∷ hash_indices) [] = ok []

module _ (lib : Libraries) where
  abbrev put : List ℕ → List ℕ → List ℕ
  put buf bytes = write_len_prefixed_bytes lib.unsigned buf bytes

  unfoldable pub encode_txn_row_ref_column : List TxnWireValue → HashMapper → Parsed (List ℕ)
  unfolding split_row_refs
  encode_txn_row_ref_column values mapper = do
    (hash_indices, counters) ← split_row_refs mapper values
    ok (put (put [] (lib.save_i64 hash_indices)) (lib.save_delta counters))

  unfoldable pub encode_prim_values :
      List TxnWireValue → BuiltinTy → List ℕ → Parsed (List ValueMeta × List ℕ)
  unfolding encode_prim_value
  encode_prim_values [] ty value_bytes = ok ([], value_bytes)
  encode_prim_values (value ∷ values) ty value_bytes = do
    (meta_value, value_bytes₁) ← encode_prim_value lib value ty value_bytes
    (meta, value_bytes₂) ← encode_prim_values values ty value_bytes₁
    ok (meta_value ∷ meta, value_bytes₂)

  unfoldable pub encode_txn_prim_value_column : List TxnWireValue → BuiltinTy → Parsed (List ℕ)
  unfolding encode_prim_values
  encode_txn_prim_value_column values ty = do
    (meta, value_bytes) ← encode_prim_values values ty []
    ok (put (put [] (lib.save_meta meta)) value_bytes)

  unfoldable pub encode_txn_value_column :
      List TxnWireValue → ColType → HashMapper → Parsed (List ℕ)
  unfolding encode_txn_row_ref_column encode_txn_prim_value_column
  encode_txn_value_column values (ColType.row_id path) mapper =
      encode_txn_row_ref_column values mapper
  encode_txn_value_column values (ColType.builtin_ty ty) mapper =
      encode_txn_prim_value_column values ty

  unfoldable pub decode_txn_row_ref_column : List ℕ → List CommitHash → Parsed (List TxnWireValue)
  unfolding read_len_prefixed_bytes join_row_refs
  decode_txn_row_ref_column bytes hashes = do
    (hash_index_blob, at₁) ← read_len_prefixed_bytes bytes 0 "txn row-ref hash-index column"
    (counter_blob, at₂) ← read_len_prefixed_bytes bytes at₁ "txn row-ref counter column"
    if nat_eq at₂ (length bytes)
        then (do
          hash_indices ← loaded (lib.load_i64 hash_index_blob)
          counters ← loaded (lib.load_delta counter_blob)
          if nat_eq (length hash_indices) (length counters)
              then join_row_refs hashes hash_indices counters
              else err (data_format_error "txn row-ref subcolumn length mismatch"))
        else err (data_format_error "trailing bytes after txn row-ref column")

  -- The loop of `decode_txn_prim_value_column` from an offset on, and where it ends.
  unfoldable pub decode_prim_values :
      List ValueMeta → BuiltinTy → List ℕ → ℕ → Parsed (List TxnWireValue × ℕ)
  unfolding meta_length decode_prim_value
  decode_prim_values [] ty value_blob offset = ok ([], offset)
  decode_prim_values (m ∷ meta) ty value_blob offset =
      let end = offset + meta_length m in
      let later = decode_prim_values meta ty value_blob end in
      if ltb end (2 ^ 64) && leb end (length value_blob)
      then (do
        value ← decode_prim_value lib m ty (take (meta_length m) (drop offset value_blob))
        (values, last) ← later
        ok (value ∷ values, last))
      else err (data_format_error "value column overrun")

  unfoldable pub decode_txn_prim_value_column : List ℕ → BuiltinTy → Parsed (List TxnWireValue)
  unfolding read_len_prefixed_bytes decode_prim_values
  decode_txn_prim_value_column bytes ty = do
    (meta_blob, at₁) ← read_len_prefixed_bytes bytes 0 "txn prim value meta column"
    (value_blob, at₂) ← read_len_prefixed_bytes bytes at₁ "txn prim value column"
    if nat_eq at₂ (length bytes)
        then (do
          meta ← loaded (lib.load_meta meta_blob)
          (values, offset) ← decode_prim_values meta ty value_blob 0
          if nat_eq offset (length value_blob)
              then ok values
              else err (data_format_error "trailing bytes in value column"))
        else err (data_format_error "trailing bytes after txn prim value column")

  unfoldable pub decode_txn_value_column :
      List ℕ → ColType → List CommitHash → Parsed (List TxnWireValue)
  unfolding decode_txn_row_ref_column decode_txn_prim_value_column
  decode_txn_value_column bytes (ColType.row_id path) hashes =
      decode_txn_row_ref_column bytes hashes
  decode_txn_value_column bytes (ColType.builtin_ty ty) hashes =
      decode_txn_prim_value_column bytes ty
