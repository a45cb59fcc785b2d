-- ===== src/Txn.antt =====
-- Operations staged in a transaction, packages/coln-store/src/txn/id.rs, and the hashes that they
-- mention, `collect_op_hashes` of commit/mod.rs.
pub mod Resolve
use coln.Prelude.{ℕ, List, [], ◌∷◌, map}
use coln.Commit.Hash.{CommitHash}
use coln.Commit.HashDict
use coln.Commit.HashDict.{HashMapper}
use coln.Value
use coln.Value.{Value, id, int, str, map_owned, WireRowId, WireValue, TableOid, Op}

-- The row's position among the pending operations of its transaction.
abbrev pub TempRowId : Type 0
TempRowId = ℕ

unfoldable pub resolve_temp : TempRowId → CommitHash → WireRowId
resolve_temp temp commit = record { commit = commit; counter = temp }

pub data TxnWireRowId : Type 0 where
  existing : WireRowId → TxnWireRowId
  pending : TempRowId → TxnWireRowId

unfoldable pub resolve_row_id : CommitHash → TxnWireRowId → WireRowId
unfolding resolve_temp
resolve_row_id commit (existing row_id) = row_id
resolve_row_id commit (pending temp) = resolve_temp temp commit

abbrev pub TxnWireValue : Type 0
TxnWireValue = Value TxnWireRowId

abbrev pub TxnWireTuple : Type 0
TxnWireTuple = List TxnWireValue

pub data PendingOp : Type 0 where
  add : TempRowId → TableOid → TxnWireTuple → PendingOp

unfoldable pub resolve : CommitHash → PendingOp → Op
unfolding resolve_temp
resolve commit (add row_id table values) =
    Op.add (resolve_temp row_id commit) table (map (map_owned (resolve_row_id commit)) values)

-- The inner loop of `collect_op_hashes`, over the cells of an operation.
unfoldable pub collect_value_hashes : TxnWireTuple → HashMapper → HashMapper
collect_value_hashes [] mapper = mapper
collect_value_hashes (id (existing row_id) ∷ values) mapper =
    collect_value_hashes values (HashDict.insert mapper row_id.commit).0
collect_value_hashes (id (pending temp) ∷ values) mapper = collect_value_hashes values mapper
collect_value_hashes (int i ∷ values) mapper = collect_value_hashes values mapper
collect_value_hashes (str s ∷ values) mapper = collect_value_hashes values mapper

unfoldable pub collect_op_hashes : List PendingOp → HashMapper → HashMapper
unfolding collect_value_hashes
collect_op_hashes [] mapper = mapper
collect_op_hashes (add row_id table values ∷ ops) mapper =
    collect_op_hashes ops (collect_value_hashes values mapper)
