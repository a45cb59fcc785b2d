-- ===== src/Pack.antt =====
-- Packed row ids and the packer: packages/coln-store/src/pack/mod.rs and pack/id_packer.rs, and the
-- unpacking of a row in table/handle.rs. The packer is passed in and returned where the source has `&mut self`.
pub mod Interning
pub mod Rollback
use coln.Prelude.{ℕ, Option, none, some, List, [], ◌∷◌}
use coln.Prelude.Lists.{length}
use coln.Prelude.Outcome.{Outcome, returns, panic, ◌>>=◌, expect}
use coln.Commit.HashDict
use coln.Commit.HashDict.{HashMapper}
use coln.Value
use coln.Value.{Value, id, int, str, WireRowId, WireValue, Op}

pub record PackedRowId : Type 0 where
  pub commit_idx : ℕ
  pub counter : ℕ

abbrev pub PackedValue : Type 0
PackedValue = Value PackedRowId

abbrev pub PackedTuple : Type 0
PackedTuple = List PackedValue

pub data PackedOp : Type 0 where
  add : PackedRowId → PackedTuple → PackedOp
  delete : PackedRowId → PackedOp

pub record IdPacker : Type 0 where
  pub dict : HashMapper
  pub snapshot_len : Option ℕ

abbrev pub new : IdPacker
new = record { dict = HashDict.empty; snapshot_len = none }

unfoldable pub pack_row_id : IdPacker → WireRowId → IdPacker × PackedRowId
pack_row_id p row =
    let (dict, commit_idx) = HashDict.insert p.dict row.commit in
    (record p { dict = dict }, record { commit_idx = commit_idx; counter = row.counter })

unfoldable pub lookup_row_id : IdPacker → WireRowId → Option PackedRowId
lookup_row_id p row = elim (HashDict.index p.dict row.commit) [
  | some commit_idx ↦ some (record { commit_idx = commit_idx; counter = row.counter })
  | none ↦ none
]

unfoldable pub unpack_row_id : IdPacker → PackedRowId → Outcome WireRowId
unpack_row_id p row = do
  commit ← expect (HashDict.hash_at p.dict row.commit_idx)
  returns (record { commit = commit; counter = row.counter })

unfoldable pub pack_value : IdPacker → WireValue → IdPacker × PackedValue
pack_value p (id row) = let (p', packed) = pack_row_id p row in (p', id packed)
pack_value p (int i) = (p, int i)
pack_value p (str s) = (p, str s)

unfoldable pub try_pack_value : IdPacker → WireValue → Option PackedValue
try_pack_value p (id row) = elim (lookup_row_id p row) [
  | some packed ↦ some (id packed)
  | none ↦ none
]
try_pack_value p (int i) = some (int i)
try_pack_value p (str s) = some (str s)

unfoldable pub unpack_value : IdPacker → PackedValue → Outcome WireValue
unpack_value p (id row) = do wire ← unpack_row_id p row; returns (id wire)
unpack_value p (int i) = returns (int i)
unpack_value p (str s) = returns (str s)

-- `values.into_iter().map(|value| self.pack_value(value)).collect()`
unfoldable pub pack_values : IdPacker → List WireValue → IdPacker × PackedTuple
pack_values p [] = (p, [])
pack_values p (v ∷ vs) =
    let (p', packed) = pack_value p v in let (p'', rest) = pack_values p' vs in (p'', packed ∷ rest)

unfoldable pub pack_op : IdPacker → Op → IdPacker × PackedOp
pack_op p (Op.add row_id table values) =
    let (p', row) = pack_row_id p row_id in
    let (p'', tuple) = pack_values p' values in (p'', add row tuple)

pub record PackedRowView : Type 0 where
  pub row_id : PackedRowId
  pub values : PackedTuple

pub record WireRowView : Type 0 where
  pub row_id : WireRowId
  pub values : List WireValue

-- `packed_view.values.into_iter().map(|packed_value| self.id_packer.unpack_value(packed_value)).collect()`
unfoldable pub unpack_values : IdPacker → PackedTuple → Outcome (List WireValue)
unpack_values p [] = returns []
unpack_values p (v ∷ vs) = do w ← unpack_value p v; ws ← unpack_values p vs; returns (w ∷ ws)

-- The handle of the table lends the packer.
unfoldable pub unpack_row_view : IdPacker → PackedRowView → Outcome WireRowView
unpack_row_view p packed_view = do
  row_id ← unpack_row_id p packed_view.row_id
  values ← unpack_values p packed_view.values
  returns (record { row_id = row_id; values = values })

unfoldable pub len : IdPacker → ℕ
len p = length p.dict.hashes

unfoldable pub snapshot : IdPacker → Outcome IdPacker
snapshot p = elim p.snapshot_len [
  | none ↦ returns (record p { snapshot_len = some (len p) })
  | some n ↦ panic
]

unfoldable pub commit : IdPacker → Outcome IdPacker
commit p = do n ← expect p.snapshot_len; returns (record p { snapshot_len = none })

unfoldable pub rollback_to : IdPacker → Outcome IdPacker
rollback_to p = do
  n ← expect p.snapshot_len
  dict ← HashDict.truncate p.dict n
  returns (record { dict = dict; snapshot_len = none })
