-- ===== src/Commit/Wire/Body.antt =====
-- The body of a commit on the wire, packages/coln-store/src/commit/wire/data.rs.
pub mod Replay
pub mod Groups
pub mod RoundTrip
use coln.Prelude.{ℕ, zero, suc, ◌+◌, ◌%◌, ◌^◌, Option, none, some, List, [], ◌∷◌, ◌++◌}
use coln.Prelude.Tests.{ltb, nat_eq, if◌then◌else◌}
use coln.Prelude.Lists.{length, get_elem?, replicate}
use coln.Value.{TableOid}
use coln.Txn.{PendingOp, add}
use coln.Ir.{IrPath}
use coln.Commit.Hash.{CommitHash}
use coln.Commit.HashDict.{HashMapper}
use coln.Commit.Codec.{Parsed, ok, err, crash, ◌>>=◌, schema_error, data_format_error, other}
use coln.Commit.Leb128.{write_u32, write_len_prefixed_bytes, read_len, read_len_prefixed_bytes}
use coln.Commit.Wire.Libraries.{Libraries, loaded}
use coln.Commit.Wire.Group.{TableMeta, DecodedOpGroup, encode_op_group, decode_op_group}

-- `OP_KIND_ADD` of packages/coln-store/src/op.rs.
abbrev pub op_kind_add : ℕ
op_kind_add = 0

abbrev pub OpGroups : Type 0
OpGroups = List (TableOid × List PendingOp)

-- The operation goes to the first group of its table, or to a new last group; with the index of the
-- group.
unfoldable pub push_op : TableOid → PendingOp → OpGroups → OpGroups × ℕ
push_op table op [] = ((table, op ∷ []) ∷ [], 0)
push_op table op ((group_table, ops) ∷ groups) =
    let (groups', group_index) = push_op table op groups in
    if nat_eq group_table table
    then ((group_table, ops ++ op ∷ []) ∷ groups, 0)
    else ((group_table, ops) ∷ groups', suc group_index)

pub record Grouped : Type 0 where
  pub groups : OpGroups
  pub table_sequence : List ℕ
  pub op_kinds : List ℕ

-- The loop of `encode_commit_body` over the operations.
unfoldable pub group_ops : List PendingOp → OpGroups → Grouped
unfolding push_op
group_ops [] groups = record { groups = groups; table_sequence = []; op_kinds = [] }
group_ops (add row_id table values ∷ pending) groups =
    let pushed = push_op table (add row_id table values) groups in
    let later = group_ops pending pushed.0 in
    record {
      groups = later.groups;
      table_sequence = pushed.1 % 2 ^ 32 ∷ later.table_sequence;
      op_kinds = op_kind_add ∷ later.op_kinds;
    }

-- `group_offsets[group_idx] += 1`
unfoldable pub bump : ℕ → List ℕ → List ℕ
bump i [] = []
bump zero (offset ∷ offsets) = suc offset ∷ offsets
bump (suc i) (offset ∷ offsets) = offset ∷ bump i offsets

-- The next row of a group; the values of a row that is not there are an error.
unfoldable pub next_row : List DecodedOpGroup → List ℕ → ℕ → ℕ → Parsed PendingOp
next_row groups group_offsets op_idx group_idx = elim (get_elem? groups group_idx) [
  | none ↦ err (data_format_error "table sequence index out of bounds")
  | some group ↦ elim (get_elem? group_offsets group_idx) [
    | none ↦ crash
    | some row_idx ↦ elim (get_elem? group.rows row_idx) [
      | none ↦ err (data_format_error "op group exhausted")
      | some values ↦ ok (add (op_idx % 2 ^ 32) group.table values)
    ]
  ]
]

-- The loop of `decode_commit_body` from `op_idx` on: the operations and the offsets in the end.
unfoldable pub replay :
    List DecodedOpGroup → ℕ → List ℕ → List ℕ → List ℕ → Parsed (List PendingOp × List ℕ)
unfolding next_row bump
replay groups op_idx [] table_sequence group_offsets = ok ([], group_offsets)
replay groups op_idx (op_kind ∷ op_kinds) [] group_offsets =
    if nat_eq op_kind op_kind_add then crash else err (data_format_error "unknown op kind ")
replay groups op_idx (op_kind ∷ op_kinds) (group_idx ∷ table_sequence) group_offsets =
    let later = replay groups (suc op_idx) op_kinds table_sequence (bump group_idx group_offsets) in
    if nat_eq op_kind op_kind_add
    then (do
      op ← next_row groups group_offsets op_idx group_idx
      (pending, last) ← later
      ok (op ∷ pending, last))
    else err (data_format_error "unknown op kind ")

-- The loop that looks for unused rows.
unfoldable pub all_used : List ℕ → List DecodedOpGroup → Parsed (Unit {0})
all_used (offset ∷ offsets) (group ∷ groups) =
    let later = all_used offsets groups in
    if nat_eq offset (length group.rows)
    then later
    else err (data_format_error "op group has unused rows")
all_used [] groups = ok tt
all_used (offset ∷ offsets) [] = ok tt

module _ (lib : Libraries) where
  -- The loop of `encode_commit_body` over the groups.
  unfoldable pub encode_groups :
      OpGroups → (TableOid → Option TableMeta) → HashMapper → List ℕ → Parsed (List ℕ)
  unfolding encode_op_group
  encode_groups [] table_meta_for mapper buf = ok buf
  encode_groups ((table_oid, ops) ∷ groups) table_meta_for mapper buf =
      elim (table_meta_for table_oid) [
        | none ↦ err (schema_error "missing schema for table oid ")
        | some meta ↦ (do
          group_blob ← encode_op_group lib meta.path table_oid meta.schema ops mapper
          encode_groups groups table_meta_for mapper
              (write_len_prefixed_bytes lib.unsigned buf group_blob))
      ]

  unfoldable pub encode_commit_body :
      List PendingOp → (TableOid → Option TableMeta) → HashMapper → Parsed (List ℕ)
  unfolding group_ops encode_groups write_u32
  encode_commit_body pending table_meta_for mapper =
      let grouped = group_ops pending [] in
      let op_kind_col = write_len_prefixed_bytes lib.unsigned [] (lib.save_u32 grouped.op_kinds) in
      let buf =
        write_len_prefixed_bytes lib.unsigned op_kind_col (lib.save_u32 grouped.table_sequence) in
      if ltb (length grouped.groups) (2 ^ 32)
      then encode_groups grouped.groups table_meta_for mapper
          (write_u32 lib.unsigned buf (length grouped.groups))
      else err (other "too many op groups than u32::MAX")

  -- The loop over the groups. Left out: `Vec::with_capacity(group_count)`, which panics or aborts before
  -- the loop when the memory for the count cannot be had.
  unfoldable pub decode_groups :
      ℕ
      → List ℕ
      → ℕ
      → List CommitHash
      → (IrPath → Option TableMeta)
      → Parsed (List DecodedOpGroup × ℕ)
  unfolding read_len_prefixed_bytes decode_op_group
  decode_groups zero bytes at hashes table_meta_for = ok ([], at)
  decode_groups (suc group_count) bytes at hashes table_meta_for = do
    (group_blob, at₁) ← read_len_prefixed_bytes bytes at "op group"
    group ← decode_op_group lib group_blob hashes table_meta_for
    (groups, at₂) ← decode_groups group_count bytes at₁ hashes table_meta_for
    ok (group ∷ groups, at₂)

  unfoldable pub decode_commit_body :
      List ℕ → ℕ → List CommitHash → (IrPath → Option TableMeta) → Parsed (List PendingOp × ℕ)
  unfolding decode_groups replay all_used read_len
  decode_commit_body bytes at hashes table_meta_for = do
    (op_kind_blob, at₁) ← read_len_prefixed_bytes bytes at "op kind column"
    op_kinds ← loaded (lib.load_u32 op_kind_blob)
    (table_sequence_blob, at₂) ← read_len_prefixed_bytes bytes at₁ "table sequence column"
    table_sequence ← loaded (lib.load_u32 table_sequence_blob)
    if nat_eq (length table_sequence) (length op_kinds)
        then (do
          (group_count, at₃) ← read_len bytes at₂ "op group count"
          (groups, last) ← decode_groups group_count bytes at₃ hashes table_meta_for
          (pending, group_offsets) ←
              replay groups 0 op_kinds table_sequence (replicate (length groups) 0)
          used ← all_used group_offsets groups
          ok (pending, last))
        else err (data_format_error "table sequence and op_kinds length mismatch")
