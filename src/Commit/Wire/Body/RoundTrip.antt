-- ===== src/Commit/Wire/Body/RoundTrip.antt =====
-- Lemmas on encoding and decoding a body, packages/coln-store/src/commit/wire/data.rs.
use coln.Prelude.{
  ℕ, suc, ◌+◌, ◌^◌, ◌<◌, ◌≤◌, ◌≡◌, refl, sym, ap, ◌∙◌, subst, inl, inr, Option, List, [], ◌∷◌, ◌++◌,
  append_assoc, arith,
}
use coln.Prelude.Tests.{ltb, Bool-cases, nat_eq, nat_eq_self}
use coln.Prelude.Lists.{length, length-append}
use coln.Value.{TableOid}
use coln.Txn.{PendingOp, add}
use coln.Ir.{IrPath}
use coln.Commit.HashDict.{HashMapper}
use coln.Commit.Codec.{ok}
use coln.Commit.Codec.Reading.{At, At-next, At-fits}
use coln.Commit.Leb128.{write_u32, write_u64}
use coln.Commit.Leb128.Blobs
use coln.Commit.Leb128.Blobs.{blob}
use coln.Commit.Wire.Libraries.{Libraries, Faithful}
use coln.Commit.Wire.Columns.RowRefs.{AllCells, IsUsable}
use coln.Commit.Wire.Group.{TableMeta}
use coln.Commit.Wire.Group.Transpose.{AllTuples, values_of}
use coln.Commit.Wire.Body.{
  OpGroups, push_op, Grouped, group_ops, encode_groups, encode_commit_body, decode_commit_body,
}
use coln.Commit.Wire.Body.Replay.{
  IsNumbered, replay-group_ops, used_none, all_used-used, group_ops-columns,
}
use coln.Commit.Wire.Body.Groups.{IsCatalog, AllGroups, encode_groups-EncodedGroups}

-- Groups of at most `n` operations each, with cells in range.
abbrev Bounded : ℕ → OpGroups → Type 0
Bounded n [] = Unit
Bounded n (group ∷ groups) = AllTuples group.1 × (length group.1 ≤ n) × Bounded n groups

AllTuples_snoc :
    (ops : List PendingOp) (op : PendingOp)
    → AllTuples ops
    → AllCells (values_of op)
    → AllTuples (ops ++ op ∷ [])
AllTuples_snoc [] op all cells = (cells, tt)
AllTuples_snoc (first ∷ ops) op all cells = (all.0, AllTuples_snoc ops op all.1 cells)

Bounded-mono : (n m : ℕ) (groups : OpGroups) → n ≤ m → Bounded n groups → Bounded m groups
Bounded-mono n m [] h b = tt
Bounded-mono n m (group ∷ groups) h b = (b.0, omega (arith, h, b.1), Bounded-mono n m groups h b.2)

push_op-Bounded :
    (n : ℕ) (table : TableOid) (op : PendingOp) (groups : OpGroups)
    → AllCells (values_of op)
    → Bounded n groups
    → Bounded (suc n) (push_op table op groups).0
unfolding push_op
push_op-Bounded n table op [] cells b = ((cells, tt), omega arith, tt)
push_op-Bounded n table op (group ∷ groups) cells b = elim (Bool-cases (nat_eq group.0 table)) [
  | inl same ↦
      rw (same, push_op)
        (
          AllTuples_snoc group.1 op b.0 cells,
          omega (arith, b.1, length-append group.1 (op ∷ [])),
          Bounded-mono n (suc n) groups (omega arith) b.2,
        )
  | inr differ ↦
      rw (differ, push_op) (b.0, omega (arith, b.1), push_op-Bounded n table op groups cells b.2)
]

group_ops-Bounded :
    (n last : ℕ) (ops : List PendingOp) (groups : OpGroups)
    → AllTuples ops
    → n + length ops ≤ last
    → Bounded n groups
    → Bounded last (group_ops ops groups).groups
unfolding group_ops
group_ops-Bounded n last [] groups cells h b = Bounded-mono n last groups (omega (arith, h)) b
group_ops-Bounded n last (add row_id table values ∷ ops) groups cells h b =
    group_ops-Bounded (suc n) last ops (push_op table (add row_id table values) groups).0 cells.1
      (omega (arith, h)) (push_op-Bounded n table (add row_id table values) groups cells.0 b)

Bounded-AllGroups : (n : ℕ) (groups : OpGroups) → n < 2 ^ 64 → Bounded n groups → AllGroups groups
Bounded-AllGroups n [] h b = tt
Bounded-AllGroups n (group ∷ groups) h b =
    (b.0, omega (arith, h, b.1), Bounded-AllGroups n groups h b.2)

module _ (lib : Libraries) (faithful : Faithful lib) (mapper : HashMapper)
    (usable : IsUsable mapper) (by_oid : TableOid → Option TableMeta)
    (by_path : IrPath → Option TableMeta) (catalog : IsCatalog by_oid by_path)
    (pending : List PendingOp) where
  abbrev grouped : Grouped
  grouped = group_ops pending []

  abbrev kinds : List ℕ
  kinds = blob lib.unsigned (lib.save_u32 grouped.op_kinds)

  abbrev sequence : List ℕ
  sequence = blob lib.unsigned (lib.save_u32 grouped.table_sequence)

  abbrev count : List ℕ
  count = lib.unsigned (length grouped.groups)

  -- The parts of a body before its groups.
  encode_commit_body-parts :
      (out : List ℕ)
      → encode_commit_body lib pending by_oid mapper ≡ ok out
      → (length grouped.groups < 2 ^ 32)
        × (encode_groups lib grouped.groups by_oid mapper ((kinds ++ sequence) ++ count) ≡ ok out)
  unfolding encode_commit_body write_u32 write_u64
  encode_commit_body-parts out e = elim (Bool-cases (ltb (length grouped.groups) (2 ^ 32))) [
    | inr many ↦ absurd (ground (arith, e, many))
    | inl few ↦ (
      ground (arith, few),
      subst (λ b. encode_groups lib grouped.groups by_oid mapper (b ++ count) ≡ ok out)
          (Blobs.put_two-blob lib.unsigned (lib.save_u32 grouped.op_kinds)
            (lib.save_u32 grouped.table_sequence))
          (rw (few, encode_commit_body) at e),
    )
  ]

  -- A body that `encode_commit_body` gives, wherever it stands in the bytes, decodes to the operations in
  -- their order, with their tables, cells and row ids; the position after it is its end. The operations
  -- are numbered from 0 and at most 2^32, their numbers have 32 bits, the tables are known by their
  -- positions and their paths alike, the dictionary is consistent, of fewer than 2^32 hashes, and the
  -- body has fewer than 2^59 bytes.
  pub decode-encode_commit_body :
      (out bytes rest : List ℕ) (at : ℕ)
      → AllTuples pending
      → IsNumbered 0 pending
      → length pending ≤ 2 ^ 32
      → encode_commit_body lib pending by_oid mapper ≡ ok out
      → length out < 2 ^ 59
      → length bytes < 2 ^ 64
      → At bytes at (out ++ rest)
      → decode_commit_body lib bytes at mapper.hashes by_path ≡ ok (pending, at + length out)
  unfolding decode_commit_body
  decode-encode_commit_body out bytes rest at cells numbered many e small fit here =
      let (few, groups_e) = encode_commit_body-parts out e in
      let bounded = group_ops-Bounded 0 (length pending) pending [] cells (omega arith) tt in
      let q =
        encode_groups-EncodedGroups lib faithful mapper usable by_oid by_path catalog grouped.groups
          ((kinds ++ sequence) ++ count) out
          (Bounded-AllGroups (length pending) grouped.groups (omega (arith, many)) bounded) groups_e
          small in
      let columns = group_ops-columns pending [] in
      let whole : out ++ rest ≡ kinds ++ (sequence ++ (count ++ (q.tail ++ rest))) =
        ap (λ o. o ++ rest) q.grown ∙ simp append_assoc in
      let at_kinds : At bytes at (kinds ++ (sequence ++ (count ++ (q.tail ++ rest)))) =
        subst (At bytes at) whole here in
      let at_sequence = At-next bytes at kinds (sequence ++ (count ++ (q.tail ++ rest))) at_kinds in
      let at_count =
        At-next bytes (at + length kinds) sequence (count ++ (q.tail ++ rest)) at_sequence in
      let at_groups =
        At-next bytes (at + length kinds + length sequence) count (q.tail ++ rest) at_count in
      let last : at + length kinds + length sequence + length count + length q.tail
          ≡ at + length out =
        omega (arith, At-fits bytes _ q.tail rest at_groups, At-fits bytes at out rest here) in
      rw
        (
          Blobs.read-blob lib.unsigned faithful.writes bytes fit at (lib.save_u32 grouped.op_kinds)
              (sequence ++ (count ++ (q.tail ++ rest))) "op kind column" at_kinds,
          faithful.load_u32_back grouped.op_kinds columns.2,
          Blobs.read-blob lib.unsigned faithful.writes bytes fit (at + length kinds)
              (lib.save_u32 grouped.table_sequence) (count ++ (q.tail ++ rest))
              "table sequence column" at_sequence,
          faithful.load_u32_back grouped.table_sequence columns.1,
          columns.0,
          nat_eq_self (length grouped.op_kinds),
          Blobs.read_number lib.unsigned faithful.writes bytes fit
              (at + length kinds + length sequence) (length grouped.groups) (q.tail ++ rest)
              "op group count" (omega (arith, few)) at_count,
          q.read bytes rest (at + length kinds + length sequence + length count) fit at_groups,
          sym (used_none grouped.groups),
          replay-group_ops pending [] grouped.groups 0 numbered (omega (arith, many)) few refl,
          all_used-used grouped.groups,
          last,
        )
        refl
