-- ===== src/Pack/Interning.antt =====
-- Lemmas on packing and unpacking, packages/coln-store/src/pack/id_packer.rs and table/handle.rs.
use coln.Prelude.{ℕ, suc, ◌+◌, ◌^◌, ◌<◌, ◌≤◌, ◌≡◌, refl, sym, ap, ◌∙◌, some, List, [], ◌∷◌, arith}
use coln.Prelude.Lists.{length, take, take_all, take-take}
use coln.Prelude.Outcome.{returns}
use coln.Commit.Hash.{CommitHash}
use coln.Commit.HashDict
use coln.Commit.HashDict.Consistent
use coln.Commit.HashDict.Consistent.{IsConsistent}
use coln.Value.{id, int, str, WireRowId, WireValue, Op, TableOid}
use coln.Pack.{
  IdPacker, PackedRowView, unpack_values, unpack_row_view, pack_row_id, lookup_row_id,
  unpack_row_id, pack_value, unpack_value, pack_values, pack_op, add,
}

-- `p'` comes from `p` by interning at most `n` hashes.
pub record GrowsTo (p p' : IdPacker) (n : ℕ) : Type 0 where
  pub consistent : IsConsistent p'.dict
  pub keeps :
      (i : ℕ) (h : CommitHash)
      → HashDict.hash_at p.dict i ≡ some h
      → HashDict.hash_at p'.dict i ≡ some h
  pub prefix : take (length p.dict.hashes) p'.dict.hashes ≡ p.dict.hashes
  pub longer : length p.dict.hashes ≤ length p'.dict.hashes
  pub bounded : length p'.dict.hashes ≤ length p.dict.hashes + n
  pub same_snapshot : p'.snapshot_len ≡ p.snapshot_len

pub GrowsTo-refl : (p : IdPacker) (n : ℕ) → IsConsistent p.dict → GrowsTo p p n
GrowsTo-refl p n c = record {
  consistent = c;
  keeps = λ i h e. e;
  prefix = take_all p.dict.hashes;
  longer = omega arith;
  bounded = omega arith;
  same_snapshot = refl;
}

pub GrowsTo-trans :
    (p q r : IdPacker) (m n : ℕ) → GrowsTo p q m → GrowsTo q r n → GrowsTo p r (m + n)
GrowsTo-trans p q r m n f g = record {
  consistent = g.consistent;
  keeps = λ i h e. g.keeps i h (f.keeps i h e);
  prefix =
      sym (take-take (length p.dict.hashes) (length q.dict.hashes) r.dict.hashes f.longer)
      ∙ ap (take (length p.dict.hashes)) g.prefix
      ∙ f.prefix;
  longer = omega (arith, f.longer, g.longer);
  bounded = omega (arith, f.bounded, g.bounded);
  same_snapshot = g.same_snapshot ∙ f.same_snapshot;
}

pub pack_row_id-GrowsTo :
    (p : IdPacker) (row : WireRowId)
    → IsConsistent p.dict
    → length p.dict.hashes < 2 ^ 32
    → GrowsTo p (pack_row_id p row).0 1
unfolding pack_row_id
pack_row_id-GrowsTo p row c small = record {
  consistent = Consistent.insert-IsConsistent p.dict c row.commit small;
  keeps = Consistent.insert_keeps p.dict c row.commit;
  prefix = Consistent.insert_prefix p.dict c row.commit;
  longer = (Consistent.length-insert p.dict c row.commit).0;
  bounded = (Consistent.length-insert p.dict c row.commit).1;
  same_snapshot = refl;
}

pub unpack_row_id-pack_row_id :
    (p q : IdPacker) (row : WireRowId) (n : ℕ)
    → IsConsistent p.dict
    → length p.dict.hashes < 2 ^ 32
    → GrowsTo (pack_row_id p row).0 q n
    → unpack_row_id q (pack_row_id p row).1 ≡ returns row
unfolding unpack_row_id pack_row_id
unpack_row_id-pack_row_id p q row n c small g =
    rw (g.keeps _ row.commit (Consistent.hash_at-insert p.dict c row.commit small))

-- What a consistent packer packed is found without interning.
pub lookup_row_id-pack_row_id :
    (p : IdPacker) (row : WireRowId)
    → IsConsistent p.dict
    → lookup_row_id (pack_row_id p row).0 row ≡ some (pack_row_id p row).1
unfolding lookup_row_id pack_row_id
lookup_row_id-pack_row_id p row c = rw (Consistent.index-insert p.dict c row.commit, lookup_row_id)

pub pack_value-GrowsTo :
    (p : IdPacker) (v : WireValue)
    → IsConsistent p.dict
    → length p.dict.hashes < 2 ^ 32
    → GrowsTo p (pack_value p v).0 1
unfolding pack_value
pack_value-GrowsTo p (id row) c small = pack_row_id-GrowsTo p row c small
pack_value-GrowsTo p (int i) c small = GrowsTo-refl p 1 c
pack_value-GrowsTo p (str s) c small = GrowsTo-refl p 1 c

unpack_value-pack_value :
    (p q : IdPacker) (v : WireValue) (n : ℕ)
    → IsConsistent p.dict
    → length p.dict.hashes < 2 ^ 32
    → GrowsTo (pack_value p v).0 q n
    → unpack_value q (pack_value p v).1 ≡ returns v
unfolding pack_value unpack_value
unpack_value-pack_value p q (id row) n c small g =
    rw (unpack_row_id-pack_row_id p q row n c small g)
unpack_value-pack_value p q (int i) n c small g = refl
unpack_value-pack_value p q (str s) n c small g = refl

pub pack_values-GrowsTo :
    (p : IdPacker) (vs : List WireValue)
    → IsConsistent p.dict
    → length p.dict.hashes + length vs ≤ 2 ^ 32
    → GrowsTo p (pack_values p vs).0 (length vs)
unfolding pack_values
pack_values-GrowsTo p [] c small = GrowsTo-refl p 0 c
pack_values-GrowsTo p (v ∷ vs) c small =
    let first = pack_value-GrowsTo p v c (omega arith) in
    let rest =
      pack_values-GrowsTo (pack_value p v).0 vs first.consistent (omega (arith, first.bounded)) in
    rw one_more (GrowsTo-trans p (pack_value p v).0 _ 1 (length vs) first rest)
  where
    one_more : suc (length vs) ≡ 1 + length vs
    one_more = omega arith

pub unpack_values-pack_values :
    (p q : IdPacker) (vs : List WireValue) (n : ℕ)
    → IsConsistent p.dict
    → length p.dict.hashes + length vs ≤ 2 ^ 32
    → GrowsTo (pack_values p vs).0 q n
    → unpack_values q (pack_values p vs).1 ≡ returns vs
unfolding pack_values unpack_values
unpack_values-pack_values p q [] n c small g = refl
unpack_values-pack_values p q (v ∷ vs) n c small g =
    let p' = (pack_value p v).0 in
    let first = pack_value-GrowsTo p v c (omega arith) in
    let room : length p'.dict.hashes + length vs ≤ 2 ^ 32 = omega (arith, first.bounded) in
    let rest = pack_values-GrowsTo p' vs first.consistent room in
    let later = GrowsTo-trans p' (pack_values p' vs).0 q (length vs) n rest g in
    rw (
      unpack_value-pack_value p q v (length vs + n) c (omega arith) later,
      unpack_values-pack_values p' q vs n first.consistent room g,
    )

module _ (p : IdPacker) (row : WireRowId) (table : TableOid) (values : List WireValue)
    (c : IsConsistent p.dict) (room : length p.dict.hashes + 1 + length values ≤ 2 ^ 32) where
  abbrev after_row : IdPacker
  after_row = (pack_row_id p row).0

  row_GrowsTo : GrowsTo p after_row 1
  row_GrowsTo = pack_row_id-GrowsTo p row c (omega arith)

  values_room : length after_row.dict.hashes + length values ≤ 2 ^ 32
  values_room = omega (arith, row_GrowsTo.bounded)

  pub pack_op-GrowsTo : GrowsTo p (pack_op p (Op.add row table values)).0 (1 + length values)
  unfolding pack_op
  pack_op-GrowsTo =
      GrowsTo-trans p after_row _ 1 (length values) row_GrowsTo
        (pack_values-GrowsTo after_row values row_GrowsTo.consistent values_room)

  -- From a consistent packer whose hashes, with the row id and the cells of an `Op::Add`, number at
  -- most 2^32: the packed operation is an `add` of a packed row that unpacks to the row id and the
  -- cells of the operation, in the packer that packing leaves and in every packer that grew from
  -- that one by interning (`GrowsTo`).
  pub unpack_row_view-pack_op :
      (q : IdPacker) (n : ℕ)
      → GrowsTo (pack_op p (Op.add row table values)).0 q n
      → (view : PackedRowView) × ((pack_op p (Op.add row table values)).1
          ≡ add view.row_id view.values)
        × (unpack_row_view q view ≡ returns (record { row_id = row; values = values }))
  unfolding pack_op unpack_row_view
  unpack_row_view-pack_op q n g =
      let packed_cells = pack_values after_row values in
      let rest = pack_values-GrowsTo after_row values row_GrowsTo.consistent values_room in
      let later = GrowsTo-trans after_row packed_cells.0 q (length values) n rest g in
      (
        record { row_id = (pack_row_id p row).1; values = packed_cells.1 },
        refl,
        rw (
          unpack_row_id-pack_row_id p q row (length values + n) c (omega arith) later,
          unpack_values-pack_values after_row q values n row_GrowsTo.consistent values_room g,
        ),
      )
