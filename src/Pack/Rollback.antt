-- ===== src/Pack/Rollback.antt =====
-- Lemmas on the snapshots of the packer, the `Rollback` implementation of
-- packages/coln-store/src/pack/id_packer.rs.
use coln.Prelude.{
  ℕ, ◌+◌, ◌^◌, ◌≤◌, ◌≡◌, refl, sym, ap, ◌∙◌, inl, inr, none, some, List, [], ◌∷◌, arith,
}
use coln.Prelude.Tests.{Option-cases}
use coln.Prelude.Lists.{length, get_elem?}
use coln.Prelude.Maps
use coln.Prelude.Outcome.{returns, ◌>>=◌}
use coln.Commit.Hash.{CommitHash, CommitHash-eq}
use coln.Commit.HashDict
use coln.Commit.HashDict.{HashMapper}
use coln.Commit.HashDict.Consistent.{IsConsistent}
use coln.Commit.HashDict.Truncate.{truncate-IsConsistent}
use coln.Value.{WireRowId, Op}
use coln.Pack.{IdPacker, pack_op, lookup_row_id, snapshot, commit, rollback_to, len}
use coln.Pack.Interning.{GrowsTo, GrowsTo-refl, GrowsTo-trans, pack_op-GrowsTo}

-- Operations packed one after the other, as an update of the store packs them.
unfoldable pub pack_ops : IdPacker → List Op → IdPacker
pack_ops p [] = p
pack_ops p (op ∷ ops) = pack_ops (pack_op p op).0 ops

-- The row ids and the cells of operations: as many hashes as packing can intern.
abbrev pub ids : List Op → ℕ
ids [] = 0
ids (Op.add row table values ∷ ops) = (1 + length values) + ids ops

pub pack_ops-GrowsTo :
    (p : IdPacker) (ops : List Op)
    → IsConsistent p.dict
    → length p.dict.hashes + ids ops ≤ 2 ^ 32
    → GrowsTo p (pack_ops p ops) (ids ops)
unfolding pack_ops
pack_ops-GrowsTo p [] c room = GrowsTo-refl p 0 c
pack_ops-GrowsTo p (Op.add row table values ∷ ops) c room =
    let p' = (pack_op p (Op.add row table values)).0 in
    let first = pack_op-GrowsTo p row table values c (omega arith) in
    GrowsTo-trans p p' _ (1 + length values) (ids ops) first
      (pack_ops-GrowsTo p' ops first.consistent (omega (arith, first.bounded)))

-- The vector of a consistent dictionary determines what the reverse map answers.
get-of_hashes :
    (d d' : HashMapper) (h : CommitHash)
    → IsConsistent d
    → IsConsistent d'
    → d.hashes ≡ d'.hashes
    → Maps.get h d.indexes ≡ Maps.get h d'.indexes
get-of_hashes d d' h c c' e = elim (Option-cases (Maps.get h d.indexes)) [
  | inl (i, found) ↦
      found ∙ sym (c'.recorded h i (ap (λ l. get_elem? l i) (sym e) ∙ c.located h i found))
  | inr missing ↦ elim (Option-cases (Maps.get h d'.indexes)) [
    | inl (i, found) ↦ c.recorded h i (ap (λ l. get_elem? l i) e ∙ c'.located h i found) ∙ sym found
    | inr also ↦ missing ∙ sym also
  ]
]

lookup-of_hashes :
    (p q : IdPacker) (row : WireRowId)
    → IsConsistent p.dict
    → IsConsistent q.dict
    → p.dict.hashes ≡ q.dict.hashes
    → lookup_row_id p row ≡ lookup_row_id q row
unfolding lookup_row_id HashDict.index
lookup-of_hashes p q row c c' e = rw (get-of_hashes p.dict q.dict row.commit c c' e, lookup_row_id)

module _ (p : IdPacker) (ops : List Op) (c : IsConsistent p.dict) (idle : p.snapshot_len ≡ none)
    (room : length p.dict.hashes + ids ops ≤ 2 ^ 32) where
  abbrev opened : IdPacker
  opened = record p { snapshot_len = some (length p.dict.hashes) }

  snapshot-opened : snapshot p ≡ returns opened
  unfolding snapshot len
  snapshot-opened = rw (idle, snapshot)

  packed-GrowsTo : GrowsTo opened (pack_ops opened ops) (ids ops)
  packed-GrowsTo = pack_ops-GrowsTo opened ops c room

  -- From an idle consistent packer, with operations whose row ids and cells, together with the hashes
  -- of the packer, number at most 2^32: a snapshot, the operations packed, and a rollback do not
  -- panic. The packer is idle again, has the dictionary's old hashes, and finds exactly the row ids that it
  -- found before, under the same packed ids.
  pub rollback_to-pack_ops :
      (r : IdPacker) × ((snapshot p >>= λ s. rollback_to (pack_ops s ops)) ≡ returns r)
      × (r.dict.hashes ≡ p.dict.hashes)
      × (r.snapshot_len ≡ none)
      × IsConsistent r.dict
      × ((row : WireRowId) → lookup_row_id r row ≡ lookup_row_id p row)
  unfolding rollback_to
  rollback_to-pack_ops =
      let q = pack_ops opened ops in
      let g = packed-GrowsTo in
      let (t, done, kept, ct) =
        truncate-IsConsistent q.dict g.consistent (length p.dict.hashes) g.longer in
      let same : t.hashes ≡ p.dict.hashes = kept ∙ g.prefix in
      let r : IdPacker = record { dict = t; snapshot_len = none } in
      (
        r,
        rw snapshot-opened (rw g.same_snapshot (rw done)),
        same,
        refl,
        ct,
        λ row. lookup-of_hashes r p row ct c same,
      )

  -- Under the same conditions, a commit in place of the rollback keeps the dictionary that packing left.
  pub commit-pack_ops :
      (r : IdPacker) × ((snapshot p >>= λ s. commit (pack_ops s ops)) ≡ returns r)
      × (r.dict ≡ (pack_ops opened ops).dict)
      × (r.snapshot_len ≡ none)
  unfolding commit
  commit-pack_ops = (
    record (pack_ops opened ops) { snapshot_len = none },
    rw snapshot-opened (rw (packed-GrowsTo.same_snapshot)),
    refl,
    refl,
  )
