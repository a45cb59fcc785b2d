-- ===== src/Examples/StoreExamples.antt =====
-- The theorems on packers, staged operations and the commit graph at concrete inputs.
use coln.Prelude.{
  ℕ, zero, suc, ◌+◌, ◌^◌, ◌≤◌, ◌<◌, ◌≡◌, refl, sym, subst, Option, none, some, List, [], ◌∷◌, ◌++◌,
  Bool, true, false, arith,
}
use coln.Prelude.Lists.{replicate}
use coln.Prelude.Outcome.{returns, ◌>>=◌}
use coln.Prelude.Sets.{member}
use coln.Commit.Hash.{CommitHash, CommitHash-eq}
use coln.Commit.Codec.{ChunkType}
use coln.Commit.HashDict
use coln.Commit.HashDict.{HashMapper, hash_at}
use coln.Commit.HashDict.Consistent.{IsConsistent, empty-IsConsistent}
use coln.Value
use coln.Value.{WireRowId, WireValue, Op}
use coln.Pack
use coln.Pack.{
  IdPacker, PackedOp, PackedRowView, lookup_row_id, pack_op, snapshot, rollback_to, unpack_row_view,
}
use coln.Pack.Interning.{GrowsTo, pack_op-GrowsTo, unpack_row_view-pack_op}
use coln.Pack.Rollback.{pack_ops, rollback_to-pack_ops}
use coln.Txn.{PendingOp, TxnWireRowId, collect_op_hashes}
use coln.Txn.Resolve.{Mentioned, collect_op_hashes_exact}
use coln.Commit.Graph
use coln.Commit.Graph.{Commit}
use coln.Commit.Graph.Tips.{IsWellFormed, new-IsWellFormed, add_commit-IsWellFormed, add_commits}
use coln.Examples.CommitExamples.{hash_a, hash_b}

abbrev row_a : WireRowId
row_a = record { commit = hash_a; counter = 3 }

abbrev row_b : WireRowId
row_b = record { commit = hash_b; counter = 4 }

abbrev cells_b : List WireValue
cells_b = Value.id row_b ∷ Value.str "name" ∷ []

abbrev packed_a : IdPacker
packed_a = (pack_op Pack.new (Op.add row_a 2 cells_b)).0

packed_a-GrowsTo : GrowsTo Pack.new packed_a 3
packed_a-GrowsTo = pack_op-GrowsTo Pack.new row_a 2 cells_b empty-IsConsistent (omega arith)

abbrev hash_c : CommitHash
hash_c = replicate 32 11

-- The packer after one more operation, of a third commit.
abbrev row_c : WireRowId
row_c = record { commit = hash_c; counter = 0 }

abbrev later : IdPacker
later = (pack_op packed_a (Op.add row_c 2 [])).0

unpack_row_view-pack_op_example :
    (view : PackedRowView) × ((pack_op Pack.new (Op.add row_a 2 cells_b)).1
      ≡ PackedOp.add view.row_id view.values)
    × (unpack_row_view later view ≡ returns (record { row_id = row_a; values = cells_b }))
unpack_row_view-pack_op_example =
    unpack_row_view-pack_op Pack.new row_a 2 cells_b empty-IsConsistent (omega arith) later 1 (
      pack_op-GrowsTo packed_a row_c 2 [] packed_a-GrowsTo.consistent
        (omega (arith, packed_a-GrowsTo.bounded)))

rollback_to-pack_ops_example :
    (r : IdPacker) × ((snapshot Pack.new >>= λ s.
    rollback_to (pack_ops s (Op.add row_a 2 cells_b ∷ [])))
      ≡ returns r)
    × (r.dict.hashes ≡ [])
    × (r.snapshot_len ≡ none)
    × IsConsistent r.dict
    × ((row : WireRowId) → lookup_row_id r row ≡ lookup_row_id Pack.new row)
rollback_to-pack_ops_example =
    rollback_to-pack_ops Pack.new (Op.add row_a 2 cells_b ∷ []) empty-IsConsistent refl
      (omega arith)

abbrev staged : List PendingOp
staged =
    PendingOp.add 0 2
      (Value.id (TxnWireRowId.existing row_b) ∷ Value.id (TxnWireRowId.pending 0) ∷ [])
    ∷ []

collect_op_hashes_exact_example :
    IsConsistent (collect_op_hashes staged HashDict.empty)
    × ((h : CommitHash)
        → Mentioned h staged
        → (i : ℕ) × (hash_at (collect_op_hashes staged HashDict.empty) i ≡ some h))
    × ((h : CommitHash) (i : ℕ)
        → hash_at (collect_op_hashes staged HashDict.empty) i ≡ some h
        → Mentioned h staged)
collect_op_hashes_exact_example = collect_op_hashes_exact staged (omega arith)

abbrev root_commit : Commit
root_commit = record {
  header = record {
    chunk_type = ChunkType.root;
    data_len = 0;
    stored_checksum = [];
    hash = hash_a;
  };
  deps = [];
}

abbrev child_commit : Commit
child_commit = record {
  header = record {
    chunk_type = ChunkType.commit;
    data_len = 0;
    stored_checksum = [];
    hash = hash_b;
  };
  deps = hash_a ∷ [];
}

only_head : (add_commits Graph.new (root_commit ∷ child_commit ∷ [])).heads ≡ hash_b ∷ []
unfolding Graph.add_commit coln.Prelude.Maps.get Graph.new coln.Prelude.Maps.insert
    coln.Prelude.Sets.set_insert Graph.remove_deps coln.Prelude.Sets.set_remove
only_head = refl

in_order :
    Graph.iter_topological (add_commits Graph.new (root_commit ∷ child_commit ∷ []))
    ≡ returns (root_commit ∷ child_commit ∷ [])
unfolding Graph.add_commit Graph.iter_topological coln.Prelude.Maps.get Graph.new
    coln.Prelude.Maps.insert coln.Prelude.Sets.set_insert Graph.link_deps
in_order = refl

root_graph-IsWellFormed : IsWellFormed (Graph.add_commit Graph.new root_commit)
unfolding member
root_graph-IsWellFormed =
    add_commit-IsWellFormed Graph.new root_commit new-IsWellFormed
      (λ d m. absurd (ground (arith, m)))

root_known :
    (d : CommitHash)
    → member d (hash_a ∷ []) ≡ true
    → Graph.contains (Graph.add_commit Graph.new root_commit) d ≡ true
unfolding member Graph.add_commit Graph.contains Graph.new coln.Prelude.Maps.get
    coln.Prelude.Maps.insert
root_known d m =
    let e : d ≡ hash_a = (CommitHash-eq.equals_iff d hash_a).0 (ground (arith, m)) in
    subst (λ x. Graph.contains (Graph.add_commit Graph.new root_commit) x ≡ true) (sym e) refl

add_commit-IsWellFormed_example :
    IsWellFormed (Graph.add_commit (Graph.add_commit Graph.new root_commit) child_commit)
add_commit-IsWellFormed_example =
    add_commit-IsWellFormed (Graph.add_commit Graph.new root_commit) child_commit
      root_graph-IsWellFormed root_known

-- A commit that names its parent twice never becomes ready.
abbrev twice_commit : Commit
twice_commit = record {
  header = record {
    chunk_type = ChunkType.commit;
    data_len = 0;
    stored_checksum = [];
    hash = hash_b;
  };
  deps = hash_a ∷ hash_a ∷ [];
}

left_out :
    Graph.iter_topological (add_commits Graph.new (root_commit ∷ twice_commit ∷ []))
    ≡ returns (root_commit ∷ [])
unfolding Graph.add_commit Graph.iter_topological coln.Prelude.Maps.get Graph.new
    coln.Prelude.Maps.insert coln.Prelude.Sets.set_insert Graph.link_deps
left_out = refl
