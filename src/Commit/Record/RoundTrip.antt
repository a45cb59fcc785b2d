-- ===== src/Commit/Record/RoundTrip.antt =====
-- Lemmas on building and decoding a commit, packages/coln-store/src/commit/mod.rs.
use coln.Prelude.{
  ℕ, suc, ◌^◌, ◌<◌, ◌≤◌, ◌≡◌, refl, ap, subst, Option, some, ◌⊎◌, String, List, [], ◌∷◌, map, arith,
}
use coln.Prelude.Tests.{nat_eq_self}
use coln.Prelude.Lists.{length, get_elem?}
use coln.Value.{TableOid}
use coln.Txn.{PendingOp, resolve, collect_op_hashes}
use coln.Txn.Resolve.{Mentioned, cells, collect_op_hashes_exact}
use coln.Ir.{IrPath}
use coln.Commit.Hash.{CommitHash, hash_size}
use coln.Commit.HashDict
use coln.Commit.HashDict.{HashMapper, hash_at}
use coln.Commit.HashDict.Wire.{Sized}
use coln.Commit.Codec.{ok, ◌>>=◌, ok-injective, ok_of_bind}
use coln.Commit.Chunk.{enclosed, from_parts, new_header, into_parts}
use coln.Commit.Wire.Libraries.{Libraries, Faithful}
use coln.Commit.Wire.Group.{TableMeta}
use coln.Commit.Wire.Body.Groups.{IsCatalog}
use coln.Commit.Wire.Payload.{CommitData, serialize, deserialize}
use coln.Commit.Wire.Payload.RoundTrip.{IsCommitData, deserialize-serialize}
use coln.Commit.Wire.Payload.Parts.{serialize-payload}
use coln.Commit.Record.{
  Commit, from_commit_bytes, from_commit_payload, decode_payload_with_header, from_commit_data,
  from_chunk, resolved_ops,
}

-- The hashes that operations mention are whole.
abbrev pub Whole : List PendingOp → Type 0
Whole ops = (h : CommitHash) → Mentioned h ops → length h ≡ hash_size

Sized-elements :
    (hashes : List CommitHash)
    → ((i : ℕ) (h : CommitHash) → get_elem? hashes i ≡ some h → length h ≡ hash_size)
    → Sized hashes
Sized-elements [] all = tt
Sized-elements (h ∷ hashes) all = (all 0 h refl, Sized-elements hashes (λ i k e. all (suc i) k e))

module _ (lib : Libraries) (faithful : Faithful lib) (blake3 : List ℕ → List ℕ)
    (by_oid : TableOid → Option TableMeta) (by_path : IrPath → Option TableMeta)
    (catalog : IsCatalog by_oid by_path) (contents : CommitData) (good : IsCommitData lib contents)
    (whole : Whole contents.pending) (room : cells contents.pending ≤ 2 ^ 32) where
  abbrev mapper : HashMapper
  mapper = collect_op_hashes contents.pending HashDict.empty

  abbrev pub stored : CommitData
  stored = record contents { other_hashes = mapper.hashes }

  stored-IsCommitData : IsCommitData lib stored
  stored-IsCommitData = record {
    dep_sizes = good.dep_sizes;
    dep_count = good.dep_count;
    time = good.time;
    shown = good.shown;
    cells = good.cells;
    numbered = good.numbered;
    op_count = good.op_count;
  }

  deserialize-stored :
      (bytes : List ℕ)
      → serialize lib stored mapper by_oid ≡ ok bytes
      → length bytes < 2 ^ 59
      → deserialize lib bytes by_path ≡ ok stored
  unfolding hash_at
  deserialize-stored bytes e small =
      let (few, made) = serialize-payload lib stored mapper by_oid bytes e in
      let exact = collect_op_hashes_exact contents.pending room in
      let sizes : Sized mapper.hashes =
        Sized-elements mapper.hashes (λ i h found. whole h (exact.2 h i found)) in
      deserialize-serialize lib faithful mapper (record { consistent = exact.0; count = few }) sizes
        by_oid by_path catalog stored bytes stored-IsCommitData e small

  -- A commit that `from_commit_data` builds is read back whole from its own chunk, and its operations are
  -- those it was built from, resolved against its hash, in their order. The contents are in range, every
  -- hash that they mention is whole, they have at most 2^32 cells, the tables are known by their
  -- positions and their paths alike, and the payload has fewer than 2^59 bytes.
  pub from_chunk-from_commit_data :
      (commit : Commit) {R : Type 0} (from_slice : List ℕ → R ⊎ String)
      (to_vec : R → List ℕ ⊎ String)
      → from_commit_data lib blake3 contents by_oid ≡ ok commit
      → length commit.bytes < 2 ^ 59
      → ((from_parts commit.header commit.bytes >>= λ chunk.
            from_chunk lib blake3 to_vec from_slice chunk by_path)
          ≡ ok commit)
        × (resolved_ops lib blake3 commit by_path
            ≡ ok (map (resolve commit.header.hash) contents.pending))
  unfolding from_commit_data from_chunk resolved_ops from_commit_bytes from_commit_payload
      new_header from_parts enclosed into_parts decode_payload_with_header
  from_chunk-from_commit_data commit from_slice to_vec e small =
      let (bytes, serialized, done) = ok_of_bind (serialize lib stored mapper by_oid) _ commit e in
      let same : from_commit_bytes lib blake3 bytes stored ≡ commit = ok-injective _ _ done in
      let back =
        deserialize-stored bytes serialized
          (omega (arith, small, ap (λ (c : Commit). length c.bytes) same)) in
      subst
        (λ (c : Commit).
          ((from_parts c.header c.bytes >>= λ chunk.
          from_chunk lib blake3 to_vec from_slice chunk by_path)
            ≡ ok c)
          × (resolved_ops lib blake3 c by_path ≡ ok (map (resolve c.header.hash) contents.pending)))
        same (rw (nat_eq_self, back) refl, rw back refl)
