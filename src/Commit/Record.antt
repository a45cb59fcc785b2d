-- ===== src/Commit/Record.antt =====
-- The commit with its payload, packages/coln-store/src/commit/mod.rs. The JSON of a root payload is a
-- parameter.
pub mod RoundTrip
use coln.Prelude.{
  ℕ, Option, none, some, ◌⊎◌, inl, inr, String, List, [], ◌∷◌, Bool, true, false, map,
}
use coln.Prelude.Int.{ℤ, pos}
use coln.Prelude.Tests.{if◌then◌else◌}
use coln.Prelude.Lists.{length, replicate}
use coln.Value.{TableOid, Op}
use coln.Txn.{PendingOp, resolve, collect_op_hashes}
use coln.Ir.{IrPath}
use coln.Commit.Hash.{CommitHash}
use coln.Commit.HashDict
use coln.Commit.Codec.{ChunkType, Parsed, ok, err, ◌>>=◌, header_error, chunk_mismatch}
use coln.Commit.Chunk.{Header, Chunk, new_header, into_parts}
use coln.Commit.Wire.Libraries.{Libraries}
use coln.Commit.Wire.Group.{TableMeta}
use coln.Commit.Wire.Payload.{Author, CommitData, serialize, deserialize}

pub record Commit : Type 0 where
  pub bytes : List ℕ
  pub header : Header
  pub author : Author
  pub other_hashes : List CommitHash
  pub deps : List CommitHash
  pub timestamp : ℤ
  pub message : Option String
  pub num_ops : ℕ

-- The author of root commits, `Author::foo`.
abbrev pub foo : Author
foo = replicate 32 0

unfoldable pub from_root_payload : Header → List ℕ → Commit
from_root_payload header bytes = record {
  bytes = bytes;
  header = header;
  author = foo;
  other_hashes = [];
  deps = [];
  timestamp = pos 0;
  message = none;
  num_ops = 0;
}

unfoldable pub from_commit_payload : Header → List ℕ → CommitData → Commit
from_commit_payload header bytes contents = record {
  bytes = bytes;
  header = header;
  author = contents.author;
  other_hashes = contents.other_hashes;
  deps = contents.deps;
  timestamp = contents.timestamp;
  message = contents.message;
  num_ops = length contents.pending;
}

unfoldable pub is_root : Commit → Bool
is_root commit = elim commit.header.chunk_type [ ChunkType.root ↦ true | ChunkType.commit ↦ false ]

-- `serialize_root` and `deserialize_root`, which go through JSON.
unfoldable pub from_json {ℓ} : {A : Type ℓ} → A ⊎ String → Parsed A
from_json (inl value) = ok value
from_json (inr message) = err (header_error message)

module _ (lib : Libraries) (blake3 : List ℕ → List ℕ) where
  unfoldable pub from_root_bytes : List ℕ → Commit
  unfolding from_root_payload new_header
  from_root_bytes bytes = from_root_payload (new_header blake3 ChunkType.root bytes) bytes

  unfoldable pub from_commit_bytes : List ℕ → CommitData → Commit
  unfolding from_commit_payload new_header
  from_commit_bytes bytes contents =
      from_commit_payload (new_header blake3 ChunkType.commit bytes) bytes contents

  unfoldable pub from_commit_data : CommitData → (TableOid → Option TableMeta) → Parsed Commit
  unfolding collect_op_hashes serialize from_commit_bytes
  from_commit_data contents table_meta_for =
      let hash_mapper = collect_op_hashes contents.pending HashDict.empty in
      let contents' : CommitData = record contents { other_hashes = hash_mapper.hashes } in
      do
        bytes ← serialize lib contents' hash_mapper table_meta_for
        ok (from_commit_bytes bytes contents')

  module _ {R : Type 0} (to_vec : R → List ℕ ⊎ String) (from_slice : List ℕ → R ⊎ String) where
    unfoldable pub from_root_data : R → Parsed Commit
    unfolding from_json from_root_bytes
    from_root_data root = do bytes ← from_json (to_vec root); ok (from_root_bytes bytes)

    unfoldable pub decode_payload_with_header :
        Header → List ℕ → (IrPath → Option TableMeta) → Parsed Commit
    unfolding from_json from_root_payload deserialize from_commit_payload
    decode_payload_with_header header bytes table_meta_for = elim header.chunk_type [
      | ChunkType.root ↦ (do
        root ← from_json (from_slice bytes)
        ok (from_root_payload header bytes))
      | ChunkType.commit ↦ (do
        contents ← deserialize lib bytes table_meta_for
        ok (from_commit_payload header bytes contents))
    ]

    unfoldable pub from_chunk : Chunk → (IrPath → Option TableMeta) → Parsed Commit
    unfolding into_parts decode_payload_with_header
    from_chunk chunk table_meta_for =
        let (header, bytes) = into_parts chunk in
        decode_payload_with_header header bytes table_meta_for

    unfoldable pub root_payload : Commit → Parsed R
    unfolding is_root from_json
    root_payload commit =
        if is_root commit
        then from_json (from_slice commit.bytes)
        else err (chunk_mismatch ChunkType.root commit.header.chunk_type)

  -- Its operations, with row ids of the commit.
  unfoldable pub resolved_ops : Commit → (IrPath → Option TableMeta) → Parsed (List Op)
  unfolding is_root deserialize resolve
  resolved_ops commit table_meta_for = if is_root commit then ok [] else (do
    contents ← deserialize lib commit.bytes table_meta_for
    ok (map (resolve commit.header.hash) contents.pending))
