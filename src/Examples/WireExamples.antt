-- ===== src/Examples/WireExamples.antt =====
-- The wire format's theorems at concrete inputs.
use coln.Prelude.{
  ℕ, zero, suc, ◌+◌, ◌^◌, ◌<◌, ◌≤◌, ◌≡◌, refl, sym, ap, ◌∙◌, subst, inl, inr, Option, some, none,
  ◌⊎◌, String, List, [], ◌∷◌, ◌++◌, map, append-nil, arith,
}
use coln.Prelude.Int.{pos, negsuc}
use coln.Prelude.Tests.{String-eq}
use coln.Prelude.Lists.{length}
use coln.Value.{id}
use coln.Txn.{TxnWireValue, existing, pending, resolve}
use coln.Ir.{ColType}
use coln.Commit.HashDict
use coln.Commit.HashDict.{HashMapper}
use coln.Commit.Codec.{Parsed, ok, err, crash, ◌>>=◌}
use coln.Commit.Codec.Reading.{At, At-start}
use coln.Commit.Chunk.{from_parts}
use coln.Commit.Leb128.{read_i64, read_u64}
use coln.Commit.Leb128.Format.{IsUnsigned}
use coln.Commit.Leb128.Canonical.{read_u64-IsUnsigned}
use coln.Commit.Leb128.SignedLoop.{read_i64-signed}
use coln.Commit.Wire.Columns.{encode_txn_value_column, decode_txn_value_column}
use coln.Commit.Wire.Columns.Prims.{decode-encode_value_column}
use coln.Commit.Wire.Group.{encode_op_group, decode_op_group}
use coln.Commit.Wire.Group.RoundTrip.{decode-encode_op_group}
use coln.Commit.Wire.Body.{encode_commit_body, decode_commit_body}
use coln.Commit.Wire.Body.RoundTrip.{decode-encode_commit_body}
use coln.Commit.Wire.Payload.{CommitData, serialize, deserialize}
use coln.Commit.Wire.Payload.RoundTrip.{IsCommitData, deserialize-serialize}
use coln.Commit.Graph
use coln.Commit.Codec.{ChunkType}
use coln.Store.{applied, collect_pending}
use coln.Store.Collect.{AreNews, AllFound, collect_pending_lem}
use coln.Commit.Record.{Commit, from_root_bytes, from_commit_data, from_chunk, resolved_ops}
use coln.Commit.Record.RoundTrip.{Whole, from_chunk-from_commit_data}
use coln.Examples.Samples.{sample_hash}
use coln.Examples.WireSamples.{sample_libraries, sample_libraries-Faithful}
use coln.Examples.WirePoints.{
  value_or, points, by_oid, by_path, points-IsCatalog, earlier, first_cells, second_cells,
  two_points, dictionary, dictionary-IsUsable, two_points-cells, two_points-IsNumbered,
}

-- -70 needs two bytes, and its sign is in the second.
read_i64-signed_example :
    read_i64 (sample_libraries.signed (negsuc 69)) 0 "timestamp" ≡ ok (negsuc 69, 2)
unfolding coln.Examples.WireSamples.signed_groups
read_i64-signed_example =
    read_i64-signed sample_libraries.signed sample_libraries-Faithful.writes_signed
      (sample_libraries.signed (negsuc 69)) [] 0 (negsuc 69) "timestamp" (omega arith) (omega arith)
      (At-start _)

-- The references of the two rows.
abbrev references : List TxnWireValue
references = id (existing (record { commit = earlier; counter = 3 })) ∷ id (pending 0) ∷ []

abbrev reference_column : List ℕ
reference_column =
    value_or []
      (encode_txn_value_column sample_libraries references (ColType.row_id "T") dictionary)

reference_column_e :
    encode_txn_value_column sample_libraries references (ColType.row_id "T") dictionary
    ≡ ok reference_column
unfolding encode_txn_value_column coln.Prelude.Maps.get
reference_column_e = refl

reference_column-short : length reference_column < 2 ^ 59
unfolding encode_txn_value_column coln.Prelude.Maps.get coln.Commit.Leb128.write_len_prefixed_bytes
    coln.Examples.Samples.write_groups
reference_column-short = omega arith

decode-encode_value_column_example :
    decode_txn_value_column sample_libraries reference_column (ColType.row_id "T") dictionary.hashes
    ≡ ok references
decode-encode_value_column_example =
    decode-encode_value_column sample_libraries sample_libraries-Faithful dictionary
      dictionary-IsUsable references (ColType.row_id "T") reference_column
      (omega arith, (omega arith, tt)) reference_column_e reference_column-short

abbrev point_group : List ℕ
point_group =
    value_or [] (encode_op_group sample_libraries "T" 0 points.schema two_points dictionary)

point_group_e :
    encode_op_group sample_libraries "T" 0 points.schema two_points dictionary ≡ ok point_group
unfolding encode_op_group coln.Prelude.Maps.get
point_group_e = refl

point_group-short : length point_group < 2 ^ 59
unfolding encode_op_group coln.Prelude.Maps.get coln.Examples.Samples.write_groups
    coln.Examples.WireSamples.signed_groups
point_group-short = omega arith

decode-encode_op_group_example :
    decode_op_group sample_libraries point_group dictionary.hashes by_path
    ≡ ok (record { table = 0; rows = first_cells ∷ second_cells ∷ [] })
decode-encode_op_group_example =
    decode-encode_op_group sample_libraries sample_libraries-Faithful dictionary dictionary-IsUsable
      "T" 0 points.schema two_points point_group by_path two_points-cells (omega arith)
      (omega arith) refl point_group_e point_group-short

abbrev point_body : List ℕ
point_body = value_or [] (encode_commit_body sample_libraries two_points by_oid dictionary)

point_body_e : encode_commit_body sample_libraries two_points by_oid dictionary ≡ ok point_body
unfolding encode_commit_body coln.Prelude.Maps.get
point_body_e = refl

point_body-short : length point_body < 2 ^ 59
unfolding encode_commit_body coln.Prelude.Maps.get coln.Examples.Samples.write_groups
    coln.Examples.WireSamples.signed_groups coln.Commit.Leb128.write_len_prefixed_bytes
    coln.Commit.Leb128.write_len coln.Commit.Leb128.write_u32 coln.Commit.Wire.Body.group_ops
    coln.Commit.Wire.PrimValue.encode_path
point_body-short = omega arith

decode-encode_commit_body_example :
    decode_commit_body sample_libraries point_body 0 dictionary.hashes by_path
    ≡ ok (two_points, length point_body)
unfolding encode_commit_body coln.Prelude.Maps.get coln.Examples.Samples.write_groups
    coln.Examples.WireSamples.signed_groups
decode-encode_commit_body_example =
    decode-encode_commit_body sample_libraries sample_libraries-Faithful dictionary
      dictionary-IsUsable by_oid by_path points-IsCatalog two_points point_body point_body [] 0
      two_points-cells two_points-IsNumbered (omega arith) point_body_e point_body-short
      (omega (arith, point_body-short))
      (subst (λ (b : List ℕ). At point_body 0 b) (sym (append-nil point_body))
        (At-start point_body))

abbrev contents : CommitData
contents = record {
  author = 65 ∷ 66 ∷ [];
  deps = earlier ∷ [];
  other_hashes = earlier ∷ [];
  timestamp = negsuc 69;
  message = some "two";
  pending = two_points;
  extra_bytes = 9 ∷ [];
}

contents-IsCommitData : IsCommitData sample_libraries contents
contents-IsCommitData = record {
  dep_sizes = (refl, tt);
  dep_count = omega arith;
  time = omega arith;
  shown = omega arith;
  cells = two_points-cells;
  numbered = two_points-IsNumbered;
  op_count = omega arith;
}

abbrev point_payload : List ℕ
point_payload = value_or [] (serialize sample_libraries contents dictionary by_oid)

point_payload_e : serialize sample_libraries contents dictionary by_oid ≡ ok point_payload
unfolding serialize coln.Prelude.Maps.get
point_payload_e = refl

point_payload-short : length point_payload < 2 ^ 59
unfolding serialize coln.Prelude.Maps.get coln.Examples.Samples.write_groups
    coln.Examples.WireSamples.signed_groups coln.Commit.Leb128.write_len_prefixed_bytes
    coln.Commit.Leb128.write_len coln.Commit.Leb128.write_u32 coln.Commit.Wire.Body.group_ops
    coln.Commit.Wire.PrimValue.encode_path
point_payload-short = omega arith

deserialize-serialize_example : deserialize sample_libraries point_payload by_path ≡ ok contents
deserialize-serialize_example =
    deserialize-serialize sample_libraries sample_libraries-Faithful dictionary dictionary-IsUsable
      (refl, tt) by_oid by_path points-IsCatalog contents point_payload contents-IsCommitData
      point_payload_e point_payload-short

-- No root is encoded here.
abbrev to_vec : ℕ → List ℕ ⊎ String
to_vec n = inl (n ∷ [])

abbrev from_slice : List ℕ → ℕ ⊎ String
from_slice (n ∷ []) = inl n
from_slice bytes = inr "trailing characters"

abbrev point_commit : Commit
point_commit =
    value_or (from_root_bytes sample_libraries sample_hash [])
      (from_commit_data sample_libraries sample_hash contents by_oid)

point_commit_e : from_commit_data sample_libraries sample_hash contents by_oid ≡ ok point_commit
unfolding from_commit_data HashDict.insert coln.Prelude.Maps.get coln.Prelude.Maps.insert
point_commit_e = refl

point_commit-short : length point_commit.bytes < 2 ^ 59
unfolding from_commit_data HashDict.insert coln.Prelude.Maps.insert coln.Prelude.Maps.get
    coln.Examples.Samples.write_groups coln.Examples.WireSamples.signed_groups
    coln.Commit.Leb128.write_len_prefixed_bytes coln.Commit.Leb128.write_len
    coln.Commit.Leb128.write_u32 coln.Commit.Wire.Body.group_ops
    coln.Commit.Wire.PrimValue.encode_path
point_commit-short = omega arith

two_points-Whole : Whole two_points
two_points-Whole h (inl (inl e)) = ap length (sym e)
two_points-Whole h (inl (inr p)) = absurd p
two_points-Whole h (inr (inl p)) = absurd p
two_points-Whole h (inr (inr p)) = absurd p

from_chunk-from_commit_data_example :
    ((from_parts point_commit.header point_commit.bytes >>= λ chunk.
    from_chunk sample_libraries sample_hash to_vec from_slice chunk by_path)
      ≡ ok point_commit)
    × (resolved_ops sample_libraries sample_hash point_commit by_path
        ≡ ok (map (resolve point_commit.header.hash) two_points))
from_chunk-from_commit_data_example =
    from_chunk-from_commit_data sample_libraries sample_libraries-Faithful sample_hash by_oid
      by_path points-IsCatalog contents contents-IsCommitData two_points-Whole (omega arith)
      point_commit from_slice to_vec point_commit_e point_commit-short

-- 133 in two bytes.
abbrev two_bytes : List ℕ
two_bytes = 133 ∷ 1 ∷ []

two_bytes_e : read_u64 two_bytes 0 "length" ≡ ok (133, 2)
unfolding read_u64 coln.Commit.Codec.read_u8 coln.Commit.Leb128.round
two_bytes_e = refl

read_u64-IsUnsigned_example :
    (133 < 2 ^ 64)
    × ((part : List ℕ) × (rest : List ℕ) × IsUnsigned 133 part
        × (two_bytes ≡ part ++ rest)
        × (2 ≡ 0 + length part))
read_u64-IsUnsigned_example =
    read_u64-IsUnsigned two_bytes "length" (omega arith, (omega arith, tt)) (133, 2) 0 two_bytes_e

-- A commit that is received twice.
abbrev received : Commit
received = record {
  bytes = 1 ∷ [];
  header = record {
    chunk_type = ChunkType.commit;
    data_len = 1;
    stored_checksum = [];
    hash = 5 ∷ [];
  };
  author = [];
  other_hashes = [];
  deps = (4 ∷ []) ∷ [];
  timestamp = pos 0;
  message = none;
  num_ops = 0;
}

received_e :
    collect_pending Graph.new (received ∷ received ∷ []) [] ≡ applied ((5 ∷ [], received) ∷ [])
unfolding collect_pending Graph.contains coln.Prelude.Maps.get Graph.new coln.Prelude.Maps.insert
received_e = refl

collect_pending_lem_example :
    AreNews Graph.new ((5 ∷ [], received) ∷ [])
    × AllFound Graph.new ((5 ∷ [], received) ∷ []) (received ∷ received ∷ [])
collect_pending_lem_example =
    collect_pending_lem Graph.new (received ∷ received ∷ []) ((5 ∷ [], received) ∷ []) received_e
