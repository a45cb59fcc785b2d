-- ===== src/Examples/CommitExamples.antt =====
-- The theorems on chunks, numbers and dictionaries at concrete inputs.
use coln.Prelude.{
  ℕ, zero, suc, ◌+◌, ◌^◌, ◌≤◌, ◌<◌, ◌≡◌, refl, sym, subst, Option, none, some, List, [], ◌∷◌, ◌++◌,
  Bool, true, false, arith,
}
use coln.Prelude.Lists.{length, replicate, take}
use coln.Prelude.Outcome.{returns}
use coln.Commit.Hash.{CommitHash, CommitHash-eq}
use coln.Commit.Codec.{ChunkType, ok, bad_format}
use coln.Prelude.Int.{negsuc}
use coln.Commit.Leb128.{
  read_i64, read_u64, read_u32, read_len_prefixed_bytes, write_len_prefixed_bytes, write_u64,
}
use coln.Commit.Leb128.Total.{Settles, Behind, read_u64-Settles}
use coln.Commit.Leb128.RoundTrip.{
  read_u64-unsigned, read_u32-too_large, read-write_len_prefixed_bytes,
}
use coln.Commit.Chunk
use coln.Commit.Chunk.{Chunk, read_at, write, encoded, decode, new_header, into_parts, enclosed}
use coln.Commit.Chunk.RoundTrip.{chunk_of, read_at-write, decode-encoded}
use coln.Commit.Chunk.Integrity.{Describes, decode-Describes}
use coln.Commit.HashDict
use coln.Commit.HashDict.{HashMapper, hash_at}
use coln.Commit.HashDict.Consistent.{IsConsistent, empty-IsConsistent, insert-IsConsistent}
use coln.Commit.HashDict.Truncate.{truncate-IsConsistent}
use coln.Commit.HashDict.Wire.{hash_bytes, write_hash_dict, read_hash_dict, read-write_hash_dict}
use coln.Examples.Samples.{
  write_groups, sample_unsigned, sample-WritesUnsigned, sample_hash, sample_hash-length,
}

abbrev pub payload : List ℕ
payload = 1 ∷ 2 ∷ 3 ∷ []

abbrev pub sample_commit : Chunk
sample_commit =
    chunk_of sample_unsigned sample-WritesUnsigned sample_hash sample_hash-length ChunkType.commit
      payload

abbrev pub sample_root : Chunk
sample_root =
    chunk_of sample_unsigned sample-WritesUnsigned sample_hash sample_hash-length ChunkType.root
      payload

-- 300 is `0xAC 0x02`.
write-300 : sample_unsigned 300 ≡ 172 ∷ 2 ∷ []
unfolding write_groups
write-300 = refl

read-300 : read_u64 (7 ∷ 172 ∷ 2 ∷ 9 ∷ []) 1 "number" ≡ ok (300, 3)
unfolding read_u64 coln.Commit.Codec.read_u8 coln.Commit.Leb128.round
read-300 = refl

read_at-write_example :
    read_at sample_hash (write sample_unsigned sample_commit (5 ∷ []) ++ 6 ∷ []) 1
    ≡ ok (sample_commit, length (write sample_unsigned sample_commit (5 ∷ [])))
unfolding write enclosed new_header write_u64 coln.Commit.Hash.checksum Chunk.hash write_groups
read_at-write_example =
    read_at-write sample_unsigned sample-WritesUnsigned sample_hash sample_hash-length
      ChunkType.commit payload (5 ∷ []) (6 ∷ []) (omega arith)

decode-encoded_example : decode sample_hash (encoded sample_unsigned sample_root) ≡ ok sample_root
unfolding encoded enclosed new_header write_u64 coln.Commit.Hash.checksum Chunk.hash write_groups
decode-encoded_example =
    decode-encoded sample_unsigned sample-WritesUnsigned sample_hash sample_hash-length
      ChunkType.root payload (omega arith)

decode-Describes_example :
    Describes sample_hash (into_parts sample_root).0 (into_parts sample_root).1
decode-Describes_example =
    decode-Describes sample_hash (encoded sample_unsigned sample_root) sample_root
      decode-encoded_example

-- 300 stands after a byte and before another.
read_u64-unsigned_example : read_u64 (7 ∷ 172 ∷ 2 ∷ 9 ∷ []) 1 "number" ≡ ok (300, 3)
unfolding write_groups
read_u64-unsigned_example =
    read_u64-unsigned sample_unsigned sample-WritesUnsigned (7 ∷ 172 ∷ 2 ∷ 9 ∷ []) (9 ∷ []) 1 300
      "number" (omega arith) (omega arith) (record { inside = omega arith; follows = refl })

read_u32-too_large_example :
    read_u32 (sample_unsigned (2 ^ 32)) 0 "number"
    ≡ bad_format "leb128 too large for u32 while reading " "number"
unfolding write_groups
read_u32-too_large_example =
    read_u32-too_large sample_unsigned sample-WritesUnsigned (sample_unsigned (2 ^ 32)) [] 0
      (2 ^ 32) "number" (omega arith) (omega arith)
      (record { inside = omega arith; follows = refl }) (omega arith)

read-write_len_prefixed_bytes_example :
    read_len_prefixed_bytes
      (write_len_prefixed_bytes sample_unsigned (5 ∷ []) payload ++ 6 ∷ [])
      1
      "field"
    ≡ ok (payload, length (write_len_prefixed_bytes sample_unsigned (5 ∷ []) payload))
unfolding write_len_prefixed_bytes write_groups
read-write_len_prefixed_bytes_example =
    read-write_len_prefixed_bytes sample_unsigned sample-WritesUnsigned (5 ∷ []) payload (6 ∷ [])
      "field" (omega arith)

abbrev pub hash_a : CommitHash
hash_a = replicate 32 7

abbrev pub hash_b : CommitHash
hash_b = replicate 32 9

abbrev pub two_hashes : HashMapper
two_hashes = (HashDict.insert (HashDict.insert HashDict.empty hash_a).0 hash_b).0

pub two_hashes-IsConsistent : IsConsistent two_hashes
unfolding HashDict.insert coln.Prelude.Maps.get
two_hashes-IsConsistent =
    insert-IsConsistent (HashDict.insert HashDict.empty hash_a).0
      (insert-IsConsistent HashDict.empty empty-IsConsistent hash_a (omega arith)) hash_b
      (omega arith)

truncate-IsConsistent_example :
    (t : HashMapper) × (HashDict.truncate two_hashes 1 ≡ returns t)
    × (t.hashes ≡ take 1 two_hashes.hashes)
    × IsConsistent t
unfolding HashDict.insert coln.Prelude.Maps.get coln.Prelude.Maps.insert
truncate-IsConsistent_example =
    truncate-IsConsistent two_hashes two_hashes-IsConsistent 1 (omega arith)

read-write_hash_dict_example :
    (out : List ℕ) × (write_hash_dict sample_unsigned (5 ∷ []) two_hashes ≡ ok out)
    × (read_hash_dict (out ++ 6 ∷ []) 1 ≡ ok (two_hashes.hashes, length out))
unfolding HashDict.insert hash_bytes write_groups coln.Prelude.Maps.get coln.Prelude.Maps.insert
read-write_hash_dict_example =
    read-write_hash_dict sample_unsigned sample-WritesUnsigned two_hashes (5 ∷ []) (6 ∷ [])
      (refl, (refl, tt)) (omega arith) (omega arith)

-- Ten continued bytes are too many.
read_u64-Settles_example :
    Settles
      (Behind (replicate 12 200) "number" (omega arith) 0 10)
      (read_u64 (replicate 12 200) 0 "number")
read_u64-Settles_example =
    read_u64-Settles (replicate 12 200) "number" (omega arith) 0 (omega arith)

-- -129 is `0xFF 0x7E`.
read-minus_129 : read_i64 (255 ∷ 126 ∷ []) 0 "number" ≡ ok (negsuc 128, 2)
unfolding read_i64 coln.Commit.Codec.read_u8
read-minus_129 = refl

-- A sign byte that the one before implies.
read-overlong :
    read_i64 (255 ∷ 127 ∷ []) 0 "number" ≡ bad_format "overlong leb128 while reading " "number"
unfolding read_i64 coln.Commit.Codec.read_u8
read-overlong = refl
