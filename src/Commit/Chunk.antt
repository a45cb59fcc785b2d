-- ===== src/Commit/Chunk.antt =====
-- packages/coln-store/src/commit/chunk.rs: the framing of a commit, its content hash and checksum. The
-- hash function BLAKE3 and the LEB128 writer are parameters.
pub mod RoundTrip
pub mod Integrity
use coln.Prelude.{
  ℕ, zero, suc, ◌+◌, ◌-◌, ◌*◌, ◌/◌, ◌%◌, ◌^◌, String, List, [], ◌∷◌, ◌++◌, Bool, true, false, ◌&&◌,
}
use coln.Prelude.Tests.{PartialEq, ◌==◌, ltb, leb, nat_eq, if◌then◌else◌, ℕ-eq, List-eq}
use coln.Prelude.Lists.{length, take, drop}
use coln.Commit.Hash.{CommitHash, checksum}
use coln.Commit.Codec.{
  ChunkType, Parsed, ok, err, crash, ◌>>=◌, bad_format, data_format_error, checksum_mismatch,
  read_slice, read_u8,
}
use coln.Commit.Leb128.{write_u64, read_len}

-- `b"GMcm"`.
abbrev pub magic : List ℕ
magic = 71 ∷ 77 ∷ 99 ∷ 109 ∷ []

unfoldable pub type_byte : ChunkType → ℕ
type_byte ChunkType.commit = 0
type_byte ChunkType.root = 1

-- The `n` low bytes of a number, lowest first.
unfoldable pub le_bytes : ℕ → ℕ → List ℕ
le_bytes zero v = []
le_bytes (suc n) v = v % 256 ∷ le_bytes n (v / 256)

pub record Header : Type 0 where
  pub chunk_type : ChunkType
  pub data_len : ℕ
  pub stored_checksum : List ℕ
  pub hash : CommitHash

pub data Chunk : Type 0 where
  commit root : Header → List ℕ → Chunk

-- The chunk of the type in the header.
unfoldable pub enclosed : Header → List ℕ → Chunk
enclosed header payload = elim header.chunk_type [
  | ChunkType.commit ↦ commit header payload
  | ChunkType.root ↦ root header payload
]

-- With the panic of `debug_assert_eq!`.
unfoldable pub from_parts : Header → List ℕ → Parsed Chunk
from_parts header payload =
    if nat_eq header.data_len (length payload) then ok (enclosed header payload) else crash

unfoldable pub into_parts : Chunk → Header × List ℕ
into_parts (commit header payload) = (header, payload)
into_parts (root header payload) = (header, payload)

unfoldable pub chunk_type : Chunk → ChunkType
chunk_type (commit header payload) = header.chunk_type
chunk_type (root header payload) = header.chunk_type

unfoldable pub is_root : Chunk → Bool
unfolding chunk_type
is_root chunk = elim (chunk_type chunk) [ ChunkType.root ↦ true | ChunkType.commit ↦ false ]

abbrev pub known_type : ℕ × ℕ → Parsed (ChunkType × ℕ)
known_type (zero, at) = ok (ChunkType.commit, at)
known_type (suc zero, at) = ok (ChunkType.root, at)
known_type (suc (suc tag), at) = bad_format "unknown chunk type" ""

module _ (blake3 : List ℕ → List ℕ) where
  unfoldable pub hash : ChunkType → List ℕ → CommitHash
  unfolding type_byte le_bytes
  hash type payload = blake3 (type_byte type ∷ (le_bytes 8 (length payload) ++ payload))

  unfoldable pub new_header : ChunkType → List ℕ → Header
  new_header type payload =
      let h = hash type payload in
      record {
        chunk_type = type;
        data_len = length payload;
        stored_checksum = checksum h;
        hash = h;
      }

  unfoldable pub checksum_valid : Header → Bool
  checksum_valid header = checksum header.hash == header.stored_checksum

  -- The end of `Header::parse`: the sum is checked, the body is taken and hashed.
  unfoldable pub check_payload : List ℕ → ChunkType → List ℕ → ℕ × ℕ → Parsed (Header × ℕ)
  check_payload bytes type stored (data_len, at) =
      if leb (2 ^ 64) (at + data_len)
      then bad_format "chunk length overflow" ""
      else if ltb (length bytes) (at + data_len)
      then bad_format "truncated chunk payload" ""
      else let header : Header = record {
        chunk_type = type;
        data_len = data_len;
        stored_checksum = stored;
        hash = hash type (take data_len (drop at bytes));
      } in
        if checksum_valid header then ok (header, at) else err checksum_mismatch

  unfoldable pub parse_header : List ℕ → ℕ → Parsed (Header × ℕ)
  parse_header bytes at = do
    (start, at₁) ← read_slice bytes at 4 "chunk magic"
    if start == magic
        then (do
          (stored, at₂) ← read_slice bytes at₁ 4 "chunk checksum"
          tag ← read_u8 bytes at₂ "chunk type"
          (type, at₃) ← known_type tag
          len ← read_len bytes at₃ "chunk data_len"
          check_payload bytes type stored len)
        else bad_format "bad chunk magic" ""

  unfoldable pub read_at : List ℕ → ℕ → Parsed (Chunk × ℕ)
  read_at bytes at = do
    (header, at₁) ← parse_header bytes at
    (payload, at₂) ← read_slice bytes at₁ header.data_len "chunk payload"
    chunk ← from_parts header payload
    ok (chunk, at₂)

  unfoldable pub decode : List ℕ → Parsed Chunk
  decode bytes = do
    (chunk, at) ← read_at bytes 0
    if nat_eq at (length bytes) then ok chunk else bad_format "trailing bytes after chunk" ""

module _ (unsigned : ℕ → List ℕ) where
  unfoldable pub write_header : Header → List ℕ → List ℕ
  unfolding type_byte
  write_header header out =
      write_u64 unsigned
        (((out ++ magic) ++ header.stored_checksum) ++ type_byte header.chunk_type ∷ [])
        header.data_len

  unfoldable pub write : Chunk → List ℕ → List ℕ
  unfolding write_header
  write (commit header payload) out = write_header header out ++ payload
  write (root header payload) out = write_header header out ++ payload

  unfoldable pub encoded : Chunk → List ℕ
  unfolding write
  encoded chunk = write chunk []
