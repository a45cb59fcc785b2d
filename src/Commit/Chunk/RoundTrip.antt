-- ===== src/Commit/Chunk/RoundTrip.antt =====
-- Lemmas on writing and reading a chunk, packages/coln-store/src/commit/chunk.rs.
use coln.Prelude.{
  ℕ, ◌+◌, ◌^◌, ◌<◌, ◌≡◌, refl, List, [], ◌∷◌, ◌++◌, true, append_assoc, append-nil, arith,
}
use coln.Prelude.Tests.{ℕ-eq, List-eq, beq_self, nat_eq_self}
use coln.Prelude.Lists.{length, length-append, length-take, take-append}
use coln.Commit.Hash.{checksum}
use coln.Commit.Codec.{ChunkType, ok, read_slice}
use coln.Commit.Codec.Reading.{At, At-next, At-append, At-fits, read_u8-At, read_slice-At}
use coln.Commit.Leb128.{write_u64}
use coln.Commit.Leb128.Format.{WritesUnsigned}
use coln.Commit.Leb128.RoundTrip.{read_len-unsigned}
use coln.Commit.Chunk
use coln.Commit.Chunk.{
  Header, Chunk, magic, type_byte, known_type, enclosed, from_parts, hash, new_header,
  checksum_valid, check_payload, parse_header, read_at, decode, write_header, write, encoded,
}

module _ (unsigned : ℕ → List ℕ) (writes : WritesUnsigned unsigned) (blake3 : List ℕ → List ℕ)
    (sized : (preimage : List ℕ) → length (blake3 preimage) ≡ 32) where
  length-checksum :
      (type : ChunkType) (payload : List ℕ) → length (checksum (hash blake3 type payload)) ≡ 4
  unfolding checksum hash
  length-checksum type payload =
      length-take 4 _
        (omega (arith, sized (type_byte type ∷ (Chunk.le_bytes 8 (length payload) ++ payload))))

  -- The framing of a payload and what stands behind it.
  abbrev framed : ChunkType → List ℕ → List ℕ → List ℕ
  framed type payload rest =
      magic
      ++ (checksum (hash blake3 type payload)
          ++ (type_byte type ∷ (unsigned (length payload) ++ (payload ++ rest))))

  known_type-type_byte :
      (type : ChunkType) (at : ℕ) → known_type (type_byte type, at) ≡ ok (type, at)
  unfolding type_byte
  known_type-type_byte ChunkType.commit at = refl
  known_type-type_byte ChunkType.root at = refl

  checksum_valid-new_header :
      (type : ChunkType) (payload : List ℕ)
      → checksum_valid blake3 (new_header blake3 type payload) ≡ true
  unfolding checksum_valid new_header
  checksum_valid-new_header type payload = beq_self (checksum (hash blake3 type payload))

  module _ (bytes rest payload : List ℕ) (type : ChunkType) (at : ℕ)
      (small : length bytes < 2 ^ 64) where
    check_payload-At :
        At bytes at (payload ++ rest)
        → check_payload blake3 bytes type (checksum (hash blake3 type payload)) (length payload, at)
          ≡ ok (new_header blake3 type payload, at)
    unfolding check_payload new_header
    check_payload-At here =
        rw (here.follows, take-append payload rest)
          (ground
            (arith, At-fits bytes at payload rest here, checksum_valid-new_header type payload))

  module _ (bytes rest payload : List ℕ) (type : ChunkType) (at : ℕ)
      (small : length bytes < 2 ^ 64) where
    abbrev header_size : ℕ
    header_size = 9 + length (unsigned (length payload))

    stored_At :
        At bytes at (framed type payload rest)
        → At bytes (at + 4) (
            checksum (hash blake3 type payload)
            ++ (type_byte type ∷ (unsigned (length payload) ++ (payload ++ rest))))
    stored_At here = At-next bytes at magic _ here

    type_At :
        At bytes at (framed type payload rest)
        → At bytes (at + 4 + 4) (type_byte type ∷ (unsigned (length payload) ++ (payload ++ rest)))
    type_At here =
        rw (length-checksum type payload) at
          (At-next bytes (at + 4) (checksum (hash blake3 type payload)) _ (stored_At here))

    len_At :
        At bytes at (framed type payload rest)
        → At bytes (at + 4 + 4 + 1) (unsigned (length payload) ++ (payload ++ rest))
    len_At here = At-next bytes (at + 4 + 4) (type_byte type ∷ []) _ (type_At here)

    payload-At :
        At bytes at (framed type payload rest) → At bytes (at + header_size) (payload ++ rest)
    payload-At here =
        rw end at (
          At-next bytes (at + 4 + 4 + 1) (unsigned (length payload)) (payload ++ rest)
            (len_At here))
      where
        end : at + 4 + 4 + 1 + length (unsigned (length payload)) ≡ at + header_size
        end = omega arith

    parse_header-At :
        At bytes at (framed type payload rest)
        → parse_header blake3 bytes at ≡ ok (new_header blake3 type payload, at + header_size)
    unfolding parse_header
    parse_header-At here =
        let stored = checksum (hash blake3 type payload) in
        let tail = unsigned (length payload) ++ (payload ++ rest) in
        let four = length-checksum type payload in
        let e_sum : read_slice bytes (at + 4) 4 "chunk checksum" ≡ ok (stored, at + 4 + 4) =
          rw four at (
            read_slice-At bytes (at + 4) stored (type_byte type ∷ tail) (stored_At here)
              "chunk checksum" small) in
        let e_len =
          read_len-unsigned unsigned writes bytes (payload ++ rest) (at + 4 + 4 + 1)
            (length payload) "chunk data_len" small
            (omega (arith, At-fits bytes (at + header_size) payload rest (payload-At here)))
            (len_At here) in
        rw
          (
            read_slice-At bytes at magic (stored ++ (type_byte type ∷ tail)) here "chunk magic"
                small,
            e_sum,
            read_u8-At bytes (at + 4 + 4) (type_byte type) tail "chunk type" (type_At here) small,
            known_type-type_byte type (at + 4 + 4 + 1),
            e_len,
            end,
          )
          (check_payload-At bytes rest payload type (at + header_size) small (payload-At here))
      where
        end : at + 4 + 4 + 1 + length (unsigned (length payload)) ≡ at + header_size
        end = omega arith

  abbrev pub chunk_of : ChunkType → List ℕ → Chunk
  chunk_of type payload = enclosed (new_header blake3 type payload) payload

  -- The assertion of `from_parts` holds for the header of the payload.
  pub from_parts-new_header :
      (type : ChunkType) (payload : List ℕ)
      → from_parts (new_header blake3 type payload) payload ≡ ok (chunk_of type payload)
  unfolding from_parts new_header
  from_parts-new_header type payload = rw nat_eq_self refl

  -- What `write` puts behind its buffer.
  write-framed :
      (type : ChunkType) (payload rest out : List ℕ)
      → write unsigned (chunk_of type payload) out ++ rest ≡ out ++ framed type payload rest
  unfolding write enclosed new_header write_u64
  write-framed ChunkType.commit payload rest out = simp append_assoc
  write-framed ChunkType.root payload rest out = simp append_assoc

  module _ (type : ChunkType) (payload : List ℕ) where
    -- A chunk framed by `Header::new`, written behind any bytes and with any bytes behind it, is read
    -- back by `read_at` from where it was written; the position after it is its end.
    pub read_at-write :
        (out rest : List ℕ)
        → length (write unsigned (chunk_of type payload) out ++ rest) < 2 ^ 64
        → read_at blake3 (write unsigned (chunk_of type payload) out ++ rest) (length out)
          ≡ ok (chunk_of type payload, length (write unsigned (chunk_of type payload) out))
    unfolding read_at new_header
    read_at-write out rest small =
        let bytes = write unsigned (chunk_of type payload) out ++ rest in
        let here : At bytes (length out) (framed type payload rest) =
          At-append bytes out (framed type payload rest) (write-framed type payload rest out) in
        let start = length out + header_size bytes rest payload type (length out) small in
        let body : At bytes start (payload ++ rest) =
          payload-At bytes rest payload type (length out) small here in
        rw
          (
            parse_header-At bytes rest payload type (length out) small here,
            read_slice-At bytes start payload rest body "chunk payload" small,
            from_parts-new_header type payload,
          )
          (ground (
            arith,
            At-fits bytes start payload rest body,
            length-append (write unsigned (chunk_of type payload) out) rest,
          ))

    -- `decode` takes the bytes of `encoded` back to the chunk.
    pub decode-encoded :
        length (encoded unsigned (chunk_of type payload)) < 2 ^ 64
        → decode blake3 (encoded unsigned (chunk_of type payload)) ≡ ok (chunk_of type payload)
    unfolding decode encoded
    decode-encoded small =
        let bytes = write unsigned (chunk_of type payload) [] in
        let whole : bytes ++ [] ≡ bytes = append-nil bytes in
        let read : read_at blake3 bytes 0 ≡ ok (chunk_of type payload, length bytes) =
          rw whole at (read_at-write [] [] (rw whole small)) in
        rw read (ground arith)
