-- ===== src/Commit/Chunk/Integrity.antt =====
-- Lemmas on what `decode` of packages/coln-store/src/commit/chunk.rs accepts.
use coln.Prelude.{ℕ, ◌+◌, ◌^◌, ◌≤◌, ◌≡◌, refl, sym, List, true, arith}
use coln.Prelude.Tests.{◌==◌, ltb, leb, nat_eq, ℕ-eq, List-eq, list_beq_iff}
use coln.Prelude.Lists.{length, take, drop, length-take, length-drop}
use coln.Commit.Hash.{checksum}
use coln.Commit.Codec.{
  ChunkType, ok, Ensures, holds, errs, crashes, Ensures-bind, Ensures-if, Ensures-then, Ensures-ok,
  read_slice, read_u8,
}
use coln.Commit.Codec.Reading.{read_slice-Ensures}
use coln.Commit.Leb128.{read_len}
use coln.Commit.Chunk.{
  Header, Chunk, magic, known_type, enclosed, from_parts, into_parts, hash, checksum_valid,
  check_payload, parse_header, read_at, decode,
}

module _ (blake3 : List ℕ → List ℕ) where
  -- The header describes the payload.
  pub record Describes (header : Header) (payload : List ℕ) : Type 0 where
    pub content : header.hash ≡ hash blake3 header.chunk_type payload
    pub sized : header.data_len ≡ length payload
    pub checked : checksum header.hash ≡ header.stored_checksum

  abbrev Fits : List ℕ → Header × ℕ → Type 0
  Fits bytes (header, at) =
      Describes header (take header.data_len (drop at bytes))
      × (at + header.data_len ≤ length bytes)

  module _ (bytes : List ℕ) (type : ChunkType) (stored : List ℕ) (len at : ℕ) where
    abbrev taken : Header
    taken = record {
      chunk_type = type;
      data_len = len;
      stored_checksum = stored;
      hash = hash blake3 type (take len (drop at bytes));
    }

    taken-Fits :
        at + len ≤ length bytes → checksum_valid blake3 taken ≡ true → Fits bytes (taken, at)
    unfolding checksum_valid
    taken-Fits inside valid = (
      record {
        content = refl;
        sized = sym (length-take len (drop at bytes) (omega (arith, length-drop at bytes)));
        checked = (list_beq_iff (checksum taken.hash) stored).0 valid;
      },
      inside,
    )

    check_payload-Fits : Ensures (Fits bytes) (check_payload blake3 bytes type stored (len, at))
    unfolding check_payload
    check_payload-Fits =
        Ensures-if (leb (2 ^ 64) (at + len)) _ _ (λ _. errs)
          λ _.
            Ensures-if (ltb (length bytes) (at + len)) _ _ (λ _. errs)
              λ long.
                Ensures-if (checksum_valid blake3 taken) _ _
                  (λ valid. holds (taken-Fits (ground arith) valid)) (λ _. errs)

  parse_header-Fits :
      (bytes : List ℕ) (at : ℕ) → Ensures (Fits bytes) (parse_header blake3 bytes at)
  unfolding parse_header
  parse_header-Fits bytes at = Ensures-bind (read_slice bytes at 4 "chunk magic") _ λ start.
      Ensures-if (start.0 == magic) _ _
        (λ _. Ensures-bind (read_slice bytes start.1 4 "chunk checksum") _ λ stored.
          Ensures-bind (read_u8 bytes stored.1 "chunk type") _ λ tag.
            Ensures-bind (known_type tag) _ λ typed.
              Ensures-bind (read_len bytes typed.1 "chunk data_len") _
                λ len. check_payload-Fits bytes typed.0 stored.0 len.0 len.1)
        (λ _. errs)

  abbrev Framed : Chunk → Type 0
  Framed chunk = Describes (into_parts chunk).0 (into_parts chunk).1

  into_parts-enclosed :
      (header : Header) (payload : List ℕ)
      → into_parts (enclosed header payload) ≡ (header, payload)
  unfolding enclosed into_parts
  into_parts-enclosed header payload = ground arith

  from_parts-Framed :
      (header : Header) (payload : List ℕ)
      → Describes header payload
      → Ensures Framed (from_parts header payload)
  unfolding from_parts
  from_parts-Framed header payload d =
      Ensures-if (nat_eq header.data_len (length payload)) _ _
        (λ _. holds (rw (into_parts-enclosed header payload) d)) (λ _. crashes)

  read_at-Framed :
      (bytes : List ℕ) (at : ℕ) → Ensures (λ got. Framed got.0) (read_at blake3 bytes at)
  unfolding read_at
  read_at-Framed bytes at = Ensures-then _ (parse_header-Fits bytes at) λ parsed fits.
      Ensures-then _ (read_slice-Ensures bytes parsed.1 parsed.0.data_len "chunk payload")
        λ got here.
          Ensures-then _ (from_parts-Framed parsed.0 got.0 (rw (here.0) fits.0))
            λ chunk framed. holds framed

  -- Every chunk that `decode` accepts carries the content hash of its own payload, computed for its
  -- own type, its payload's length, and a stored checksum that is the start of that hash.
  pub decode-Describes :
      (bytes : List ℕ) (chunk : Chunk)
      → decode blake3 bytes ≡ ok chunk
      → Describes (into_parts chunk).0 (into_parts chunk).1
  unfolding decode
  decode-Describes bytes chunk h = Ensures-ok decoded chunk h
    where
      decoded : Ensures Framed (decode blake3 bytes)
      decoded =
          Ensures-then _ (read_at-Framed bytes 0) λ got framed.
            Ensures-if (nat_eq got.1 (length bytes)) _ _ (λ _. holds framed) (λ _. errs)
