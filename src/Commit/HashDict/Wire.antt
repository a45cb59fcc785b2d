-- ===== src/Commit/HashDict/Wire.antt =====
-- The dictionary on the wire: `write_hash_dict` and `read_hash_dict` of hash_dict.rs.
use coln.Prelude.{ℕ, zero, suc, ◌+◌, ◌^◌, ◌<◌, ◌≡◌, refl, List, [], ◌∷◌, ◌++◌, append_assoc, arith}
use coln.Prelude.Tests.{ltb, if◌then◌else◌}
use coln.Prelude.Lists.{length, length-append}
use coln.Commit.Hash.{CommitHash, hash_size}
use coln.Commit.HashDict.{HashMapper}
use coln.Commit.Codec.{Parsed, ok, err, other, ◌>>=◌, read_slice}
use coln.Commit.Codec.Reading.{At, At-append, At-next, At-fits, read_slice-At}
use coln.Commit.Leb128.{write_u32, read_u32}
use coln.Commit.Leb128.Format.{WritesUnsigned}
use coln.Commit.Leb128.RoundTrip.{read_u32-unsigned}

-- The bytes of the hashes, one after the other.
unfoldable pub hash_bytes : List CommitHash → List ℕ
hash_bytes [] = []
hash_bytes (hash ∷ hashes) = hash ++ hash_bytes hashes

unfoldable pub write_hash_dict : (ℕ → List ℕ) → List ℕ → HashMapper → Parsed (List ℕ)
write_hash_dict unsigned buf mapper =
    if ltb (length mapper.hashes) (2 ^ 32)
    then ok (write_u32 unsigned buf (length mapper.hashes) ++ hash_bytes mapper.hashes)
    else err (other "too many hashes than u32::MAX")

unfoldable pub read_entries : ℕ → List ℕ → ℕ → Parsed (List CommitHash × ℕ)
read_entries zero bytes at = ok ([], at)
read_entries (suc count) bytes at = do
  (hash, at₁) ← read_slice bytes at hash_size "hash dictionary entry"
  (hashes, at₂) ← read_entries count bytes at₁
  ok (hash ∷ hashes, at₂)

-- Left out: `Vec::with_capacity(hash_count)`, which aborts before the loop when there is no memory for
-- the count, up to 2^32 hashes.
unfoldable pub read_hash_dict : List ℕ → ℕ → Parsed (List CommitHash × ℕ)
read_hash_dict bytes at = do
  (count, at₁) ← read_u32 bytes at "hash dictionary count"
  read_entries count bytes at₁

-- Every hash has its 32 bytes.
abbrev pub Sized : List CommitHash → Type 0
Sized [] = Unit
Sized (hash ∷ hashes) = (length hash ≡ hash_size) × Sized hashes

module _ (bytes : List ℕ) (small : length bytes < 2 ^ 64) where
  read_entries-At :
      (hashes : List CommitHash) (at : ℕ) (rest : List ℕ)
      → Sized hashes
      → At bytes at (hash_bytes hashes ++ rest)
      → read_entries (length hashes) bytes at ≡ ok (hashes, at + length (hash_bytes hashes))
  unfolding read_entries hash_bytes
  read_entries-At [] at rest sized here = ground arith
  read_entries-At (hash ∷ hashes) at rest sized here =
      let here' : At bytes at (hash ++ (hash_bytes hashes ++ rest)) = rw append_assoc at here in
      let first : read_slice bytes at hash_size "hash dictionary entry"
          ≡ ok (hash, at + hash_size) =
        rw sized.0 at (
          read_slice-At bytes at hash (hash_bytes hashes ++ rest) here' "hash dictionary entry"
            small) in
      let behind : At bytes (at + hash_size) (hash_bytes hashes ++ rest) =
        rw sized.0 at (At-next bytes at hash (hash_bytes hashes ++ rest) here') in
      rw (first, read_entries-At hashes (at + hash_size) rest sized.1 behind)
        (ground (arith, length-append hash (hash_bytes hashes), sized.0))

module _ (unsigned : ℕ → List ℕ) (writes : WritesUnsigned unsigned) where
  pub read_hash_dict-At :
      (hashes : List CommitHash) (bytes rest : List ℕ) (at : ℕ)
      → length bytes < 2 ^ 64
      → Sized hashes
      → length hashes < 2 ^ 32
      → At bytes at (unsigned (length hashes) ++ (hash_bytes hashes ++ rest))
      → read_hash_dict bytes at
        ≡ ok (hashes, at + length (unsigned (length hashes)) + length (hash_bytes hashes))
  unfolding read_hash_dict
  read_hash_dict-At hashes bytes rest at small sized count here =
      let prefix = unsigned (length hashes) in
      let behind = At-next bytes at prefix (hash_bytes hashes ++ rest) here in
      rw
        (
          read_u32-unsigned unsigned writes bytes (hash_bytes hashes ++ rest) at (length hashes)
              "hash dictionary count" small (omega (arith, count)) here count,
          read_entries-At bytes small hashes (at + length prefix) rest sized behind,
        )
        refl

  -- A dictionary of fewer than 2^32 whole hashes, written behind any bytes and with any bytes behind
  -- it, is read back hash by hash, and the position after it is its end.
  pub read-write_hash_dict :
      (mapper : HashMapper) (buf rest : List ℕ)
      → Sized mapper.hashes
      → length mapper.hashes < 2 ^ 32
      → length buf
          + length (unsigned (length mapper.hashes))
          + length (hash_bytes mapper.hashes)
          + length rest
        < 2 ^ 64
      → (out : List ℕ) × (write_hash_dict unsigned buf mapper ≡ ok out)
        × (read_hash_dict (out ++ rest) (length buf) ≡ ok (mapper.hashes, length out))
  unfolding write_hash_dict read_hash_dict write_u32
  read-write_hash_dict mapper buf rest sized count small =
      let entries = hash_bytes mapper.hashes in
      let prefix = unsigned (length mapper.hashes) in
      let out = (buf ++ prefix) ++ entries in
      let here : At (out ++ rest) (length buf) (prefix ++ (entries ++ rest)) =
        At-append (out ++ rest) buf (prefix ++ (entries ++ rest)) (simp append_assoc) in
      let behind = At-next (out ++ rest) (length buf) prefix (entries ++ rest) here in
      let total = At-fits (out ++ rest) (length buf + length prefix) entries rest behind in
      let fits : length (out ++ rest) < 2 ^ 64 = omega (arith, total) in
      (
        out,
        ground arith,
        rw
            (
              read_u32-unsigned unsigned writes (out ++ rest) (entries ++ rest) (length buf)
                  (length mapper.hashes) "hash dictionary count" fits (omega arith) here count,
              read_entries-At (out ++ rest) fits mapper.hashes (length buf + length prefix) rest
                  sized behind,
            )
            (ground (arith, length-append (buf ++ prefix) entries, length-append buf prefix)),
      )
