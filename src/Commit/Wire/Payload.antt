-- ===== src/Commit/Wire/Payload.antt =====
-- The payload of a commit, packages/coln-store/src/commit/wire/data.rs and commit/author.rs.
pub mod Parts
pub mod RoundTrip
use coln.Prelude.{ℕ, zero, suc, ◌+◌, Option, none, some, String, List, [], ◌∷◌, ◌++◌}
use coln.Prelude.Int.{ℤ}
use coln.Prelude.Tests.{nat_eq, if◌then◌else◌}
use coln.Prelude.Lists.{length, drop}
use coln.Value.{TableOid}
use coln.Txn.{PendingOp}
use coln.Ir.{IrPath}
use coln.Commit.Hash.{CommitHash, hash_size}
use coln.Commit.HashDict.{HashMapper}
use coln.Commit.HashDict.Wire.{hash_bytes, write_hash_dict, read_hash_dict}
use coln.Commit.Codec.{Parsed, ok, err, crash, ◌>>=◌, data_format_error, read_slice}
use coln.Commit.Leb128.{write_len, write_i64, read_len, read_i64}
use coln.Commit.Wire.Libraries.{Libraries}
use coln.Commit.Wire.Group.{TableMeta}
use coln.Commit.Wire.Body.{encode_commit_body, decode_commit_body}

-- The author is its bytes.
abbrev pub Author : Type 0
Author = List ℕ

pub record CommitData : Type 0 where
  pub author : Author
  pub deps : List CommitHash
  pub other_hashes : List CommitHash
  pub timestamp : ℤ
  pub message : Option String
  pub pending : List PendingOp
  pub extra_bytes : List ℕ

-- The constructor `CommitData::new`.
unfoldable pub new_data : List CommitHash → Author → ℤ → Option String → List PendingOp → CommitData
new_data deps author timestamp message pending = record {
  author = author;
  deps = deps;
  other_hashes = [];
  timestamp = timestamp;
  message = message;
  pending = pending;
  extra_bytes = [];
}

-- The bytes of `as_deref().unwrap_or("")`; the empty string has none.
abbrev pub message_bytes : (String → List ℕ) → Option String → List ℕ
message_bytes as_bytes none = []
message_bytes as_bytes (some message) = as_bytes message

-- `write_hash_dict(..).expect(..)`
unfoldable pub expected_dict : Parsed (List ℕ) → Parsed (List ℕ)
expected_dict (ok buf) = ok buf
expected_dict (err e) = crash
expected_dict crash = crash

-- The hashes of the parents. Left out: `Vec::with_capacity(deps_count)`, which panics or aborts before the
-- loop when the memory for the count cannot be had; here such a count ends in the error of the loop.
unfoldable pub read_deps : ℕ → List ℕ → ℕ → Parsed (List CommitHash × ℕ)
read_deps zero bytes at = ok ([], at)
read_deps (suc deps_count) bytes at = do
  (dep, at₁) ← read_slice bytes at hash_size "dep hash"
  (deps, at₂) ← read_deps deps_count bytes at₁
  ok (dep ∷ deps, at₂)

module _ (lib : Libraries) where
  unfoldable pub serialize :
      CommitData → HashMapper → (TableOid → Option TableMeta) → Parsed (List ℕ)
  unfolding expected_dict write_hash_dict write_len write_i64 hash_bytes encode_commit_body
  serialize contents hash_mapper table_meta_for =
      let authored = write_len lib.unsigned [] (length contents.author) ++ contents.author in
      let with_deps =
        write_len lib.unsigned authored (length contents.deps) ++ hash_bytes contents.deps in
      let msg = message_bytes lib.as_bytes contents.message in
      do
        with_dict ← expected_dict (write_hash_dict lib.unsigned with_deps hash_mapper)
        body ← encode_commit_body lib contents.pending table_meta_for hash_mapper
        ok (
            ((write_len lib.unsigned (write_i64 lib.signed with_dict contents.timestamp)
                  (length msg)
                ++ msg)
              ++ body)
            ++ contents.extra_bytes)

  -- No message for no bytes.
  unfoldable pub decode_message : List ℕ → Parsed (Option String)
  decode_message msg_bytes =
      if nat_eq (length msg_bytes) 0 then ok none else elim (lib.from_utf8 msg_bytes) [
        | some message ↦ ok (some message)
        | none ↦ err (data_format_error "commit message: invalid utf-8")
      ]

  unfoldable pub deserialize : List ℕ → (IrPath → Option TableMeta) → Parsed CommitData
  unfolding read_len read_deps read_hash_dict read_i64 decode_message decode_commit_body
  deserialize bytes table_meta_for = do
    (author_len, at₁) ← read_len bytes 0 "author_len"
    (author, at₂) ← read_slice bytes at₁ author_len "author"
    (deps_count, at₃) ← read_len bytes at₂ "deps count"
    (deps, at₄) ← read_deps deps_count bytes at₃
    (other_hashes, at₅) ← read_hash_dict bytes at₄
    (timestamp, at₆) ← read_i64 bytes at₅ "timestamp"
    (msg_len, at₇) ← read_len bytes at₆ "message length"
    (msg_bytes, at₈) ← read_slice bytes at₇ msg_len "message"
    message ← decode_message msg_bytes
    (pending, last) ← decode_commit_body lib bytes at₈ other_hashes table_meta_for
    ok (record {
      author = author;
      deps = deps;
      other_hashes = other_hashes;
      timestamp = timestamp;
      message = message;
      pending = pending;
      extra_bytes = drop last bytes;
    })
