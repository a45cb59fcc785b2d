-- ===== src/Commit/Wire/Payload/Parts.antt =====
-- Lemmas on the parts of a payload, packages/coln-store/src/commit/wire/data.rs.
use coln.Prelude.{
  ℕ, ◌+◌, ◌^◌, ◌<◌, ◌≡◌, refl, sym, ◌∙◌, inl, inr, Option, some, none, String, List, [], ◌∷◌, ◌++◌,
  false, append_assoc, arith,
}
use coln.Prelude.Tests.{ltb, Bool-cases, nat_eq}
use coln.Prelude.Lists.{length, length-append}
use coln.Value.{TableOid}
use coln.Commit.Hash.{CommitHash, hash_size}
use coln.Commit.HashDict.{HashMapper}
use coln.Commit.HashDict.Wire.{hash_bytes, write_hash_dict, Sized}
use coln.Commit.Codec.{ok, ok-injective, ok_of_bind, read_slice}
use coln.Commit.Codec.Reading.{At, At-next, read_slice-At}
use coln.Commit.Leb128.{write_len, write_i64, write_u32, write_u64}
use coln.Commit.Wire.Libraries.{Libraries, Faithful}
use coln.Commit.Wire.Group.{TableMeta}
use coln.Commit.Wire.Body.{encode_commit_body}
use coln.Commit.Wire.Payload.{
  CommitData, message_bytes, expected_dict, read_deps, serialize, decode_message,
}

module _ (bytes : List ℕ) (small : length bytes < 2 ^ 64) where
  pub read_deps-At :
      (deps : List CommitHash) (at : ℕ) (rest : List ℕ)
      → Sized deps
      → At bytes at (hash_bytes deps ++ rest)
      → read_deps (length deps) bytes at ≡ ok (deps, at + length (hash_bytes deps))
  unfolding read_deps hash_bytes
  read_deps-At [] at rest sized here = ground arith
  read_deps-At (dep ∷ deps) at rest sized here =
      let here' : At bytes at (dep ++ (hash_bytes deps ++ rest)) = rw append_assoc at here in
      let first : read_slice bytes at hash_size "dep hash" ≡ ok (dep, at + hash_size) =
        rw sized.0 at
          (read_slice-At bytes at dep (hash_bytes deps ++ rest) here' "dep hash" small) in
      let behind : At bytes (at + hash_size) (hash_bytes deps ++ rest) =
        rw sized.0 at (At-next bytes at dep (hash_bytes deps ++ rest) here') in
      rw (first, read_deps-At deps (at + hash_size) rest sized.1 behind)
        (ground (arith, length-append dep (hash_bytes deps), sized.0))

-- A message that has bytes, if there is one.
abbrev pub IsShown : (String → List ℕ) → Option String → Type 0
IsShown as_bytes none = Unit
IsShown as_bytes (some message) = 0 < length (as_bytes message)

module _ (lib : Libraries) (faithful : Faithful lib) where
  pub decode_message-message_bytes :
      (message : Option String)
      → IsShown lib.as_bytes message
      → decode_message lib (message_bytes lib.as_bytes message) ≡ ok message
  unfolding decode_message
  decode_message-message_bytes none shown = refl
  decode_message-message_bytes (some message) shown =
      let not_empty : nat_eq (length (lib.as_bytes message)) 0 ≡ false = ground (arith, shown) in
      rw (not_empty, faithful.from_utf8_back message) refl

-- The parts, one after the other.
chain_five :
    (x a b c d e : List ℕ) → ((((x ++ a) ++ b) ++ c) ++ d) ++ e ≡ x ++ (a ++ (b ++ (c ++ (d ++ e))))
chain_five x a b c d e = simp append_assoc

chain_six :
    (x a b c d e f : List ℕ)
    → (((((x ++ a) ++ b) ++ c) ++ d) ++ e) ++ f ≡ x ++ (a ++ (b ++ (c ++ (d ++ (e ++ f)))))
chain_six x a b c d e f = simp append_assoc

module _ (lib : Libraries) (contents : CommitData) (mapper : HashMapper)
    (by_oid : TableOid → Option TableMeta) where
  abbrev pub msg : List ℕ
  msg = message_bytes lib.as_bytes contents.message

  -- The parts of a payload in their order, the body given.
  abbrev pub payload : List ℕ → List ℕ
  payload body =
      lib.unsigned (length contents.author)
      ++ (contents.author
          ++ (lib.unsigned (length contents.deps)
              ++ (hash_bytes contents.deps
                  ++ (lib.unsigned (length mapper.hashes)
                      ++ (hash_bytes mapper.hashes
                          ++ (lib.signed contents.timestamp
                              ++ (lib.unsigned (length msg)
                                  ++ (msg ++ (body ++ contents.extra_bytes)))))))))

  pub serialize-payload :
      (out : List ℕ)
      → serialize lib contents mapper by_oid ≡ ok out
      → (length mapper.hashes < 2 ^ 32)
        × ((body : List ℕ) × (encode_commit_body lib contents.pending by_oid mapper ≡ ok body)
            × (out ≡ payload body))
  unfolding serialize expected_dict write_hash_dict write_len write_i64 write_u32 write_u64
  serialize-payload out e = elim (Bool-cases (ltb (length mapper.hashes) (2 ^ 32))) [
    | inr many ↦ absurd (ground (arith, e, many))
    | inl few ↦
        let (body, encoded, done) =
          ok_of_bind (encode_commit_body lib contents.pending by_oid mapper) _ out
            (rw (few, serialize) at e) in
        (
          ground (arith, few),
          (
            body,
            encoded,
            sym (ok-injective _ _ done)
                ∙ chain_five _ (lib.signed contents.timestamp) (lib.unsigned (length msg)) msg body
                    contents.extra_bytes
                ∙ chain_six (lib.unsigned (length contents.author)) contents.author
                    (lib.unsigned (length contents.deps)) (hash_bytes contents.deps)
                    (lib.unsigned (length mapper.hashes)) (hash_bytes mapper.hashes)
                    (lib.signed contents.timestamp
                      ++ (lib.unsigned (length msg) ++ (msg ++ (body ++ contents.extra_bytes)))),
          ),
        )
  ]
