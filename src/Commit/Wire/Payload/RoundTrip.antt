-- ===== src/Commit/Wire/Payload/RoundTrip.antt =====
-- Lemmas on serializing and deserializing a payload, packages/coln-store/src/commit/wire/data.rs.
use coln.Prelude.{ℕ, ◌+◌, ◌^◌, ◌<◌, ◌≤◌, ◌≡◌, refl, subst, Option, List, ◌++◌, arith}
use coln.Prelude.Lists.{length}
use coln.Value.{TableOid}
use coln.Ir.{IrPath}
use coln.Commit.HashDict.{HashMapper}
use coln.Commit.HashDict.Wire.{hash_bytes, Sized, read_hash_dict-At}
use coln.Commit.Codec.{ok}
use coln.Commit.Codec.Reading.{At, At-start, At-next, At-fits, read_slice-At}
use coln.Commit.Leb128.Blobs
use coln.Commit.Leb128.Signed.{IsI64}
use coln.Commit.Leb128.SignedLoop.{read_i64-signed}
use coln.Commit.Wire.Libraries.{Libraries, Faithful}
use coln.Commit.Wire.Columns.RowRefs.{IsUsable}
use coln.Commit.Wire.Group.{TableMeta}
use coln.Commit.Wire.Group.Transpose.{AllTuples}
use coln.Commit.Wire.Body.Replay.{IsNumbered}
use coln.Commit.Wire.Body.Groups.{IsCatalog}
use coln.Commit.Wire.Body.RoundTrip.{decode-encode_commit_body}
use coln.Commit.Wire.Payload.{CommitData, serialize, deserialize}
use coln.Commit.Wire.Payload.Parts.{
  IsShown, read_deps-At, decode_message-message_bytes, msg, serialize-payload,
}

-- Contents in the range of the source's types: hashes of 32 bytes, an `i64` for the time, a message that
-- is not empty, and operations numbered from 0 with cells of 32 bits.
pub record IsCommitData (lib : Libraries) (contents : CommitData) : Type 0 where
  pub dep_sizes : Sized contents.deps
  pub dep_count : length contents.deps < 2 ^ 64
  pub time : IsI64 contents.timestamp
  pub shown : IsShown lib.as_bytes contents.message
  pub cells : AllTuples contents.pending
  pub numbered : IsNumbered 0 contents.pending
  pub op_count : length contents.pending ≤ 2 ^ 32

module _ (lib : Libraries) (faithful : Faithful lib) (mapper : HashMapper)
    (usable : IsUsable mapper) (hash_sizes : Sized mapper.hashes)
    (by_oid : TableOid → Option TableMeta) (by_path : IrPath → Option TableMeta)
    (catalog : IsCatalog by_oid by_path) where
  abbrev read_back : CommitData → CommitData
  read_back contents = record contents { other_hashes = mapper.hashes }

  -- A payload that `serialize` gives is taken back by `deserialize` to the same author, parents, time,
  -- message, operations and trailing bytes, with the dictionary's hashes. The contents are in range, the
  -- tables are known by their positions and their paths alike, the dictionary is consistent, of fewer
  -- than 2^32 whole hashes, and the payload has fewer than 2^59 bytes.
  pub deserialize-serialize :
      (contents : CommitData) (out : List ℕ)
      → IsCommitData lib contents
      → serialize lib contents mapper by_oid ≡ ok out
      → length out < 2 ^ 59
      → deserialize lib out by_path ≡ ok (read_back contents)
  unfolding deserialize
  deserialize-serialize contents out good e small =
      let (few, made) = serialize-payload lib contents mapper by_oid out e in
      let (body, encoded, whole) = made in
      let fit : length out < 2 ^ 64 = omega (arith, small) in
      let extra = contents.extra_bytes in
      let text = msg lib contents mapper by_oid in
      let after_text = body ++ extra in
      let after_time = lib.unsigned (length text) ++ (text ++ after_text) in
      let after_dict = lib.signed contents.timestamp ++ after_time in
      let after_deps =
        lib.unsigned (length mapper.hashes) ++ (hash_bytes mapper.hashes ++ after_dict) in
      let after_author =
        lib.unsigned (length contents.deps) ++ (hash_bytes contents.deps ++ after_deps) in
      let here₀ : At out 0
          (lib.unsigned (length contents.author) ++ (contents.author ++ after_author)) =
        subst (At out 0) whole (At-start out) in
      let p₁ = 0 + length (lib.unsigned (length contents.author)) in
      let here₁ =
        At-next out 0 (lib.unsigned (length contents.author)) (contents.author ++ after_author)
          here₀ in
      let p₂ = p₁ + length contents.author in
      let here₂ = At-next out p₁ contents.author after_author here₁ in
      let p₃ = p₂ + length (lib.unsigned (length contents.deps)) in
      let here₃ =
        At-next out p₂ (lib.unsigned (length contents.deps))
          (hash_bytes contents.deps ++ after_deps) here₂ in
      let p₄ = p₃ + length (hash_bytes contents.deps) in
      let here₄ = At-next out p₃ (hash_bytes contents.deps) after_deps here₃ in
      let p₅ = p₄ + length (lib.unsigned (length mapper.hashes)) in
      let here₅ =
        At-next out p₄ (lib.unsigned (length mapper.hashes))
          (hash_bytes mapper.hashes ++ after_dict) here₄ in
      let p₆ = p₅ + length (hash_bytes mapper.hashes) in
      let here₆ = At-next out p₅ (hash_bytes mapper.hashes) after_dict here₅ in
      let p₇ = p₆ + length (lib.signed contents.timestamp) in
      let here₇ = At-next out p₆ (lib.signed contents.timestamp) after_time here₆ in
      let p₈ = p₇ + length (lib.unsigned (length text)) in
      let here₈ = At-next out p₇ (lib.unsigned (length text)) (text ++ after_text) here₇ in
      let p₉ = p₈ + length text in
      let here₉ = At-next out p₈ text after_text here₈ in
      let end = At-next out p₉ body extra here₉ in
      rw
        (
          Blobs.read_number lib.unsigned faithful.writes out fit 0 (length contents.author)
              (contents.author ++ after_author) "author_len"
              (omega (arith, fit, At-fits out p₁ contents.author after_author here₁)) here₀,
          read_slice-At out p₁ contents.author after_author here₁ "author" fit,
          Blobs.read_number lib.unsigned faithful.writes out fit p₂ (length contents.deps)
              (hash_bytes contents.deps ++ after_deps) "deps count" good.dep_count here₂,
          read_deps-At out fit contents.deps p₃ after_deps good.dep_sizes here₃,
          read_hash_dict-At lib.unsigned faithful.writes mapper.hashes out after_dict p₄ fit
              hash_sizes few here₄,
          read_i64-signed lib.signed faithful.writes_signed out after_time p₆ contents.timestamp
              "timestamp" fit good.time here₆,
          Blobs.read_number lib.unsigned faithful.writes out fit p₇ (length text)
              (text ++ after_text) "message length"
              (omega (arith, fit, At-fits out p₈ text after_text here₈)) here₇,
          read_slice-At out p₈ text after_text here₈ "message" fit,
          decode_message-message_bytes lib faithful contents.message good.shown,
          decode-encode_commit_body lib faithful mapper usable by_oid by_path catalog
              contents.pending body out extra p₉ good.cells good.numbered good.op_count encoded
              (omega (arith, small, At-fits out p₉ body extra here₉)) fit here₉,
          end.follows,
        )
        refl
