-- ===== src/Commit/Wire/Body/Groups.antt =====
-- Lemmas on the groups of a body, packages/coln-store/src/commit/wire/data.rs.
use coln.Prelude.{
  ℕ, ◌+◌, ◌^◌, ◌<◌, ◌≡◌, sym, ap, ◌∙◌, subst, inl, inr, Option, some, List, [], ◌∷◌, ◌++◌, map,
  append-nil, append_assoc, arith,
}
use coln.Prelude.Tests.{Option-cases}
use coln.Prelude.Lists.{length, length-append}
use coln.Value.{TableOid}
use coln.Txn.{PendingOp}
use coln.Ir.{IrPath}
use coln.Commit.HashDict.{HashMapper}
use coln.Commit.Codec.{Parsed, ok, ok-injective, ok_of_bind}
use coln.Commit.Codec.Reading.{At, At-next}
use coln.Commit.Leb128.Blobs
use coln.Commit.Leb128.Blobs.{blob}
use coln.Commit.Wire.Libraries.{Libraries, Faithful}
use coln.Commit.Wire.Columns.RowRefs.{IsUsable}
use coln.Commit.Wire.Group.{TableMeta, DecodedOpGroup, encode_op_group, decode_op_group}
use coln.Commit.Wire.Group.Transpose.{AllTuples}
use coln.Commit.Wire.Group.RoundTrip.{decode-encode_op_group}
use coln.Commit.Wire.Body.{OpGroups, encode_groups, decode_groups}
use coln.Commit.Wire.Body.Replay.{decoded}

-- The tables by their positions and by their paths are the same.
pub record IsCatalog (by_oid : TableOid → Option TableMeta) (by_path : IrPath → Option TableMeta)
    : Type 0 where
  pub oid : (table : TableOid) (meta : TableMeta) → by_oid table ≡ some meta → meta.oid ≡ table
  pub path :
      (table : TableOid) (meta : TableMeta)
      → by_oid table ≡ some meta
      → by_path meta.path ≡ some meta
  pub narrow :
      (table : TableOid) (meta : TableMeta)
      → by_oid table ≡ some meta
      → length meta.schema.columns < 2 ^ 64

abbrev pub AllGroups : OpGroups → Type 0
AllGroups [] = Unit
AllGroups (group ∷ groups) = AllTuples group.1 × (length group.1 < 2 ^ 64) × AllGroups groups

module _ (lib : Libraries) (faithful : Faithful lib) (mapper : HashMapper)
    (usable : IsUsable mapper) (by_oid : TableOid → Option TableMeta)
    (by_path : IrPath → Option TableMeta) (catalog : IsCatalog by_oid by_path) where
  -- What encoding the groups put behind the buffer, and what decoding finds there.
  pub record EncodedGroups (groups : OpGroups) (buf out : List ℕ) : Type 0 where
    pub tail : List ℕ
    pub grown : out ≡ buf ++ tail
    pub read :
        (bytes rest : List ℕ) (at : ℕ)
        → length bytes < 2 ^ 64
        → At bytes at (tail ++ rest)
        → decode_groups lib (length groups) bytes at mapper.hashes by_path
          ≡ ok (map decoded groups, at + length tail)

  decode-group :
      (table : TableOid) (ops : List PendingOp) (meta : TableMeta) (part : List ℕ)
      → AllTuples ops
      → length ops < 2 ^ 64
      → by_oid table ≡ some meta
      → encode_op_group lib meta.path table meta.schema ops mapper ≡ ok part
      → length part < 2 ^ 59
      → decode_op_group lib part mapper.hashes by_path ≡ ok (decoded (table, ops))
  decode-group table ops meta part cells few known e small =
      let by_path_e : by_path meta.path
          ≡ some (record { path = meta.path; oid = table; schema = meta.schema }) =
        catalog.path table meta known
        ∙ ap (λ (t : TableOid). with_oid t) (catalog.oid table meta known) in
      decode-encode_op_group lib faithful mapper usable meta.path table meta.schema ops part by_path
        cells few (catalog.narrow table meta known) by_path_e e small
    where
      with_oid : TableOid → Option TableMeta
      with_oid t = some (record { path = meta.path; oid = t; schema = meta.schema })

  EncodedGroups-cons :
      (group : TableOid × List PendingOp) (groups : OpGroups) (buf part out : List ℕ)
      → decode_op_group lib part mapper.hashes by_path ≡ ok (decoded group)
      → EncodedGroups groups (buf ++ blob lib.unsigned part) out
      → EncodedGroups (group ∷ groups) buf out
  unfolding decode_groups
  EncodedGroups-cons group groups buf part out back q = record {
    tail = blob lib.unsigned part ++ q.tail;
    grown = q.grown ∙ append_assoc buf (blob lib.unsigned part) q.tail;
    read = λ bytes rest at fit here.
        let part_blob = blob lib.unsigned part in
        let here' : At bytes at (part_blob ++ (q.tail ++ rest)) =
          rw (append_assoc part_blob q.tail rest) at here in
        let behind = At-next bytes at part_blob (q.tail ++ rest) here' in
        rw
          (
            Blobs.read-blob lib.unsigned faithful.writes bytes fit at part (q.tail ++ rest)
                "op group" here',
            back,
            q.read bytes rest (at + length part_blob) fit behind,
          )
          (ap ended (omega (arith, length-append part_blob q.tail)));
  }
    where
      ended : ℕ → Parsed (List DecodedOpGroup × ℕ)
      ended n = ok (decoded group ∷ map decoded groups, n)

  pub encode_groups-EncodedGroups :
      (groups : OpGroups) (buf out : List ℕ)
      → AllGroups groups
      → encode_groups lib groups by_oid mapper buf ≡ ok out
      → length out < 2 ^ 59
      → EncodedGroups groups buf out
  unfolding encode_groups decode_groups
  encode_groups-EncodedGroups [] buf out cells e small = record {
    tail = [];
    grown = sym (ok-injective _ _ e) ∙ sym (append-nil buf);
    read = λ bytes rest at _ _. ground arith;
  }
  encode_groups-EncodedGroups ((table, ops) ∷ groups) buf out cells e small =
      elim (Option-cases (by_oid table)) [
        | inr missing ↦ absurd (ground (arith, e, missing))
        | inl (meta, known) ↦
            let (part, encoded, e₁) =
              ok_of_bind (encode_op_group lib meta.path table meta.schema ops mapper) _ out
                (rw (known, encode_groups) at e) in
            let later : encode_groups lib groups by_oid mapper (buf ++ blob lib.unsigned part)
                ≡ ok out =
              subst (λ b. encode_groups lib groups by_oid mapper b ≡ ok out)
                (Blobs.write_len_prefixed_bytes-blob lib.unsigned buf part) e₁ in
            let q =
              encode_groups-EncodedGroups groups (buf ++ blob lib.unsigned part) out cells.2 later
                small in
            let short : length part < 2 ^ 59 = omega (
              arith,
              small,
              ap length q.grown,
              length-append (buf ++ blob lib.unsigned part) q.tail,
              length-append buf (blob lib.unsigned part),
              length-append (lib.unsigned (length part)) part,
            ) in
            EncodedGroups-cons (table, ops) groups buf part out
              (decode-group table ops meta part cells.0 cells.1 known encoded short) q
      ]
