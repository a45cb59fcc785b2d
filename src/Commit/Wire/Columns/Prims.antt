-- ===== src/Commit/Wire/Columns/Prims.antt =====
-- Lemmas on columns of plain values, packages/coln-store/src/commit/wire/data.rs.
use coln.Prelude.{
  ℕ, ◌+◌, ◌^◌, ◌<◌, ◌≡◌, refl, sym, ap, ◌∙◌, subst, List, [], ◌∷◌, ◌++◌, append-nil, append_assoc,
  arith,
}
use coln.Prelude.Tests.{nat_eq_self}
use coln.Prelude.Lists.{length, take-append, length-append}
use coln.Txn.{TxnWireValue}
use coln.Ir.{BuiltinTy, ColType}
use coln.Commit.HashDict.{HashMapper}
use coln.Commit.Codec.{Parsed, ok, ok-injective, ok_of_bind}
use coln.Commit.Codec.Reading.{At, At-start, At-next, At-fits}
use coln.Commit.Leb128.Blobs
use coln.Commit.Wire.Libraries.{Libraries, Faithful, AllBelow}
use coln.Commit.Wire.PrimValue.{ValueMeta, meta_length, encode_prim_value, decode_prim_value}
use coln.Commit.Wire.PrimValue.RoundTrip.{Written, encode_prim_value-Written}
use coln.Commit.Wire.Columns.{
  encode_prim_values, decode_prim_values, encode_txn_prim_value_column,
  decode_txn_prim_value_column, encode_txn_value_column, decode_txn_value_column,
}
use coln.Commit.Wire.Columns.RowRefs.{AllCells, IsUsable, decode-encode_row_refs}

-- Of a value in front, wherever it stands in the bytes.
module _ (lib : Libraries) (ty : BuiltinTy) (value : TxnWireValue) (m : ValueMeta) (bytes : List ℕ)
    (sized : meta_length m ≡ length bytes)
    (read : decode_prim_value lib m ty bytes ≡ ok value) where
  decode_first :
      (meta : List ValueMeta) (values : List TxnWireValue) (value_blob rest : List ℕ)
      (offset last : ℕ)
      → length value_blob < 2 ^ 64
      → At value_blob offset (bytes ++ rest)
      → decode_prim_values lib meta ty value_blob (offset + length bytes) ≡ ok (values, last)
      → decode_prim_values lib (m ∷ meta) ty value_blob offset ≡ ok (value ∷ values, last)
  unfolding decode_prim_values
  decode_first meta values value_blob rest offset last small here later =
      rw (sized, here.follows, take-append bytes rest, read, later)
        (ground (arith, At-fits value_blob offset bytes rest here))

module _ (lib : Libraries) (faithful : Faithful lib) (ty : BuiltinTy) where
  -- What encoding values put behind the buffer, and what decoding finds there.
  record Encoded (values : List TxnWireValue) (out : List ℕ) (result : List ValueMeta × List ℕ)
      : Type 0 where
    tail : List ℕ
    grown : result.1 ≡ out ++ tail
    fits : AllBelow (2 ^ 64) result.0
    read :
        (value_blob rest : List ℕ) (offset : ℕ)
        → length value_blob < 2 ^ 64
        → At value_blob offset (tail ++ rest)
        → decode_prim_values lib result.0 ty value_blob offset ≡ ok (values, offset + length tail)

  Encoded-cons :
      (value : TxnWireValue) (values : List TxnWireValue) (out out₁ : List ℕ) (m : ValueMeta)
      (others : List ValueMeta × List ℕ)
      → Written lib value ty out m out₁
      → Encoded values out₁ others
      → Encoded (value ∷ values) out (m ∷ others.0, others.1)
  Encoded-cons value values out out₁ m others w q = record {
    tail = w.bytes ++ q.tail;
    grown = q.grown ∙ ap (λ o. o ++ q.tail) w.grown ∙ append_assoc out w.bytes q.tail;
    fits = (w.fits, q.fits);
    read = λ value_blob rest offset fit here.
        let here' : At value_blob offset (w.bytes ++ (q.tail ++ rest)) = rw append_assoc at here in
        let behind = At-next value_blob offset w.bytes (q.tail ++ rest) here' in
        decode_first lib ty value m w.bytes w.sized w.read others.0 values value_blob
          (q.tail ++ rest) offset _ fit here'
          (q.read value_blob rest (offset + length w.bytes) fit behind)
        ∙ ap (λ (n : ℕ). with_end n) (omega (arith, length-append w.bytes q.tail));
  }
    where
      with_end : ℕ → Parsed (List TxnWireValue × ℕ)
      with_end n = ok (value ∷ values, n)

  encode_prim_values-Encoded :
      (values : List TxnWireValue) (out : List ℕ) (result : List ValueMeta × List ℕ)
      → AllCells values
      → encode_prim_values lib values ty out ≡ ok result
      → length result.1 < 2 ^ 59
      → Encoded values out result
  unfolding encode_prim_values decode_prim_values
  encode_prim_values-Encoded [] out result cells e small =
      subst (Encoded [] out) (ok-injective _ _ e) (record {
        tail = [];
        grown = sym (append-nil out);
        fits = tt;
        read = λ value_blob rest offset _ _. ground arith;
      })
  encode_prim_values-Encoded (value ∷ values) out result cells e small =
      let (first, e₁, after) = ok_of_bind (encode_prim_value lib value ty out) _ result e in
      let (others, e₂, done) =
        ok_of_bind (encode_prim_values lib values ty first.1) _ result after in
      let short : length others.1 < 2 ^ 59 =
        omega (
          arith,
          small,
          ap (λ (r : List ValueMeta × List ℕ). length r.1) (ok-injective _ _ done),
        ) in
      let q = encode_prim_values-Encoded values first.1 others cells.1 e₂ short in
      let w =
        encode_prim_value-Written lib faithful value ty out first.1 first.0 cells.0 e₁
          (omega (arith, short, ap length q.grown, length-append first.1 q.tail)) in
      subst (Encoded (value ∷ values) out) (ok-injective _ _ done)
        (Encoded-cons value values out first.1 first.0 others w q)

  -- A column of values that was encoded decodes to the values.
  pub decode-encode_prims :
      (values : List TxnWireValue) (out : List ℕ)
      → AllCells values
      → encode_txn_prim_value_column lib values ty ≡ ok out
      → length out < 2 ^ 59
      → decode_txn_prim_value_column lib out ty ≡ ok values
  unfolding encode_txn_prim_value_column decode_txn_prim_value_column
  decode-encode_prims values out cells e small =
      let (result, encoded, done) = ok_of_bind (encode_prim_values lib values ty []) _ out e in
      let a = lib.save_meta result.0 in
      let whole : out ≡ Blobs.put_two lib.unsigned a result.1 = sym (ok-injective _ _ done) in
      let short = Blobs.length-second lib.unsigned out a result.1 whole in
      let c =
        encode_prim_values-Encoded values [] result cells encoded (omega (arith, small, short)) in
      let fit : length out < 2 ^ 64 = omega (arith, small) in
      let here : At result.1 0 (c.tail ++ []) =
        subst (At result.1 0) (c.grown ∙ sym (append-nil c.tail)) (At-start result.1) in
      let all : 0 + length c.tail ≡ length result.1 = omega (arith, ap length c.grown) in
      rw
        (
          Blobs.read_first lib.unsigned faithful.writes out a result.1 whole fit
              "txn prim value meta column",
          Blobs.read_second lib.unsigned faithful.writes out a result.1 whole fit
              "txn prim value column",
          nat_eq_self (length out),
          faithful.load_meta_back result.0 c.fits,
          c.read result.1 [] 0 (omega (arith, small, short)) here,
          all,
          nat_eq_self (length result.1),
        )
        refl

module _ (lib : Libraries) (faithful : Faithful lib) (mapper : HashMapper)
    (usable : IsUsable mapper) where
  -- Whatever column `encode_txn_value_column` gives, of references or of values, decodes to its cells
  -- with the hashes of the dictionary. The dictionary is consistent, of fewer than 2^32 hashes, the
  -- cells' numbers have 32 bits and the column has fewer than 2^59 bytes.
  pub decode-encode_value_column :
      (values : List TxnWireValue) (col_type : ColType) (out : List ℕ)
      → AllCells values
      → encode_txn_value_column lib values col_type mapper ≡ ok out
      → length out < 2 ^ 59
      → decode_txn_value_column lib out col_type mapper.hashes ≡ ok values
  unfolding encode_txn_value_column decode_txn_value_column
  decode-encode_value_column values (ColType.row_id path) out cells e small =
      decode-encode_row_refs lib faithful mapper usable values out cells e (omega (arith, small))
  decode-encode_value_column values (ColType.builtin_ty ty) out cells e small =
      decode-encode_prims lib faithful ty values out cells e small
