-- ===== src/Commit/Wire/Columns/RowRefs.antt =====
-- Lemmas on columns of row references, packages/coln-store/src/commit/wire/data.rs.
use coln.Prelude.{
  ℕ, suc, ◌%◌, ◌^◌, ◌<◌, ◌≡◌, refl, sym, ap, subst, inl, inr, some, List, [], ◌∷◌, arith,
}
use coln.Prelude.Int.{ℤ, pos}
use coln.Prelude.Tests.{Option-cases, nat_eq_self}
use coln.Prelude.Lists.{length, lt-get_elem?}
use coln.Value.{id, int, str, WireRowId}
use coln.Txn.{TxnWireValue, existing, pending}
use coln.Commit.HashDict.{HashMapper, index}
use coln.Commit.HashDict.Consistent.{IsConsistent}
use coln.Commit.Codec.{ok, ok-injective, ok_of_bind}
use coln.Commit.Leb128.Blobs
use coln.Commit.Wire.Libraries.{Libraries, Faithful, IsI64, AllI64, AllBelow}
use coln.Commit.Wire.PrimValue.RoundTrip.{IsCell}
use coln.Commit.Wire.Columns.{
  row_ref_parts, split_row_refs, row_ref_of, join_row_refs, encode_txn_row_ref_column,
  decode_txn_row_ref_column,
}

abbrev pub AllCells : List TxnWireValue → Type 0
AllCells [] = Unit
AllCells (value ∷ values) = IsCell value × AllCells values

-- A dictionary whose indices fit.
pub record IsUsable (mapper : HashMapper) : Type 0 where
  pub consistent : IsConsistent mapper
  pub count : length mapper.hashes < 2 ^ 32

module _ (mapper : HashMapper) (usable : IsUsable mapper) where
  -- The parts of a reference are in range and give it back.
  abbrev PartsOf : TxnWireValue → ℤ × ℕ → Type 0
  PartsOf value parts =
      IsI64 parts.0 × (parts.1 < 2 ^ 32) × (row_ref_of mapper.hashes parts.0 parts.1 ≡ ok value)

  existing-PartsOf :
      (row : WireRowId) (i : ℕ)
      → row.counter < 2 ^ 32
      → index mapper row.commit ≡ some i
      → PartsOf (id (existing row)) (pos i, row.counter)
  unfolding row_ref_of index
  existing-PartsOf row i c e =
      let at_index = usable.consistent.located row.commit i e in
      let inside = lt-get_elem? mapper.hashes i at_index in
      let low : i % 2 ^ 64 ≡ i = omega (arith, inside, usable.count) in
      (omega (arith, inside, usable.count), c, ground (arith, low, at_index))

  row_ref_parts-PartsOf :
      (value : TxnWireValue) (parts : ℤ × ℕ)
      → IsCell value
      → row_ref_parts mapper value ≡ ok parts
      → PartsOf value parts
  unfolding row_ref_parts row_ref_of
  row_ref_parts-PartsOf (id (existing row)) parts cell e =
      elim (Option-cases (index mapper row.commit)) [
        | inl (i, found) ↦
            subst (PartsOf (id (existing row))) (ok-injective _ _ (rw (found, row_ref_parts) at e))
              (existing-PartsOf row i cell found)
        | inr missing ↦ absurd (ground (arith, e, missing))
      ]
  row_ref_parts-PartsOf (id (pending temp)) parts cell e =
      subst (PartsOf (id (pending temp))) (ok-injective _ _ e) (omega arith, cell, refl)
  row_ref_parts-PartsOf (int i) parts cell e = absurd (cc)
  row_ref_parts-PartsOf (str s) parts cell e = absurd (cc)

  abbrev ColumnsOf : List TxnWireValue → List ℤ × List ℕ → Type 0
  ColumnsOf values columns =
      AllI64 columns.0
      × AllBelow (2 ^ 32) columns.1
      × (length columns.0 ≡ length columns.1)
      × (join_row_refs mapper.hashes columns.0 columns.1 ≡ ok values)

  split_row_refs-ColumnsOf :
      (values : List TxnWireValue) (columns : List ℤ × List ℕ)
      → AllCells values
      → split_row_refs mapper values ≡ ok columns
      → ColumnsOf values columns
  unfolding split_row_refs join_row_refs
  split_row_refs-ColumnsOf [] columns cells e =
      subst (ColumnsOf []) (ok-injective _ _ e) (tt, tt, refl, refl)
  split_row_refs-ColumnsOf (value ∷ values) columns cells e =
      let (first, e₁, after) = ok_of_bind (row_ref_parts mapper value) _ columns e in
      let (rest, e₂, done) = ok_of_bind (split_row_refs mapper values) _ columns after in
      let p = row_ref_parts-PartsOf value first cells.0 e₁ in
      let q = split_row_refs-ColumnsOf values rest cells.1 e₂ in
      subst (ColumnsOf (value ∷ values)) (ok-injective _ _ done)
        ((p.0, q.0), (p.1, q.1), ap suc q.2, rw (p.2, q.3) refl)

module _ (lib : Libraries) (faithful : Faithful lib) where
  module _ (mapper : HashMapper) (usable : IsUsable mapper) where
    -- A column of row references that was encoded decodes to the references, pending ones included.
    pub decode-encode_row_refs :
        (values : List TxnWireValue) (out : List ℕ)
        → AllCells values
        → encode_txn_row_ref_column lib values mapper ≡ ok out
        → length out < 2 ^ 64
        → decode_txn_row_ref_column lib out mapper.hashes ≡ ok values
    unfolding encode_txn_row_ref_column decode_txn_row_ref_column
    decode-encode_row_refs values out cells e small =
        let (columns, split, done) = ok_of_bind (split_row_refs mapper values) _ out e in
        let c = split_row_refs-ColumnsOf mapper usable values columns cells split in
        let a = lib.save_i64 columns.0 in
        let b = lib.save_delta columns.1 in
        let whole : out ≡ Blobs.put_two lib.unsigned a b = sym (ok-injective _ _ done) in
        rw
          (
            Blobs.read_first lib.unsigned faithful.writes out a b whole small
                "txn row-ref hash-index column",
            Blobs.read_second lib.unsigned faithful.writes out a b whole small
                "txn row-ref counter column",
            nat_eq_self (length out),
            faithful.load_i64_back columns.0 c.0,
            faithful.load_delta_back columns.1 c.1,
            c.2,
            nat_eq_self (length columns.1),
          )
          c.3
