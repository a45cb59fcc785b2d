-- ===== src/Examples/WirePoints.antt =====
-- A table, two operations on it and their dictionary, for the examples of the wire format.
use coln.Prelude.{
  ℕ, zero, suc, ◌+◌, ◌^◌, ◌<◌, ◌≤◌, ◌≡◌, refl, sym, ap, ◌∙◌, subst, inl, inr, Option, some, none,
  ◌⊎◌, String, List, [], ◌∷◌, ◌++◌, map, append-nil, arith,
}
use coln.Prelude.Int.{pos, negsuc}
use coln.Prelude.Tests.{◌==◌, if◌then◌else◌, String-eq}
use coln.Prelude.Lists.{length, replicate}
use coln.Value.{TableOid, id, int}
use coln.Txn.{PendingOp, add, TxnWireValue, existing, pending, collect_op_hashes}
use coln.Txn.Resolve.{collect_op_hashes_exact}
use coln.Ir
use coln.Ir.{IrPath, Schema, ColType}
use coln.Commit.Hash.{CommitHash}
use coln.Commit.HashDict
use coln.Commit.HashDict.{HashMapper}
use coln.Commit.Codec.{Parsed, ok, err, crash}
use coln.Commit.Wire.Columns.RowRefs.{IsUsable}
use coln.Commit.Wire.Group.{TableMeta}
use coln.Commit.Wire.Group.Transpose.{AllTuples}
use coln.Commit.Wire.Body.Replay.{IsNumbered}
use coln.Commit.Wire.Body.Groups.{IsCatalog}

abbrev pub value_or : {A : Type 0} → A → Parsed A → A
value_or a (ok b) = b
value_or a (err e) = a
value_or a crash = a

-- A table of an integer and a reference.
abbrev pub points : TableMeta
points = record {
  path = "T";
  oid = 0;
  schema = record {
    entity_variant = Ir.table;
    columns =
        record { path = "x"; col_type = ColType.builtin_ty Ir.builtin_int }
        ∷ record { path = "next"; col_type = ColType.row_id "T" }
        ∷ [];
    primary_key = none;
  };
}

abbrev pub by_oid : TableOid → Option TableMeta
by_oid zero = some points
by_oid (suc n) = none

abbrev pub by_path : IrPath → Option TableMeta
by_path path = if path == "T" then some points else none

some_inj : (a b : TableMeta) → some a ≡ some b → a ≡ b
some_inj a b e = cc

pub points-IsCatalog : IsCatalog by_oid by_path
points-IsCatalog = record { oid = oid_e; path = path_e; narrow = narrow_e }
  where
    oid_e : (table : TableOid) (meta : TableMeta) → by_oid table ≡ some meta → meta.oid ≡ table
    oid_e zero meta e = ap (λ (m : TableMeta). m.oid) (sym (some_inj points meta e))
    oid_e (suc n) meta e = absurd (cc)

    path_e :
        (table : TableOid) (meta : TableMeta)
        → by_oid table ≡ some meta
        → by_path meta.path ≡ some meta
    path_e zero meta e =
        subst (λ (m : TableMeta). by_path m.path ≡ some m) (some_inj points meta e) refl
    path_e (suc n) meta e = absurd (cc)

    narrow_e :
        (table : TableOid) (meta : TableMeta)
        → by_oid table ≡ some meta
        → length meta.schema.columns < 2 ^ 64
    narrow_e zero meta e =
        subst (λ (m : TableMeta). length m.schema.columns < 2 ^ 64) (some_inj points meta e)
          (omega arith)
    narrow_e (suc n) meta e = absurd (cc)

abbrev pub earlier : CommitHash
earlier = replicate 32 7

abbrev pub first_cells : List TxnWireValue
first_cells = int (negsuc 69) ∷ id (existing (record { commit = earlier; counter = 3 })) ∷ []

abbrev pub second_cells : List TxnWireValue
second_cells = int (pos 5) ∷ id (pending 0) ∷ []

abbrev pub two_points : List PendingOp
two_points = add 0 0 first_cells ∷ add 1 0 second_cells ∷ []

abbrev pub dictionary : HashMapper
dictionary = record { hashes = earlier ∷ []; indexes = (earlier, 0) ∷ [] }

dictionary_e : collect_op_hashes two_points HashDict.empty ≡ dictionary
unfolding collect_op_hashes HashDict.insert coln.Prelude.Maps.get coln.Prelude.Maps.insert
dictionary_e = refl

pub dictionary-IsUsable : IsUsable dictionary
dictionary-IsUsable = record {
  consistent =
      subst (λ (m : HashMapper). HashDict.Consistent.IsConsistent m) dictionary_e
        (collect_op_hashes_exact two_points (omega arith)).0;
  count = omega arith;
}

pub two_points-cells : AllTuples two_points
two_points-cells = ((omega arith, (omega arith, tt)), ((omega arith, (omega arith, tt)), tt))

pub two_points-IsNumbered : IsNumbered 0 two_points
two_points-IsNumbered = (refl, (refl, tt))
