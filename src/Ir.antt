-- ===== src/Ir.antt =====
-- Schemas, packages/coln-flir-rs/src/ir/mod.rs.
use coln.Prelude.{ℕ, String, Option, List}

abbrev pub IrPath : Type 0
IrPath = String

pub data BuiltinTy : Type 0 where
  builtin_int builtin_str : BuiltinTy

pub data ColType : Type 0 where
  row_id : IrPath → ColType
  builtin_ty : BuiltinTy → ColType

pub data Materialization : Type 0 where
  recomputed memoized materialized : Materialization

pub data IndexMethod : Type 0 where
  btree : IndexMethod

pub data EntityVariant : Type 0 where
  table : EntityVariant
  view : Materialization → EntityVariant
  index : IndexMethod → List IrPath → EntityVariant

pub record ColumnEntry : Type 0 where
  pub path : IrPath
  pub col_type : ColType

pub record Schema : Type 0 where
  pub entity_variant : EntityVariant
  pub columns : List ColumnEntry
  pub primary_key : Option (List ℕ)
