-- ===== src/Schema.antt =====
-- crates/prehnitedb/src/engine/schema.rs: the description of a table that the catalog stores.
use prehnite_db.Prelude.{ℕ, Bool, List, Option}
use prehnite_db.Bytes.{Bytes}
use prehnite_db.Value.{ColumnType, Value}

pub data ForeignKeyAction : Type 0 where
  restrict cascade set_null : ForeignKeyAction

pub record ForeignKeyTarget : Type 0 where
  pub table : Bytes
  pub column : Bytes
  pub on_delete : ForeignKeyAction

pub record HistogramBucket : Type 0 where
  pub lower : Value
  pub upper : Value
  pub count : ℕ

pub record ColumnStats : Type 0 where
  pub n_distinct : ℕ
  pub null_count : ℕ
  pub total_rows : ℕ
  pub histogram : List HistogramBucket

pub record Column : Type 0 where
  pub name : Bytes
  pub ty : ColumnType
  pub not_null : Bool
  pub foreign_key : Option ForeignKeyTarget
  pub stats : Option ColumnStats

pub record Index : Type 0 where
  pub name : Bytes
  pub columns : List ℕ
  pub root : ℕ
  pub unique : Bool
  pub is_building : Bool

pub record Schema : Type 0 where
  pub name : Bytes
  pub columns : List Column
  pub root : ℕ
  pub next_rowid : ℕ
  pub row_count : ℕ
  pub indexes : List Index
  pub primary_key_column : Option ℕ
  pub mutations_since_analyze : ℕ
