-- ===== src/Engine/Plan.antt =====
-- crates/prehnitedb/src/engine/planner.rs: the plan that the planner hands to the executor.
pub mod Conjuncts
pub mod Chain
use prehnite_db.Prelude.{ℕ, Bool, List, Option}
use prehnite_db.Bytes.{Bytes}
use prehnite_db.Schema.{Column}
use prehnite_db.Sql.Ast.{
  ValueRows, Condition, Projection, Assignments, FromClause, ColumnRef, OrderKey,
}

pub data AccessPath : Type 0 where
  full_scan : AccessPath
  index_scan : ℕ → Bytes → Option Bytes → AccessPath

pub data Plan : Type 0 where
  create_table : Bytes → List Column → Option ℕ → List ℕ → Plan
  drop_table : Bytes → Plan
  create_index : Bytes → Bytes → List Bytes → Plan
  drop_index : Bytes → Plan
  insert : Bytes → Option (List Bytes) → ValueRows → Plan
  -- the fields from, projection, filter, access, group_by, having, order_by, presorted, limit and
  -- offset
  select :
      FromClause
      → Projection
      → Condition
      → AccessPath
      → List ColumnRef
      → Condition
      → List OrderKey
      → Bool
      → Option ℕ
      → Option ℕ
      → Plan
  update : Bytes → Assignments → Condition → AccessPath → Plan
  delete : Bytes → Condition → AccessPath → Plan
  vacuum : Plan
  analyze : Bytes → Plan
  explain : Plan → Bool → Plan
