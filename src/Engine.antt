-- ===== src/Engine.antt =====
-- crates/prehnitedb/src/engine: from a planned statement to the values of its expressions.
pub mod Plan
pub mod Bind
pub mod Batch
pub mod Scope
pub mod Eval
pub mod Columnar
pub mod Join
pub mod Sort
pub mod Limit
pub mod Aggregates
pub mod Subquery
