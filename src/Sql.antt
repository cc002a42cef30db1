-- ===== src/Sql.antt =====
-- crates/prehnitedb/src/sql: the statements that the engine is given.
pub mod Ast
