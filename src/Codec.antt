-- ===== src/Codec.antt =====
-- crates/prehnitedb/src/engine/codec.rs: the byte formats of rows, schemas and index keys.
pub mod Primitives
pub mod Rows
pub mod Schemas
pub mod IndexKeys
