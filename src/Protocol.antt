-- ===== src/Protocol.antt =====
-- crates/prehnitedb/src/protocol.rs: the messages between a client and the server.
pub mod Frames
pub mod Messages
use prehnite_db.Prelude.{ℕ, ◌*◌, List}
use prehnite_db.Bytes.{Bytes}
use prehnite_db.Value.{Value}

pub data Request : Type 0 where
  query : Bytes → Request
  prepare : Bytes → Request
  execute : ℕ → List Value → Request
  deallocate : ℕ → Request

pub data Response : Type 0 where
  ack : Bytes → Response
  error : Bytes → Response
  rows_begin : List Bytes → Response
  row : List Value → Response
  rows_end : Response
  prepared : ℕ → Response

abbrev pub tag_query : ℕ
tag_query = 0x01

abbrev pub tag_prepare : ℕ
tag_prepare = 0x02

abbrev pub tag_execute : ℕ
tag_execute = 0x03

abbrev pub tag_deallocate : ℕ
tag_deallocate = 0x04

abbrev pub tag_ack : ℕ
tag_ack = 0x10

abbrev pub tag_rows_begin : ℕ
tag_rows_begin = 0x11

abbrev pub tag_error : ℕ
tag_error = 0x12

abbrev pub tag_row : ℕ
tag_row = 0x13

abbrev pub tag_rows_end : ℕ
tag_rows_end = 0x14

abbrev pub tag_prepared : ℕ
tag_prepared = 0x15

abbrev pub max_frame : ℕ
max_frame = 64 * 1024 * 1024
