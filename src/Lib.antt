-- ===== src/Lib.antt =====
-- PrehniteDB, an embedded SQL database with MVCC, serialisable snapshot isolation, a commit log
-- and a client/server protocol: the parts whose correctness the rest of the engine rests on.
--
-- The parts and their files (paths below crates/prehnitedb/src unless they start with crates/):
--   * engine/transaction.rs, the coordinator of write transactions, is Transaction: `TxState`,
--     `Snapshot`, `visible`, `begin_write`, `commit_write`, `rollback_write`. These calls take
--     the lock of the coordinator, of the commit log and of the SSI map one after the other, so
--     each is also given by its stages: Transaction/History lets the stages of all threads
--     interleave with the group commit, Consistent is the invariant of the coordinator and the
--     log, and Whole shows that the calls that nothing interrupts, those of Quiet, are made of
--     the stages. Transaction/Rowids has the rowid counters. The SSI half of the coordinator, the
--     `record_*` functions on the map of read locks and conflict flags, is Ssi; Ssi/Growth puts
--     the accesses of all transactions in one sequence.
--   * engine/clog.rs, the commit log that says which transactions have committed, is Clog. File
--     is the bytes of its file, Append the group commit, Truncate the rewriting of the file,
--     System the interleaving of writers and truncations, where each write and each rename is a
--     step between those under the state mutex, Faults what failed writes leave. Operations are
--     those of a log that has its file open; `truncate_below` reports whether it still has after
--     a failure. Snapshots read statuses through `is_committed`; the coordinator commits through
--     `record_commit`.
--   * engine/codec.rs is Codec: Rows are the B+tree's values, Schemas the catalog's values, and
--     IndexKeys the keys of index trees. engine/value.rs is Value, engine/schema.rs is Schema and
--     error.rs is Prelude/Results.
--   * storage/wal.rs, the write-ahead log of a pager, is Wal: Scan and Cut are what recovery
--     makes of a whole log and of one that is cut off, Replay what it writes, Recovery a
--     transaction's log from its first page to its replay.
--   * The split of an overflowing node in storage/btree.rs, and the sizes of cells in
--     storage/page.rs, are Btree. The binary searches of storage/page.rs are Page, over the keys
--     of a page's cells.
--   * sql/ast.rs is Sql/Ast, and the type of plans in engine/planner.rs is Engine/Plan, with the
--     conjuncts of a predicate in Engine/Plan/Conjuncts. engine/bind.rs, which puts parameters
--     for placeholders, is Engine/Bind.
--   * engine/executor.rs: Engine/Scope resolves column names, Engine/Eval evaluates an expression
--     on a row, Engine/Subquery prepares the subqueries of an expression and resolves those that
--     depend on the row, Engine/Columnar evaluates on a whole batch of rows and filters it,
--     Engine/Join has the nested-loop and the hash join, Engine/Sort the order of ORDER BY,
--     Engine/Limit LIMIT and OFFSET, Engine/Aggregates the state of the aggregate functions.
--     engine/batch.rs, the batches, is Engine/Batch.
--   * Outcome is a result, or a panic of the program (an index out of range, `unreachable!`);
--     Real is what the program does with the bits of an `f64`.
--   * protocol.rs is Protocol: Frames on a stream, and Messages in them.
--   * The test of engine/database.rs for rows that garbage collection may delete is
--     Transaction/History/Reclaim.
--   * Prelude, Bytes, Reader, Utf8 and Maps are what these share: native numbers, byte strings
--     and their order, the bounds-checked cursor of both decoders, `String::from_utf8`, and hash
--     maps.
--
-- How the program is read. Numbers are natural numbers with the ranges of their Rust types as
-- hypotheses; an `as` cast that can cut a number off is written with `%`, or by the fixed number
-- of bytes that is written. An `i64` is an integer with its two's complement, a REAL its IEEE-754
-- bit pattern, a `String` its UTF-8 bytes. A hash map is a list of entries without order beyond
-- that of insertion. Errors are results; the text of an error is left out. A file is its bytes; a
-- write succeeds, or fails after some of its bytes. A stream is the sequence of what its reads
-- meet: some bytes, an interruption, a failure or the end.
--
-- An operator of the executor is the list of the rows, or batches, that it returns before it
-- ends: what a call of `next` keeps for the next one is where the recursion on its input stands.
-- Two records are parameters: `RealOps` is the arithmetic of `f64`, `Database` what a subquery
-- needs, the catalog and the execution of a statement.
--
-- Fuel occurs three times. The highest bit of a `u64` is sought in 64 rounds, one for each bit.
-- The loops that read the write-ahead log have one round more than the log has bytes, and each
-- round reads one at least. The binary searches have one round more than there are keys, and each
-- round shortens the interval. All other loops are recursion on the list or on the number of the
-- elements that they walk through.
--
-- Not modelled: the SQL lexer and parser, the planner but for its plans and its treatment of
-- conjuncts, of the executor the groups of aggregates, index joins, spilling to disk, parallel
-- scans, DDL and DML, the pager, the bytes of a page, all of the B+tree but its searches in a
-- page and the choice of a split, the sessions of engine/database.rs, the per-table, catalog and
-- commit locks of the coordinator, and the processes around the library (crates/prehnited,
-- crates/prehnite-cli).
pub mod Prelude
pub mod Bytes
pub mod Reader
pub mod Utf8
pub mod Maps
pub mod Value
pub mod Schema
pub mod Codec
pub mod Clog
pub mod Transaction
pub mod Ssi
pub mod Protocol
pub mod Wal
pub mod Page
pub mod Btree
pub mod Examples
pub mod Outcome
pub mod Sql
pub mod Engine
pub mod Real
