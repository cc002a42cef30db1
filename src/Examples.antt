-- ===== src/Examples.antt =====
-- Tests, and the theorems at concrete inputs.
mod Transactions
mod CommitLog
mod Encodings
mod Messages
mod WriteAhead
mod Trees
mod Queries
mod Sorting
