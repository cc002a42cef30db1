-- ===== src/Clog/Append.antt =====
-- The group commit of crates/prehnitedb/src/engine/clog.rs: what a writer does under the state
-- mutex, before and after the I/O, and a whole call that no other writer interrupts.
pub mod Quiet
use prehnite_db.Prelude.{
  ℕ, ◌+◌, Bool, true, false, List, [], ◌∷◌, ◌++◌, Option, none, some, Error, io, Result, ok, err,
  leb, take, if◌then◌else◌,
}
use prehnite_db.Bytes.{Bytes}
use prehnite_db.Maps.{insert_all}
use prehnite_db.Clog.{Status, committed, rolled_back, Record, ClogState}
use prehnite_db.Clog.File.{encode_records}

-- What the operating system does with a write and its fsync: all of it, or an error after some of
-- the bytes.
pub data Outcome : Type 0 where
  written : Outcome
  failed : ℕ → Outcome

-- Stage 1 of `append`: the claimed LSN beside the new state.
unfoldable pub enqueue : ℕ → Status → ClogState → ℕ × ClogState
enqueue tx_id st s = (
  s.next_lsn + 1,
  record s { next_lsn = s.next_lsn + 1; pending = s.pending ++ (tx_id, st) ∷ [] },
)

-- What a round of the loop of `flush_until` finds: the record is durable, a peer is flushing, or
-- this writer leads, with its batch and the LSN that the batch covers.
pub data Turn : Type 0 where
  durable : Turn
  park : Turn
  lead : List Record → ℕ → Turn

unfoldable pub take_turn : ℕ → ClogState → Turn × ClogState
take_turn target s =
    if leb target s.durable_lsn
    then (durable, s)
    else if s.flushing
    then (park, s)
    else (lead s.pending s.next_lsn, record s { flushing = true; pending = [] })

-- On a log that has its handle; without one the code panics.
unfoldable pub write_and_fsync : Outcome → List Record → Bytes → Result (Unit {0}) × Bytes
write_and_fsync outcome [] file = (ok tt, file)
write_and_fsync written (r ∷ batch) file = (ok tt, file ++ encode_records (r ∷ batch))
write_and_fsync (failed n) (r ∷ batch) file = (err io, file ++ take n (encode_records (r ∷ batch)))

-- The end of a leader's round, under the state mutex again.
unfoldable pub publish : List Record → ℕ → Result (Unit {0}) → ClogState → ClogState
publish batch snapshot_lsn (ok _) s = record s {
  map = insert_all batch s.map;
  durable_lsn = snapshot_lsn;
  flushing = false;
}
publish batch snapshot_lsn (err e) s = record s { flushing = false }

-- The handle: the shared state and the file.
pub record Clog : Type 0 where
  pub state : ClogState
  pub file : Bytes

finish_round : Outcome → Clog → Turn → Option (Result (Unit {0}) × Clog)
unfolding write_and_fsync publish
finish_round outcome c durable = some (ok tt, c)
finish_round outcome c park = none
finish_round outcome c (lead batch lsn) =
    let (result, file) = write_and_fsync outcome batch c.file in
    some (result, record { state = publish batch lsn result c.state; file = file })

-- A call of `flush_until` with no writer in between; `none` where it parks.
unfoldable pub flush_until : Outcome → ℕ → Clog → Option (Result (Unit {0}) × Clog)
unfolding take_turn finish_round
flush_until outcome target c =
    let (turn, s) = take_turn target c.state in finish_round outcome (record c { state = s }) turn

unfoldable pub append : Outcome → ℕ → Status → Clog → Option (Result (Unit {0}) × Clog)
unfolding enqueue flush_until
append outcome tx_id st c =
    let (lsn, s) = enqueue tx_id st c.state in flush_until outcome lsn (record c { state = s })

unfoldable pub record_commit : Outcome → ℕ → Clog → Option (Result (Unit {0}) × Clog)
unfolding append
record_commit outcome tx_id c = append outcome tx_id committed c

unfoldable pub record_rollback : Outcome → ℕ → Clog → Option (Result (Unit {0}) × Clog)
unfolding append
record_rollback outcome tx_id c = append outcome tx_id rolled_back c
