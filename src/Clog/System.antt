-- ===== src/Clog/System.antt =====
-- Writers and truncations that share one commit log, as interleaved steps. What happens under the
-- state mutex is one step, and so is the I/O, for which the mutex is released: enqueues come between
-- a leader's turn, its write and its publication, and between the three parts of a truncation. A
-- failed write has written nothing, and a failed truncation has not replaced the file and keeps or
-- recovers its handle.
pub mod Invariant
pub mod Reopen
use prehnite_db.Prelude.{ℕ, ◌^◌, ◌<◌, ◌≡◌, List, [], ok, err, io, ◌++◌, true, false}
use prehnite_db.Bytes.{Bytes}
use prehnite_db.Clog.{Status, Record, ClogState}
use prehnite_db.Clog.File.{header, encode_records}
use prehnite_db.Clog.Append.{enqueue, take_turn, Turn, lead, publish, written, write_and_fsync}
use prehnite_db.Clog.Truncate.{
  begin_truncate, Plan, rewrite, swap_file, end_truncate, replaced, not_replaced,
}

-- Who holds the flush slot, and what it carries from one step to the next. `flushed` and `swapped`
-- have done their I/O and have not published it.
pub data Task : Type 0 where
  idle : Task
  flushing : List Record → ℕ → Task
  flushed : List Record → ℕ → Task
  truncating : ℕ → List Record → Task
  swapped : ℕ → Task

pub record System : Type 0 where
  pub state : ClogState
  pub file : Bytes
  pub task : Task

pub data Step : System → System → Type 0 where
  enqueue_record :
      (s : System) (tx_id : ℕ) (st : Status)
      → tx_id < 2 ^ 64
      → Step s (record s { state = (enqueue tx_id st s.state).1 })
  start_flush :
      (s : System) (target : ℕ) (batch : List Record) (lsn : ℕ)
      → (take_turn target s.state).0 ≡ lead batch lsn
      → Step s (record s { state = (take_turn target s.state).1; task = flushing batch lsn })
  write_flush :
      (s : System) (batch : List Record) (lsn : ℕ)
      → s.task ≡ flushing batch lsn
      → Step s
          (record s { file = (write_and_fsync written batch s.file).1; task = flushed batch lsn })
  publish_flush :
      (s : System) (batch : List Record) (lsn : ℕ)
      → s.task ≡ flushed batch lsn
      → Step s (record s { state = publish batch lsn (ok tt) s.state; task = idle })
  fail_flush :
      (s : System) (batch : List Record) (lsn : ℕ)
      → s.task ≡ flushing batch lsn
      → Step s (record s { state = publish batch lsn (err io) s.state; task = idle })
  start_truncate :
      (s : System) (floor : ℕ) (kept : List Record)
      → floor < 2 ^ 64
      → (begin_truncate floor s.state).0 ≡ rewrite kept
      → Step s (record s { state = (begin_truncate floor s.state).1; task = truncating floor kept })
  swap :
      (s : System) (floor : ℕ) (kept : List Record)
      → s.task ≡ truncating floor kept
      → Step s (record s { file = (swap_file replaced floor kept s.file).2; task = swapped floor })
  publish_truncation :
      (s : System) (floor : ℕ)
      → s.task ≡ swapped floor
      → Step s (record s { state = end_truncate replaced floor s.state; task = idle })
  fail_truncation :
      (s : System) (floor : ℕ) (kept : List Record)
      → s.task ≡ truncating floor kept
      → Step s (record s { state = end_truncate (not_replaced true) floor s.state; task = idle })

pub data Reach (s : System) : System → Type 0 where
  here : Reach s s
  next : {t u : System} → Reach s t → Step t u → Reach s u

-- The log that `open` makes of an empty file.
abbrev pub fresh : System
fresh = record {
  state = record {
    map = [];
    pending = [];
    next_lsn = 0;
    durable_lsn = 0;
    flushing = false;
    min_tx_id = 0;
  };
  file = header 0;
  task = idle;
}
