-- ===== src/Transaction/History.antt =====
-- Transactions of several threads, as interleaved steps: what a call does under one lock is one
-- step, so that other threads come between the stages of `begin_write`, of `commit_write` and of
-- `rollback_write`, and between the turn of a leader of the commit log, its write and its
-- publication. Any write of the log may fail. The log is not truncated meanwhile.
pub mod Consistent
pub mod Since
pub mod Isolation
pub mod Reclaim
pub mod Whole
use prehnite_db.Prelude.{
  ℕ, ◌+◌, ◌^◌, ◌<◌, ◌≡◌, Bool, true, false, List, [], ◌∷◌, Option, none, some, Result, ok, err,
}
use prehnite_db.Bytes.{Bytes}
use prehnite_db.Maps.{get, insert, remove, contains}
use prehnite_db.Clog.{Status, Record, ClogState}
use prehnite_db.Clog.Append.{
  Outcome, Clog, enqueue, take_turn, Turn, durable, lead, write_and_fsync, publish,
}
use prehnite_db.Transaction.{TxState, take_id, open_slot, leave_flight, close_slot}

-- Who leads the flush of the commit log, with the batch, the LSN that it covers and, once the write
-- is done, its result.
pub data Task : Type 0 where
  idle : Task
  leading : ℕ → List Record → ℕ → Task
  wrote : ℕ → List Record → ℕ → Result (Unit {0}) → Task

-- `waiting` has a transaction from the moment that its `commit_write` or `rollback_write` has
-- enqueued the record until that call leaves the in-flight set or returns an error, beside the LSN
-- that the call has claimed, a local variable of its thread.
pub record System : Type 0 where
  pub coordinator : TxState
  pub task : Task
  pub waiting : List (ℕ × ℕ)

abbrev pub clog_state : System → ClogState
clog_state s = s.coordinator.clog.state

abbrev pub with_clog_state : ClogState → TxState → TxState
with_clog_state state t = record t { clog = record { state = state; file = t.clog.file } }

-- `record_commit` or `record_rollback` enqueues, the first thing that its caller does.
unfoldable pub start_call : ℕ → Status → System → System
unfolding enqueue
start_call tx st s =
    let (lsn, state) = enqueue tx st (clog_state s) in
    record s {
      coordinator = with_clog_state state s.coordinator;
      waiting = insert tx lsn s.waiting;
    }

-- A waiting call finds the log free, and leads.
unfoldable pub start_lead : ℕ → ℕ → List Record → ℕ → System → System
unfolding take_turn
start_lead tx target batch lsn s = record s {
  coordinator = with_clog_state (take_turn target (clog_state s)).1 s.coordinator;
  task = leading tx batch lsn;
}

-- The leader writes, with the mutex of the log released.
unfoldable pub write_batch : Outcome → ℕ → List Record → ℕ → System → System
unfolding write_and_fsync
write_batch outcome tx batch lsn s =
    let (result, file) = write_and_fsync outcome batch s.coordinator.clog.file in
    record s {
      coordinator = record s.coordinator {
        clog = record { state = s.coordinator.clog.state; file = file };
      };
      task = wrote tx batch lsn result;
    }

-- The leader publishes. After an error its own call returns it, with the transaction in flight.
released : ℕ → Result (Unit {0}) → List (ℕ × ℕ) → List (ℕ × ℕ)
released tx (ok _) waiting = waiting
released tx (err e) waiting = remove tx waiting

unfoldable pub publish_batch : ℕ → List Record → ℕ → Result (Unit {0}) → System → System
unfolding publish released
publish_batch tx batch lsn result s = record {
  coordinator = with_clog_state (publish batch lsn result (clog_state s)) s.coordinator;
  task = idle;
  waiting = released tx result s.waiting;
}

-- The call of a transaction whose record is durable goes on.
unfoldable pub leave : ℕ → System → System
unfolding leave_flight
leave tx s = record s { coordinator = leave_flight tx s.coordinator; waiting = remove tx s.waiting }

pub data Step : System → System → Type 0 where
  begin :
      (s : System)
      → s.coordinator.next_tx_id + 1 < 2 ^ 64
      → Step s (record s { coordinator = (take_id s.coordinator).1 })
  open_entry :
      (s : System) (tx : ℕ)
      → contains tx s.coordinator.in_flight ≡ true
      → Step s (record s { coordinator = open_slot tx s.coordinator })
  call :
      (s : System) (tx : ℕ) (st : Status)
      → contains tx s.coordinator.in_flight ≡ true
      → get tx s.waiting ≡ none
      → Step s (start_call tx st s)
  lead_batch :
      (s : System) (tx target : ℕ) (batch : List Record) (lsn : ℕ)
      → get tx s.waiting ≡ some target
      → (take_turn target (clog_state s)).0 ≡ lead batch lsn
      → Step s (start_lead tx target batch lsn s)
  write :
      (s : System) (outcome : Outcome) (tx : ℕ) (batch : List Record) (lsn : ℕ)
      → s.task ≡ leading tx batch lsn
      → Step s (write_batch outcome tx batch lsn s)
  publication :
      (s : System) (tx : ℕ) (batch : List Record) (lsn : ℕ) (result : Result (Unit {0}))
      → s.task ≡ wrote tx batch lsn result
      → Step s (publish_batch tx batch lsn result s)
  departure :
      (s : System) (tx target : ℕ)
      → get tx s.waiting ≡ some target
      → (take_turn target (clog_state s)).0 ≡ durable
      → Step s (leave tx s)
  close_entry :
      (s : System) (tx : ℕ)
      → contains tx s.coordinator.in_flight ≡ false
      → Step s (record s { coordinator = close_slot tx s.coordinator })

pub data Reach (s : System) : System → Type 0 where
  here : Reach s s
  next : {t u : System} → Reach s t → Step t u → Reach s u

-- No call is under way.
abbrev pub at_rest : TxState → System
at_rest t = record { coordinator = t; task = idle; waiting = [] }
