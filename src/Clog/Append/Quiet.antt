-- ===== src/Clog/Append/Quiet.antt =====
-- A call of `append` that no other writer interrupts, from a log that nobody is flushing.
use prehnite_db.Prelude.{
  ℕ, ◌+◌, ◌≤◌, ◌≡◌, false, [], ◌∷◌, ◌++◌, some, io, Result, ok, err, arith, take,
}
use prehnite_db.Maps.{insert, insert_all}
use prehnite_db.Clog.{Status, ClogState}
use prehnite_db.Clog.File.{encode_records}
use prehnite_db.Clog.Append.{
  Outcome, written, failed, Clog, enqueue, take_turn, publish, write_and_fsync, flush_until, append,
}

pub record IsQuiet (s : ClogState) : Type 0 where
  pub none_pending : s.pending ≡ []
  pub order : s.durable_lsn ≤ s.next_lsn
  pub idle : s.flushing ≡ false

-- What the log is after the call.
abbrev pub appended : Outcome → ℕ → Status → Clog → Clog
appended written tx_id st c = record {
  state = record {
    map = insert tx_id st c.state.map;
    pending = [];
    next_lsn = c.state.next_lsn + 1;
    durable_lsn = c.state.next_lsn + 1;
    flushing = false;
    min_tx_id = c.state.min_tx_id;
  };
  file = c.file ++ encode_records ((tx_id, st) ∷ []);
}
appended (failed n) tx_id st c = record {
  state = record {
    map = c.state.map;
    pending = [];
    next_lsn = c.state.next_lsn + 1;
    durable_lsn = c.state.durable_lsn;
    flushing = false;
    min_tx_id = c.state.min_tx_id;
  };
  file = c.file ++ take n (encode_records ((tx_id, st) ∷ []));
}

abbrev pub reported : Outcome → Result (Unit {0})
reported written = ok tt
reported (failed n) = err io

-- A call of `append` on a log with nothing pending and nobody flushing returns: with the record
-- in the map and at the end of the file if the write succeeds, and with an error, the map as it
-- was and a part of the record in the file if it fails.
pub append-quiet :
    (outcome : Outcome) (tx_id : ℕ) (st : Status) (c : Clog)
    → IsQuiet c.state
    → append outcome tx_id st c ≡ some (reported outcome, appended outcome tx_id st c)
unfolding append enqueue flush_until take_turn publish write_and_fsync insert_all
append-quiet written tx_id st c q = rw q.none_pending (ground arith)
append-quiet (failed n) tx_id st c q = rw q.none_pending (ground arith)

pub appended-IsQuiet :
    (outcome : Outcome) (tx_id : ℕ) (st : Status) (c : Clog)
    → IsQuiet c.state
    → IsQuiet (appended outcome tx_id st c).state
appended-IsQuiet written tx_id st c q = ground arith
appended-IsQuiet (failed n) tx_id st c q = ground arith
