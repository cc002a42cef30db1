-- ===== src/Examples/CommitLog.antt =====
-- The commit log at work: appends, a truncation, faults, and opening the file again.
use prehnite_db.Prelude.{
  ℕ, ◌+◌, ◌≡◌, refl, Bool, List, ◌∷◌, [], ◌++◌, true, false, some, Result, ok, err, corruption,
  arith,
}
use prehnite_db.Clog.{committed, rolled_back, Record, status}
use prehnite_db.Clog.File.{header, encode_record, encode_records, open_clog}
use prehnite_db.Clog.File.RoundTrip.{IsBatch}
use prehnite_db.Clog.Append.{
  written, failed, Clog, append, flush_until, enqueue, take_turn, write_and_fsync,
}
use prehnite_db.Clog.Append.Quiet.{IsQuiet, appended, reported, append-quiet}
use prehnite_db.Clog.Truncate.{replaced, truncate_below}
use prehnite_db.Clog.Truncate.Statuses.{truncated_status, status-truncate_below}
use prehnite_db.Clog.System.{
  System, Reach, fresh, enqueue_record, start_flush, write_flush, flushing, flushed,
}
use prehnite_db.Clog.System.Invariant.{published}
use prehnite_db.Clog.System.Reopen.{durable_part, open_clog-Reach}
use prehnite_db.Clog.Faults.{after_failed_round, flush_until-after_failed_round, open_clog_torn}

abbrev small_log : Clog
small_log = record {
  state = record {
    map = (3, committed) ∷ (4, rolled_back) ∷ [];
    pending = [];
    next_lsn = 2;
    durable_lsn = 2;
    flushing = false;
    min_tx_id = 0;
  };
  file = header 0 ++ encode_records ((3, committed) ∷ (4, rolled_back) ∷ []);
}

small_log-IsQuiet : IsQuiet small_log.state
small_log-IsQuiet = record { none_pending = refl; order = omega arith; idle = refl }

append-quiet_example :
    append (failed 4) 5 committed small_log
    ≡ some (reported (failed 4), appended (failed 4) 5 committed small_log)
append-quiet_example = append-quiet (failed 4) 5 committed small_log small_log-IsQuiet

status-truncate_below_example :
    (r : Result (Unit {0})) × (handle : Bool) × (c' : Clog) × (truncate_below replaced 4 small_log
      ≡ some (r, handle, c'))
    × ((tx : ℕ) → status c'.state tx ≡ truncated_status replaced 4 tx (status small_log.state tx))
status-truncate_below_example = status-truncate_below replaced 4 small_log refl

abbrev two_records : List Record
two_records = (3, committed) ∷ (4, rolled_back) ∷ []

two_records-IsBatch : IsBatch two_records
two_records-IsBatch = (omega arith, (omega arith, tt))

open_clog_torn_example :
    (open_clog (
      header 2 ++ (encode_records two_records ++ ((9 ∷ 0 ∷ []) ++ encode_record (6, committed))))).0
    ≡ err corruption
open_clog_torn_example =
    open_clog_torn 2 two_records (9 ∷ 0 ∷ []) 6 committed (omega arith) two_records-IsBatch
      (omega arith) (omega arith) (omega arith)

flush_until-after_failed_round_example :
    (c' : Clog) × (flush_until written
        (2 + 2)
        (after_failed_round 5 committed 6 committed small_log)
      ≡ some (ok tt, c'))
    × (c'.file ≡ small_log.file)
    × (c'.state.map ≡ small_log.state.map)
flush_until-after_failed_round_example =
    flush_until-after_failed_round 5 6 committed committed written small_log refl (omega arith)

-- One writer enqueues, another joins it while the first leads; the first has written its batch
-- and not published it.
abbrev joined : System
joined = record {
  state = record {
    map = [];
    pending = (2, rolled_back) ∷ [];
    next_lsn = 2;
    durable_lsn = 0;
    flushing = true;
    min_tx_id = 0;
  };
  file = header 0 ++ encode_records ((1, committed) ∷ []);
  task = flushed ((1, committed) ∷ []) 1;
}

after_joining : Reach fresh joined
unfolding enqueue take_turn write_and_fsync encode_records
after_joining =
    let s1 : System = record fresh { state = (enqueue 1 committed fresh.state).1 } in
    let one = Reach.next Reach.here (enqueue_record fresh 1 committed (omega arith)) in
    let batch : List Record = (1, committed) ∷ [] in
    let s2 : System = record s1 { state = (take_turn 1 s1.state).1; task = flushing batch 1 } in
    let two = Reach.next one (start_flush s1 1 batch 1 refl) in
    let s3 : System = record s2 { state = (enqueue 2 rolled_back s2.state).1 } in
    let three = Reach.next two (enqueue_record s2 2 rolled_back (omega arith)) in
    Reach.next three (write_flush s3 batch 1 refl)

open_clog-Reach_example :
    open_clog joined.file ≡ (ok (durable_part (published joined.task joined.state)), joined.file)
open_clog-Reach_example = open_clog-Reach after_joining
