-- ===== src/Transaction/Quiet.antt =====
-- A call of `commit_write` or of `rollback_write` that no other thread interrupts.
use prehnite_db.Prelude.{ℕ, ◌<◌, ◌≡◌, refl, true, false, some, ◌==◌}
use prehnite_db.Maps.{remove, contains, discard}
use prehnite_db.Maps.Laws.{get-insert}
use prehnite_db.Clog.{Status, committed, rolled_back, status}
use prehnite_db.Clog.Append.{Outcome, written, failed, Clog, record_commit, record_rollback}
use prehnite_db.Clog.Append.Quiet.{IsQuiet, appended, reported, append-quiet}
use prehnite_db.Transaction.{
  TxState, commit_write, rollback_write, resolve, leave_flight, close_slot,
}

-- No flush is under way, and ids in flight have been handed out.
pub record IsSettled (t : TxState) : Type 0 where
  pub quiet : IsQuiet t.clog.state
  pub given : (tx : ℕ) → contains tx t.in_flight ≡ true → tx < t.next_tx_id

-- What a commit or a rollback makes of the coordinator.
abbrev pub resolved : Outcome → ℕ → Status → TxState → TxState
resolved written tx st t = record t {
  clog = appended written tx st t.clog;
  in_flight = discard tx t.in_flight;
  ssi = remove tx t.ssi;
}
resolved (failed n) tx st t = record t { clog = appended (failed n) tx st t.clog }

pub commit_write-quiet :
    (outcome : Outcome) (tx : ℕ) (t : TxState)
    → IsQuiet t.clog.state
    → commit_write outcome tx t ≡ some (reported outcome, resolved outcome tx committed t)
unfolding commit_write resolve leave_flight close_slot record_commit
commit_write-quiet written tx t q = rw (append-quiet written tx committed t.clog q) refl
commit_write-quiet (failed n) tx t q = rw (append-quiet (failed n) tx committed t.clog q) refl

pub rollback_write-quiet :
    (outcome : Outcome) (tx : ℕ) (t : TxState)
    → IsQuiet t.clog.state
    → rollback_write outcome tx t ≡ some (reported outcome, resolved outcome tx rolled_back t)
unfolding rollback_write resolve leave_flight close_slot record_rollback
rollback_write-quiet written tx t q = rw (append-quiet written tx rolled_back t.clog q) refl
rollback_write-quiet (failed n) tx t q = rw (append-quiet (failed n) tx rolled_back t.clog q) refl

-- Only the status of the transaction itself changes.
pub status-appended :
    (outcome : Outcome) (tx : ℕ) (st : Status) (c : Clog) (j : ℕ)
    → (tx == j) ≡ false
    → status (appended outcome tx st c).state j ≡ status c.state j
unfolding status
status-appended written tx st c j h = rw (get-insert, h)
status-appended (failed n) tx st c j h = refl
