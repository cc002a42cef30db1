-- ===== src/Examples/Transactions.antt =====
-- The coordinator: visibility, reclamation and serialisable snapshot isolation at work.
use prehnite_db.Prelude.{
  ◌<◌, ◌+◌, ◌^◌, ◌≤◌, List, ℕ, ◌≡◌, refl, ◌∷◌, [], ◌&&◌, ◌||◌, not, true, false, none, some, ok,
  err, serialization, arith, ◌==◌,
}
use prehnite_db.Bytes.{Bytes, cmp}
use prehnite_db.Maps.{get, insert, has, contains, add, discard}
use prehnite_db.Maps.Laws.{IsDistinct}
use prehnite_db.Clog.{Record, committed, is_committed}
use prehnite_db.Clog.Append.{written, enqueue, take_turn, write_and_fsync, publish}
use prehnite_db.Transaction.{
  TxState, SsiMap, take_id, default_ssi, snapshot, visible, oldest_active_tx_id, commit_write,
  ssi_check_commit,
}
use prehnite_db.Transaction.Visibility.{sees, visible-sees}
use prehnite_db.Transaction.Quiet.{IsSettled}
use prehnite_db.Transaction.History.{
  System, clog_state, start_call, start_lead, write_batch, publish_batch, leave, Reach, begin, call,
  lead_batch, write, publication, departure, at_rest,
}
use prehnite_db.Transaction.History.Isolation.{visible-Reach}
use prehnite_db.Transaction.History.Reclaim.{is_dead, visible-is_dead, visible_although_dead}
use prehnite_db.Transaction.Rowids.{reserve_rowid, raise, bump, counter, store}
use prehnite_db.Transaction.Rowids.Unique.{Steps, reserve_rowid-Steps}
use prehnite_db.Ssi.{lock_eq}
use prehnite_db.Ssi.Growth.{Access, reads, writes, run}
use prehnite_db.Ssi.Conflicts.{IsEdge, is_conflict}
use prehnite_db.Ssi.Pivot.{ssi_check_commit-run}

-- Write skew: each of two transactions reads what the other then writes.
abbrev both_active : SsiMap
both_active = (1, default_ssi) ∷ (2, default_ssi) ∷ []

abbrev row_a : Bytes
row_a = 0 ∷ 1 ∷ []

abbrev row_b : Bytes
row_b = 0 ∷ 2 ∷ []

abbrev skew : List (ℕ × Access)
skew =
    (1, reads 7 row_a none)
    ∷ (2, reads 7 row_b none)
    ∷ (1, writes 7 row_b)
    ∷ (2, writes 7 row_a)
    ∷ []

both_active-IsDistinct : IsDistinct both_active
unfolding has
both_active-IsDistinct = (refl, (refl, tt))

IsEdge-1_2 : IsEdge 1 2 both_active
unfolding get
IsEdge-1_2 = (refl, (both_active-IsDistinct, ((default_ssi, refl), (default_ssi, refl))))

IsEdge-2_1 : IsEdge 2 1 both_active
unfolding get
IsEdge-2_1 = (refl, (both_active-IsDistinct, ((default_ssi, refl), (default_ssi, refl))))

conflict_1_2 : is_conflict 1 2 skew ≡ true
unfolding lock_eq cmp
conflict_1_2 = refl

conflict_2_1 : is_conflict 2 1 skew ≡ true
unfolding lock_eq cmp
conflict_2_1 = refl

ssi_check_commit-run_example : ssi_check_commit 2 (run skew both_active) ≡ err serialization
ssi_check_commit-run_example =
    ssi_check_commit-run 1 2 1 skew both_active IsEdge-1_2 IsEdge-2_1 conflict_1_2 conflict_2_1

-- Transaction 3 has committed and 5 is in flight.
abbrev one_flying : TxState
one_flying = record {
  next_tx_id = 6;
  in_flight = 5 ∷ [];
  clog = record {
    state = record {
      map = (3, committed) ∷ [];
      pending = [];
      next_lsn = 1;
      durable_lsn = 1;
      flushing = false;
      min_tx_id = 0;
    };
    file = [];
  };
  ssi = [];
}

one_flying-IsSettled : IsSettled one_flying
unfolding contains
one_flying-IsSettled = record {
  quiet = record { none_pending = refl; order = omega arith; idle = refl };
  given = λ tx h. ground arith;
}

-- 5 commits while 6 begins: the commit is enqueued when 6 gets its id, and published later.
abbrev batch : List Record
batch = (5, committed) ∷ []

abbrev enqueued : System
enqueued = start_call 5 committed (at_rest one_flying)

abbrev begun : System
begun = record enqueued { coordinator = (take_id enqueued.coordinator).1 }

abbrev led : System
led = start_lead 5 2 batch 2 begun

abbrev on_disk : System
on_disk = write_batch written 5 batch 2 led

abbrev published : System
published = publish_batch 5 batch 2 (ok tt) on_disk

abbrev landed : System
landed = leave 5 published

before_begin : Reach (at_rest one_flying) enqueued
unfolding get contains
before_begin = Reach.next Reach.here (call (at_rest one_flying) 5 committed refl refl)

until_begin : Reach (at_rest one_flying) begun
unfolding start_call enqueue
until_begin = Reach.next before_begin (begin enqueued (omega arith))

until_landed : Reach begun landed
unfolding start_call enqueue take_id start_lead take_turn write_batch write_and_fsync publish_batch
    publish get insert
until_landed =
    let one = Reach.next Reach.here (lead_batch begun 5 2 batch 2 refl refl) in
    let two = Reach.next one (write led written 5 batch 2 refl) in
    let three = Reach.next two (publication on_disk 5 batch 2 (ok tt) refl) in
    Reach.next three (departure published 5 2 refl refl)

visible-Reach_example :
    visible (snapshot begun.coordinator (some 6)) (clog_state landed) 3 5
    ≡ visible (snapshot begun.coordinator (some 6)) (clog_state begun) 3 5
visible-Reach_example =
    visible-Reach one_flying begun landed (some 6) 3 5 one_flying-IsSettled until_begin until_landed

visible-sees_example : visible (snapshot one_flying none) one_flying.clog.state 3 5 ≡ (
    (3 == 0 || sees (snapshot one_flying none) one_flying.clog.state 3)
    && (5 == 0 || not (sees (snapshot one_flying none) one_flying.clog.state 5)))
visible-sees_example = visible-sees (snapshot one_flying none) one_flying.clog.state 3 5

dead_row : is_dead (clog_state begun) (oldest_active_tx_id begun.coordinator) 0 3 ≡ true
unfolding is_dead oldest_active_tx_id is_committed get start_call enqueue take_id add
dead_row = refl

six_flies : contains 6 landed.coordinator.in_flight ≡ true
unfolding start_call enqueue take_id start_lead write_batch publish_batch leave contains discard add
six_flies = refl

visible-is_dead_example :
    visible (snapshot landed.coordinator (some 6)) (clog_state landed) 0 3 ≡ false
visible-is_dead_example =
    visible-is_dead one_flying begun landed (some 6) 0 3 one_flying-IsSettled until_begin
      until_landed six_flies dead_row

seen_3 : sees (snapshot one_flying none) one_flying.clog.state 3 ≡ true
unfolding sees is_committed get contains snapshot
seen_3 = refl

visible_although_dead_example :
    (u : TxState) × (commit_write written 5 one_flying ≡ some (ok tt, u))
    × (is_dead u.clog.state (oldest_active_tx_id u) 3 5 ≡ true)
    × (visible (snapshot one_flying none) u.clog.state 3 5 ≡ true)
visible_although_dead_example =
    visible_although_dead one_flying 3 5 one_flying-IsSettled refl (omega arith) (omega arith)
      seen_3

-- Two inserts into one table, one into another between them.
first_call : (reserve_rowid row_a 4 []).0 + 1 < 2 ^ 64
unfolding reserve_rowid raise bump counter store cmp
first_call = omega arith

other_call : (bump row_b (raise row_b 9 (reserve_rowid row_a 4 []).1)).0 + 1 < 2 ^ 64
unfolding reserve_rowid raise bump counter store cmp
other_call = omega arith

between :
    Steps (reserve_rowid row_a 4 []).1 (bump row_b (raise row_b 9 (reserve_rowid row_a 4 []).1)).1
between = Steps.bumping row_b (Steps.raising row_b 9 Steps.here) other_call

reserve_rowid-Steps_example :
    ((reserve_rowid row_a 4 []).0
      < (reserve_rowid row_a 1 (bump row_b (raise row_b 9 (reserve_rowid row_a 4 []).1)).1).0)
    × (1 ≤ (reserve_rowid row_a 1 (bump row_b (raise row_b 9 (reserve_rowid row_a 4 []).1)).1).0)
reserve_rowid-Steps_example = reserve_rowid-Steps row_a 4 1 [] first_call between
