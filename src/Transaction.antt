-- ===== src/Transaction.antt =====
-- crates/prehnitedb/src/engine/transaction.rs: the transaction coordinator and its snapshots. A
-- call that takes several locks one after the other is split into its stages, one for each lock; the
-- calls themselves, `begin_write`, `commit_write` and `rollback_write`, run their stages with no
-- other thread in between.
pub mod Visibility
pub mod Quiet
pub mod History
pub mod Rowids
use prehnite_db.Prelude.{
  ℕ, ◌+◌, ◌^◌, ◌%◌, Bool, true, false, not, ◌&&◌, ◌||◌, List, [], ◌∷◌, Option, none, some, Error,
  serialization, Result, ok, err, max, ltb, leb, ◌==◌, if◌then◌else◌,
}
use prehnite_db.Bytes.{Bytes}
use prehnite_db.Maps.{get, insert, remove, contains, add, discard}
use prehnite_db.Clog.{ClogState, is_committed}
use prehnite_db.Clog.Append.{Outcome, Clog, record_commit, record_rollback}

-- What a snapshot holds of its own. Its clog, SSI and rowid handles are shared with the
-- coordinator, and are arguments of the functions that read them.
pub record Snapshot : Type 0 where
  pub next_tx : ℕ
  pub in_flight : List ℕ
  pub own_tx : Option ℕ

abbrev pub is_own : Snapshot → ℕ → Bool
is_own s tx = elim s.own_tx [ none ↦ false | some own ↦ own == tx ]

created : Snapshot → ClogState → ℕ → Bool
created s clog tx_min =
    if is_own s tx_min
    then true
    else if tx_min == 0
    then true
    else if not (is_committed clog tx_min)
    then false
    else ltb tx_min s.next_tx && not (contains tx_min s.in_flight)

-- The rest of `visible`, for a row that is created to the snapshot.
alive : Snapshot → ClogState → ℕ → Bool
alive s clog tx_max =
    if tx_max == 0
    then true
    else if is_own s tx_max
    then false
    else if not (is_committed clog tx_max)
    then true
    else leb s.next_tx tx_max || contains tx_max s.in_flight

unfoldable pub visible : Snapshot → ClogState → ℕ → ℕ → Bool
unfolding created alive
visible s clog tx_min tx_max = if not (created s clog tx_min) then false else alive s clog tx_max

-- The read locks and the two conflict flags of one transaction.
pub data ReadLock : Type 0 where
  tuple : ℕ → Bytes → ReadLock
  relation : ℕ → ReadLock
  index_range : ℕ → Bytes → Option Bytes → ReadLock

pub record SsiTxState : Type 0 where
  pub read_set : List ReadLock
  pub out_conflict : Bool
  pub in_conflict : Bool

abbrev pub SsiMap : Type 0
SsiMap = List (ℕ × SsiTxState)

-- `SsiTxState::default()`
abbrev pub default_ssi : SsiTxState
default_ssi = record { read_set = []; out_conflict = false; in_conflict = false }

pub record TxState : Type 0 where
  pub next_tx_id : ℕ
  pub in_flight : List ℕ
  pub clog : Clog
  pub ssi : SsiMap

unfoldable pub new : ℕ → Clog → TxState
new persisted_next_tx_id clog = record {
  next_tx_id = max persisted_next_tx_id 1;
  in_flight = [];
  clog = clog;
  ssi = [];
}

unfoldable pub snapshot : TxState → Option ℕ → Snapshot
snapshot t own = record { next_tx = t.next_tx_id; in_flight = t.in_flight; own_tx = own }

-- `begin_write` while it holds the mutex of the coordinator.
unfoldable pub take_id : TxState → ℕ × TxState
take_id t = (
  t.next_tx_id,
  record t { next_tx_id = (t.next_tx_id + 1) % 2 ^ 64; in_flight = add t.next_tx_id t.in_flight },
)

-- `begin_write` under the mutex of the SSI map, the other one released.
unfoldable pub open_slot : ℕ → TxState → TxState
open_slot id t = record t { ssi = insert id default_ssi t.ssi }

unfoldable pub begin_write : TxState → ℕ × TxState
unfolding take_id open_slot
begin_write t = let (id, taken) = take_id t in (id, open_slot id taken)

-- The end of `commit_write` and of `rollback_write`, after the clog has the record: out of the
-- in-flight set under the mutex of the coordinator, then out of the SSI map under its own.
unfoldable pub leave_flight : ℕ → TxState → TxState
leave_flight tx_id t = record t { in_flight = discard tx_id t.in_flight }

unfoldable pub close_slot : ℕ → TxState → TxState
close_slot tx_id t = record t { ssi = remove tx_id t.ssi }

-- An error of the clog leaves the coordinator as it was.
resolve : ℕ → TxState → Option (Result (Unit {0}) × Clog) → Option (Result (Unit {0}) × TxState)
unfolding leave_flight close_slot
resolve tx_id t none = none
resolve tx_id t (some (err e, clog)) = some (err e, record t { clog = clog })
resolve tx_id t (some (ok _, clog)) =
    some (ok tt, close_slot tx_id (leave_flight tx_id (record t { clog = clog })))

unfoldable pub commit_write : Outcome → ℕ → TxState → Option (Result (Unit {0}) × TxState)
unfolding resolve
commit_write outcome tx_id t = resolve tx_id t (record_commit outcome tx_id t.clog)

unfoldable pub rollback_write : Outcome → ℕ → TxState → Option (Result (Unit {0}) × TxState)
unfolding resolve
rollback_write outcome tx_id t = resolve tx_id t (record_rollback outcome tx_id t.clog)

unfoldable pub ssi_check_commit : ℕ → SsiMap → Result (Unit {0})
ssi_check_commit tx ssi = elim (get tx ssi) [
  | none ↦ ok tt
  | some s ↦ if s.in_conflict && s.out_conflict then err serialization else ok tt
]

-- `iter().min()`
smallest : ℕ → List ℕ → ℕ
smallest m [] = m
smallest m (x ∷ xs) = smallest (if ltb x m then x else m) xs

-- `.min().copied().unwrap_or(next_tx_id)`
oldest : ℕ → List ℕ → ℕ
unfolding smallest
oldest next [] = next
oldest next (x ∷ xs) = smallest x xs

unfoldable pub oldest_active_tx_id : TxState → ℕ
unfolding oldest
oldest_active_tx_id t = oldest t.next_tx_id t.in_flight
