-- ===== src/Transaction/Visibility.antt =====
-- One rule decides both ends of a row's life: the transactions that a snapshot sees.
use prehnite_db.Prelude.{ℕ, ◌≡◌, Bool, not, ◌&&◌, ◌||◌, arith, ltb, ◌==◌}
use prehnite_db.Maps.{contains}
use prehnite_db.Clog.{ClogState, is_committed}
use prehnite_db.Transaction.{Snapshot, is_own, visible}

-- The reader's own transaction, and whatever had committed when the snapshot was taken.
unfoldable pub sees : Snapshot → ClogState → ℕ → Bool
sees s clog tx =
    is_own s tx || (is_committed clog tx && (ltb tx s.next_tx && not (contains tx s.in_flight)))

-- A row is visible exactly if its creator is 0 or is seen, and its deleter is 0 or is not seen,
-- where a snapshot sees its own transaction and the committed ones below its `next_tx` that were
-- not in flight.
pub visible-sees :
    (s : Snapshot) (clog : ClogState) (tx_min tx_max : ℕ)
    → visible s clog tx_min tx_max
      ≡ ((tx_min == 0 || sees s clog tx_min) && (tx_max == 0 || not (sees s clog tx_max)))
unfolding visible sees
visible-sees s clog tx_min tx_max = ground arith
