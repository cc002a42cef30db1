-- ===== src/Clog/Truncate/Statuses.antt =====
-- What a truncation does to the statuses that the log answers with.
use prehnite_db.Prelude.{
  ℕ, ◌≡◌, refl, Bool, true, false, Option, some, Result, ok, ltb, leb, if◌then◌else◌, arith,
  Bool-cases, inl, inr,
}
use prehnite_db.Maps.{retain}
use prehnite_db.Maps.Laws.{get-retain}
use prehnite_db.Clog.{Status, committed, status}
use prehnite_db.Clog.Append.{Clog}
use prehnite_db.Clog.Truncate.{
  Swap, replaced, not_replaced, not_reopened, begin_truncate, end_truncate, truncate_below,
  finish_truncate, swap_file,
}

-- The status after a truncation, of what had the status `old`.
abbrev pub truncated_status : Swap → ℕ → ℕ → Option Status → Option Status
truncated_status replaced floor tx old = if ltb tx floor then some committed else old
truncated_status other floor tx old = old

rewritten : Swap → ℕ → Clog → Result (Unit {0}) × Bool × Clog
rewritten swap floor c =
    let kept = retain (λ id. leb floor id) c.state.map in
    let (result, handle, file) = swap_file swap floor kept c.file in
    (result, handle, record { state = end_truncate swap floor c.state; file = file })

truncate_below_low :
    (swap : Swap) (floor : ℕ) (c : Clog)
    → c.state.flushing ≡ false
    → leb floor c.state.min_tx_id ≡ true
    → truncate_below swap floor c ≡ some (ok tt, true, c)
unfolding truncate_below begin_truncate finish_truncate
truncate_below_low swap floor c idle low = ground arith

truncate_below_high :
    (swap : Swap) (floor : ℕ) (c : Clog)
    → c.state.flushing ≡ false
    → leb floor c.state.min_tx_id ≡ false
    → truncate_below swap floor c ≡ some (rewritten swap floor c)
unfolding truncate_below begin_truncate finish_truncate rewritten end_truncate
truncate_below_high replaced floor c idle high = ground arith
truncate_below_high (not_replaced handle) floor c idle high = ground arith
truncate_below_high (not_reopened handle) floor c idle high = ground arith

status_low :
    (swap : Swap) (floor : ℕ) (c : Clog)
    → leb floor c.state.min_tx_id ≡ true
    → (tx : ℕ) → status c.state tx ≡ truncated_status swap floor tx (status c.state tx)
unfolding status
status_low replaced floor c low tx = ground arith
status_low (not_replaced handle) floor c low tx = refl
status_low (not_reopened handle) floor c low tx = refl

status_high :
    (swap : Swap) (floor : ℕ) (c : Clog)
    → leb floor c.state.min_tx_id ≡ false
    → (tx : ℕ)
    → status (rewritten swap floor c).2.state tx
      ≡ truncated_status swap floor tx (status c.state tx)
unfolding status rewritten end_truncate
status_high replaced floor c high tx = rw get-retain (ground arith)
status_high (not_replaced handle) floor c high tx = refl
status_high (not_reopened handle) floor c high tx = refl

-- A truncation that finds no leader flushing returns. If the file is replaced, then whatever
-- lies below the floor counts as committed and all else has its status; if the rename or the
-- reopening fails, then every status is as it was, whether or not the log gets its handle back.
pub status-truncate_below :
    (swap : Swap) (floor : ℕ) (c : Clog)
    → c.state.flushing ≡ false
    → (r : Result (Unit {0})) × (handle : Bool) × (c' : Clog) × (truncate_below swap floor c
        ≡ some (r, handle, c'))
      × ((tx : ℕ) → status c'.state tx ≡ truncated_status swap floor tx (status c.state tx))
status-truncate_below swap floor c idle = elim (Bool-cases (leb floor c.state.min_tx_id)) [
  | inl low ↦
      (ok tt, true, c, truncate_below_low swap floor c idle low, status_low swap floor c low)
  | inr high ↦ (
    (rewritten swap floor c).0,
    (rewritten swap floor c).1,
    (rewritten swap floor c).2,
    truncate_below_high swap floor c idle high,
    status_high swap floor c high,
  )
]
