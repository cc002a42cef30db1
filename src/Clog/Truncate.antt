-- ===== src/Clog/Truncate.antt =====
-- `truncate_below` of crates/prehnitedb/src/engine/clog.rs: the image of the kept records replaces
-- the file by a rename.
pub mod Statuses
use prehnite_db.Prelude.{
  ℕ, zero, Bool, true, false, List, [], ◌++◌, Option, none, some, Error, io, Result, ok, err, leb,
  ◌==◌, if◌then◌else◌,
}
use prehnite_db.Bytes.{Bytes}
use prehnite_db.Maps.{retain}
use prehnite_db.Clog.{Record, ClogState}
use prehnite_db.Clog.File.{header, encode_records}
use prehnite_db.Clog.Append.{Clog}

-- Where the I/O fails: at the scratch file or the rename, which leave the file as it was, or at the
-- reopening after the rename. Either comes with whether the log has its handle of the file
-- afterwards: after a failed rename or reopening the code tries to open the file once more, and goes
-- on without a handle if that fails too.
pub data Swap : Type 0 where
  replaced : Swap
  not_replaced : Bool → Swap
  not_reopened : Bool → Swap

pub data Plan : Type 0 where
  no_op : Plan
  park : Plan
  rewrite : List Record → Plan

-- Step 1, under the state mutex: the records to keep, with the flush slot taken.
unfoldable pub begin_truncate : ℕ → ClogState → Plan × ClogState
begin_truncate floor s =
    if floor == 0
    then (no_op, s)
    else if s.flushing
    then (park, s)
    else if leb floor s.min_tx_id
    then (no_op, s)
    else (rewrite (retain (λ id. leb floor id) s.map), record s { flushing = true })

unfoldable pub image : ℕ → List Record → Bytes
image floor kept = header floor ++ encode_records kept

-- Step 4, or the release of the flush slot after an error.
unfoldable pub end_truncate : Swap → ℕ → ClogState → ClogState
end_truncate replaced floor s = record s {
  map = retain (λ id. leb floor id) s.map;
  min_tx_id = floor;
  flushing = false;
}
end_truncate other floor s = record s { flushing = false }

-- The result, whether there is a handle, and the file at the path.
unfoldable pub swap_file : Swap → ℕ → List Record → Bytes → Result (Unit {0}) × Bool × Bytes
unfolding image
swap_file replaced floor kept file = (ok tt, true, image floor kept)
swap_file (not_replaced handle) floor kept file = (err io, handle, file)
swap_file (not_reopened handle) floor kept file = (err io, handle, image floor kept)

finish_truncate : Swap → ℕ → Clog → Plan → Option (Result (Unit {0}) × Bool × Clog)
unfolding swap_file end_truncate
finish_truncate swap floor c no_op = some (ok tt, true, c)
finish_truncate swap floor c park = none
finish_truncate swap floor c (rewrite kept) =
    let (result, handle, file) = swap_file swap floor kept c.file in
    some (result, handle, record { state = end_truncate swap floor c.state; file = file })

-- A call with no writer in between, on a log that has its handle; `none` where it waits for a
-- leader.
unfoldable pub truncate_below : Swap → ℕ → Clog → Option (Result (Unit {0}) × Bool × Clog)
unfolding begin_truncate finish_truncate
truncate_below swap floor c =
    let (plan, s) = begin_truncate floor c.state in
    finish_truncate swap floor (record c { state = s }) plan
