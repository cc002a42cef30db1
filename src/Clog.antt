-- ===== src/Clog.antt =====
-- crates/prehnitedb/src/engine/clog.rs: the commit log. Each function under the state mutex is one
-- step on `ClogState`; the file is its bytes.
pub mod File
pub mod Append
pub mod Truncate
pub mod System
pub mod Faults
use prehnite_db.Prelude.{
  ℕ, Bool, true, false, List, Option, none, some, Error, Result, ltb, if◌then◌else◌,
}
use prehnite_db.Maps.{get}

pub data Status : Type 0 where
  committed rolled_back : Status

abbrev pub Record : Type 0
Record = ℕ × Status

pub record ClogState : Type 0 where
  pub map : List Record
  pub pending : List Record
  pub next_lsn : ℕ
  pub durable_lsn : ℕ
  pub flushing : Bool
  pub min_tx_id : ℕ

unfoldable pub status : ClogState → ℕ → Option Status
status s tx_id = if ltb tx_id s.min_tx_id then some committed else get tx_id s.map

unfoldable pub status_or_rolled_back : ClogState → ℕ → ℕ → Option Status
status_or_rolled_back s tx_id oldest_active =
    if ltb tx_id s.min_tx_id then some committed else elim (get tx_id s.map) [
      | some st ↦ some st
      | none ↦ if ltb tx_id oldest_active then some rolled_back else none
    ]

abbrev is_some_committed : Option Status → Bool
is_some_committed (some committed) = true
is_some_committed other = false

abbrev is_some_rolled_back : Option Status → Bool
is_some_rolled_back (some rolled_back) = true
is_some_rolled_back other = false

unfoldable pub is_committed : ClogState → ℕ → Bool
unfolding status
is_committed s tx_id = is_some_committed (status s tx_id)

unfoldable pub is_rolled_back : ClogState → ℕ → Bool
unfolding status
is_rolled_back s tx_id = is_some_rolled_back (status s tx_id)
