-- ===== src/Ssi.antt =====
-- Serialisable snapshot isolation in crates/prehnitedb/src/engine/transaction.rs: what a snapshot
-- records of its reads and writes in the map that all transactions share.
pub mod Growth
pub mod Edges
pub mod Locks
pub mod Conflicts
pub mod Marks
pub mod Pivot
use prehnite_db.Prelude.{
  ℕ, Bool, true, false, not, ◌&&◌, ◌||◌, List, [], ◌∷◌, Option, none, some, Ordering, any, ◌==◌,
  if◌then◌else◌,
}
use prehnite_db.Bytes.{Bytes, cmp, bytes_eq}
use prehnite_db.Maps.{get, has, modify}
use prehnite_db.Transaction.{ReadLock, tuple, relation, index_range, SsiTxState, SsiMap}

-- `==` on optional byte strings.
abbrev pub upper_eq : Option Bytes → Option Bytes → Bool
upper_eq none none = true
upper_eq (some x) (some y) = bytes_eq x y
upper_eq x y = false

-- `PartialEq for ReadLock`
unfoldable pub lock_eq : ReadLock → ReadLock → Bool
lock_eq (tuple r k) (tuple s j) = r == s && bytes_eq k j
lock_eq (relation r) (relation s) = r == s
lock_eq (index_range r l u) (index_range s m v) = r == s && (bytes_eq l m && upper_eq u v)
lock_eq a b = false

-- `read_set.contains(&lock)`
unfoldable pub holds : List ReadLock → ReadLock → Bool
unfolding lock_eq
holds locks lock = any (lock_eq lock) locks

-- `read_set.insert(lock)`
unfoldable pub lock_read : ReadLock → SsiTxState → SsiTxState
unfolding holds
lock_read lock s = if holds s.read_set lock then s else record s { read_set = lock ∷ s.read_set }

abbrev pub set_out : SsiTxState → SsiTxState
set_out s = record s { out_conflict = true }

abbrev pub set_in : SsiTxState → SsiTxState
set_in s = record s { in_conflict = true }

unfoldable pub tombstone_edge : ℕ → Option ℕ → SsiMap → SsiMap
tombstone_edge tx none ssi = ssi
tombstone_edge tx (some peer) ssi =
    if not (peer == tx) && has peer ssi then modify peer set_in (modify tx set_out ssi) else ssi

-- In each function `none` is a snapshot with no transaction of its own, which records nothing.
unfoldable pub record_read : Option ℕ → ℕ → Bytes → Option ℕ → SsiMap → SsiMap
unfolding tombstone_edge lock_read
record_read none root key tombstone_by ssi = ssi
record_read (some tx) root key tombstone_by ssi =
    tombstone_edge tx tombstone_by (modify tx (lock_read (tuple root key)) ssi)

unfoldable pub record_relation_read : Option ℕ → ℕ → SsiMap → SsiMap
unfolding lock_read
record_relation_read none root ssi = ssi
record_relation_read (some tx) root ssi = modify tx (lock_read (relation root)) ssi

unfoldable pub record_index_range_read : Option ℕ → ℕ → Bytes → Option Bytes → SsiMap → SsiMap
unfolding lock_read
record_index_range_read none root lower upper ssi = ssi
record_index_range_read (some tx) root lower upper ssi =
    modify tx (lock_read (index_range root lower upper)) ssi

-- The peers whose read set a write touches.
unfoldable pub readers : ℕ → (SsiTxState → Bool) → SsiMap → List ℕ
readers writer touched [] = []
readers writer touched ((t, s) ∷ ssi) =
    let rest = readers writer touched ssi in
    if not (t == writer) && touched s then t ∷ rest else rest

unfoldable pub mark_out : List ℕ → SsiMap → SsiMap
mark_out [] ssi = ssi
mark_out (peer ∷ peers) ssi = mark_out peers (modify peer set_out ssi)

abbrev mark : ℕ → List ℕ → SsiMap → SsiMap
mark writer [] ssi = ssi
mark writer (p ∷ peers) ssi = mark_out (p ∷ peers) (modify writer set_in ssi)

-- The body that the three functions for writes share.
unfoldable pub mark_edges : ℕ → (SsiTxState → Bool) → SsiMap → SsiMap
unfolding readers mark_out
mark_edges writer touched ssi = mark writer (readers writer touched ssi) ssi

unfoldable pub tuple_touched : ℕ → Bytes → SsiTxState → Bool
unfolding holds
tuple_touched root key s = holds s.read_set (tuple root key) || holds s.read_set (relation root)

unfoldable pub relation_touched : ℕ → SsiTxState → Bool
unfolding holds
relation_touched root s = holds s.read_set (relation root)

-- `lower <= key`, and `key < upper` where there is an upper bound.
abbrev pub at_least : Bytes → Bytes → Bool
at_least lower key = elim (cmp key lower) [ Ordering.lt ↦ false | _ ↦ true ]

abbrev pub below : Bytes → Option Bytes → Bool
below key none = true
below key (some upper) = elim (cmp key upper) [ Ordering.lt ↦ true | _ ↦ false ]

pub range_touched : ℕ → Bytes → ReadLock → Bool
range_touched root key (index_range r lower upper) =
    r == root && (at_least lower key && below key upper)
range_touched root key other = false

unfoldable pub index_touched : ℕ → Bytes → SsiTxState → Bool
unfolding range_touched
index_touched root key s = any (range_touched root key) s.read_set

unfoldable pub record_write : Option ℕ → ℕ → Bytes → SsiMap → SsiMap
unfolding mark_edges tuple_touched
record_write none root key ssi = ssi
record_write (some writer) root key ssi = mark_edges writer (tuple_touched root key) ssi

unfoldable pub record_insert : Option ℕ → ℕ → SsiMap → SsiMap
unfolding mark_edges relation_touched
record_insert none root ssi = ssi
record_insert (some writer) root ssi = mark_edges writer (relation_touched root) ssi

unfoldable pub record_index_write : Option ℕ → ℕ → Bytes → SsiMap → SsiMap
unfolding mark_edges index_touched
record_index_write none root key ssi = ssi
record_index_write (some writer) root key ssi = mark_edges writer (index_touched root key) ssi
