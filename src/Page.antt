-- ===== src/Page.antt =====
-- crates/prehnitedb/src/storage/page.rs: the binary searches in a page, over the keys of its cells.
pub mod Search
pub mod Child
use prehnite_db.Prelude.{
  [], ℕ, zero, suc, ◌+◌, ◌-◌, ◌/◌, Bool, true, false, List, Option, none, some, Ordering, ltb,
  length, get_elem?,
}
use prehnite_db.Bytes.{Bytes, cmp}

-- `Ok(slot)` and `Err(slot)`
pub data Slot : Type 0 where
  found : ℕ → Slot
  absent : ℕ → Slot

-- `leaf_key(i)` and `internal_key(i)`; the searches ask only for cells that are there.
abbrev pub or_empty : Option Bytes → Bytes
or_empty none = []
or_empty (some key) = key

abbrev pub key_at : ℕ → List Bytes → Bytes
key_at i keys = or_empty (get_elem? keys i)

-- The loop, with `lo` and `hi`; `none` where the fuel is used up.
leaf_search : ℕ → ℕ → ℕ → List Bytes → Bytes → Option Slot
leaf_search zero lo hi keys key = none
leaf_search (suc fuel) lo hi keys key = elim (ltb lo hi) [
  | false ↦ some (absent lo)
  | true ↦ elim (cmp (key_at ((lo + hi) / 2) keys) key) [
    | Ordering.lt ↦ leaf_search fuel ((lo + hi) / 2 + 1) hi keys key
    | Ordering.gt ↦ leaf_search fuel lo ((lo + hi) / 2) keys key
    | Ordering.eq ↦ some (found ((lo + hi) / 2))
  ]
]

-- The interval gets shorter in each round.
unfoldable pub find_leaf_slot : List Bytes → Bytes → Option Slot
unfolding leaf_search
find_leaf_slot keys key = leaf_search (suc (length keys)) 0 (length keys) keys key

child_search : ℕ → ℕ → ℕ → List Bytes → Bytes → Option ℕ
child_search zero lo hi keys key = none
child_search (suc fuel) lo hi keys key = elim (ltb lo hi) [
  | false ↦ some (lo - 1)
  | true ↦ elim (cmp (key_at ((lo + hi) / 2) keys) key) [
    | Ordering.gt ↦ child_search fuel lo ((lo + hi) / 2) keys key
    | _ ↦ child_search fuel ((lo + hi) / 2 + 1) hi keys key
  ]
]

unfoldable pub find_child : List Bytes → Bytes → Option ℕ
unfolding child_search
find_child keys key = child_search (suc (length keys)) 0 (length keys) keys key
