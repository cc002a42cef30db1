-- ===== src/Transaction/Rowids.antt =====
-- The rowid counters of crates/prehnitedb/src/engine/transaction.rs: one atomic counter for a table,
-- which each call raises with `fetch_max` and then reads with `fetch_add` or `load`.
pub mod Unique
use prehnite_db.Prelude.{ℕ, ◌+◌, ◌%◌, ◌^◌, List, [], ◌∷◌, Option, none, some, max, if◌then◌else◌}
use prehnite_db.Bytes.{Bytes, bytes_eq}

abbrev pub Counters : Type 0
Counters = List (Bytes × ℕ)

-- The counter of a table, and the table's counter replaced.
unfoldable pub counter : Bytes → Counters → Option ℕ
counter table [] = none
counter table ((name, n) ∷ rest) = if bytes_eq name table then some n else counter table rest

unfoldable pub store : Bytes → ℕ → Counters → Counters
store table m [] = (table, m) ∷ []
store table m ((name, n) ∷ rest) =
    if bytes_eq name table then (name, m) ∷ rest else (name, n) ∷ store table m rest

-- `or_insert_with` and `fetch_max`: the counter is never below what the schema says.
abbrev pub raised : Option ℕ → ℕ → ℕ
raised none floor = floor
raised (some n) floor = max n floor

unfoldable pub raise : Bytes → ℕ → Counters → Counters
unfolding counter store
raise table floor c = store table (raised (counter table c) floor) c

abbrev pub value : Option ℕ → ℕ
value none = 0
value (some n) = n

-- `fetch_add(1)`, which wraps around.
unfoldable pub bump : Bytes → Counters → ℕ × Counters
unfolding counter store
bump table c = let n = value (counter table c) in (n, store table ((n + 1) % 2 ^ 64) c)

unfoldable pub reserve_rowid : Bytes → ℕ → Counters → ℕ × Counters
unfolding raise bump
reserve_rowid table floor c = bump table (raise table floor c)

unfoldable pub current_next_rowid : Bytes → ℕ → Counters → ℕ × Counters
unfolding raise
current_next_rowid table floor c =
    let raised_c = raise table floor c in (value (counter table raised_c), raised_c)
