-- ===== src/Engine/Sort.antt =====
-- Sorting in crates/prehnitedb/src/engine/executor.rs: the order of values for ORDER BY, and
-- `sort_rows`. The standard library's `sort_by` is stable, which for a total order fixes its result;
-- it is written as an insertion from the end of the list.
pub mod Keys
pub mod Index
use prehnite_db.Prelude.{ℕ, Bool, true, false, List, [], ◌∷◌, Ordering, compare, if◌then◌else◌}
use prehnite_db.Prelude.Int.{compare_ℤ}
use prehnite_db.Bytes.{cmp}
use prehnite_db.Real
use prehnite_db.Outcome.{Outcome, returns, ◌>>=◌, index}
use prehnite_db.Value.{Value, null, int, real, text, bool, int_to_real}
use prehnite_db.Engine.Eval.{compare_bool}
use prehnite_db.Engine.Join.{Row}

abbrev pub value_rank : Value → ℕ
value_rank null = 0
value_rank (bool b) = 1
value_rank (int n) = 2
value_rank (real r) = 2
value_rank (text s) = 3

unfoldable pub order_values : Value → Value → Ordering
order_values null null = Ordering.eq
order_values null w = Ordering.lt
order_values v null = Ordering.gt
order_values (int x) (int y) = compare_ℤ x y
order_values (real x) (real y) = Real.total_cmp x y
order_values (int x) (real y) = Real.total_cmp (int_to_real x) y
order_values (real x) (int y) = Real.total_cmp x (int_to_real y)
order_values (text x) (text y) = cmp x y
order_values (bool x) (bool y) = compare_bool x y
order_values v w = compare (value_rank v) (value_rank w)

abbrev pub reversed : Ordering → Ordering
reversed Ordering.lt = Ordering.gt
reversed Ordering.eq = Ordering.eq
reversed Ordering.gt = Ordering.lt

abbrev pub or_next : Ordering → Outcome Ordering → Outcome Ordering
or_next Ordering.eq rest = rest
or_next o rest = returns o

-- The closure of `sort_rows`: a key is a column and whether it is descending.
unfoldable pub row_order : List (ℕ × Bool) → Row → Row → Outcome Ordering
unfolding order_values
row_order [] a b = returns Ordering.eq
row_order ((column, descending) ∷ keys) a b = do
  let rest = row_order keys a b
  v ← index a column
  w ← index b column
  let o = order_values v w
  or_next (if descending then reversed o else o) rest

-- A row before the first that it does not come after.
unfoldable pub insert_row : List (ℕ × Bool) → Row → List Row → Outcome (List Row)
insert_row keys a [] = returns (a ∷ [])
insert_row keys a (b ∷ rows) = do
  let later = insert_row keys a rows
  o ← row_order keys a b
  elim o [ Ordering.gt ↦ (do rest ← later; returns (b ∷ rest)) | _ ↦ returns (a ∷ b ∷ rows) ]

unfoldable pub sort_rows : List Row → List (ℕ × Bool) → Outcome (List Row)
unfolding insert_row
sort_rows [] keys = returns []
sort_rows (a ∷ rows) keys = do rest ← sort_rows rows keys; insert_row keys a rest
