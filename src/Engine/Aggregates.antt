-- ===== src/Engine/Aggregates.antt =====
-- The aggregates of crates/prehnitedb/src/engine/executor.rs: `AggregateState` and the registry of the
-- aggregate calls of a query.
pub mod Sum
pub mod Extreme
use prehnite_db.Prelude.{
  ℕ, zero, suc, ◌+◌, ◌%◌, ◌^◌, Bool, true, false, ◌&&◌, Option, none, some, List, [], ◌∷◌, ◌++◌,
  length, Ordering, exec, if◌then◌else◌, ltb, ◌-◌, ◌==◌,
}
use prehnite_db.Prelude.Int.{ℤ, pos, negsuc, from_u64}
use prehnite_db.Prelude.Int.Checked.{checked_add}
use prehnite_db.Bytes.{Bytes, bytes_eq}
use prehnite_db.Real.{RealOps}
use prehnite_db.Outcome.{Outcome, returns, raises, panics, ◌>>=◌, try, index}
use prehnite_db.Value.{ColumnType, int_type, real_type, Value, null, int, real, int_to_real}
use prehnite_db.Sql.Ast.{
  AggregateFunc, count, sum, avg, min, max, AggregateArg, star, of_column, Aggregate, ColumnRef,
}
use prehnite_db.Engine.Scope.{Scope, resolve, column_type}
use prehnite_db.Engine.Eval.{is_null}
use prehnite_db.Engine.Sort.{order_values}
use prehnite_db.Engine.Join.{Row}

-- The position of the argument, or `none` for `COUNT(*)`.
pub record AggregateSlot : Type 0 where
  pub func : AggregateFunc
  pub column : Option ℕ

pub data AggregateState : Type 0 where
  counted : ℕ → AggregateState
  sum_int : ℤ → Bool → AggregateState
  sum_real : ℕ → Bool → AggregateState
  avg_real : ℕ → ℕ → AggregateState
  extreme : Option Value → Ordering → AggregateState

-- `slot.column.expect(...)`
abbrev expected {ℓ} : {A : Type ℓ} → Option A → Outcome A
expected (some a) = returns a
expected none = panics

unfoldable pub for_slot : AggregateSlot → Scope → Outcome AggregateState
for_slot slot scope = elim slot.func [
  | count ↦ returns (counted 0)
  | sum ↦ do
    column ← expected slot.column
    ty ← column_type scope column
    elim ty [
      | int_type ↦ returns (sum_int (pos 0) false)
      | real_type ↦ returns (sum_real 0 false)
      | _ ↦ raises exec
    ]
  | avg ↦ do
    column ← expected slot.column
    ty ← column_type scope column
    elim ty [
      | int_type ↦ returns (avg_real 0 0)
      | real_type ↦ returns (avg_real 0 0)
      | _ ↦ raises exec
    ]
  | min ↦ returns (extreme none Ordering.lt)
  | max ↦ returns (extreme none Ordering.gt)
]

abbrev same_ordering : Ordering → Ordering → Bool
same_ordering Ordering.lt Ordering.lt = true
same_ordering Ordering.eq Ordering.eq = true
same_ordering Ordering.gt Ordering.gt = true
same_ordering a b = false

-- Whether a value takes the place of the best one so far.
unfoldable pub replaces : Option Value → Ordering → Value → Bool
replaces none want v = true
replaces (some current) want v = same_ordering (order_values v current) want

unfoldable pub update_extreme : Option Value → Ordering → Value → AggregateState
unfolding replaces
update_extreme best want v =
    if is_null v
    then extreme best want
    else extreme (if replaces best want v then some v else best) want

unfoldable pub update_sum_int : ℤ → Bool → Value → Outcome AggregateState
update_sum_int total seen (int n) = elim (checked_add total n) [
  | some sum' ↦ returns (sum_int sum' true)
  | none ↦ raises exec
]
update_sum_int total seen v = returns (sum_int total seen)

module _ (ops : RealOps) where
  unfoldable pub update_sum_real : ℕ → Bool → Value → AggregateState
  update_sum_real total seen (real x) = sum_real (ops.add total x) true
  update_sum_real total seen v = sum_real total seen

  unfoldable pub update_avg : ℕ → ℕ → Value → AggregateState
  update_avg total n (int k) = avg_real (ops.add total (int_to_real k)) (n + 1)
  update_avg total n (real x) = avg_real (ops.add total x) (n + 1)
  update_avg total n v = avg_real total n

  -- `update` on a slot with a column, whose value in the row is given.
  unfoldable pub update_with : AggregateFunc → AggregateState → Value → Outcome AggregateState
  unfolding update_extreme update_sum_int update_sum_real update_avg
  update_with count (counted c) v = returns (counted (if is_null v then c else c + 1))
  update_with sum (sum_int total seen) v = update_sum_int total seen v
  update_with sum (sum_real total seen) v = returns (update_sum_real total seen v)
  update_with avg (avg_real total n) v = returns (update_avg total n v)
  update_with min (extreme best want) v = returns (update_extreme best want v)
  update_with max (extreme best want) v = returns (update_extreme best want v)
  update_with func state v = panics

  unfoldable pub update : AggregateState → AggregateSlot → Row → Outcome AggregateState
  unfolding update_with
  update state slot row = elim slot.column [
    | some col ↦ index row col >>= λ v. update_with slot.func state v
    | none ↦ elim slot.func [
      | count ↦ elim state [ counted c ↦ returns (counted (c + 1)) | _ ↦ panics ]
      | _ ↦ panics
    ]
  ]

  -- The loop over the rows of a group.
  unfoldable pub update_all : AggregateState → AggregateSlot → List Row → Outcome AggregateState
  unfolding update
  update_all state slot [] = returns state
  update_all state slot (row ∷ rows) = do
    state' ← update state slot row
    update_all state' slot rows

  -- `c as i64` wraps; an AVG divides by the count as a real.
  unfoldable pub finalize : AggregateState → Value
  finalize (counted c) = int (from_u64 c)
  finalize (sum_int total seen) = if seen then int total else null
  finalize (sum_real total seen) = if seen then real total else null
  finalize (avg_real total n) = if n == 0 then null else real (ops.div total (int_to_real (pos n)))
  finalize (extreme best want) = elim best [ some v ↦ v | none ↦ null ]
