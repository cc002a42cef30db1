-- ===== src/Examples/Sorting.antt =====
-- Rows that are sorted and aggregated.
use prehnite_db.Prelude.{
  ◌-◌, ◌^◌, ◌≡◌, refl, List, [], ◌∷◌, true, Option, some, none, Ordering, exec, arith,
}
use prehnite_db.Prelude.Int.{pos, negsuc}
use prehnite_db.Prelude.Int.Checked.{◌+ℤ◌, checked_add}
use mathlib.Core.List.{Perm}
use prehnite_db.Real.{RealOps}
use prehnite_db.Outcome.{returns, raises, ◌>>=◌}
use prehnite_db.Value.{int_type, Value, null, int}
use prehnite_db.Sql.Ast.{min}
use prehnite_db.Engine.Scope.{Scope, column_type}
use prehnite_db.Engine.Sort.{sort_rows, insert_row, row_order, order_values}
use prehnite_db.Engine.Sort.Keys.{ascending}
use prehnite_db.Engine.Sort.Index.{Entry, rows_of, InKeyOrder, sort_rows-InKeyOrder}
use prehnite_db.Engine.Aggregates.{AggregateSlot, for_slot, update_all, finalize, sum_int}
use prehnite_db.Engine.Aggregates.Sum.{sum_slot, sum-total}
use prehnite_db.Engine.Aggregates.Extreme.{IsBest, extreme-IsBest}

abbrev three_rows : List Entry
three_rows = (1, int (pos 2) ∷ []) ∷ (4, null ∷ []) ∷ (5, int (negsuc 0) ∷ []) ∷ []

sort_rows-InKeyOrder_example :
    (sorted : List Entry) × (sort_rows (rows_of three_rows) (ascending (0 ∷ []))
      ≡ returns (rows_of sorted))
    × Perm three_rows sorted
    × InKeyOrder (int_type ∷ []) (0 ∷ []) sorted
sort_rows-InKeyOrder_example =
    sort_rows-InKeyOrder (int_type ∷ []) (0 ∷ []) (omega arith, tt) three_rows
      (
        (omega arith, (tt, omega arith, tt)),
        ((omega arith, (tt, tt, tt)), ((omega arith, (tt, omega arith, tt)), tt)),
      )
      ((omega arith, (omega arith, tt)), ((omega arith, tt), (tt, tt)))

-- ORDER BY ... DESC
sort_rows_descending :
    sort_rows (rows_of three_rows) ((0, true) ∷ [])
    ≡ returns ((int (pos 2) ∷ []) ∷ (int (negsuc 0) ∷ []) ∷ (null ∷ []) ∷ [])
unfolding sort_rows insert_row row_order order_values
sort_rows_descending = refl

-- Any four operations will do where no REAL is computed.
abbrev idle : RealOps
idle = record { add = λ a b. a; sub = λ a b. a; mul = λ a b. a; div = λ a b. a }

abbrev one_int : Scope
one_int = record { table = []; name = []; ty = int_type } ∷ []

sum-total_example :
    (do
      start ← for_slot (sum_slot 0) one_int
      end ← update_all idle start (sum_slot 0) (rows_of three_rows)
      returns (finalize idle end))
    ≡ returns (int (pos 1))
unfolding ◌+ℤ◌ column_type
sum-total_example =
    sum-total idle one_int 0 (rows_of three_rows) refl
      (omega arith, (omega arith, (omega arith, tt)))

abbrev min_slot : AggregateSlot
min_slot = record { func = min; column = some 0 }

extreme-IsBest_example :
    (e : Option Value) × ((do
      start ← for_slot min_slot one_int
      end ← update_all idle start min_slot (rows_of three_rows)
      returns (finalize idle end))
      ≡ returns (elim e [ some v ↦ v | none ↦ null ]))
    × IsBest int_type Ordering.lt e (int (pos 2) ∷ null ∷ int (negsuc 0) ∷ [])
extreme-IsBest_example =
    extreme-IsBest int_type Ordering.lt idle min one_int 0 (rows_of three_rows) refl (
      (int (pos 2), refl, (tt, omega arith)),
      ((null, refl, (tt, tt)), ((int (negsuc 0), refl, (tt, omega arith)), tt)),
    )

-- The sum of the largest INT and 1 overflows.
sum_overflow :
    update_all idle (sum_int (pos (2 ^ 63 - 1)) true) (sum_slot 0) ((int (pos 1) ∷ []) ∷ [])
    ≡ raises exec
unfolding update_all checked_add
sum_overflow = refl
