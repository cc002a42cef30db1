-- ===== src/Examples/Queries.antt =====
-- Expressions, batches, joins, subqueries and parameters at work.
use prehnite_db.Prelude.{
  All, ℕ, ◌^◌, ◌≡◌, refl, true, false, Option, none, some, List, [], ◌∷◌, ok, err, exec, arith, inr,
}
use prehnite_db.Prelude.Int.{pos}
use prehnite_db.Bytes.{cmp, be_bytes}
use prehnite_db.Real.{RealOps}
use prehnite_db.Real
use prehnite_db.Outcome.{returns, raises}
use prehnite_db.Value.{int_type, Value}
use prehnite_db.Codec.IndexKeys.{encode_index_value}
use prehnite_db.Sql.Ast.{
  and, Expr, always, only_if, inner, left, neg, add, eq, gt, Statement, from, no_joins, all,
}
use prehnite_db.Engine.Scope.{Scope, ScopedColumn, resolve}
use prehnite_db.Engine.Eval.{
  eval_binary, logic, as_bool, conjunction, RowContext, eval, compare_op, passes_filter,
  context_values, eval_binary,
}
use prehnite_db.Engine.Plan.{Plan, full_scan}
use prehnite_db.Engine.Bind.{bind_plan, bind_condition, bind_placeholder}
use prehnite_db.Engine.Bind.Complete.{EachPlan, None, bind_plan-EachPlan}
use prehnite_db.Engine.Batch.{
  no_rows, all_valid, push, is_valid, Column, int_column, bool_column, ColumnBatch, row_at,
  value_at, push_row, physical_for, values_at, push_value, push_values,
}
use prehnite_db.Engine.Batch.Mask.{all_valid-IsMask, no_rows-IsMask, all_valid-rows}
use prehnite_db.Engine.Columnar.{
  eval_batch, materialise_column, binary_columnar, compare_columnar, fill, compare_cell,
  broadcast_int,
}
use prehnite_db.Engine.Columnar.Selection.{
  filter_batch, filter_rows, batch_rows, rows_from, build_selection, reselect, select_rows,
}
use prehnite_db.Engine.Columnar.Append.{LastRow, push_row-batch_rows}
use prehnite_db.Engine.Columnar.Agreement.{IsBatch}
use prehnite_db.Engine.Columnar.Equivalence.{eval_batch-eval}
use prehnite_db.Engine.Columnar.Filter.{left_rows, StaysBatch, filter_batch-filter_rows}
use prehnite_db.Engine.Columnar.Nulls.{eval_batch-null}
use prehnite_db.Engine.Join.{
  find_equi_join, hash_join, nested_loop_join, build, equi_join_columns, hash_row, hash_rows,
  matches, nested_row, probe,
}
use prehnite_db.Engine.Join.Agreement.{hash_join-nested_loop_join}
use prehnite_db.Engine.Limit.{limit_rows, limit_batches, batches_rows}
use prehnite_db.Engine.Limit.Rows.{IsWhole, limit_batches-limit_rows}
use prehnite_db.Engine.Plan.Conjuncts.{flatten_and, and_chain_opt}
use prehnite_db.Engine.Plan.Chain.{and_chain_opt-flatten_and}
use prehnite_db.Engine.Subquery.{
  Database, rows, prepare_subqueries, resolve_correlated, execute_scalar_subquery,
  run_subquery_for_rows, subquery_is_correlated, value_to_literal,
}
use prehnite_db.Engine.Subquery.Safety.{Ends, Any}
use prehnite_db.Engine.Subquery.Stages.{resolve_correlated-Ends}

-- Any four operations will do where no REAL is computed.
abbrev first_operand : RealOps
first_operand = record { add = λ a b. a; sub = λ a b. a; mul = λ a b. a; div = λ a b. a }

abbrev column_of : ℕ → ℕ → ScopedColumn
column_of table name = record { table = table ∷ []; name = name ∷ []; ty = int_type }

abbrev reference : ℕ → ℕ → Expr
reference table name = Expr.column (record { table = some (table ∷ []); name = name ∷ [] })

abbrev one_column : Scope
one_column = column_of b't' b'a' ∷ []

-- t.a > 1
abbrev above_one : Expr
above_one = Expr.binary gt (reference b't' b'a') (Expr.integer (pos 1))

abbrev two_rows : ColumnBatch
two_rows = record {
  columns = int_column (pos 1 ∷ pos 2 ∷ []) (all_valid 2) ∷ [];
  n_rows = 2;
  selection = none;
}

two_rows-IsBatch : IsBatch 2 two_rows
two_rows-IsBatch = record {
  columns = ((refl, all_valid-rows 2, all_valid-IsMask 2), tt);
  selected = refl;
  small = omega arith;
}

abbrev above_mask : Column
above_mask = bool_column (false ∷ true ∷ []) (push (push no_rows true) true)

eval_batch_above : eval_batch first_operand above_one two_rows one_column ≡ returns above_mask
unfolding eval_batch resolve cmp materialise_column binary_columnar compare_columnar fill all_valid
    compare_cell value_at is_valid broadcast_int compare_op
eval_batch_above = refl

eval_batch-eval_example :
    (row : List Value) × (v : Value) × (row_at two_rows 1 ≡ returns row)
    × (value_at above_mask 1 ≡ returns v)
    × (eval first_operand above_one (some (record { scope = one_column; values = row }))
        ≡ returns v)
eval_batch-eval_example =
    eval_batch-eval first_operand 2 two_rows one_column two_rows-IsBatch above_one eval_batch_above
      1 (omega arith)

abbrev second_row : ColumnBatch
second_row = record {
  columns = int_column (pos 1 ∷ pos 2 ∷ []) (all_valid 2) ∷ [];
  n_rows = 1;
  selection = some (1 ∷ []);
}

filter_batch_above :
    filter_batch first_operand above_one one_column two_rows ≡ returns (some second_row)
unfolding eval_batch resolve cmp materialise_column binary_columnar compare_columnar fill all_valid
    compare_cell value_at is_valid broadcast_int compare_op filter_batch build_selection select_rows
    push physical_for reselect
filter_batch_above = refl

filter_batch-filter_rows_example :
    (kept : List (List Value)) × (batch_rows two_rows ≡ returns kept)
    × (filter_rows first_operand above_one one_column kept ≡ left_rows (some second_row))
    × StaysBatch 2 (some second_row)
filter_batch-filter_rows_example =
    filter_batch-filter_rows first_operand above_one one_column 2 two_rows two_rows-IsBatch
      filter_batch_above

eval_batch_column :
    eval_batch first_operand (reference b't' b'a') two_rows one_column
    ≡ returns (int_column (pos 1 ∷ pos 2 ∷ []) (all_valid 2))
unfolding eval_batch resolve cmp materialise_column binary_columnar compare_columnar fill all_valid
    compare_cell value_at is_valid broadcast_int compare_op
eval_batch_column = refl

abbrev in_first_row : Option RowContext
in_first_row = some (record { scope = one_column; values = Value.int (pos 1) ∷ [] })

eval-in_first_row :
    eval first_operand (reference b't' b'a') in_first_row ≡ returns (Value.int (pos 1))
unfolding eval resolve cmp context_values
eval-in_first_row = refl

-- WHERE NULL + t.a > 1 fails, although no row satisfies it.
eval_batch-null_example :
    (eval_batch first_operand (Expr.binary add Expr.null (reference b't' b'a')) two_rows one_column
      ≡ raises exec)
    × (eval first_operand (Expr.binary add Expr.null (reference b't' b'a')) in_first_row
        ≡ returns Value.null)
    × (eval_batch first_operand (Expr.unary neg Expr.null) two_rows one_column ≡ raises exec)
    × (eval first_operand (Expr.unary neg Expr.null) in_first_row ≡ returns Value.null)
eval_batch-null_example =
    eval_batch-null first_operand add (reference b't' b'a') two_rows one_column in_first_row tt
      eval_batch_column eval-in_first_row

abbrev no_ints : ColumnBatch
no_ints = record { columns = int_column [] no_rows ∷ []; n_rows = 0; selection = none }

no_ints_rows : batch_rows no_ints ≡ returns []
unfolding batch_rows rows_from
no_ints_rows = refl

push_row-batch_rows_example :
    LastRow no_ints (Value.int (pos 3) ∷ []) [] (push_row no_ints (Value.int (pos 3) ∷ []))
push_row-batch_rows_example =
    push_row-batch_rows no_ints (Value.int (pos 3) ∷ []) refl refl
      ((refl, refl, no_rows-IsMask), tt) no_ints_rows

-- A text does not fit an INT column.
push_row_text : push_row no_ints (Value.text [] ∷ []) ≡ (err exec, no_ints)
unfolding push_row push_values push_value
push_row_text = refl

-- t.a = u.b
abbrev two_columns : Scope
two_columns = column_of b't' b'a' ∷ column_of b'u' b'b' ∷ []

abbrev same_value : Expr
same_value = Expr.binary eq (reference b't' b'a') (reference b'u' b'b')

find_equi_join_same : find_equi_join same_value 1 two_columns ≡ some (0, 0)
unfolding find_equi_join equi_join_columns resolve cmp
find_equi_join_same = refl

abbrev left_rows_one_two : List (List Value)
left_rows_one_two = (Value.int (pos 1) ∷ []) ∷ (Value.int (pos 2) ∷ []) ∷ []

abbrev right_rows_two_null : List (List Value)
right_rows_two_null = (Value.int (pos 2) ∷ []) ∷ (Value.null ∷ []) ∷ []

abbrev joined_rows : List (List Value)
joined_rows =
    (Value.int (pos 1) ∷ Value.null ∷ []) ∷ (Value.int (pos 2) ∷ Value.int (pos 2) ∷ []) ∷ []

nested_loop_join_same :
    nested_loop_join first_operand
      (only_if same_value)
      two_columns
      left
      1
      right_rows_two_null
      left_rows_one_two
    ≡ returns joined_rows
unfolding nested_loop_join nested_row matches passes_filter eval context_values resolve cmp
    eval_binary
nested_loop_join_same = refl

hash_join-nested_loop_join_example :
    hash_join first_operand
      (only_if same_value)
      two_columns
      left
      1
      0
      0
      right_rows_two_null
      left_rows_one_two
    ≡ returns joined_rows
hash_join-nested_loop_join_example =
    hash_join-nested_loop_join first_operand same_value two_columns left 1 1 0 0 int_type
      find_equi_join_same right_rows_two_null left_rows_one_two (inr refl)
      ((refl, (Value.int (pos 1), refl, tt)), ((refl, (Value.int (pos 2), refl, tt)), tt))
      ((Value.int (pos 2), refl, tt), ((Value.null, refl, tt), tt)) nested_loop_join_same

-- The zeros of REAL are equal, and have two keys.
abbrev zero_row : List (List Value)
zero_row = (Value.real 0 ∷ []) ∷ []

abbrev negative_zero_row : List (List Value)
negative_zero_row = (Value.real (2 ^ 63) ∷ []) ∷ []

nested_loop_join_zeros :
    nested_loop_join first_operand
      (only_if same_value)
      two_columns
      inner
      1
      negative_zero_row
      zero_row
    ≡ returns ((Value.real 0 ∷ Value.real (2 ^ 63) ∷ []) ∷ [])
unfolding nested_loop_join nested_row matches passes_filter eval context_values resolve cmp
    eval_binary Real.partial_cmp
nested_loop_join_zeros = refl

hash_join_zeros :
    hash_join first_operand (only_if same_value) two_columns inner 1 0 0 negative_zero_row zero_row
    ≡ returns []
unfolding hash_join build hash_rows hash_row probe matches cmp encode_index_value be_bytes
hash_join_zeros = refl

-- SELECT * FROM u
abbrev all_of_u : Statement
all_of_u =
    Statement.select (from (record { name = b'u' ∷ []; alias = none }) no_joins) all always []
      always [] none none

-- No table is known, and every statement has the one row 5.
abbrev answers_five : Database
answers_five = record {
  get = λ _. ok none;
  run = λ _. ok (rows ((b'x' ∷ []) ∷ []) ((Value.int (pos 5) ∷ []) ∷ []));
}

abbrev with_subquery : Expr
with_subquery = Expr.binary eq (reference b't' b'a') (Expr.scalar_subquery all_of_u)

abbrev with_five : Expr
with_five = Expr.binary eq (reference b't' b'a') (Expr.integer (pos 5))

prepare_subqueries_five : prepare_subqueries answers_five with_subquery ≡ returns with_five
unfolding prepare_subqueries subquery_is_correlated execute_scalar_subquery run_subquery_for_rows
    value_to_literal
prepare_subqueries_five = refl

resolve_correlated_five :
    resolve_correlated answers_five one_column (Value.int (pos 5) ∷ []) with_five
    ≡ returns with_five
unfolding resolve_correlated
resolve_correlated_five = refl

resolve_correlated-Ends_example : Ends Any (
    eval first_operand with_five
      (some (record { scope = one_column; values = Value.int (pos 5) ∷ [] })))
resolve_correlated-Ends_example =
    resolve_correlated-Ends answers_five first_operand with_subquery one_column
      (Value.int (pos 5) ∷ []) (tt, tt) refl prepare_subqueries_five resolve_correlated_five

-- DELETE FROM t WHERE t.a = ?
abbrev delete_parameter : Plan
delete_parameter =
    Plan.delete (b't' ∷ []) (only_if (Expr.binary eq (reference b't' b'a') (Expr.placeholder 0)))
      full_scan

bind_plan-EachPlan_example :
    (p : Plan) × (bind_plan delete_parameter (Value.int (pos 5) ∷ []) ≡ ok p) × EachPlan None p
bind_plan-EachPlan_example =
    bind_plan-EachPlan delete_parameter (Value.int (pos 5) ∷ []) (tt, omega arith)

bind_plan_missing : bind_plan delete_parameter [] ≡ err exec
unfolding bind_plan bind_condition bind_placeholder
bind_plan_missing = refl

two_rows_rows :
    batches_rows (two_rows ∷ [])
    ≡ returns ((Value.int (pos 1) ∷ []) ∷ (Value.int (pos 2) ∷ []) ∷ [])
unfolding batches_rows batch_rows rows_from row_at physical_for values_at value_at is_valid
    all_valid
two_rows_rows = refl

-- LIMIT 5 OFFSET 1
limit_batches-limit_rows_example :
    (out : List ColumnBatch) × (limit_batches 1 5 (two_rows ∷ []) ≡ returns out)
    × All IsWhole out
    × (batches_rows out
        ≡ returns (limit_rows 1 5 ((Value.int (pos 1) ∷ []) ∷ (Value.int (pos 2) ∷ []) ∷ [])))
limit_batches-limit_rows_example =
    limit_batches-limit_rows 1 5 (two_rows ∷ []) ((2, two_rows-IsBatch), tt) two_rows_rows

-- TRUE AND (NULL AND FALSE)
abbrev nested_and : Expr
nested_and = Expr.binary and (Expr.bool true) (Expr.binary and Expr.null (Expr.bool false))

eval-nested_and : eval first_operand nested_and none ≡ returns (Value.bool false)
unfolding eval eval_binary logic as_bool conjunction
eval-nested_and = refl

and_chain_opt-flatten_and_example :
    (e' : Expr) × (and_chain_opt (flatten_and nested_and []) ≡ some e')
    × (eval first_operand e' none ≡ returns (Value.bool false))
and_chain_opt-flatten_and_example =
    and_chain_opt-flatten_and first_operand none nested_and eval-nested_and
